-- ===== src/Consensus/Revert/Block.antt =====
-- diffs.go, `commitDiffSet`: the application of a block's diffs and their revert, on the view.
use sia_hostdb_profiles.Prelude.{
  ℕ, ◌≡◌, ◌<◌, ◌-◌, ◌^◌, refl, ap, ◌∙◌, arith, Option, none, some, Bool, true, false, not, ◌&&◌,
  leb, if◌then◌else◌, Option-cases, inl, inr,
}
use sia_hostdb_profiles.Prelude.Options.{◌>>=◌}
use sia_hostdb_profiles.Prelude.Monad.{after}
use sia_hostdb_profiles.Bolt.{Bolt}
use sia_hostdb_profiles.Transaction.{SiacoinOutput}
use sia_hostdb_profiles.Consensus.Chain.{Chain, add_heights}
use sia_hostdb_profiles.Consensus.Store.{
  Database, create_dsco_bucket_new, create_dsco_bucket_there, create_dsco_bucket,
  delete_dsco_bucket, push_path, pop_path,
}
use sia_hostdb_profiles.Consensus.Diffs.{
  ProcessedBlock, commit_node_diffs, create_upcoming_delayed_output_maps,
  delete_obsolete_delayed_output_maps, update_current_path, commit_diff_set,
}
use sia_hostdb_profiles.Consensus.Revert.View.{
  Table, View, view, put_at, delete_at, table, tables, table-put, table-delete, tables-put,
  tables-delete,
}
use sia_hostdb_profiles.Consensus.Revert.Kinds.{Refines}
use sia_hostdb_profiles.Consensus.Revert.Node.{update_view, IsFit, commit_node_diffs-Refines}

abbrev pub no_outputs : Table SiacoinOutput
no_outputs k = none

-- The bucket for a height is made where there is none.
unfoldable pub create_at : ℕ → Table (Table SiacoinOutput) → Table (Table SiacoinOutput)
create_at h t = created (t h)
  where
    created : Option (Table SiacoinOutput) → Table (Table SiacoinOutput)
    created (some b) = t
    created none = put_at h no_outputs t

pub create_at_new :
    (h : ℕ) (t : Table (Table SiacoinOutput)) → t h ≡ none → create_at h t ≡ put_at h no_outputs t
unfolding create_at
create_at_new h t at = rw (create_at, at) refl

create_at_there :
    (h : ℕ) (t : Table (Table SiacoinOutput)) (b : Table SiacoinOutput)
    → t h ≡ some b
    → create_at h t ≡ t
unfolding create_at
create_at_there h t b at = rw (create_at, at) refl

unfoldable pub create_view : ℕ → View → View
create_view h v = record v { delayed_outputs = create_at h v.delayed_outputs }

unfoldable pub delete_view : ℕ → View → View
delete_view h v = record v { delayed_outputs = delete_at h v.delayed_outputs }

-- `createUpcomingDelayedOutputMaps`, `deleteObsoleteDelayedOutputMaps` and `updateCurrentPath` on the
-- view.
unfoldable pub open_view : Chain → Bool → ProcessedBlock → View → View
open_view chain dir pb v =
    if dir
    then create_view (add_heights pb.height chain.maturity_delay) v
    else if leb chain.maturity_delay pb.height
    then create_view pb.height v
    else v

unfoldable pub close_view : Chain → Bool → ProcessedBlock → View → View
close_view chain dir pb v =
    if dir && leb chain.maturity_delay pb.height
    then delete_view pb.height v
    else if not dir
    then delete_view (add_heights pb.height chain.maturity_delay) v
    else v

unfoldable pub path_view : Bool → ProcessedBlock → View → View
path_view dir pb v =
    if dir
    then record v {
      height = add_heights v.height 1;
      path = put_at (add_heights v.height 1) pb.id v.path;
    }
    else record v { height = add_heights v.height (2 ^ 64 - 1); path = delete_at v.height v.path }

-- `commitDiffSet` on the view.
unfoldable pub extend_view : Chain → Bool → ProcessedBlock → View → Option View
extend_view chain dir pb v = do
  v' ← update_view dir pb (open_view chain dir pb v)
  some (path_view dir pb (close_view chain dir pb v'))

-- The diffs fit on a block that extends the chain: the bucket for the outputs that it delays is new,
-- and after its diffs the bucket of the outputs that mature with it is empty.
pub record IsFitBlock (chain : Chain) (pb : ProcessedBlock) (v w : View) : Type 0 where
  pub fit : IsFit pb (create_view (add_heights pb.height chain.maturity_delay) v) w
  pub upcoming : v.delayed_outputs (add_heights pb.height chain.maturity_delay) ≡ none
  pub matured :
      leb chain.maturity_delay pb.height ≡ true → w.delayed_outputs pb.height ≡ some no_outputs
  pub next : v.path (add_heights v.height 1) ≡ none
  pub bounded : v.height < 2 ^ 64

module _ ⦃bolt : Bolt⦄ where
  table-empty : table bolt.empty ≡ no_outputs
  unfolding table
  table-empty i k = bolt.get-empty {V = SiacoinOutput} k i

  create_dsco_bucket-view :
      (h : ℕ) (db : Database) → view (create_dsco_bucket h db) ≡ create_view h (view db)
  unfolding create_view view
  create_dsco_bucket-view h db = elim (Option-cases (bolt.get h db.delayed_outputs)) [
    | inl absent ↦
        rw
          (
            create_dsco_bucket_new h db absent,
            create_at_new h (tables db.delayed_outputs) (unfold tables in rw absent refl),
            tables-put h bolt.empty db.delayed_outputs,
            table-empty,
          )
          refl
    | inr (b, at) ↦
        rw
          (
            create_dsco_bucket_there h db b at,
            create_at_there h (tables db.delayed_outputs) (table b) (unfold tables in rw at refl),
          )
          refl
  ]

  delete_dsco_bucket-view :
      (h : ℕ) (db : Database) → view (delete_dsco_bucket h db) ≡ delete_view h (view db)
  unfolding delete_dsco_bucket delete_view view
  delete_dsco_bucket-view h db = rw (tables-delete h db.delayed_outputs) refl

  open_view_lem :
      (chain : Chain) (dir : Bool) (pb : ProcessedBlock) (db : Database)
      → view (create_upcoming_delayed_output_maps chain dir pb db)
        ≡ open_view chain dir pb (view db)
  unfolding create_upcoming_delayed_output_maps open_view
  open_view_lem chain dir pb db = ground (
    arith,
    create_dsco_bucket-view (add_heights pb.height chain.maturity_delay) db,
    create_dsco_bucket-view pb.height db,
  )

  close_view_lem :
      (chain : Chain) (dir : Bool) (pb : ProcessedBlock) (db : Database)
      → view (delete_obsolete_delayed_output_maps chain dir pb db)
        ≡ close_view chain dir pb (view db)
  unfolding delete_obsolete_delayed_output_maps close_view
  close_view_lem chain dir pb db = ground (
    arith,
    delete_dsco_bucket-view (add_heights pb.height chain.maturity_delay) db,
    delete_dsco_bucket-view pb.height db,
  )

  path_view_lem :
      (dir : Bool) (pb : ProcessedBlock) (db : Database)
      → view (update_current_path dir pb db) ≡ path_view dir pb (view db)
  unfolding update_current_path path_view push_path pop_path view
  path_view_lem true pb db = rw (table-put (add_heights db.height 1) pb.id db.path) refl
  path_view_lem false pb db = rw (table-delete db.height db.path) refl

  -- commitDiffSet does to a database what the abstract update of functions does to the functions
  -- that its buckets are seen as, and it panics just if that does.
  pub commit_diff_set-Refines :
      (chain : Chain) (dir : Bool) (pb : ProcessedBlock)
      → Refines (commit_diff_set chain dir pb) (extend_view chain dir pb)
  unfolding commit_diff_set extend_view
  commit_diff_set-Refines chain dir pb db =
      closes (commit_node_diffs dir pb (create_upcoming_delayed_output_maps chain dir pb db))
      ∙ ap (λ v. v >>= λ v'. some (path_view dir pb (close_view chain dir pb v')))
          (commit_node_diffs-Refines dir pb (create_upcoming_delayed_output_maps chain dir pb db)
            ∙ ap (update_view dir pb) (open_view_lem chain dir pb db))
    where
      closes :
          (m : Option Database)
          → after view (
              m >>= λ db'.
              some
                (update_current_path dir pb (delete_obsolete_delayed_output_maps chain dir pb db')))
            ≡ (after view m >>= λ v. some (path_view dir pb (close_view chain dir pb v)))
      closes none = refl
      closes (some db') =
          ap some (path_view_lem dir pb _ ∙ ap (path_view dir pb) (close_view_lem chain dir pb db'))

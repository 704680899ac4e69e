-- ===== src/Consensus/Revert/Undone.antt =====
-- diffs.go, `commitDiffSet`: a block that is applied and then reverted leaves the set as it was.
use sia_hostdb_profiles.Prelude.{
  ℕ, ◌≡◌, ◌<◌, ◌-◌, ◌^◌, refl, ap, ◌∙◌, arith, none, some, true, false, leb, Bool-cases, inl, inr,
}
use sia_hostdb_profiles.Prelude.Monad.{after-eq-some}
use sia_hostdb_profiles.Bolt.{Bolt}
use sia_hostdb_profiles.Consensus.Chain.{Chain, add_heights}
use sia_hostdb_profiles.Consensus.Store.{Database}
use sia_hostdb_profiles.Consensus.Diffs.{ProcessedBlock, commit_diff_set}
use sia_hostdb_profiles.Consensus.Revert.View.{View, view, delete_at}
use sia_hostdb_profiles.Consensus.Revert.Fits.{delete_at-put_at, delete_at_same, put_at-delete_at}
use sia_hostdb_profiles.Consensus.Revert.Node.{IsFit, update_view_undone}
use sia_hostdb_profiles.Consensus.Revert.Block.{
  no_outputs, create_at_new, create_view, delete_view, open_view, close_view, path_view,
  extend_view, IsFitBlock, commit_diff_set-Refines,
}

path_view-IsFit :
    (pb : ProcessedBlock) (v w : View)
    → IsFit pb v w
    → IsFit pb (path_view true pb v) (path_view true pb w)
unfolding path_view
path_view-IsFit pb v w fit = record {
  siacoin_outputs = fit.siacoin_outputs;
  contracts = fit.contracts;
  siafund_outputs = fit.siafund_outputs;
  delayed_outputs = fit.delayed_outputs;
  siafund_pool = fit.siafund_pool;
  height = ap (λ h. add_heights h 1) fit.height;
  path = rw (fit.height, fit.path) refl;
}

path_view_undone :
    (pb : ProcessedBlock) (v : View)
    → v.height < 2 ^ 64
    → v.path (add_heights v.height 1) ≡ none
    → path_view false pb (path_view true pb v) ≡ v
unfolding path_view
path_view_undone pb v bounded next =
    rw (delete_at-put_at (add_heights v.height 1) pb.id v.path next, add_sub v.height bounded) refl
  where
    add_sub : (h : ℕ) → h < 2 ^ 64 → add_heights (add_heights h 1) (2 ^ 64 - 1) ≡ h
    add_sub h small = unfold add_heights in ground arith

module _ (chain : Chain) (pb : ProcessedBlock) where
  abbrev upcoming_height : ℕ
  upcoming_height = add_heights pb.height chain.maturity_delay

  -- What the apply deletes the revert makes again.
  reopen :
      (w : View)
      → (leb chain.maturity_delay pb.height ≡ true → w.delayed_outputs pb.height ≡ some no_outputs)
      → open_view chain false pb (path_view true pb (close_view chain true pb w))
        ≡ path_view true pb w
  unfolding open_view path_view close_view create_view delete_view
  reopen w matured = elim (Bool-cases (leb chain.maturity_delay pb.height)) [
    | inl old ↦
        rw
          (
            old,
            create_at_new pb.height (delete_at pb.height w.delayed_outputs)
                (delete_at_same pb.height w.delayed_outputs),
            put_at-delete_at pb.height no_outputs w.delayed_outputs (matured old),
          )
          refl
    | inr young ↦ rw young refl
  ]

  reclosed :
      (v : View)
      → v.delayed_outputs upcoming_height ≡ none
      → close_view chain false pb (path_view true pb (create_view upcoming_height v))
        ≡ path_view true pb v
  unfolding close_view create_view delete_view path_view
  reclosed v upcoming =
      rw
        (
          create_at_new upcoming_height v.delayed_outputs upcoming,
          delete_at-put_at upcoming_height no_outputs v.delayed_outputs upcoming,
        )
        refl

  reclose :
      (v : View)
      → v.delayed_outputs upcoming_height ≡ none
      → v.height < 2 ^ 64
      → v.path (add_heights v.height 1) ≡ none
      → path_view false pb
          (close_view chain false pb (path_view true pb (create_view upcoming_height v)))
        ≡ v
  unfolding close_view create_view delete_view
  reclose v upcoming bounded next =
      rw (reclosed v upcoming, path_view_undone pb v bounded next) refl

  extend_view_undone :
      (v w : View)
      → IsFitBlock chain pb v w
      → (v' : View) × (extend_view chain true pb v ≡ some v')
        × (extend_view chain false pb v' ≡ some v)
  unfolding extend_view
  extend_view_undone v w fits =
      let (forth, _) = update_view_undone pb (create_view upcoming_height v) w fits.fit in
      let (_, back) =
        update_view_undone pb _ _ (path_view-IsFit pb (create_view upcoming_height v) w fits.fit) in
      (
        path_view true pb (close_view chain true pb w),
        unfold open_view in rw forth refl,
        rw (reopen w fits.matured, back) (ap some (reclose v fits.upcoming fits.bounded fits.next)),
      )

  module _ ⦃bolt : Bolt⦄ where
    -- On a database on which the diffs of a block fit as the next block of the chain, commitDiffSet
    -- applies the block and then reverts it, and neither panics. After the revert every bucket reads
    -- as before: the outputs, the contracts and their expirations, the siafund pool, the delayed
    -- outputs, the height and the path.
    pub commit_diff_set_undone :
        (db : Database) (w : View)
        → IsFitBlock chain pb (view db) w
        → (db' db'' : Database) × (commit_diff_set chain true pb db ≡ some db')
          × (commit_diff_set chain false pb db' ≡ some db'')
          × (view db'' ≡ view db)
    commit_diff_set_undone db w fits =
        let (v', forth, back) = extend_view_undone (view db) w fits in
        let (db', does, at) =
          after-eq-some view (commit_diff_set chain true pb db)
            (commit_diff_set-Refines chain true pb db ∙ forth) in
        let (db'', undoes, at') = after-eq-some view (commit_diff_set chain false pb db') (
          commit_diff_set-Refines chain false pb db' ∙ ap (extend_view chain false pb) at ∙ back) in
        (db', db'', does, undoes, at')

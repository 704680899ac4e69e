-- ===== src/HostTree/Tree/Replay.antt =====
-- hosttree.go: any calls of Insert, Modify and Remove, one after another, against a function from keys
-- to entries.
use mathlib.Core.Option
use mathlib.Core.Path.{subst}
use sia_hostdb_profiles.Prelude.{
  ℕ, ◌≡◌, refl, ap, ◌∙◌, List, [], ◌∷◌, Option, none, some, ◌==◌, if◌then◌else◌,
}
use sia_hostdb_profiles.Prelude.Options.{◌>>=◌}
use Prim.Native.String.{String}
use sia_hostdb_profiles.HostEntry.{SiaPublicKey, HostDbEntry}
use sia_hostdb_profiles.HostTree.Node.{HostEntry}
use sia_hostdb_profiles.HostTree.Index.{key}
use sia_hostdb_profiles.HostTree.Index.Find.{find}
use sia_hostdb_profiles.HostTree.Tree.{
  HostTree, HostTreeError, host_exists, no_such_host, Outcome, ok, err, panic, WeightFunc,
  new_host_tree, insert, remove_host, modify, select,
}
use sia_hostdb_profiles.HostTree.Tree.Methods.{
  IsConsistent, Updates, InsertSpec, ModifySpec, RemoveSpec, insert_correct, modify_correct,
  remove_host_correct, select_correct,
}
use sia_hostdb_profiles.HostTree.Tree.Start.{new_host_tree_correct}

pub data Call : Type 0 where
  insert_call modify_call : HostDbEntry → Call
  remove_call : SiaPublicKey → Call

abbrev pub call : Call → HostTree → Outcome HostTree
call (insert_call h) ht = insert h ht
call (modify_call h) ht = modify h ht
call (remove_call pk) ht = remove_host pk ht

-- The reply of a call and the tree after it; `none` is a panic.
abbrev pub reply_of : HostTree → Outcome HostTree → Option (Option HostTreeError × HostTree)
reply_of ht (ok ht') = some (none, ht')
reply_of ht (err e) = some (some e, ht)
reply_of ht panic = none

-- The replies of calls one after another, and the tree after them.
unfoldable pub calls : List Call → HostTree → Option (List (Option HostTreeError) × HostTree)
calls [] ht = some ([], ht)
calls (c ∷ cs) ht = do
  first ← reply_of ht (call c ht)
  rest ← calls cs first.1
  some (first.0 ∷ rest.0, rest.1)

abbrev pub Table : Type 0
Table = ℕ → Option HostEntry

abbrev pub put : ℕ → Option HostEntry → Table → Table
put k m f j = if j == k then m else f j

module _ (wf : WeightFunc) (name : String) where
  abbrev entry_of : HostDbEntry → HostEntry
  entry_of h = record { host = h; weight = (wf h name).0 }

  -- What a call does to the function, from what the function says of the key.
  abbrev put_new : HostDbEntry → Option HostEntry → Table → Option HostTreeError × Table
  put_new h none f = (none, put (key h) (some (entry_of h)) f)
  put_new h (some _) f = (some host_exists, f)

  abbrev put_known : ℕ → Option HostEntry → Option HostEntry → Table → Option HostTreeError × Table
  put_known k m none f = (some no_such_host, f)
  put_known k m (some _) f = (none, put k m f)

  abbrev pub replay_one : Call → Table → Option HostTreeError × Table
  replay_one (insert_call h) f = put_new h (f (key h)) f
  replay_one (modify_call h) f = put_known (key h) (some (entry_of h)) (f (key h)) f
  replay_one (remove_call pk) f = put_known pk.key none (f pk.key) f

  unfoldable pub replay : List Call → Table → List (Option HostTreeError) × Table
  replay [] f = ([], f)
  replay (c ∷ cs) f =
      let (reply, f') = replay_one c f in
      let (replies, end) = replay cs f' in (reply ∷ replies, end)

  -- A consistent tree with the weight function and the name, that holds what the function says.
  record Holds (f : Table) (ht : HostTree) : Type 0 where
    consistent : IsConsistent ht
    same_fn : ht.weight_fn ≡ wf
    same_name : ht.name ≡ name
    found : (λ k. find k ht.index) ≡ f

  abbrev Replies : Option HostTreeError × Table → Option (Option HostTreeError × HostTree) → Type 0
  Replies (reply, f) m = (ht : HostTree) × (m ≡ some (reply, ht)) × Holds f ht

  Updates-Holds :
      (k : ℕ) (m : Option HostEntry) (f : Table) (ht ht' : HostTree)
      → Holds f ht
      → Updates k m ht ht'
      → Holds (put k m f) ht'
  Updates-Holds k m f ht ht' holds updates = record {
    consistent = updates.consistent;
    same_fn = updates.same_fn ∙ holds.same_fn;
    same_name = updates.same_name ∙ holds.same_name;
    found = (λ i k. updates.found k i) ∙ ap (put k m) holds.found;
  }

  module _ (f : Table) (ht : HostTree) (holds : Holds f ht) where
    at_key : (k : ℕ) → find k ht.index ≡ f k
    at_key k i = holds.found i k

    scored :
        (h : HostDbEntry)
        → some (record { host = h; weight = (ht.weight_fn h ht.name).0 }) ≡ some (entry_of h)
    scored h i = some (record { host = h; weight = (holds.same_fn i h (holds.same_name i)).0 })

    insert-Replies :
        (h : HostDbEntry) (o : Outcome HostTree) (m : Option HostEntry)
        → InsertSpec h ht o
        → f (key h) ≡ m
        → Replies (put_new h m f) (reply_of ht o)
    insert-Replies h (ok ht') none (absent, updates) at = (
      ht',
      refl,
      Updates-Holds (key h) _ f ht ht' holds
          (subst (λ m. Updates (key h) m ht ht') (scored h) updates),
    )
    insert-Replies h (ok ht') (some e) (absent, updates) at = cc (at_key (key h))
    insert-Replies h (err e) none (there, its) at = absurd (there (at_key (key h) ∙ at))
    insert-Replies h (err e) (some _) (there, its) at = (ht, ap (λ e. some (some e, ht)) its, holds)
    insert-Replies h panic m spec at = absurd spec

    modify-Replies :
        (h : HostDbEntry) (o : Outcome HostTree) (m : Option HostEntry)
        → ModifySpec h ht o
        → f (key h) ≡ m
        → Replies (put_known (key h) (some (entry_of h)) m f) (reply_of ht o)
    modify-Replies h (ok ht') none (there, updates) at = absurd (there (at_key (key h) ∙ at))
    modify-Replies h (ok ht') (some _) (there, updates) at = (
      ht',
      refl,
      Updates-Holds (key h) _ f ht ht' holds
          (subst (λ m. Updates (key h) m ht ht') (scored h) updates),
    )
    modify-Replies h (err e) none (absent, its) at = (ht, ap (λ e. some (some e, ht)) its, holds)
    modify-Replies h (err e) (some _) (absent, its) at = cc (at_key (key h))
    modify-Replies h panic m spec at = absurd spec

    remove-Replies :
        (pk : SiaPublicKey) (o : Outcome HostTree) (m : Option HostEntry)
        → RemoveSpec pk ht o
        → f pk.key ≡ m
        → Replies (put_known pk.key none m f) (reply_of ht o)
    remove-Replies pk (ok ht') none (there, updates) at = absurd (there (at_key pk.key ∙ at))
    remove-Replies pk (ok ht') (some _) (there, updates) at =
        (ht', refl, Updates-Holds pk.key none f ht ht' holds updates)
    remove-Replies pk (err e) none (absent, its) at = (ht, ap (λ e. some (some e, ht)) its, holds)
    remove-Replies pk (err e) (some _) (absent, its) at = cc (at_key pk.key)
    remove-Replies pk panic m spec at = absurd spec

    call-Replies : (c : Call) → Replies (replay_one c f) (reply_of ht (call c ht))
    call-Replies (insert_call h) =
        insert-Replies h (insert h ht) (f (key h)) (insert_correct h ht holds.consistent) refl
    call-Replies (modify_call h) =
        modify-Replies h (modify h ht) (f (key h)) (modify_correct h ht holds.consistent) refl
    call-Replies (remove_call pk) =
        remove-Replies pk (remove_host pk ht) (f pk.key)
          (remove_host_correct pk ht holds.consistent) refl

  calls-Holds :
      (cs : List Call) (f : Table) (ht : HostTree)
      → Holds f ht
      → (ht' : HostTree) × (calls cs ht ≡ some ((replay cs f).0, ht')) × Holds (replay cs f).1 ht'
  unfolding calls replay
  calls-Holds [] f ht holds = (ht, refl, holds)
  calls-Holds (c ∷ cs) f ht holds =
      let (ht1, ran1, holds1) = call-Replies f ht holds c in
      let (ht', ran, holds') = calls-Holds cs (replay_one c f).1 ht1 holds1 in
      (
        ht',
        ap (λ m. m >>= λ first. calls cs first.1 >>= λ rest. some (first.0 ∷ rest.0, rest.1)) ran1
            ∙ ap (λ m. m >>= λ rest. some ((replay_one c f).0 ∷ rest.0, rest.1)) ran,
        holds',
      )

  -- Calls of Insert, Modify and Remove on a new tree give the replies that they give on a function
  -- from keys to entries, and never panic. After them Select finds just the hosts of the function.
  pub calls-replay :
      (cs : List Call)
      → (ht : HostTree) × (calls cs (new_host_tree wf name) ≡ some ((replay cs (λ k. none)).0, ht))
        × ((spk : SiaPublicKey)
            → select spk ht ≡ ok (Option.map (λ e. e.host) ((replay cs (λ k. none)).1 spk.key)))
  calls-replay cs =
      let (ht, ran, holds) =
        calls-Holds cs (λ k. none) (new_host_tree wf name)
          (record {
            consistent = (new_host_tree_correct wf name).0;
            same_fn = refl;
            same_name = refl;
            found = λ i k. (new_host_tree_correct wf name).1 k i;
          }) in
      (
        ht,
        ran,
        λ spk.
            select_correct spk ht holds.consistent
            ∙ ap (λ (f : Table). ok (Option.map (λ e. e.host) (f spk.key))) holds.found,
      )

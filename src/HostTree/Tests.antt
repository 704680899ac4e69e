-- ===== src/HostTree/Tests.antt =====
-- hosttree: the tree's operations on concrete trees.
use mathlib.Core.Option
use mathlib.Core.List.Perm
use sia_hostdb_profiles.Prelude.{
  ℕ, ◌≡◌, refl, Bool, true, false, none, some, List, [], ◌∷◌, Perm, All, All-imp, map,
  if◌then◌else◌, Bool-cases, inl, inr, arith,
}
use sia_hostdb_profiles.HostEntry.{HostDbEntry, SiaPublicKey}
use sia_hostdb_profiles.HostTree.Node.{
  HostEntry, NodePath, left, recursive_insert, cell_at, node_at_weight, release,
}
use sia_hostdb_profiles.HostTree.Index.Find.{find}
use sia_hostdb_profiles.HostTree.Tree.{
  HostTree, ok, host_exists, no_such_host, new_host_tree, insert, remove_host, modify, select, Sort,
  lighter, collect, all_hosts,
}
use sia_hostdb_profiles.HostTree.Tree.Methods.{
  IsConsistent, InsertSpec, insert_correct, RemoveSpec, remove_host_correct, ModifySpec,
  modify_correct, select_correct,
}
use sia_hostdb_profiles.HostTree.Tree.Replay.{
  Call, insert_call, modify_call, remove_call, calls, replay, calls-replay,
}
use sia_hostdb_profiles.HostTree.Tree.Sorted.{
  IsOrder, IsOrdered, IsSort, IsRising, entry_at, HaveOneEach, all_hosts_correct,
}
use sia_hostdb_profiles.HostTree.Tree.Start.{new_host_tree_correct}
use sia_hostdb_profiles.HostTree.Node.Weights.{
  active_at, Inserted, insert-Inserted, Released, release-Released,
}
use sia_hostdb_profiles.HostTree.Node.Entries.{entries, entries-insert, entries-release}
use sia_hostdb_profiles.HostTree.Node.Paths.{Placed, insert-Placed}
use sia_hostdb_profiles.HostTree.Node.Pick.{node_at_weight_share}
use sia_hostdb_profiles.HostTree.Random.{select_random}
use sia_hostdb_profiles.HostTree.Random.Selected.{Selected, select_random_correct}
use sia_hostdb_profiles.HostTree.Trees.{failed, insert_trees, modify_trees, remove_trees}
use sia_hostdb_profiles.HostTree.Trees.InStep.{
  is_some, AreInStep, AllDone, new_entry, no_entry, with_key, insert_trees_atomic,
  modify_trees_atomic, remove_trees_atomic,
}
use sia_hostdb_profiles.HostTree.Samples.{
  score, pub_key, host, entry, two, two-IsConsistent, two-IsPositive,
}

new_host_tree_correct_example :
    IsConsistent (new_host_tree score "default")
    × ((k : ℕ) → find k (new_host_tree score "default").index ≡ none)
new_host_tree_correct_example = new_host_tree_correct score "default"

insert_correct_example : InsertSpec (host 4) two (insert (host 4) two)
insert_correct_example = insert_correct (host 4) two two-IsConsistent

remove_host_correct_example : RemoveSpec (pub_key 3) two (remove_host (pub_key 3) two)
remove_host_correct_example = remove_host_correct (pub_key 3) two two-IsConsistent

modify_correct_example : ModifySpec (host 3) two (modify (host 3) two)
modify_correct_example = modify_correct (host 3) two two-IsConsistent

select_correct_example : select (pub_key 3) two ≡ ok (Option.map (λ e. e.host) (find 3 two.index))
select_correct_example = select_correct (pub_key 3) two two-IsConsistent

select_random_correct_example :
    (hosts : List HostDbEntry) × (ht' : HostTree) × (select_random (λ i b. 0) 1 (pub_key 9 ∷ []) two
      ≡ some (hosts, ht'))
    × Selected 1 (pub_key 9 ∷ []) two hosts ht'
select_random_correct_example =
    select_random_correct (λ i b. 0) (λ i b h. h) 1 (pub_key 9 ∷ []) two two-IsConsistent
      two-IsPositive

insert-Inserted_example :
    Inserted (entry 4) two.index.root (recursive_insert true (entry 4) two.index.root)
insert-Inserted_example =
    insert-Inserted true (entry 4) two.index.root two-IsConsistent.valid.well_formed

active_three : active_at (left ∷ []) two.index.root ≡ some (entry 3)
unfolding cell_at
active_three = refl

release-Released_example : Released 13 two.index.root (release (left ∷ []) 13 two.index.root)
release-Released_example =
    release-Released (left ∷ []) (entry 3) two.index.root two-IsConsistent.valid.well_formed
      active_three

entries-insert_example :
    Perm
      (entries (recursive_insert true (entry 4) two.index.root).0)
      (entry 4 ∷ entries two.index.root)
entries-insert_example = entries-insert true (entry 4) two.index.root

entries-release_example :
    Perm (entry 3 ∷ entries (release (left ∷ []) 13 two.index.root)) (entries two.index.root)
entries-release_example = entries-release (left ∷ []) 13 (entry 3) two.index.root active_three

insert-Placed_example :
    Placed (entry 4) two.index.root (recursive_insert true (entry 4) two.index.root)
insert-Placed_example = insert-Placed true (entry 4) two.index.root

-- The host with the key 3 has the numbers below 13, and the one with the key 1 the 11 after them.
node_at_weight_share_example :
    (p : NodePath) × (node_at_weight 20 two.index.root ≡ some p)
    × (active_at p two.index.root ≡ some (entry 1))
node_at_weight_share_example =
    node_at_weight_share 20 two.index.root (entry 3 ∷ []) (entry 1) []
      two-IsConsistent.valid.well_formed refl (omega arith) (omega arith)

two_in_step : AreInStep (λ k. is_some (find k two.index)) (("default", two) ∷ [])
two_in_step = (record { consistent = two-IsConsistent; listed = λ k. refl }, tt)

abbrev two_keys : ℕ → Bool
two_keys k = is_some (find k two.index)

insert_trees_atomic_example :
    (two_keys 4 ≡ false
      → AllDone 4
          (new_entry (host 4))
          (with_key 4 true two_keys)
          (("default", two) ∷ [])
          (insert_trees (host 4) (("default", two) ∷ [])))
    × (two_keys 4 ≡ true
        → insert_trees (host 4) (("default", two) ∷ [])
          ≡ (("default", two) ∷ [], failed host_exists))
insert_trees_atomic_example = insert_trees_atomic two_keys ("default", two) [] two_in_step (host 4)

-- A host that takes no contracts any more.
abbrev closed : ℕ → HostDbEntry
closed k = record (host k) { accepting_contracts = false }

modify_trees_atomic_example :
    (two_keys 3 ≡ true
      → AllDone 3
          (new_entry (closed 3))
          (with_key 3 true two_keys)
          (("default", two) ∷ [])
          (modify_trees (closed 3) (("default", two) ∷ [])))
    × (two_keys 3 ≡ false
        → modify_trees (closed 3) (("default", two) ∷ [])
          ≡ (("default", two) ∷ [], failed no_such_host))
modify_trees_atomic_example =
    modify_trees_atomic two_keys ("default", two) [] two_in_step (closed 3)

remove_trees_atomic_example :
    (two_keys 3 ≡ true
      → AllDone 3 no_entry
          (with_key 3 false two_keys)
          (("default", two) ∷ [])
          (remove_trees (pub_key 3) (("default", two) ∷ [])))
    × (two_keys 3 ≡ false
        → remove_trees (pub_key 3) (("default", two) ∷ [])
          ≡ (("default", two) ∷ [], failed no_such_host))
remove_trees_atomic_example =
    remove_trees_atomic two_keys ("default", two) [] two_in_step (pub_key 3)

-- An insertion sort, which is a sort as the documentation has it.
abbrev sort_in : (HostEntry → HostEntry → Bool) → HostEntry → List HostEntry → List HostEntry
sort_in less e [] = e ∷ []
sort_in less e (f ∷ fs) = let rest = sort_in less e fs in if less f e then f ∷ rest else e ∷ f ∷ fs

abbrev insertion_sort : Sort
insertion_sort less [] = []
insertion_sort less (e ∷ es) = sort_in less e (insertion_sort less es)

sort_in-Perm :
    (less : HostEntry → HostEntry → Bool) (e : HostEntry) (es : List HostEntry)
    → Perm (sort_in less e es) (e ∷ es)
sort_in-Perm less e [] = Perm.refl (e ∷ [])
sort_in-Perm less e (f ∷ fs) = elim (Bool-cases (less f e)) [
  | inl before ↦ rw before (Perm.trans (Perm.cons f (sort_in-Perm less e fs)) (Perm.swap e f fs))
  | inr behind ↦ rw behind (Perm.refl (e ∷ f ∷ fs))
]

sort_in-All :
    (less : HostEntry → HostEntry → Bool) (g e : HostEntry) (es : List HostEntry)
    → less e g ≡ false
    → All (λ (f : HostEntry). less f g ≡ false) es
    → All (λ (f : HostEntry). less f g ≡ false) (sort_in less e es)
sort_in-All less g e [] le h = (le, tt)
sort_in-All less g e (f ∷ fs) le h = elim (Bool-cases (less f e)) [
  | inl before ↦ rw before (h.0, sort_in-All less g e fs le h.1)
  | inr behind ↦ rw behind (le, h)
]

sort_in-IsOrdered :
    (less : HostEntry → HostEntry → Bool)
    → IsOrder less
    → (e : HostEntry) (es : List HostEntry) → IsOrdered less es
    → IsOrdered less (sort_in less e es)
sort_in-IsOrdered less order e [] h = (tt, tt)
sort_in-IsOrdered less order e (f ∷ fs) h = elim (Bool-cases (less f e)) [
  | inl before ↦ rw before (
    sort_in-All less f e fs (order.asymmetric f e before) h.0,
    sort_in-IsOrdered less order e fs h.1,
  )
  | inr behind ↦
      rw behind ((behind, All-imp _ _ fs (λ g le. order.transitive e f g le behind) h.0), h)
]

insertion_sort-Perm :
    (less : HostEntry → HostEntry → Bool) (es : List HostEntry) → Perm (insertion_sort less es) es
insertion_sort-Perm less [] = Perm.refl []
insertion_sort-Perm less (e ∷ es) =
    Perm.trans (sort_in-Perm less e (insertion_sort less es))
      (Perm.cons e (insertion_sort-Perm less es))

insertion_sort-IsOrdered :
    (less : HostEntry → HostEntry → Bool)
    → IsOrder less
    → (es : List HostEntry) → IsOrdered less (insertion_sort less es)
insertion_sort-IsOrdered less order [] = tt
insertion_sort-IsOrdered less order (e ∷ es) =
    sort_in-IsOrdered less order e (insertion_sort less es) (insertion_sort-IsOrdered less order es)

insertion_sort-IsSort : IsSort insertion_sort
insertion_sort-IsSort = record { permutes = insertion_sort-Perm; orders = insertion_sort-IsOrdered }

all_hosts_correct_example :
    (sorted es : List HostEntry) × (all_hosts insertion_sort two
      ≡ some (map (λ (e : HostEntry). e.host) sorted))
    × IsRising sorted
    × Perm sorted es
    × HaveOneEach es
    × ((k : ℕ) → entry_at k es ≡ find k two.index)
all_hosts_correct_example =
    all_hosts_correct insertion_sort insertion_sort-IsSort two two-IsConsistent

all_of_two : all_hosts insertion_sort two ≡ some (host 1 ∷ host 3 ∷ [])
unfolding all_hosts collect lighter cell_at
all_of_two = refl

-- A host that is known is refused, and so is one that is not.
abbrev some_calls : List Call
some_calls =
    insert_call (host 1)
    ∷ insert_call (host 3)
    ∷ insert_call (host 1)
    ∷ modify_call (host 5)
    ∷ remove_call (pub_key 1)
    ∷ modify_call (host 3)
    ∷ []

some_replies :
    (replay score "default" some_calls (λ k. none)).0
    ≡ none ∷ none ∷ some host_exists ∷ some no_such_host ∷ none ∷ none ∷ []
unfolding replay
some_replies = refl

calls-replay_example :
    (ht : HostTree) × (calls some_calls (new_host_tree score "default")
      ≡ some ((replay score "default" some_calls (λ k. none)).0, ht))
    × ((spk : SiaPublicKey)
        → select spk ht
          ≡ ok (
              Option.map (λ e. e.host) ((replay score "default" some_calls (λ k. none)).1 spk.key)))
calls-replay_example = calls-replay score "default" some_calls

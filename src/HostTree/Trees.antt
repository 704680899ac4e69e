-- ===== src/HostTree/Trees.antt =====
-- hosttrees.go, `HostTrees`: one host tree for each hostdb profile, by the profile's name. Go goes
-- through the map in no fixed order; a list of the trees is one such order.
pub mod InStep
use sia_hostdb_profiles.Prelude.{ℕ, List, [], ◌∷◌, ◌++◌, Option, none, some, if◌then◌else◌}
use Prim.Native.String.{String}
use text.Mathlib.Text.{◌==◌ as str_eq}
use sia_hostdb_profiles.Prelude.Options.{◌>>=◌}
use sia_hostdb_profiles.HostEntry.{SiaPublicKey, HostDbEntry}
use sia_hostdb_profiles.HostTree.Tree
use sia_hostdb_profiles.HostTree.Tree.{
  HostTree, HostTreeError, tree_exists, Outcome, ok, err, panic, Sort, all_hosts,
}
use sia_hostdb_profiles.HostTree.Random.{select_random}

abbrev pub HostTrees : Type 0
HostTrees = List (String × HostTree)

-- `NewHostTrees`
abbrev pub new_host_trees : HostTrees
new_host_trees = []

pub tree_at : String → HostTrees → Option HostTree
tree_at name [] = none
tree_at name ((n, t) ∷ ts) = if str_eq n name then some t else tree_at name ts

-- `AddHostTree`
pub add_host_tree : String → HostTree → HostTrees → Outcome HostTrees
add_host_tree name tree ts = elim (tree_at name ts) [
  | some _ ↦ err tree_exists
  | none ↦ ok (ts ++ (name, tree) ∷ [])
]

-- How a loop over the trees ended.
pub data Report : Type 0 where
  done panicked : Report
  failed : HostTreeError → Report

-- `for _, tree := range ht.trees { err := f(tree); if err != nil { return err } }`: what was done
-- to the trees before an error stays done.
pub each : (HostTree → Outcome HostTree) → HostTrees → HostTrees × Report
each f [] = ([], done)
each f ((n, t) ∷ ts) =
    let rest = each f ts in
    elim (f t) [
      | ok t' ↦ ((n, t') ∷ rest.0, rest.1)
      | err e ↦ ((n, t) ∷ ts, failed e)
      | panic ↦ ((n, t) ∷ ts, panicked)
    ]

-- `Insert`, `Modify`, `Remove`
unfoldable pub insert_trees : HostDbEntry → HostTrees → HostTrees × Report
insert_trees h = each (Tree.insert h)

unfoldable pub modify_trees : HostDbEntry → HostTrees → HostTrees × Report
modify_trees h = each (Tree.modify h)

unfoldable pub remove_trees : SiaPublicKey → HostTrees → HostTrees × Report
remove_trees pk = each (Tree.remove_host pk)

-- `Select`; with no tree for the default profile the nil tree makes it panic.
pub select_default : SiaPublicKey → HostTrees → Outcome (Option HostDbEntry)
unfolding tree_at
select_default spk ts = elim (tree_at "default" ts) [ none ↦ panic | some t ↦ Tree.select spk t ]

-- `All` of the tree with a name; `none` is a panic.
pub all_of : Sort → String → HostTrees → Option (List HostDbEntry)
all_of sort name ts = tree_at name ts >>= all_hosts sort

pub write_tree : String → HostTree → HostTrees → HostTrees
write_tree name tree [] = []
write_tree name tree ((n, t) ∷ ts) =
    if str_eq n name then (n, tree) ∷ ts else (n, t) ∷ write_tree name tree ts

-- `SelectRandom` on the tree with a name; `none` is a panic.
pub select_random_of :
    (ℕ → ℕ → ℕ) → String → ℕ → List SiaPublicKey → HostTrees → Option (List HostDbEntry × HostTrees)
select_random_of rand name n ignore ts = do
  t ← tree_at name ts
  (hosts, t') ← select_random rand n ignore t
  some (hosts, write_tree name t' ts)

-- ===== src/HostTree/Tree/Start.antt =====
-- hosttree.go, `NewHostTree`: an empty tree is consistent.
use sia_hostdb_profiles.Prelude.{ℕ, ◌≡◌, ◌≢◌, refl, none, some, [], ◌∷◌}
use Prim.Native.String.{String}
use sia_hostdb_profiles.HostTree.Node.{HostEntry, NodePath, left, right, cell_at}
use sia_hostdb_profiles.HostTree.Node.Weights.{active_at}
use sia_hostdb_profiles.HostTree.Index.Invariant.{IsValid}
use sia_hostdb_profiles.HostTree.Index.Find.{find}
use sia_hostdb_profiles.HostTree.Tree.{HostTree, WeightFunc, new_host_tree, is_blacklisted}
use sia_hostdb_profiles.HostTree.Tree.Methods.{IsConsistent}

module _ (wf : WeightFunc) (name : String) where
  abbrev ht : HostTree
  ht = new_host_tree wf name

  no_host : (p : NodePath) (e : HostEntry) → active_at p ht.index.root ≢ some e
  unfolding cell_at
  no_host [] e h = cc
  no_host (left ∷ p) e h = cc
  no_host (right ∷ p) e h = cc

  start-IsValid : IsValid ht.index
  start-IsValid = record {
    well_formed = (record { weighed = refl; counted = refl; filled = λ h. cc }, tt, tt);
    indexed = λ k p h. cc;
    listed = λ p e h. absurd (no_host p e h);
    apart = tt;
  }

  -- NewHostTree gives a consistent tree that no key leads to a host of.
  pub new_host_tree_correct : IsConsistent ht × ((k : ℕ) → find k ht.index ≡ none)
  unfolding is_blacklisted
  new_host_tree_correct = (
    record { valid = start-IsValid; scored = λ k e h. cc; unlisted = λ k h. refl; distinct = tt },
    λ k. refl,
  )

-- ===== src/HostTree/Samples.antt =====
-- hosttree: concrete hosts, and a tree of two hosts that Insert made.
use mathlib.Core.Path.{subst}
use sia_hostdb_profiles.Prelude.{
  ℕ, ◌+◌, ◌≡◌, refl, true, none, some, [], ◌∷◌, arith, ◌==◌, if◌then◌else◌,
}
use sia_hostdb_profiles.HostEntry.{SiaPublicKey, HostDbEntry}
use sia_hostdb_profiles.HostTree.Node.{HostEntry, nil, node, left, recursive_insert}
use sia_hostdb_profiles.HostTree.Index.{place}
use sia_hostdb_profiles.HostTree.Index.Find.{find}
use sia_hostdb_profiles.HostTree.Tree.{
  HostTree, WeightFunc, ok, new_host_tree, insert, insert_into_blacklist, is_blacklisted,
}
use sia_hostdb_profiles.HostTree.Tree.Methods.{IsConsistent, InsertSpec, Updates, insert_correct}
use sia_hostdb_profiles.HostTree.Tree.Start.{new_host_tree_correct}
use sia_hostdb_profiles.HostTree.Random.Draws.{IsPositive}

-- A score of ten more than the key; the host with the key 3 is blacklisted.
abbrev pub score : WeightFunc
score h name = (h.public_key.key + 10, h.public_key.key == 3)

abbrev pub pub_key : ℕ → SiaPublicKey
pub_key k = record { algorithm = 0; key = k }

abbrev pub host : ℕ → HostDbEntry
host k = record {
  accepting_contracts = true;
  scan_history = record { timestamp = 1; success = true } ∷ [];
  public_key = pub_key k;
}

abbrev pub entry : ℕ → HostEntry
entry k = record { host = host k; weight = k + 10 }

abbrev pub empty : HostTree
empty = new_host_tree score "default"

abbrev pub one : HostTree
one = record {
  name = "default";
  index = record {
    root = node (record { count = 1; taken = true; weight = 11; entry = some (entry 1) }) nil nil;
    hosts = (1, []) ∷ [];
  };
  weight_fn = score;
  blacklist = [];
}

abbrev pub two : HostTree
two = record {
  name = "default";
  index = record {
    root =
        node (record { count = 2; taken = true; weight = 24; entry = some (entry 1) })
          (node (record { count = 1; taken = true; weight = 13; entry = some (entry 3) }) nil nil)
          nil;
    hosts = (1, []) ∷ (3, left ∷ []) ∷ [];
  };
  weight_fn = score;
  blacklist = pub_key 3 ∷ [];
}

pub insert-one : insert (host 1) empty ≡ ok one
unfolding insert place recursive_insert
insert-one = refl

pub insert-two : insert (host 3) one ≡ ok two
unfolding insert place recursive_insert insert_into_blacklist is_blacklisted
insert-two = refl

pub empty-IsConsistent : IsConsistent empty
empty-IsConsistent = (new_host_tree_correct score "default").0

pub one-Updates : Updates 1 (some (entry 1)) empty one
one-Updates =
    (subst (InsertSpec (host 1) empty) insert-one
      (insert_correct (host 1) empty empty-IsConsistent)).1

pub one-IsConsistent : IsConsistent one
one-IsConsistent = one-Updates.consistent

pub two-Updates : Updates 3 (some (entry 3)) one two
two-Updates =
    (subst (InsertSpec (host 3) one) insert-two (insert_correct (host 3) one one-IsConsistent)).1

pub two-IsConsistent : IsConsistent two
two-IsConsistent = two-Updates.consistent

-- The two hosts that stand in the tree are the only ones.
pub found_in_two :
    (k : ℕ)
    → find k two.index
      ≡ (if k == 3 then some (entry 3) else if k == 1 then some (entry 1) else none)
found_in_two k =
    ground
      (arith, two-Updates.found k, one-Updates.found k, (new_host_tree_correct score "default").1 k)

pub two-IsPositive : IsPositive two.index
two-IsPositive k e h = ground (arith, found_in_two k)

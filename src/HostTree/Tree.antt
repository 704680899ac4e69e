-- ===== src/HostTree/Tree.antt =====
-- hosttree.go, `HostTree`: the weighted tree with its index and its blacklist, method by method.
-- The caller's lock keeps the methods apart, so each is one step from state to state.
pub mod Blacklist
pub mod Methods
pub mod Start
pub mod Sorted
pub mod Replay
use sia_hostdb_profiles.Prelude.{
  ℕ, zero, suc, ◌+◌, Bool, true, false, ◌&&◌, List, [], ◌∷◌, ◌++◌, Option, none, some, map, ltb,
  ◌==◌, if◌then◌else◌, length,
}
use Prim.Native.String.{String}
use sia_hostdb_profiles.Prelude.Dict
use sia_hostdb_profiles.Prelude.Options.{◌>>=◌}
use sia_hostdb_profiles.Currency.{Currency}
use sia_hostdb_profiles.HostEntry.{SiaPublicKey, HostDbScan, HostDbEntry}
use sia_hostdb_profiles.HostTree.Node.{
  HostEntry, Tree, nil, node, NodePath, weight, node_at_weight, cell_at,
}
use sia_hostdb_profiles.HostTree.Index.{Index, key, place, take_out}

-- `WeightFunc`: a score for a host under a profile's name, and whether it is blacklisted.
abbrev pub WeightFunc : Type 0
WeightFunc = HostDbEntry → String → Currency × Bool

pub record HostTree : Type 0 where
  pub name : String
  pub index : Index
  pub open index use *
  pub weight_fn : WeightFunc
  pub blacklist : List SiaPublicKey

pub data HostTreeError : Type 0 where
  host_exists no_such_host tree_exists : HostTreeError

-- How a call ends. A call that returns an error leaves the state alone.
pub data Outcome (A : Type 0) : Type 0 where
  ok : A → Outcome A
  err : HostTreeError → Outcome A
  panic : Outcome A

-- `NewHostTree`
abbrev pub new_host_tree : WeightFunc → String → HostTree
new_host_tree wf name = record {
  name = name;
  index = record {
    root = node (record { count = 1; taken = false; weight = 0; entry = none }) nil nil;
    hosts = [];
  };
  weight_fn = wf;
  blacklist = [];
}

unfoldable pub is_blacklisted : ℕ → List SiaPublicKey → Bool
is_blacklisted k [] = false
is_blacklisted k (v ∷ vs) = if v.key == k then true else is_blacklisted k vs

-- `insertIntoBlacklist`
unfoldable pub insert_into_blacklist : SiaPublicKey → List SiaPublicKey → List SiaPublicKey
insert_into_blacklist spk vs = if is_blacklisted spk.key vs then vs else vs ++ spk ∷ []

-- `removeFromBlacklist`: the first entry with the key is cut out.
pub remove_from_blacklist : SiaPublicKey → List SiaPublicKey → List SiaPublicKey
remove_from_blacklist spk [] = []
remove_from_blacklist spk (v ∷ vs) =
    if v.key == spk.key then vs else v ∷ remove_from_blacklist spk vs

-- `Insert`
unfoldable pub insert : HostDbEntry → HostTree → Outcome HostTree
insert h ht =
    let (score, blacklisted) = ht.weight_fn h ht.name in
    elim (Dict.lookup (key h) ht.index.hosts) [
      | some _ ↦ err host_exists
      | none ↦ ok (record ht {
        index = place (record { host = h; weight = score }) ht.index;
        blacklist =
            if blacklisted then insert_into_blacklist h.public_key ht.blacklist else ht.blacklist;
      })
    ]

-- `Remove`
pub remove_host : SiaPublicKey → HostTree → Outcome HostTree
remove_host pk ht = elim (Dict.lookup pk.key ht.index.hosts) [
  | none ↦ err no_such_host
  | some p ↦ elim (take_out pk.key p ht.index) [
    | none ↦ panic
    | some (_, ix) ↦
        ok (record ht { index = ix; blacklist = remove_from_blacklist pk ht.blacklist })
  ]
]

-- `Modify`. The code does not delete the key from `hosts` before it writes the new node there;
-- the write overwrites what `take_out` deletes here.
pub modify : HostDbEntry → HostTree → Outcome HostTree
modify h ht = elim (Dict.lookup (key h) ht.index.hosts) [
  | none ↦ err no_such_host
  | some p ↦
      let (score, blacklisted) = ht.weight_fn h ht.name in
      elim (take_out (key h) p ht.index) [
        | none ↦ panic
        | some (_, ix) ↦ ok (record ht {
          index = place (record { host = h; weight = score }) ix;
          blacklist =
              if blacklisted
              then insert_into_blacklist h.public_key ht.blacklist
              else remove_from_blacklist h.public_key ht.blacklist;
        })
      ]
]

-- `Select`: the inner `none` is the answer false.
pub select : SiaPublicKey → HostTree → Outcome (Option HostDbEntry)
select spk ht = elim (Dict.lookup spk.key ht.index.hosts) [
  | none ↦ ok none
  | some p ↦ elim (cell_at p ht.index.root >>= λ c. c.entry) [
    | none ↦ panic
    | some e ↦ ok (some e.host)
  ]
]

-- sort.go, `byWeight.Less`
unfoldable pub lighter : HostEntry → HostEntry → Bool
lighter e f = ltb e.weight f.weight

-- What sort.Sort does to a slice, given `Less` on its elements.
abbrev pub Sort : Type 0
Sort = (HostEntry → HostEntry → Bool) → List HostEntry → List HostEntry

-- The entries at the nodes of the map; `none` is the panic on a node with no entry.
unfoldable pub collect : List (ℕ × NodePath) → Tree → Option (List HostEntry)
collect [] t = some []
collect ((k, p) ∷ hosts) t = do c ← cell_at p t; e ← c.entry; es ← collect hosts t; some (e ∷ es)

-- `All`
unfoldable pub all_hosts : Sort → HostTree → Option (List HostDbEntry)
all_hosts sort ht = do
  es ← collect ht.index.hosts ht.index.root
  some (map (λ e. e.host) (sort lighter es))

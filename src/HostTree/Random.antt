-- ===== src/HostTree/Random.antt =====
-- hosttree.go, `SelectRandom`: it takes the ignored hosts out of the tree, draws hosts by weight
-- and takes each out in turn, and puts all of them back at the end.
-- `fastrand.BigIntn`, of another package, is the parameter `rand`: its answer at the i-th call, for
-- a bound. It panics at a bound of zero.
pub mod Keys
pub mod Drawing
pub mod Withhold
pub mod Draws
pub mod Selected
use sia_hostdb_profiles.Prelude.{
  ℕ, zero, suc, Bool, true, false, ◌&&◌, List, [], ◌∷◌, ◌++◌, Option, none, some, ltb, ◌==◌,
  if◌then◌else◌, length,
}
use sia_hostdb_profiles.Prelude.Dict
use sia_hostdb_profiles.Prelude.Options.{◌>>=◌}
use sia_hostdb_profiles.HostEntry.{SiaPublicKey, HostDbScan, HostDbEntry}
use sia_hostdb_profiles.HostTree.Node.{HostEntry, weight, node_at_weight, cell_at}
use sia_hostdb_profiles.HostTree.Index.{Index, key, place, take_out}
use sia_hostdb_profiles.HostTree.Tree.{HostTree}

-- The tree and the two lists while the call runs.
pub record Draw : Type 0 where
  pub index : Index
  pub hosts : List HostDbEntry
  pub removed : List HostEntry

last_success : List HostDbScan → Bool
last_success [] = false
last_success (s ∷ []) = s.success
last_success (s ∷ t ∷ ss) = last_success (t ∷ ss)

-- A host that accepts contracts and whose last scan was a success.
pub is_online : HostDbEntry → Bool
unfolding last_success
is_online h = h.accepting_contracts && last_success h.scan_history

-- The loop over `ignore`. `none` is a panic, as below.
pub withhold : List SiaPublicKey → Draw → Option Draw
withhold [] d = some d
withhold (pk ∷ pks) d = elim (Dict.lookup pk.key d.index.hosts) [
  | none ↦ withhold pks d
  | some p ↦ take_out pk.key p d.index >>= λ (e, ix).
      withhold pks (record d { index = ix; removed = d.removed ++ e ∷ [] })
]

-- One round of the loop that draws.
pub draw_one : (ℕ → ℕ) → Draw → Option Draw
draw_one rand d = if weight d.index.root == 0 then none else do
  p ← node_at_weight (rand (weight d.index.root)) d.index.root
  c ← cell_at p d.index.root
  e ← c.entry
  (_, ix) ← take_out (key e.host) p d.index
  some (record {
    index = ix;
    hosts = if is_online e.host then d.hosts ++ e.host ∷ [] else d.hosts;
    removed = d.removed ++ e ∷ [];
  })

abbrev pub wants_more : ℕ → Draw → Bool
wants_more n d = ltb (length d.hosts) n && ltb 0 (length d.index.hosts)

-- The loop, on fuel; `none` at the end of the fuel is never met.
pub draws : (ℕ → ℕ → ℕ) → ℕ → ℕ → ℕ → Draw → Option Draw
draws rand n zero i d = if wants_more n d then none else some d
draws rand n (suc fuel) i d =
    let round = draw_one (rand i) d >>= draws rand n fuel (suc i) in
    if wants_more n d then round else some d

-- The loop that inserts the removed entries again.
pub put_back : List HostEntry → Index → Index
put_back [] ix = ix
put_back (e ∷ es) ix = put_back es (place e ix)

-- `SelectRandom`. A negative `n` selects no host, as 0 does.
pub select_random :
    (ℕ → ℕ → ℕ) → ℕ → List SiaPublicKey → HostTree → Option (List HostDbEntry × HostTree)
select_random rand n ignore ht = do
  d ← withhold (ignore ++ ht.blacklist) (record { index = ht.index; hosts = []; removed = [] })
  d' ← draws rand n (length d.index.hosts) 0 d
  some (d'.hosts, record ht { index = put_back d'.removed d'.index })

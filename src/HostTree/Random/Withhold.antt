-- ===== src/HostTree/Random/Withhold.antt =====
-- hosttree.go, `SelectRandom`: the loop that takes the ignored hosts out.
use sia_hostdb_profiles.Prelude.{
  ℕ, ◌≡◌, refl, inl, inr, true, none, some, List, [], ◌∷◌, ◌++◌, arith, ◌==◌, Bool-cases,
  Option-cases,
}
use sia_hostdb_profiles.Prelude.Dict.{lookup}
use sia_hostdb_profiles.HostEntry.{SiaPublicKey}
use sia_hostdb_profiles.HostTree.Node.{HostEntry}
use sia_hostdb_profiles.HostTree.Index.{Index}
use sia_hostdb_profiles.HostTree.Index.Invariant.{take_out-TakenOut}
use sia_hostdb_profiles.HostTree.Index.Find.{find, find-take_out}
use sia_hostdb_profiles.HostTree.Tree.{is_blacklisted}
use sia_hostdb_profiles.HostTree.Random.{Draw, withhold}
use sia_hostdb_profiles.HostTree.Random.Keys.{among, among-append}
use sia_hostdb_profiles.HostTree.Random.Drawing.{IsPartition, take_out-IsPartition}

-- What the loop over `pks` leaves, of a list `ignored`.
pub record Withheld (start : Index) (ignored pks : List SiaPublicKey) (d d' : Draw) : Type 0 where
  pub part : IsPartition start d'.index d'.removed
  pub same_hosts : d'.hosts ≡ d.hosts
  pub falls : (k : ℕ) → find k d.index ≡ none → find k d'.index ≡ none
  pub gone : (k : ℕ) → is_blacklisted k pks ≡ true → find k d'.index ≡ none
  pub out : (k : ℕ) (e : HostEntry) → among k d'.removed ≡ some e → is_blacklisted k ignored ≡ true

pub withhold-Withheld :
    (start : Index) (ignored pks : List SiaPublicKey) (d : Draw)
    → IsPartition start d.index d.removed
    → ((k : ℕ) → is_blacklisted k pks ≡ true → is_blacklisted k ignored ≡ true)
    → ((k : ℕ) (e : HostEntry) → among k d.removed ≡ some e → is_blacklisted k ignored ≡ true)
    → (d' : Draw) × (withhold pks d ≡ some d') × Withheld start ignored pks d d'
unfolding withhold is_blacklisted
withhold-Withheld start ignored [] d part sub out = (
  d,
  refl,
  record { part = part; same_hosts = refl; falls = λ k h. h; gone = λ k h. cc; out = out },
)
withhold-Withheld start ignored (pk ∷ pks) d part sub out =
    elim (Option-cases (lookup pk.key d.index.hosts)) [
      | inl absent ↦
          let (d', ran, held) =
            withhold-Withheld start ignored pks d part (λ k h. sub k (ground arith)) out in
          (
            d',
            rw (absent, withhold) ran,
            record {
              part = held.part;
              same_hosts = held.same_hosts;
              falls = held.falls;
              gone = λ k h. elim (Bool-cases (k == pk.key)) [
                | inl its ↦ let same : k ≡ pk.key = ground arith in held.falls k (rw (same, absent))
                | inr other ↦ held.gone k (ground arith)
              ];
              out = held.out;
            },
          )
      | inr (p, found) ↦
          let ((e, ix), ran, taken) = take_out-TakenOut pk.key p d.index part.valid found in
          let left = (find-take_out pk.key d.index (e, ix) taken).1 in
          let next : Draw = record d { index = ix; removed = d.removed ++ e ∷ [] } in
          let (d', ran', held) =
            withhold-Withheld start ignored pks next
              (take_out-IsPartition start d.index d.removed pk.key e ix part taken)
              (λ k h. sub k (ground arith))
              (λ k f h.
                ground (arith, among-append k d.removed e, out k f, sub k, taken.its_key)) in
          (
            d',
            rw (found, ran, withhold) ran',
            record {
              part = held.part;
              same_hosts = held.same_hosts;
              falls = λ k h. held.falls k (ground (arith, left k));
              gone = λ k h. elim (Bool-cases (k == pk.key)) [
                | inl its ↦ held.falls k (ground (arith, left k))
                | inr other ↦ held.gone k (ground arith)
              ];
              out = held.out;
            },
          )
    ]

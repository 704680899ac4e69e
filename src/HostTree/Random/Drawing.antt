-- ===== src/HostTree/Random/Drawing.antt =====
-- hosttree.go, `SelectRandom`: what holds while the call takes hosts out of the tree.
use sia_hostdb_profiles.Prelude.{
  ℕ, ◌≡◌, ◌≢◌, inl, inr, none, some, List, [], ◌∷◌, ◌++◌, arith, ◌==◌, if◌then◌else◌, Option-cases,
}
use sia_hostdb_profiles.Prelude.Dict.{lookup}
use sia_hostdb_profiles.HostTree.Node.{HostEntry}
use sia_hostdb_profiles.HostTree.Index.{Index, key, place}
use sia_hostdb_profiles.HostTree.Index.Invariant.{IsValid, TakenOut, place-IsValid}
use sia_hostdb_profiles.HostTree.Index.Find.{find, find-take_out, find-place, lookup_of_find-none}
use sia_hostdb_profiles.HostTree.Random.{put_back}
use sia_hostdb_profiles.HostTree.Random.Keys.{
  among, or_else, IsUnique, among-append, append-IsUnique,
}

-- The hosts of `start` are those in the tree and those that are out of it, each in one place.
pub record IsPartition (start : Index) (ix : Index) (removed : List HostEntry) : Type 0 where
  pub valid : IsValid ix
  pub unique : IsUnique removed
  pub whole : (k : ℕ) → or_else (find k ix) (among k removed) ≡ find k start
  pub apart : (k : ℕ) → find k ix ≢ none → among k removed ≡ none

-- Taking one more host out keeps the partition.
pub take_out-IsPartition :
    (start ix : Index) (removed : List HostEntry) (k : ℕ) (e : HostEntry) (ix' : Index)
    → IsPartition start ix removed
    → TakenOut k ix (e, ix')
    → IsPartition start ix' (removed ++ e ∷ [])
take_out-IsPartition start ix removed k e ix' part taken = record {
  valid = taken.valid;
  unique = append-IsUnique removed e part.unique (ground (arith, free, taken.its_key));
  whole = λ j.
      ground (arith, left j, among-append j removed e, part.whole j, here, free, taken.its_key);
  apart = λ j listed. ground (arith, left j, among-append j removed e, part.apart j, taken.its_key);
}
  where
    here : find k ix ≡ some e
    here = (find-take_out k ix (e, ix') taken).0

    left : (j : ℕ) → find j ix' ≡ (if j == k then none else find j ix)
    left = (find-take_out k ix (e, ix') taken).1

    free : among k removed ≡ none
    free = part.apart k (λ gone. cc (here, gone))

-- Putting the first entry that is out back keeps the partition.
place-IsPartition :
    (start ix : Index) (e : HostEntry) (es : List HostEntry)
    → IsPartition start ix (e ∷ es)
    → IsPartition start (place e ix) es
unfolding among
place-IsPartition start ix e es part = record {
  valid = place-IsValid e ix part.valid free;
  unique = part.unique.1;
  whole = λ k. ground (arith, at k, part.whole k, gone, part.unique.0);
  apart = λ k there. ground (arith, at k, part.apart k, part.unique.0);
}
  where
    gone : find (key e.host) ix ≡ none
    gone = elim (Option-cases (find (key e.host) ix)) [
      | inl h ↦ h
      | inr (f, h) ↦ absurd (ground (arith, part.apart (key e.host)))
    ]

    free : lookup (key e.host) ix.hosts ≡ none
    free = lookup_of_find-none (key e.host) ix part.valid gone

    at : (k : ℕ) → find k (place e ix) ≡ (if k == key e.host then some e else find k ix)
    at = find-place e ix part.valid free

-- With all entries put back, every key leads to the host that it led to at the start.
pub put_back_restores :
    (start ix : Index) (es : List HostEntry)
    → IsPartition start ix es
    → IsValid (put_back es ix) × ((k : ℕ) → find k (put_back es ix) ≡ find k start)
unfolding put_back among
put_back_restores start ix [] part = (part.valid, λ k. ground (arith, part.whole k))
put_back_restores start ix (e ∷ es) part =
    put_back_restores start (place e ix) es (place-IsPartition start ix e es part)

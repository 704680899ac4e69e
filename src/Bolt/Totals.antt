-- ===== src/Bolt/Totals.antt =====
-- The sum of a measure over the values in a bucket, and how Put and Delete change it.
use sia_hostdb_profiles.Prelude.{ℕ, ◌+◌, ◌≡◌, ap, none, some, arith, sum_of, sum_of-perm}
use sia_hostdb_profiles.Bolt.{Bolt}

module _ ⦃bolt : Bolt⦄ {V : Type 0} (f : V → ℕ) where
  abbrev pub on_pair : ℕ × V → ℕ
  on_pair e = f e.1

  unfoldable pub total : bolt.Bucket V → ℕ
  total b = sum_of on_pair (bolt.entries b)

  pub total-empty : total bolt.empty ≡ 0
  unfolding total
  total-empty = ap (sum_of on_pair) bolt.entries-empty

  module _ (k : ℕ) (v : V) (b : bolt.Bucket V) where
    pub total-put_new : bolt.get k b ≡ none → total (bolt.put k v b) ≡ f v + total b
    unfolding total
    total-put_new new = omega (
      arith,
      sum_of-perm on_pair (bolt.entries-put k v b),
      sum_of-perm on_pair (bolt.entries-absent k b new),
    )

    pub total-delete : bolt.get k b ≡ some v → f v + total (bolt.delete k b) ≡ total b
    unfolding total
    total-delete there = omega (arith, sum_of-perm on_pair (bolt.entries-delete k v b there))

    pub total-replace :
        (w : V) → bolt.get k b ≡ some w → total (bolt.put k v b) + f w ≡ f v + total b
    unfolding total
    total-replace w there = omega (
      arith,
      sum_of-perm on_pair (bolt.entries-put k v b),
      sum_of-perm on_pair (bolt.entries-delete k w b there),
    )

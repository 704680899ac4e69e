-- ===== src/Bolt/Entries.antt =====
-- What ForEach goes through: every key once. A loop over the pairs of a bucket that deletes each of
-- them leaves it empty.
use sia_hostdb_profiles.Prelude.{
  ℕ, ◌≡◌, ◌≢◌, ◌≤◌, refl, List, [], ◌∷◌, none, some, All, All-imp, arith, ◌==◌, if◌then◌else◌,
  sum_of, sum_of-perm, Option-cases, inl, inr,
}
use sia_hostdb_profiles.Bolt.{Bolt}
use sia_hostdb_profiles.Bolt.Totals.{total, on_pair, total-delete}

module _ {V : Type 0} where
  -- The keys are different.
  abbrev pub AreApart : List (ℕ × V) → Type 0
  AreApart [] = Unit
  AreApart (e ∷ es) = All (λ (d : ℕ × V). d.0 ≢ e.0) es × AreApart es

  abbrev has_key : ℕ → ℕ × V → ℕ
  has_key k e = if e.0 == k then 1 else 0

  count_zero :
      (k : ℕ) (es : List (ℕ × V)) → All (λ (d : ℕ × V). d.0 ≢ k) es → sum_of (has_key k) es ≡ 0
  count_zero k [] h = refl
  count_zero k (e ∷ es) h = ground (arith, count_zero k es h.1, h.0)

  zero_count :
      (k : ℕ) (es : List (ℕ × V)) → sum_of (has_key k) es ≡ 0 → All (λ (d : ℕ × V). d.0 ≢ k) es
  zero_count k [] h = tt
  zero_count k (e ∷ es) h = (λ same. ground (arith, h, same), zero_count k es (omega (arith, h)))

  counts-AreApart : (es : List (ℕ × V)) → ((k : ℕ) → sum_of (has_key k) es ≤ 1) → AreApart es
  counts-AreApart [] h = tt
  counts-AreApart (e ∷ es) h =
      (zero_count e.0 es (ground (arith, h e.0)), counts-AreApart es (λ k. omega (arith, h k)))

module _ ⦃bolt : Bolt⦄ {V : Type 0} where
  entries-count : (k : ℕ) (b : bolt.Bucket V) → sum_of (has_key k) (bolt.entries b) ≤ 1
  entries-count k b = elim (Option-cases (bolt.get k b)) [
    | inl absent ↦ omega (
      arith,
      count_zero k (bolt.entries b) (
          All-imp _ _ (bolt.entries b) (λ e at. λ same. ground (arith, at, absent, same))
            (bolt.entries-get b)),
    )
    | inr (v, at) ↦ ground (
      arith,
      sum_of-perm (has_key k) (bolt.entries-delete k v b at),
      count_zero k (bolt.entries (bolt.delete k b)) (
          All-imp _ _ (bolt.entries (bolt.delete k b))
            (λ e there. λ same. ground (arith, there, bolt.get-delete e.0 k b, same))
            (bolt.entries-get (bolt.delete k b))),
    )
  ]

  pub entries-AreApart : (b : bolt.Bucket V) → AreApart (bolt.entries b)
  entries-AreApart b = counts-AreApart (bolt.entries b) (λ k. entries-count k b)

  -- The pairs are in the bucket.
  abbrev pub AreIn : List (ℕ × V) → bolt.Bucket V → Type 0
  AreIn es b = All (λ (e : ℕ × V). bolt.get e.0 b ≡ some e.1) es

  pub delete-AreIn :
      (k : ℕ) (es : List (ℕ × V)) (b : bolt.Bucket V)
      → All (λ (d : ℕ × V). d.0 ≢ k) es
      → AreIn es b
      → AreIn es (bolt.delete k b)
  delete-AreIn k [] b other h = tt
  delete-AreIn k (e ∷ es) b other h =
      (ground (arith, bolt.get-delete e.0 k b, other.0, h.0), delete-AreIn k es b other.1 h.1)

  -- A bucket without a value of a positive measure is empty.
  pub total_zero-absent :
      (b : bolt.Bucket V) → total (λ (v : V). 1) b ≡ 0 → (k : ℕ) → bolt.get k b ≡ none
  total_zero-absent b h k = elim (Option-cases (bolt.get k b)) [
    | inl absent ↦ absent
    | inr (v, at) ↦ absurd (omega (arith, h, total-delete (λ (v : V). 1) k v b at))
  ]

  pub total_list : (f : V → ℕ) (b : bolt.Bucket V) → total f b ≡ sum_of (on_pair f) (bolt.entries b)
  unfolding total
  total_list f b = refl

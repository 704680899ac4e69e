-- ===== src/Bolt/Pairs.antt =====
-- A bucket as a list of pairs with different keys: it obeys what is assumed of buckets.
use sia_hostdb_profiles.Prelude.{
  ℕ, ◌≡◌, refl, [], ◌∷◌, Perm, none, some, All, arith, ◌==◌, Bool-cases, inl, inr,
}
use mathlib.Core.List.Perm
use sia_hostdb_profiles.Prelude.Dict.{
  AreDistinct, insert-AreDistinct, delete-AreDistinct, Dict, lookup, insert, delete, lookup-insert,
  lookup-delete,
}
use sia_hostdb_profiles.Bolt.{Bolt}

module _ {V : Type 0} where
  pub delete_absent : (k : ℕ) (d : Dict V) → lookup k d ≡ none → delete k d ≡ d
  delete_absent k [] h = refl
  delete_absent k ((j, w) ∷ d) h = ground (arith, delete_absent k d)

  pub insert-Perm :
      (k : ℕ) (v : V) (d : Dict V) → AreDistinct d → Perm (insert k v d) ((k, v) ∷ delete k d)
  insert-Perm k v [] h = Perm.refl ((k, v) ∷ [])
  insert-Perm k v ((j, w) ∷ d) h = elim (Bool-cases (k == j)) [
    | inl its ↦
        let gone : lookup k d ≡ none = ground (arith, h.0) in
        rw (its, delete_absent k d gone) (Perm.refl ((k, v) ∷ d))
    | inr other ↦ rw other (
        Perm.trans (Perm.cons (j, w) (insert-Perm k v d h.1))
          (Perm.swap (k, v) (j, w) (delete k d)))
  ]

  pub delete-Perm :
      (k : ℕ) (v : V) (d : Dict V)
      → AreDistinct d
      → lookup k d ≡ some v
      → Perm d ((k, v) ∷ delete k d)
  delete-Perm k v [] h there = cc
  delete-Perm k v ((j, w) ∷ d) h there = elim (Bool-cases (k == j)) [
    | inl its ↦
        let gone : lookup k d ≡ none = ground (arith, h.0) in
        let key : j ≡ k = ground arith in
        let value : w ≡ v = ground arith in
        rw (its, delete_absent k d gone, key, value) (Perm.refl ((k, v) ∷ d))
    | inr other ↦
        let rest : lookup k d ≡ some v = ground arith in
        rw other (
          Perm.trans (Perm.cons (j, w) (delete-Perm k v d h.1 rest))
            (Perm.swap (k, v) (j, w) (delete k d)))
  ]

  lookup_later :
      (j : ℕ) (w : V) (d xs : Dict V)
      → lookup j d ≡ none
      → All (λ (e : ℕ × V). lookup e.0 d ≡ some e.1) xs
      → All (λ (e : ℕ × V). lookup e.0 ((j, w) ∷ d) ≡ some e.1) xs
  lookup_later j w d [] new h = tt
  lookup_later j w d ((k, v) ∷ xs) new h = (ground (arith, h.0), lookup_later j w d xs new h.1)

  pub lookup_each : (d : Dict V) → AreDistinct d → All (λ (e : ℕ × V). lookup e.0 d ≡ some e.1) d
  lookup_each [] h = tt
  lookup_each ((k, v) ∷ d) h = (ground arith, lookup_later k v d d h.0 (lookup_each d h.1))

-- Buckets as lists of pairs.
instance abbrev pub pairs : Bolt
pairs = record {
  Bucket = λ V. (d : Dict V) × AreDistinct d;
  empty = ([], tt);
  get = λ k b. lookup k b.0;
  put = λ k v b. (insert k v b.0, insert-AreDistinct k v b.0 b.1);
  delete = λ k b. (delete k b.0, delete-AreDistinct k b.0 b.1);
  entries = λ b. b.0;
  get-empty = λ k. refl;
  get-put = λ j k v b. lookup-insert j k v b.0;
  get-delete = λ j k b. lookup-delete j k b.0;
  entries-get = λ b. lookup_each b.0 b.1;
  entries-empty = refl;
  entries-put = λ k v b. insert-Perm k v b.0 b.1;
  entries-delete = λ k v b h. delete-Perm k v b.0 b.1 h;
  entries-absent = λ k b h. rw (delete_absent k b.0 h) (Perm.refl b.0);
}

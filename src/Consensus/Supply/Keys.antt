-- ===== src/Consensus/Supply/Keys.antt =====
-- applytransaction.go: the keys that a transaction adds to a bucket. Ids are hashes, so it is
-- assumed of them that no two are equal and that none is in use.
use sia_hostdb_profiles.Prelude.{ℕ, ◌≡◌, ◌≢◌, List, [], ◌∷◌, none, All, arith}
use sia_hostdb_profiles.Bolt.{Bolt}

module _ ⦃bolt : Bolt⦄ {V : Type 0} where
  -- The keys are different and not in the bucket.
  abbrev pub AreNew : List ℕ → bolt.Bucket V → Type 0
  AreNew [] b = Unit
  AreNew (k ∷ ks) b = (bolt.get k b ≡ none) × All (λ j. j ≢ k) ks × AreNew ks b

  pub put-AreNew :
      (k : ℕ) (v : V) (ks : List ℕ) (b : bolt.Bucket V)
      → All (λ j. j ≢ k) ks
      → AreNew ks b
      → AreNew ks (bolt.put k v b)
  put-AreNew k v [] b other new = tt
  put-AreNew k v (j ∷ ks) b other new = (
    ground (arith, bolt.get-put j k v b, other.0, new.0),
    new.1,
    put-AreNew k v ks b other.1 new.2,
  )

  pub delete-AreNew :
      (k : ℕ) (ks : List ℕ) (b : bolt.Bucket V) → AreNew ks b → AreNew ks (bolt.delete k b)
  delete-AreNew k [] b new = tt
  delete-AreNew k (j ∷ ks) b new =
      (ground (arith, bolt.get-delete j k b, new.0), new.1, delete-AreNew k ks b new.2)

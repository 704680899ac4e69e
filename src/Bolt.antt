-- ===== src/Bolt.antt =====
-- github.com/coreos/bbolt, as far as modules/consensus uses it: buckets of pairs with different
-- keys, and what its documentation says of Get, Put, Delete and ForEach. The package is not part of
-- the repository. A bucket holds decoded values here, since each is decoded where it is read.
pub mod Totals
pub mod Entries
pub mod Pairs
use sia_hostdb_profiles.Prelude.{
  ℕ, ◌≡◌, List, [], ◌∷◌, Perm, Option, none, some, All, ◌==◌, if◌then◌else◌,
}

pub record Bolt : Type 1 where
  pub Bucket : Type 0 → Type 0
  pub empty : {V : Type 0} → Bucket V
  pub get : {V : Type 0} → ℕ → Bucket V → Option V
  pub put : {V : Type 0} → ℕ → V → Bucket V → Bucket V
  pub delete : {V : Type 0} → ℕ → Bucket V → Bucket V
  -- The pairs in the order in which ForEach goes through them.
  pub entries : {V : Type 0} → Bucket V → List (ℕ × V)
  pub get-empty : {V : Type 0} (k : ℕ) → get {V = V} k empty ≡ none
  pub get-put :
      {V : Type 0} (j k : ℕ) (v : V) (b : Bucket V)
      → get j (put k v b) ≡ (if j == k then some v else get j b)
  pub get-delete :
      {V : Type 0} (j k : ℕ) (b : Bucket V)
      → get j (delete k b) ≡ (if j == k then none else get j b)
  pub entries-get :
      {V : Type 0} (b : Bucket V) → All (λ (e : ℕ × V). get e.0 b ≡ some e.1) (entries b)
  pub entries-empty : {V : Type 0} → entries {V = V} empty ≡ []
  pub entries-put :
      {V : Type 0} (k : ℕ) (v : V) (b : Bucket V)
      → Perm (entries (put k v b)) ((k, v) ∷ entries (delete k b))
  pub entries-delete :
      {V : Type 0} (k : ℕ) (v : V) (b : Bucket V)
      → get k b ≡ some v
      → Perm (entries b) ((k, v) ∷ entries (delete k b))
  pub entries-absent :
      {V : Type 0} (k : ℕ) (b : Bucket V) → get k b ≡ none → Perm (entries (delete k b)) (entries b)

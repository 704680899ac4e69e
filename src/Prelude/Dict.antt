-- ===== src/Prelude/Dict.antt =====
-- A Go map as an association list. Go iterates over a map in no fixed order; where that order
-- shows, the code's components say so.
use Prim.Native.Nat.{ℕ, ◌≤◌, ◌<◌}
use mathlib.Core.Path.{◌≡◌, refl}
use mathlib.Core.Option.{Option, none, some}
use mathlib.Core.List.{List, [], ◌∷◌}
use native.Mathlib.Omega.{arith}
use sia_hostdb_profiles.Prelude.Tests.{◌==◌, if◌then◌else◌}
use sia_hostdb_profiles.Prelude.Lists.{length}

abbrev pub Dict {ℓ} : Type ℓ → Type ℓ
Dict V = List (ℕ × V)

module _ {ℓ} {V : Type ℓ} where
  -- `m[k]`
  abbrev pub lookup : ℕ → Dict V → Option V
  lookup k [] = none
  lookup k ((j, v) ∷ d) = if k == j then some v else lookup k d

  -- `m[k] = v`
  abbrev pub insert : ℕ → V → Dict V → Dict V
  insert k v [] = (k, v) ∷ []
  insert k v ((j, w) ∷ d) = if k == j then (k, v) ∷ d else (j, w) ∷ insert k v d

  -- `delete(m, k)`
  abbrev pub delete : ℕ → Dict V → Dict V
  delete k [] = []
  delete k ((j, w) ∷ d) = let rest = delete k d in if k == j then rest else (j, w) ∷ rest

  pub lookup-insert :
      (j k : ℕ) (v : V) (d : Dict V)
      → lookup j (insert k v d) ≡ (if j == k then some v else lookup j d)
  lookup-insert j k v [] = refl
  lookup-insert j k v ((i, w) ∷ d) = ground (arith, lookup-insert j k v d)

  pub lookup-delete :
      (j k : ℕ) (d : Dict V) → lookup j (delete k d) ≡ (if j == k then none else lookup j d)
  lookup-delete j k [] = ground arith
  lookup-delete j k ((i, w) ∷ d) = ground (arith, lookup-delete j k d)

  pub length-delete_le : (k : ℕ) (d : Dict V) → length (delete k d) ≤ length d
  length-delete_le k [] = omega arith
  length-delete_le k ((i, w) ∷ d) = ground (arith, length-delete_le k d)

  -- Deleting a key that is there shortens the list.
  pub length-delete_lt :
      (k : ℕ) (v : V) (d : Dict V) → lookup k d ≡ some v → length (delete k d) < length d
  length-delete_lt k v [] h = cc
  length-delete_lt k v ((i, w) ∷ d) h = ground (arith, length-delete_le k d, length-delete_lt k v d)

module _ {V : Type 0} where
  -- No key stands twice.
  abbrev pub AreDistinct : Dict V → Type 0
  AreDistinct [] = Unit
  AreDistinct ((k, v) ∷ d) = (lookup k d ≡ none) × AreDistinct d

  pub insert-AreDistinct : (k : ℕ) (v : V) (d : Dict V) → AreDistinct d → AreDistinct (insert k v d)
  insert-AreDistinct k v [] h = (refl, tt)
  insert-AreDistinct k v ((j, w) ∷ d) h =
      ground (arith, insert-AreDistinct k v d h.1, lookup-insert j k v d)

  pub delete-AreDistinct : (k : ℕ) (d : Dict V) → AreDistinct d → AreDistinct (delete k d)
  delete-AreDistinct k [] h = tt
  delete-AreDistinct k ((j, w) ∷ d) h =
      ground (arith, delete-AreDistinct k d h.1, lookup-delete j k d)

-- ===== src/Encoding/Digits.antt =====
-- encoding/integers.go and math/big: the bytes of a number give the number back.
use sia_hostdb_profiles.Prelude.{
  ℕ, zero, suc, ◌/◌, ◌^◌, ◌≤◌, ◌<◌, ◌≡◌, refl, List, [], ◌∷◌, arith, length, length-append,
}
use mathlib.Core.List.{reverse, reverse-cons}
use sia_hostdb_profiles.Encoding.{little_endian, little_value, digits}

pub length-little_endian : (w u : ℕ) → length (little_endian w u) ≡ w
unfolding little_endian
length-little_endian zero u = refl
length-little_endian (suc w) u = omega (arith, length-little_endian w (u / 256))

pub little_value-little_endian : (w u : ℕ) → u < 256 ^ w → little_value (little_endian w u) ≡ u
unfolding little_endian little_value
little_value-little_endian zero u h = omega (arith, h)
little_value-little_endian (suc w) u h =
    omega (arith, little_value-little_endian w (u / 256) (omega (arith, h)))

pub little_value-digits : (fuel u : ℕ) → u ≤ fuel → little_value (digits fuel u) ≡ u
unfolding little_value digits
little_value-digits fuel zero h = refl
little_value-digits zero (suc u) h = absurd (omega (arith, h))
little_value-digits (suc fuel) (suc u) h =
    omega (arith, little_value-digits fuel (suc u / 256) (omega (arith, h)))

pub length-reverse {ℓ} : {A : Type ℓ} (xs : List A) → length (reverse xs) ≡ length xs
length-reverse [] = refl
length-reverse (x ∷ xs) =
    rw (reverse-cons x xs) (omega (arith, length-append (reverse xs) (x ∷ []), length-reverse xs))

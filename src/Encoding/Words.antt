-- ===== src/Encoding/Words.antt =====
-- encoding.go, `Currency.MarshalSiaSize`: the loop over the words of a number finds how many bytes the
-- number has.
use sia_hostdb_profiles.Prelude.{
  ℕ, zero, suc, ◌+◌, ◌/◌, ◌%◌, ◌^◌, ◌≤◌, ◌<◌, ◌≡◌, refl, sym, ap, ◌∙◌, List, [], ◌∷◌, ◌++◌, false,
  ◌==◌, ltb, arith, length, length-append, Bool-cases, inl, inr, if◌then◌else◌,
}
use native.Mathlib.Nat.{div-eq_of_lt, div-lt_iff_lt-mul}
use mathlib.Core.List.{reverse, reverse-cons}
use sia_hostdb_profiles.Encoding.{digits}
use sia_hostdb_profiles.Encoding.Types.{words, word_bytes, size_from}

-- As long as there is enough fuel, its amount does not matter.
digits_fuel : (f g u : ℕ) → u ≤ f → u ≤ g → digits f u ≡ digits g u
unfolding digits
digits_fuel f g zero hf hg = refl
digits_fuel zero g (suc u) hf hg = absurd (omega (arith, hf))
digits_fuel (suc f) zero (suc u) hf hg = absurd (omega (arith, hg))
digits_fuel (suc f) (suc g) (suc u) hf hg =
    ap (λ ds. suc u % 256 ∷ ds)
      (digits_fuel f g (suc u / 256) (omega (arith, hf)) (omega (arith, hg)))

digits_step :
    (f g u : ℕ)
    → 0 < u
    → u ≤ f
    → u / 256 ≤ g
    → length (digits f u) ≡ suc (length (digits g (u / 256)))
unfolding digits
digits_step f g zero pos hf hg = absurd (omega (arith, pos))
digits_step zero g (suc u) pos hf hg = absurd (omega (arith, hf))
digits_step (suc f) g (suc u) pos hf hg =
    omega (arith, ap length (digits_fuel f g (suc u / 256) (omega (arith, hf)) hg))

digits_zero : (f u : ℕ) → u ≡ 0 → length (digits f u) ≡ 0
unfolding digits
digits_zero f zero h = refl
digits_zero f (suc u) h = absurd (omega (arith, h))

digits_exact : (j f u : ℕ) → u ≤ f → 256 ^ j ≤ u → u < 256 ^ suc j → length (digits f u) ≡ suc j
digits_exact zero f u hf low high = omega (
  arith,
  digits_step f 0 u (omega (arith, low)) hf (omega (arith, high)),
  digits_zero 0 (u / 256) (omega (arith, high)),
)
digits_exact (suc j) f u hf low high = omega (
  arith,
  digits_step f f u (omega (arith, low)) hf (omega (arith, hf)),
  digits_exact j f (u / 256) (omega (arith, hf)) (omega (arith, low)) (omega (arith, high)),
)

div_some : (u d : ℕ) → 0 < d → d ≤ u → 1 ≤ u / d
div_some u d pos le = elim (Bool-cases (ltb (u / d) 1)) [
  | inl none_left ↦
      absurd
        (omega (arith, (div-lt_iff_lt-mul {x = u} {y = 1} pos).0 (ground (arith, none_left)), le))
  | inr some_left ↦ ground (arith, some_left)
]

-- Where a number has at most `j` bytes, the inner loop finds how many.
digits-word_bytes : (j f u : ℕ) → u ≤ f → u < 256 ^ j → length (digits f u) ≡ word_bytes u j
unfolding word_bytes
digits-word_bytes zero f u hf high = digits_zero f u (omega (arith, high))
digits-word_bytes (suc j) f u hf high = elim (Bool-cases (ltb u (256 ^ j))) [
  | inl below ↦
      let small : u < 256 ^ j = ground (arith, below) in
      let none_left : u / 256 ^ j ≡ 0 = div-eq_of_lt small in
      rw none_left (digits-word_bytes j f u hf small)
  | inr above ↦
      let large : 256 ^ j ≤ u = ground (arith, above) in
      let some_left : (u / 256 ^ j == 0) ≡ false =
        ground (arith, div_some u (256 ^ j) (omega arith) large) in
      rw some_left (digits_exact j f u hf large high)
]

-- What is left of a number without its lowest bytes.
abbrev shift : ℕ → ℕ → ℕ
shift zero u = u
shift (suc j) u = shift j (u / 256)

power_positive : (j : ℕ) → 0 < 256 ^ j
power_positive zero = omega arith
power_positive (suc j) = omega (arith, power_positive j)

digits-shift :
    (j f u : ℕ) → u ≤ f → 256 ^ j ≤ u → length (digits f u) ≡ j + length (digits f (shift j u))
digits-shift zero f u hf large = omega arith
digits-shift (suc j) f u hf large =
    let pos = power_positive j in
    let some_left : 0 < u = omega (arith, pos, large) in
    omega (
      arith,
      digits_step f f u some_left hf (omega (arith, hf)),
      digits-shift j f (u / 256) (omega (arith, hf)) (omega (arith, large)),
    )

-- Eight bytes are a word.
digits_word :
    (f g u : ℕ)
    → 2 ^ 64 ≤ u
    → u ≤ f
    → u / 2 ^ 64 ≤ g
    → length (digits f u) ≡ 8 + length (digits g (u / 2 ^ 64))
digits_word f g u large hf hg =
    digits-shift 8 f u hf large
    ∙ ap (λ v. 8 + length (digits f v)) word
    ∙ ap (λ ds. 8 + length ds) (digits_fuel f g (u / 2 ^ 64) (omega (arith, hf)) hg)
  where
    word : shift 8 u ≡ u / 2 ^ 64
    word = omega arith

size_from-snoc :
    (bits : List ℕ) (word : ℕ)
    → size_from (bits ++ word ∷ [])
      ≡ (if size_from bits == 0 then word_bytes word 8 else 8 + size_from bits)
unfolding size_from
size_from-snoc [] word = ground arith
size_from-snoc (x ∷ bits) word =
    ground (arith, size_from-snoc bits word, length-append bits (word ∷ []))

-- Both loops count the bytes of the number.
pub words-digits :
    (f g u : ℕ) → u ≤ f → u ≤ g → size_from (reverse (words f u)) ≡ length (digits g u)
unfolding words size_from
words-digits f g zero hf hg = sym (digits_zero g 0 refl)
words-digits zero g (suc u) hf hg = absurd (omega (arith, hf))
words-digits (suc f) g (suc u) hf hg =
    ap size_from (reverse-cons (suc u % 2 ^ 64) (words f (suc u / 2 ^ 64)))
    ∙ size_from-snoc (reverse (words f (suc u / 2 ^ 64))) (suc u % 2 ^ 64)
    ∙ rw (words-digits f f (suc u / 2 ^ 64) (omega (arith, hf)) (omega (arith, hf)))
        (elim (Bool-cases (ltb (suc u) (2 ^ 64))) [
          | inl below ↦
              let small : suc u < 2 ^ 64 = ground (arith, below) in
              rw (digits_zero f (suc u / 2 ^ 64) (omega (arith, small))) (
                ap (λ w. word_bytes w 8) (omega (arith, small))
                ∙ sym (digits-word_bytes 8 g (suc u) hg small))
          | inr above ↦
              let large : 2 ^ 64 ≤ suc u = ground (arith, above) in
              ground (
                arith,
                digits_step f f (suc u / 2 ^ 64) (omega (arith, large)) (omega (arith, hf))
                    (omega (arith, hf)),
                digits_word g f (suc u) large hg (omega (arith, hf)),
              )
        ])

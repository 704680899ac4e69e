-- ===== src/Block/Coinbase.antt =====
-- types/block.go, `CalculateCoinbase` and `CalculateNumSiacoins`: the closed form is the sum of the
-- coinbases.
use sia_hostdb_profiles.Prelude.{
  ℕ, zero, suc, ◌+◌, ◌-◌, ◌*◌, ◌/◌, ◌%◌, ◌^◌, ◌≤◌, ◌<◌, ◌≡◌, refl, true, false, Bool-cases, ap, ◌∙◌,
  leb, arith, inl, inr,
}
use sia_hostdb_profiles.Currency.{Currency}
use sia_hostdb_profiles.Transaction.{BlockHeight}
use sia_hostdb_profiles.Block.{calculate_coinbase, calculate_num_siacoins}

-- The coinbases of the blocks up to a height.
unfoldable pub sum_coinbases : ℕ → BlockHeight → Currency
sum_coinbases minimum zero = calculate_coinbase minimum 0
sum_coinbases minimum (suc height) =
    sum_coinbases minimum height + calculate_coinbase minimum (suc height)

coinbase_early :
    (minimum height : ℕ)
    → height + minimum ≤ 300000
    → calculate_coinbase minimum height ≡ (300000 - height) * 10 ^ 24
unfolding calculate_coinbase
coinbase_early minimum height h = ground arith

coinbase_late :
    (minimum height : ℕ)
    → minimum ≤ 300000
    → 300000 ≤ height + minimum
    → height < 2 ^ 64
    → calculate_coinbase minimum height ≡ minimum * 10 ^ 24
unfolding calculate_coinbase
coinbase_late minimum height h late small = ground arith

-- Twice the closed form while the coinbase falls, with the coinbase at the last height `c`.
triangle :
    (minimum height c : ℕ)
    → height + c ≡ 300000
    → minimum ≤ c
    → 2 * sum_coinbases minimum height ≡ (300000 + c) * (height + 1) * 10 ^ 24
unfolding sum_coinbases
triangle minimum zero c h le = omega (arith, coinbase_early minimum 0 (omega (arith, h, le)), h)
triangle minimum (suc height) c h le =
    omega
      (arith, triangle minimum height (suc c) (omega (arith, h)) (omega (arith, le)), coinbase_at)
  where
    coinbase_at : calculate_coinbase minimum (suc height) ≡ c * 10 ^ 24
    coinbase_at = coinbase_early minimum (suc height) (omega (arith, h, le)) ∙ omega (arith, h)

-- Past the last fall, each block adds the same.
tail :
    (minimum n k height : ℕ)
    → n + minimum ≡ 300000
    → height ≡ n + k
    → height < 2 ^ 64
    → 2 * sum_coinbases minimum height
      ≡ (300000 + minimum) * (n + 1) * 10 ^ 24 + 2 * (k * (minimum * 10 ^ 24))
unfolding sum_coinbases
tail minimum n zero height at h small = omega (
  arith,
  triangle minimum height minimum (omega (arith, at, h)) (omega arith),
  ap (λ (t : ℕ). (300000 + minimum) * (t + 1)) h,
)
tail minimum n (suc k) zero at h small = absurd (omega (arith, h))
tail minimum n (suc k) (suc height) at h small = omega (
  arith,
  tail minimum n k height at (omega (arith, h)) (omega (arith, small)),
  coinbase_late minimum (suc height) (omega (arith, at)) (omega (arith, at, h)) small,
)

early_form :
    (minimum height : ℕ)
    → height + minimum ≤ 300000
    → calculate_num_siacoins minimum height
      ≡ (300000 + (300000 - height)) * (5 * 10 ^ 23) * (height + 1)
unfolding calculate_num_siacoins
early_form minimum height early =
    rw
      (
        deflation,
        coinbase_early minimum 0 (omega (arith, early)),
        coinbase_early minimum height early,
        before,
        average,
        height_up,
      )
      refl
  where
    deflation : (300000 + 2 ^ 64 - minimum) % 2 ^ 64 ≡ 300000 - minimum
    deflation = omega (arith, early)

    before : leb height (300000 - minimum) ≡ true
    before = ground (arith, early)

    average :
        ((300000 - 0) * 10 ^ 24 + (300000 - height) * 10 ^ 24) / 2
        ≡ (300000 + (300000 - height)) * (5 * 10 ^ 23)
    average = omega arith

    height_up : (height + 1) % 2 ^ 64 ≡ height + 1
    height_up = omega (arith, early)

late_form :
    (minimum height : ℕ)
    → minimum ≤ 300000
    → 300000 < height + minimum
    → height < 2 ^ 64
    → calculate_num_siacoins minimum height
      ≡ (300000 + minimum) * (5 * 10 ^ 23) * (300000 - minimum + 1)
        + (height - (300000 - minimum)) * (minimum * 10 ^ 24)
unfolding calculate_num_siacoins
late_form minimum height le late small =
    rw
      (
        deflation,
        coinbase_early minimum 0 (omega (arith, le)),
        coinbase_late minimum height le (omega (arith, late)) small,
        after,
        average,
        deflation_up,
      )
      refl
  where
    deflation : (300000 + 2 ^ 64 - minimum) % 2 ^ 64 ≡ 300000 - minimum
    deflation = omega (arith, le)

    after : leb height (300000 - minimum) ≡ false
    after = ground (arith, late)

    average : ((300000 - 0) * 10 ^ 24 + minimum * 10 ^ 24) / 2 ≡ (300000 + minimum) * (5 * 10 ^ 23)
    average = omega arith

    deflation_up : (300000 - minimum + 1) % 2 ^ 64 ≡ 300000 - minimum + 1
    deflation_up = omega (arith, le)

-- With a minimum that is at most the initial coinbase, CalculateNumSiacoins at a height below 2 ^ 64
-- gives the sum of the coinbases of all blocks up to the height.
pub calculate_num_siacoins_sums :
    (minimum height : ℕ)
    → minimum ≤ 300000
    → height < 2 ^ 64
    → calculate_num_siacoins minimum height ≡ sum_coinbases minimum height
calculate_num_siacoins_sums minimum height le small =
    elim (Bool-cases (leb (height + minimum) 300000)) [
      | inl early ↦
          let bound : height + minimum ≤ 300000 = ground (arith, early) in
          omega (
            arith,
            early_form minimum height bound,
            triangle minimum height (300000 - height) (omega (arith, bound)) (omega (arith, bound)),
          )
      | inr late ↦
          let bound : 300000 < height + minimum = ground (arith, late) in
          omega (
            arith,
            late_form minimum height le bound small,
            tail minimum (300000 - minimum) (height - (300000 - minimum)) height (omega (arith, le))
                (omega (arith, bound, le)) small,
          )
    ]

-- ===== src/Currency/Tax.antt =====
-- types/filecontracts.go: the siafund fee of a file contract.
use sia_hostdb_profiles.Prelude.{ℕ, ◌+◌, ◌*◌, ◌%◌, ◌≤◌, ◌≡◌, arith, if_rule, ltb}
use sia_hostdb_profiles.Currency.{
  Currency, sub, mul_rat, mul_tax, round_down, siafund_count, tax, post_tax,
}

tax_bounds :
    (hardfork height : ℕ) (payout : Currency)
    → (tax hardfork height payout % siafund_count ≡ 0)
      × (tax hardfork height payout * 1000 ≤ payout * 40)
unfolding tax mul_rat mul_tax round_down
tax_bounds hardfork height payout =
    if_rule (λ (fee : ℕ). (fee % 10000 ≡ 0) × (fee * 1000 ≤ payout * 40)) (ltb height hardfork)
      (λ _. (omega arith, omega arith)) (λ _. (omega arith, omega arith))

-- The siafund fee is a whole number of hastings for each of the 10,000 siafunds and at most a
-- twenty-fifth of the payout, before and after the hardfork; what is left after the fee and the
-- fee make up the payout.
pub tax_correct :
    (hardfork height : ℕ) (payout : Currency)
    → (tax hardfork height payout % siafund_count ≡ 0)
      × (tax hardfork height payout * 1000 ≤ payout * 40)
      × (post_tax hardfork height payout + tax hardfork height payout ≡ payout)
unfolding post_tax sub
tax_correct hardfork height payout =
    let (whole, small) = tax_bounds hardfork height payout in (whole, small, ground arith)

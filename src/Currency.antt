-- ===== src/Currency.antt =====
-- types/currency.go: amounts of siacoins and siafunds. A `big.Int` that is never negative is a
-- native number of any size. `Add`, `Mul`, `Mul64`, `Cmp` and `Equals` are those of the numbers.
pub mod Tax
use sia_hostdb_profiles.Prelude.{
  ℕ, ◌+◌, ◌-◌, ◌*◌, ◌/◌, ◌%◌, ◌^◌, Bool, Option, none, some, ltb, ◌==◌, if◌then◌else◌,
}

abbrev pub Currency : Type 0
Currency = ℕ

-- `Sub`. Below zero the code reports a critical error, which is printed in a release build, and
-- gives ZeroCurrency.
unfoldable pub sub : Currency → Currency → Currency
sub x y = if ltb x y then 0 else x - y

-- `Div` and `Div64`; `none` is the panic of `big.Int.Div` at zero.
pub div : Currency → Currency → Option Currency
div x y = if y == 0 then none else some (x / y)

-- `MulRat` at a rational with the numerator `n` and the denominator `d`, which is above zero, and
-- `MulFloat` at a float64 of that value.
unfoldable pub mul_rat : Currency → ℕ → ℕ → Currency
mul_rat x n d = x * n / d

-- `MulTax`
unfoldable pub mul_tax : Currency → Currency
mul_tax x = x * 39 / 1000

-- `RoundDown`, at a `y` above zero.
unfoldable pub round_down : Currency → Currency → Currency
round_down x y = x - x % y

-- `IsZero`
abbrev pub is_zero : Currency → Bool
is_zero x = x == 0

-- `Uint64`; `none` is ErrUint64Overflow.
pub uint64 : Currency → Option ℕ
uint64 x = if ltb (2 ^ 64 - 1) x then none else some x

abbrev pub siafund_count : Currency
siafund_count = 10000

-- filecontracts.go, `Tax`, with TaxHardforkHeight, which differs between builds. Before that height
-- the code multiplies by the float64 that is nearest to 0.039, of just this value.
unfoldable pub tax : ℕ → ℕ → Currency → Currency
tax hardfork height payout =
    if ltb height hardfork
    then round_down (mul_rat payout 5620492334958379 144115188075855872) siafund_count
    else round_down (mul_tax payout) siafund_count

-- filecontracts.go, `PostTax`
unfoldable pub post_tax : ℕ → ℕ → Currency → Currency
post_tax hardfork height payout = sub payout (tax hardfork height payout)

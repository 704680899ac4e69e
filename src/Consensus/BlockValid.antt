-- ===== src/Consensus/BlockValid.antt =====
-- consensus/block_validation.go and block_rules.go: the checks on a block that do not need the
-- transactions to be applied. The encoded size of the block and the time of the clock are arguments;
-- the size limit and the thresholds, which differ between builds, are parameters. An id and a target
-- are read as numbers of 32 bytes, the first the highest.
pub mod Exact
use sia_hostdb_profiles.Prelude.{
  ℕ, zero, suc, ◌+◌, ◌/◌, ◌%◌, ◌^◌, ◌≡◌, refl, List, [], ◌∷◌, Option, none, some, Bool, true, false,
  not, ltb, leb, ◌==◌, if◌then◌else◌,
}
use sia_hostdb_profiles.Prelude.Options.{◌>>=◌}
use sia_hostdb_profiles.Currency.{Currency, is_zero}
use sia_hostdb_profiles.Transaction.{Hash, BlockHeight, SiacoinOutput}
use sia_hostdb_profiles.Block.{Block, calculate_subsidy}

pub data BlockError : Type 0 where
  bad_miner_payouts early_timestamp extreme_future_timestamp future_timestamp : BlockError
  large_block block_unsolved : BlockError

pub record Limits : Type 0 where
  pub block_size_limit : ℕ
  pub extreme_future_threshold : ℕ
  pub future_threshold : ℕ
  pub minimum_coinbase : ℕ

-- The loop of `checkMinerPayouts`, from a sum; `none` is its return of false.
unfoldable pub payout_sum : List SiacoinOutput → Currency → Option Currency
payout_sum [] sum = some sum
payout_sum (payout ∷ payouts) sum =
    let rest = payout_sum payouts (sum + payout.value) in
    if is_zero payout.value then none else rest

-- `checkMinerPayouts`
unfoldable pub check_miner_payouts : ℕ → Block → BlockHeight → Bool
check_miner_payouts minimum b height = compare_to (payout_sum b.miner_payouts 0)
  where
    compare_to : Option Currency → Bool
    compare_to none = false
    compare_to (some sum) = calculate_subsidy minimum b height == sum

-- `checkTarget`
unfoldable pub check_target : Hash → ℕ → Bool
check_target id target = leb id target

-- `ValidateBlock`; `none` is the nil error.
unfoldable pub validate_block :
    Limits → ℕ → ℕ → Block → Hash → ℕ → ℕ → BlockHeight → Option BlockError
validate_block limits now size b id min_timestamp target height =
    if ltb b.timestamp min_timestamp
    then some early_timestamp
    else if not (check_target id target)
    then some block_unsolved
    else if ltb limits.block_size_limit size
    then some large_block
    else if ltb ((now + limits.extreme_future_threshold) % 2 ^ 64) b.timestamp
    then some extreme_future_timestamp
    else if not (check_miner_payouts limits.minimum_coinbase b height)
    then some bad_miner_payouts
    else if ltb ((now + limits.future_threshold) % 2 ^ 64) b.timestamp
    then some future_timestamp
    else none

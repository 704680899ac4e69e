-- ===== src/Block.antt =====
-- types/block.go: blocks and their subsidy. MinimumCoinbase, which differs between builds, is an
-- argument.
pub mod Coinbase
pub mod Tests
use sia_hostdb_profiles.Prelude.{
  ℕ, ◌+◌, ◌-◌, ◌*◌, ◌/◌, ◌%◌, ◌^◌, List, [], ◌∷◌, ◌||◌, ltb, leb, if◌then◌else◌,
}
use sia_hostdb_profiles.Currency.{Currency}
use sia_hostdb_profiles.Transaction.{Hash, BlockHeight, SiacoinOutput, Transaction}

pub record Block : Type 0 where
  pub parent_id : Hash
  pub nonce : List ℕ
  pub timestamp : ℕ
  pub miner_payouts : List SiacoinOutput
  pub transactions : List Transaction

abbrev pub initial_coinbase : ℕ
initial_coinbase = 300000

abbrev pub siacoin_precision : Currency
siacoin_precision = 10 ^ 24

-- `CalculateCoinbase`
unfoldable pub calculate_coinbase : ℕ → BlockHeight → Currency
calculate_coinbase minimum height =
    let base = (initial_coinbase + 2 ^ 64 - height) % 2 ^ 64 in
    (if ltb initial_coinbase height || ltb base minimum then minimum else base) * siacoin_precision

-- `CalculateNumSiacoins`
unfoldable pub calculate_num_siacoins : ℕ → BlockHeight → Currency
calculate_num_siacoins minimum height =
    let deflation_blocks = (initial_coinbase + 2 ^ 64 - minimum) % 2 ^ 64 in
    let average = (calculate_coinbase minimum 0 + calculate_coinbase minimum height) / 2 in
    if leb height deflation_blocks
    then average * ((height + 1) % 2 ^ 64)
    else average * ((deflation_blocks + 1) % 2 ^ 64)
      + (height - deflation_blocks) * calculate_coinbase minimum height

-- The loops of `CalculateSubsidy`, from a subsidy.
unfoldable pub add_fees : List Currency → Currency → Currency
add_fees [] subsidy = subsidy
add_fees (fee ∷ fees) subsidy = add_fees fees (subsidy + fee)

unfoldable pub add_all_fees : List Transaction → Currency → Currency
add_all_fees [] subsidy = subsidy
add_all_fees (t ∷ ts) subsidy = add_all_fees ts (add_fees t.miner_fees subsidy)

-- `CalculateSubsidy`
unfoldable pub calculate_subsidy : ℕ → Block → BlockHeight → Currency
calculate_subsidy minimum b height = add_all_fees b.transactions (calculate_coinbase minimum height)

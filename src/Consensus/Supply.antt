-- ===== src/Consensus/Supply.antt =====
-- consistency.go, `checkSiacoinCount` and `checkSiafundCount`: the siacoins and the siafunds in the
-- consensus set.
pub mod Keys
pub mod Coins
pub mod Contracts
pub mod Formed
pub mod Revised
pub mod Delayed
pub mod Claims
pub mod Funds
pub mod Different
pub mod Checked
pub mod Accepted
pub mod Applicable
pub mod Parts
pub mod Conserved
pub mod Matured
pub mod Missed
pub mod Expired
pub mod Maintained
pub mod Minted
pub mod Counted
pub mod Tests
use sia_hostdb_profiles.Prelude.{ℕ, ◌+◌, ◌*◌, ◌/◌, Bool, ◌==◌}
use sia_hostdb_profiles.Bolt.{Bolt}
use sia_hostdb_profiles.Bolt.Totals.{total}
use sia_hostdb_profiles.Currency.{Currency, sub, siafund_count}
use sia_hostdb_profiles.Transaction.{SiacoinOutput, SiafundOutput, FileContract}
use sia_hostdb_profiles.Standalone.{value_sum}
use sia_hostdb_profiles.Block.{calculate_num_siacoins}
use sia_hostdb_profiles.Consensus.Store.{Database}

abbrev pub coin_value : SiacoinOutput → ℕ
coin_value o = o.value

abbrev pub fund_value : SiafundOutput → ℕ
fund_value o = o.value

abbrev pub contract_value : FileContract → ℕ
contract_value fc = value_sum fc.valid_proof_outputs

-- The siacoins that a siafund output can claim.
abbrev pub claim_value : Currency → SiafundOutput → ℕ
claim_value pool o = sub pool o.claim_start * o.value / siafund_count

module _ ⦃bolt : Bolt⦄ where
  -- `totalSiacoins` of checkSiacoinCount
  abbrev pub siacoin_count : Database → Currency
  siacoin_count db =
      total (total coin_value) db.delayed_outputs
      + total coin_value db.siacoin_outputs
      + total contract_value db.file_contracts
      + total (claim_value db.siafund_pool) db.siafund_outputs

  -- `total` of checkSiafundCount
  abbrev pub siafund_total : Database → Currency
  siafund_total db = total fund_value db.siafund_outputs

  -- `checkSiacoinCount`, at a minimum of the coinbase; `false` is its call of manageErr.
  unfoldable pub check_siacoin_count : ℕ → Database → Bool
  check_siacoin_count minimum db = siacoin_count db == calculate_num_siacoins minimum db.height

  -- `checkSiafundCount`
  unfoldable pub check_siafund_count : Database → Bool
  check_siafund_count db = siafund_total db == siafund_count

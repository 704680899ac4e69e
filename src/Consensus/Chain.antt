-- ===== src/Consensus/Chain.antt =====
-- types/constants.go, types/transactions.go, types/filecontracts.go, types/signatures.go: what the
-- consensus set reads of constants that differ between builds, and the ids, which are hashes of
-- encoded data, as parameters.
use sia_hostdb_profiles.Prelude.{ℕ, ◌+◌, ◌%◌, ◌^◌, Bool}
use sia_hostdb_profiles.Transaction.{Hash, BlockHeight, UnlockConditions, Transaction}
use sia_hostdb_profiles.Standalone.{Forks}
use sia_hostdb_profiles.Block.{Block}

pub record Chain : Type 0 where
  pub forks : Forks
  pub maturity_delay : BlockHeight
  -- The unlock hash of the last entry of GenesisSiafundAllocation.
  pub last_allocation : Hash
  -- `UnlockConditions.UnlockHash`
  pub unlock_hash : UnlockConditions → Hash
  -- `Transaction.SiacoinOutputID`, `Transaction.FileContractID`, `Transaction.SiafundOutputID`
  pub siacoin_output_id : Transaction → ℕ → Hash
  pub file_contract_id : Transaction → ℕ → Hash
  pub siafund_output_id : Transaction → ℕ → Hash
  -- `FileContractID.StorageProofOutputID`, of a proof that is valid or missed.
  pub storage_proof_output_id : Hash → Bool → ℕ → Hash
  -- `SiafundOutputID.SiaClaimOutputID`
  pub claim_output_id : Hash → Hash
  -- `Block.MinerPayoutID`
  pub miner_payout_id : Block → ℕ → Hash

-- The sum of two uint64.
unfoldable pub add_heights : BlockHeight → BlockHeight → BlockHeight
add_heights a b = (a + b) % 2 ^ 64

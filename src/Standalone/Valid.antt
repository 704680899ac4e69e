-- ===== src/Standalone/Valid.antt =====
-- types/validtransaction.go: `StandaloneValid`, and what it accepts.
pub mod Spec
use sia_hostdb_profiles.Prelude.{ℕ, List, Bool}
use sia_hostdb_profiles.HostEntry.{SiaPublicKey}
use sia_hostdb_profiles.Transaction.{BlockHeight, Transaction}
use sia_hostdb_profiles.Standalone.{
  Forks, Check, ◌>>◌, fits_in_a_block, follows_storage_proof_rules, no_repeats,
  follows_minimum_values, correct_file_contracts, correct_file_contract_revisions,
  valid_unlock_conditions,
}
use sia_hostdb_profiles.Standalone.Signatures.{valid_signatures}

-- `StandaloneValid`, of a transaction of `size` bytes.
pub standalone_valid :
    Forks → (ℕ → SiaPublicKey → List ℕ → Bool) → ℕ → BlockHeight → Transaction → Check
standalone_valid forks verify size height t =
    fits_in_a_block forks size height
    >> follows_storage_proof_rules t
    >> no_repeats t
    >> follows_minimum_values t
    >> correct_file_contracts forks height t
    >> correct_file_contract_revisions height t
    >> valid_unlock_conditions height t
    >> valid_signatures verify height t

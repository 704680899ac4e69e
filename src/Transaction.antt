-- ===== src/Transaction.antt =====
-- types/transactions.go, types/filecontracts.go, types/signatures.go: the data of a transaction.
-- A hash, an id and a unlock hash are only compared, so each is read as one number.
use sia_hostdb_profiles.Prelude.{ℕ, List, Bool}
use sia_hostdb_profiles.Currency.{Currency}
use sia_hostdb_profiles.HostEntry.{SiaPublicKey}

abbrev pub Hash : Type 0
Hash = ℕ

abbrev pub BlockHeight : Type 0
BlockHeight = ℕ

pub record UnlockConditions : Type 0 where
  pub timelock : BlockHeight
  pub public_keys : List SiaPublicKey
  pub signatures_required : ℕ

pub record SiacoinInput : Type 0 where
  pub parent_id : Hash
  pub unlock_conditions : UnlockConditions

pub record SiacoinOutput : Type 0 where
  pub value : Currency
  pub unlock_hash : Hash

pub record SiafundInput : Type 0 where
  pub parent_id : Hash
  pub unlock_conditions : UnlockConditions
  pub claim_unlock_hash : Hash

pub record SiafundOutput : Type 0 where
  pub value : Currency
  pub unlock_hash : Hash
  pub claim_start : Currency

pub record FileContract : Type 0 where
  pub file_size : ℕ
  pub file_merkle_root : Hash
  pub window_start : BlockHeight
  pub window_end : BlockHeight
  pub payout : Currency
  pub valid_proof_outputs : List SiacoinOutput
  pub missed_proof_outputs : List SiacoinOutput
  pub unlock_hash : Hash
  pub revision_number : ℕ

pub record FileContractRevision : Type 0 where
  pub parent_id : Hash
  pub unlock_conditions : UnlockConditions
  pub new_revision_number : ℕ
  pub new_file_size : ℕ
  pub new_file_merkle_root : Hash
  pub new_window_start : BlockHeight
  pub new_window_end : BlockHeight
  pub new_valid_proof_outputs : List SiacoinOutput
  pub new_missed_proof_outputs : List SiacoinOutput
  pub new_unlock_hash : Hash

pub record StorageProof : Type 0 where
  pub parent_id : Hash
  pub segment : List ℕ
  pub hash_set : List Hash

pub record CoveredFields : Type 0 where
  pub whole_transaction : Bool
  pub siacoin_inputs : List ℕ
  pub siacoin_outputs : List ℕ
  pub file_contracts : List ℕ
  pub file_contract_revisions : List ℕ
  pub storage_proofs : List ℕ
  pub siafund_inputs : List ℕ
  pub siafund_outputs : List ℕ
  pub miner_fees : List ℕ
  pub arbitrary_data : List ℕ
  pub transaction_signatures : List ℕ

pub record TransactionSignature : Type 0 where
  pub parent_id : Hash
  pub public_key_index : ℕ
  pub timelock : BlockHeight
  pub covered_fields : CoveredFields
  pub signature : List ℕ

pub record Transaction : Type 0 where
  pub siacoin_inputs : List SiacoinInput
  pub siacoin_outputs : List SiacoinOutput
  pub file_contracts : List FileContract
  pub file_contract_revisions : List FileContractRevision
  pub storage_proofs : List StorageProof
  pub siafund_inputs : List SiafundInput
  pub siafund_outputs : List SiafundOutput
  pub miner_fees : List Currency
  pub arbitrary_data : List (List ℕ)
  pub transaction_signatures : List TransactionSignature

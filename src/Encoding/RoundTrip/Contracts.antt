-- ===== src/Encoding/RoundTrip/Contracts.antt =====
-- types/encoding.go: contracts, revisions and storage proofs are read back.
use sia_hostdb_profiles.Prelude.{◌≡◌, length}
use sia_hostdb_profiles.Transaction.{FileContract, FileContractRevision, StorageProof}
use sia_hostdb_profiles.Encoding.Reads.{
  Reads, bind-Reads, last-Reads, read_bytes-Reads, next_uint64-Reads,
}
use sia_hostdb_profiles.Encoding.Types.{
  write_hash, read_hash, write_siacoin_output, read_siacoin_output,
}
use sia_hostdb_profiles.Encoding.Contracts.{
  write_file_contract, read_file_contract, write_file_contract_revision,
  read_file_contract_revision, write_storage_proof, read_storage_proof,
}
use sia_hostdb_profiles.Encoding.RoundTrip.{
  FitsHash, FitsUint64, FitsCurrency, FitsSlice, FitsUnlockConditions, FitsSiacoinOutput,
  hash-Reads, currency-Reads, slice-Reads, unlock_conditions-Reads, siacoin_output-Reads,
}

pub record FitsFileContract (fc : FileContract) : Type 0 where
  pub file_size : FitsUint64 fc.file_size
  pub file_merkle_root : FitsHash fc.file_merkle_root
  pub window_start : FitsUint64 fc.window_start
  pub window_end : FitsUint64 fc.window_end
  pub payout : FitsCurrency fc.payout
  pub valid_proof_outputs : FitsSlice 64 FitsSiacoinOutput fc.valid_proof_outputs
  pub missed_proof_outputs : FitsSlice 64 FitsSiacoinOutput fc.missed_proof_outputs
  pub unlock_hash : FitsHash fc.unlock_hash
  pub revision_number : FitsUint64 fc.revision_number

pub file_contract-Reads :
    (fc : FileContract) → FitsFileContract fc → Reads read_file_contract (write_file_contract fc) fc
unfolding read_file_contract write_file_contract
file_contract-Reads fc fits = bind-Reads _ (next_uint64-Reads fc.file_size fits.file_size) (
    bind-Reads _ (hash-Reads fc.file_merkle_root fits.file_merkle_root) (
      bind-Reads _ (next_uint64-Reads fc.window_start fits.window_start) (
        bind-Reads _ (next_uint64-Reads fc.window_end fits.window_end) (
          bind-Reads _ (currency-Reads fc.payout fits.payout) (
            bind-Reads _
              (slice-Reads read_siacoin_output write_siacoin_output FitsSiacoinOutput 64
                siacoin_output-Reads fc.valid_proof_outputs fits.valid_proof_outputs)
              (bind-Reads _
                (slice-Reads read_siacoin_output write_siacoin_output FitsSiacoinOutput 64
                  siacoin_output-Reads fc.missed_proof_outputs fits.missed_proof_outputs)
                (bind-Reads _ (hash-Reads fc.unlock_hash fits.unlock_hash)
                  (last-Reads _ (next_uint64-Reads fc.revision_number fits.revision_number)))))))))

pub record FitsFileContractRevision (fcr : FileContractRevision) : Type 0 where
  pub parent_id : FitsHash fcr.parent_id
  pub unlock_conditions : FitsUnlockConditions fcr.unlock_conditions
  pub new_revision_number : FitsUint64 fcr.new_revision_number
  pub new_file_size : FitsUint64 fcr.new_file_size
  pub new_file_merkle_root : FitsHash fcr.new_file_merkle_root
  pub new_window_start : FitsUint64 fcr.new_window_start
  pub new_window_end : FitsUint64 fcr.new_window_end
  pub new_valid_proof_outputs : FitsSlice 64 FitsSiacoinOutput fcr.new_valid_proof_outputs
  pub new_missed_proof_outputs : FitsSlice 64 FitsSiacoinOutput fcr.new_missed_proof_outputs
  pub new_unlock_hash : FitsHash fcr.new_unlock_hash

pub file_contract_revision-Reads :
    (fcr : FileContractRevision)
    → FitsFileContractRevision fcr
    → Reads read_file_contract_revision (write_file_contract_revision fcr) fcr
unfolding read_file_contract_revision write_file_contract_revision
file_contract_revision-Reads fcr fits = bind-Reads _ (hash-Reads fcr.parent_id fits.parent_id) (
    bind-Reads _ (unlock_conditions-Reads fcr.unlock_conditions fits.unlock_conditions) (
      bind-Reads _ (next_uint64-Reads fcr.new_revision_number fits.new_revision_number) (
        bind-Reads _ (next_uint64-Reads fcr.new_file_size fits.new_file_size) (
          bind-Reads _ (hash-Reads fcr.new_file_merkle_root fits.new_file_merkle_root) (
            bind-Reads _ (next_uint64-Reads fcr.new_window_start fits.new_window_start) (
              bind-Reads _ (next_uint64-Reads fcr.new_window_end fits.new_window_end) (
                bind-Reads _
                  (slice-Reads read_siacoin_output write_siacoin_output FitsSiacoinOutput 64
                    siacoin_output-Reads fcr.new_valid_proof_outputs fits.new_valid_proof_outputs)
                  (bind-Reads _
                    (slice-Reads read_siacoin_output write_siacoin_output FitsSiacoinOutput 64
                      siacoin_output-Reads fcr.new_missed_proof_outputs
                      fits.new_missed_proof_outputs)
                    (last-Reads _ (hash-Reads fcr.new_unlock_hash fits.new_unlock_hash))))))))))

pub record FitsStorageProof (sp : StorageProof) : Type 0 where
  pub parent_id : FitsHash sp.parent_id
  pub segment : length sp.segment ≡ 64
  pub hash_set : FitsSlice 32 FitsHash sp.hash_set

pub storage_proof-Reads :
    (sp : StorageProof) → FitsStorageProof sp → Reads read_storage_proof (write_storage_proof sp) sp
unfolding read_storage_proof write_storage_proof
storage_proof-Reads sp fits = bind-Reads _ (hash-Reads sp.parent_id fits.parent_id) (
    bind-Reads _ (read_bytes-Reads 64 sp.segment fits.segment) (
      last-Reads _
        (slice-Reads read_hash write_hash FitsHash 32 hash-Reads sp.hash_set fits.hash_set)))

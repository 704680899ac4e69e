-- ===== src/Encoding/Contracts.antt =====
-- types/encoding.go: MarshalSia, UnmarshalSia and MarshalSiaSize of contracts, revisions and storage
-- proofs.
use sia_hostdb_profiles.Prelude.{ℕ, ◌+◌, ◌++◌, sum_of}
use sia_hostdb_profiles.Transaction.{
  SiacoinOutput, FileContract, FileContractRevision, StorageProof,
}
use sia_hostdb_profiles.Encoding.{
  Bytes, Decoder, ◌>>=◌, done, read_full, next_uint64, read_slice, write_uint64, write_slice,
}
use sia_hostdb_profiles.Encoding.Types.{
  write_hash, read_hash, write_currency, read_currency, currency_size, write_unlock_conditions,
  read_unlock_conditions, unlock_conditions_size, write_siacoin_output, read_siacoin_output,
}

-- `Write` of an array of bytes.
abbrev pub write_bytes : Bytes → Bytes
write_bytes bs = bs

-- A siacoin output, as the sizes of larger values count it.
unfoldable pub siacoin_output_size : SiacoinOutput → ℕ
siacoin_output_size sco = currency_size sco.value + 32

-- FileContract
unfoldable pub write_file_contract : FileContract → Bytes
write_file_contract fc =
    write_uint64 fc.file_size
    ++ (write_hash fc.file_merkle_root
        ++ (write_uint64 fc.window_start
            ++ (write_uint64 fc.window_end
                ++ (write_currency fc.payout
                    ++ (write_slice write_siacoin_output fc.valid_proof_outputs
                        ++ (write_slice write_siacoin_output fc.missed_proof_outputs
                            ++ (write_hash fc.unlock_hash ++ write_uint64 fc.revision_number)))))))

unfoldable pub file_contract_size : FileContract → ℕ
file_contract_size fc =
    8
    + 32
    + (8 + 8)
    + currency_size fc.payout
    + 8
    + sum_of siacoin_output_size fc.valid_proof_outputs
    + 8
    + sum_of siacoin_output_size fc.missed_proof_outputs
    + 32
    + 8

unfoldable pub read_file_contract : Decoder FileContract
read_file_contract = do
  file_size ← next_uint64
  file_merkle_root ← read_hash
  window_start ← next_uint64
  window_end ← next_uint64
  payout ← read_currency
  valid_proof_outputs ← read_slice 64 read_siacoin_output
  missed_proof_outputs ← read_slice 64 read_siacoin_output
  unlock_hash ← read_hash
  revision_number ← next_uint64
  done (record {
    file_size = file_size;
    file_merkle_root = file_merkle_root;
    window_start = window_start;
    window_end = window_end;
    payout = payout;
    valid_proof_outputs = valid_proof_outputs;
    missed_proof_outputs = missed_proof_outputs;
    unlock_hash = unlock_hash;
    revision_number = revision_number;
  })

-- FileContractRevision
unfoldable pub write_file_contract_revision : FileContractRevision → Bytes
write_file_contract_revision fcr =
    write_hash fcr.parent_id
    ++ (write_unlock_conditions fcr.unlock_conditions
        ++ (write_uint64 fcr.new_revision_number
            ++ (write_uint64 fcr.new_file_size
                ++ (write_hash fcr.new_file_merkle_root
                    ++ (write_uint64 fcr.new_window_start
                        ++ (write_uint64 fcr.new_window_end
                            ++ (write_slice write_siacoin_output fcr.new_valid_proof_outputs
                                ++ (write_slice write_siacoin_output fcr.new_missed_proof_outputs
                                    ++ write_hash fcr.new_unlock_hash))))))))

unfoldable pub file_contract_revision_size : FileContractRevision → ℕ
file_contract_revision_size fcr =
    32
    + unlock_conditions_size fcr.unlock_conditions
    + 8
    + 8
    + 32
    + (8 + 8)
    + 8
    + sum_of siacoin_output_size fcr.new_valid_proof_outputs
    + 8
    + sum_of siacoin_output_size fcr.new_missed_proof_outputs
    + 32

unfoldable pub read_file_contract_revision : Decoder FileContractRevision
read_file_contract_revision = do
  parent_id ← read_hash
  unlock_conditions ← read_unlock_conditions
  new_revision_number ← next_uint64
  new_file_size ← next_uint64
  new_file_merkle_root ← read_hash
  new_window_start ← next_uint64
  new_window_end ← next_uint64
  new_valid_proof_outputs ← read_slice 64 read_siacoin_output
  new_missed_proof_outputs ← read_slice 64 read_siacoin_output
  new_unlock_hash ← read_hash
  done (record {
    parent_id = parent_id;
    unlock_conditions = unlock_conditions;
    new_revision_number = new_revision_number;
    new_file_size = new_file_size;
    new_file_merkle_root = new_file_merkle_root;
    new_window_start = new_window_start;
    new_window_end = new_window_end;
    new_valid_proof_outputs = new_valid_proof_outputs;
    new_missed_proof_outputs = new_missed_proof_outputs;
    new_unlock_hash = new_unlock_hash;
  })

-- StorageProof
unfoldable pub write_storage_proof : StorageProof → Bytes
write_storage_proof sp =
    write_hash sp.parent_id ++ (write_bytes sp.segment ++ write_slice write_hash sp.hash_set)

unfoldable pub read_storage_proof : Decoder StorageProof
read_storage_proof = do
  parent_id ← read_hash
  segment ← read_full 64
  hash_set ← read_slice 32 read_hash
  done (record { parent_id = parent_id; segment = segment; hash_set = hash_set })

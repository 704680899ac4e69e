-- ===== src/Encoding/Transactions.antt =====
-- types/encoding.go: MarshalSia, UnmarshalSia and MarshalSiaSize of covered fields, signatures,
-- transactions and blocks.
use sia_hostdb_profiles.Prelude.{
  ℕ, ◌+◌, ◌*◌, [], ◌∷◌, ◌++◌, Bool, ◌==◌, if◌then◌else◌, length, sum_of,
}
use sia_hostdb_profiles.Transaction.{
  SiacoinInput, SiafundInput, SiafundOutput, StorageProof, CoveredFields, TransactionSignature,
  Transaction,
}
use sia_hostdb_profiles.Block.{Block}
use sia_hostdb_profiles.Encoding.{
  Bytes, Decoder, ◌>>=◌, done, read_full, next_uint64, read_prefix, read_slice, write_uint64,
  write_prefix, write_slice, little_value,
}
use sia_hostdb_profiles.Encoding.Types.{
  write_hash, read_hash, write_currency, read_currency, currency_size, unlock_conditions_size,
  write_siacoin_input, read_siacoin_input, write_siacoin_output, read_siacoin_output,
  write_siafund_input, read_siafund_input, write_siafund_output, read_siafund_output,
}
use sia_hostdb_profiles.Encoding.Contracts.{
  write_bytes, siacoin_output_size, write_file_contract, read_file_contract, file_contract_size,
  write_file_contract_revision, read_file_contract_revision, file_contract_revision_size,
  write_storage_proof, read_storage_proof,
}

-- `WholeTransaction`
unfoldable pub write_bool : Bool → Bytes
write_bool b = (if b then 1 else 0) ∷ []

unfoldable pub read_bool : Decoder Bool
read_bool = do buf ← read_full 1; done (little_value buf == 1)

-- CoveredFields
unfoldable pub write_covered_fields : CoveredFields → Bytes
write_covered_fields cf =
    write_bool cf.whole_transaction
    ++ (write_slice write_uint64 cf.siacoin_inputs
        ++ (write_slice write_uint64 cf.siacoin_outputs
            ++ (write_slice write_uint64 cf.file_contracts
                ++ (write_slice write_uint64 cf.file_contract_revisions
                    ++ (write_slice write_uint64 cf.storage_proofs
                        ++ (write_slice write_uint64 cf.siafund_inputs
                            ++ (write_slice write_uint64 cf.siafund_outputs
                                ++ (write_slice write_uint64 cf.miner_fees
                                    ++ (write_slice write_uint64 cf.arbitrary_data
                                        ++ write_slice write_uint64
                                            cf.transaction_signatures)))))))))

unfoldable pub covered_fields_size : CoveredFields → ℕ
covered_fields_size cf =
    1
    + (8 + length cf.siacoin_inputs * 8)
    + (8 + length cf.siacoin_outputs * 8)
    + (8 + length cf.file_contracts * 8)
    + (8 + length cf.file_contract_revisions * 8)
    + (8 + length cf.storage_proofs * 8)
    + (8 + length cf.siafund_inputs * 8)
    + (8 + length cf.siafund_outputs * 8)
    + (8 + length cf.miner_fees * 8)
    + (8 + length cf.arbitrary_data * 8)
    + (8 + length cf.transaction_signatures * 8)

unfoldable pub read_covered_fields : Decoder CoveredFields
read_covered_fields = do
  whole_transaction ← read_bool
  siacoin_inputs ← read_slice 8 next_uint64
  siacoin_outputs ← read_slice 8 next_uint64
  file_contracts ← read_slice 8 next_uint64
  file_contract_revisions ← read_slice 8 next_uint64
  storage_proofs ← read_slice 8 next_uint64
  siafund_inputs ← read_slice 8 next_uint64
  siafund_outputs ← read_slice 8 next_uint64
  miner_fees ← read_slice 8 next_uint64
  arbitrary_data ← read_slice 8 next_uint64
  transaction_signatures ← read_slice 8 next_uint64
  done (record {
    whole_transaction = whole_transaction;
    siacoin_inputs = siacoin_inputs;
    siacoin_outputs = siacoin_outputs;
    file_contracts = file_contracts;
    file_contract_revisions = file_contract_revisions;
    storage_proofs = storage_proofs;
    siafund_inputs = siafund_inputs;
    siafund_outputs = siafund_outputs;
    miner_fees = miner_fees;
    arbitrary_data = arbitrary_data;
    transaction_signatures = transaction_signatures;
  })

-- TransactionSignature
unfoldable pub write_transaction_signature : TransactionSignature → Bytes
write_transaction_signature ts =
    write_hash ts.parent_id
    ++ (write_uint64 ts.public_key_index
        ++ (write_uint64 ts.timelock
            ++ (write_covered_fields ts.covered_fields ++ write_prefix ts.signature)))

unfoldable pub read_transaction_signature : Decoder TransactionSignature
read_transaction_signature = do
  parent_id ← read_hash
  public_key_index ← next_uint64
  timelock ← next_uint64
  covered_fields ← read_covered_fields
  signature ← read_prefix
  done (record {
    parent_id = parent_id;
    public_key_index = public_key_index;
    timelock = timelock;
    covered_fields = covered_fields;
    signature = signature;
  })

-- `marshalSiaNoSignatures`
unfoldable pub write_no_signatures : Transaction → Bytes
write_no_signatures t =
    write_slice write_siacoin_input t.siacoin_inputs
    ++ (write_slice write_siacoin_output t.siacoin_outputs
        ++ (write_slice write_file_contract t.file_contracts
            ++ (write_slice write_file_contract_revision t.file_contract_revisions
                ++ (write_slice write_storage_proof t.storage_proofs
                    ++ (write_slice write_siafund_input t.siafund_inputs
                        ++ (write_slice write_siafund_output t.siafund_outputs
                            ++ (write_slice write_currency t.miner_fees
                                ++ write_slice write_prefix t.arbitrary_data)))))))

-- Transaction
unfoldable pub write_transaction : Transaction → Bytes
write_transaction t =
    write_no_signatures t ++ write_slice write_transaction_signature t.transaction_signatures

unfoldable pub transaction_size : Transaction → ℕ
transaction_size t =
    8
    + sum_of (λ (sci : SiacoinInput). 32 + unlock_conditions_size sci.unlock_conditions)
        t.siacoin_inputs
    + 8
    + sum_of siacoin_output_size t.siacoin_outputs
    + 8
    + sum_of file_contract_size t.file_contracts
    + 8
    + sum_of file_contract_revision_size t.file_contract_revisions
    + 8
    + sum_of (λ (sp : StorageProof). 32 + 64 + (8 + length sp.hash_set * 32)) t.storage_proofs
    + 8
    + sum_of (λ (sfi : SiafundInput). 32 + 32 + unlock_conditions_size sfi.unlock_conditions)
        t.siafund_inputs
    + 8
    + sum_of (λ (sfo : SiafundOutput). currency_size sfo.value + 32 + currency_size sfo.claim_start)
        t.siafund_outputs
    + 8
    + sum_of currency_size t.miner_fees
    + 8
    + sum_of (λ (bs : Bytes). 8 + length bs) t.arbitrary_data
    + 8
    + sum_of
        (λ (ts : TransactionSignature).
          32 + 8 + 8 + covered_fields_size ts.covered_fields + (8 + length ts.signature))
        t.transaction_signatures

unfoldable pub read_transaction : Decoder Transaction
read_transaction = do
  siacoin_inputs ← read_slice 72 read_siacoin_input
  siacoin_outputs ← read_slice 64 read_siacoin_output
  file_contracts ← read_slice 176 read_file_contract
  file_contract_revisions ← read_slice 216 read_file_contract_revision
  storage_proofs ← read_slice 120 read_storage_proof
  siafund_inputs ← read_slice 104 read_siafund_input
  siafund_outputs ← read_slice 96 read_siafund_output
  miner_fees ← read_slice 32 read_currency
  arbitrary_data ← read_slice 24 read_prefix
  transaction_signatures ← read_slice 320 read_transaction_signature
  done (record {
    siacoin_inputs = siacoin_inputs;
    siacoin_outputs = siacoin_outputs;
    file_contracts = file_contracts;
    file_contract_revisions = file_contract_revisions;
    storage_proofs = storage_proofs;
    siafund_inputs = siafund_inputs;
    siafund_outputs = siafund_outputs;
    miner_fees = miner_fees;
    arbitrary_data = arbitrary_data;
    transaction_signatures = transaction_signatures;
  })

-- Block
unfoldable pub write_block : Block → Bytes
write_block b =
    write_hash b.parent_id
    ++ (write_bytes b.nonce
        ++ (write_uint64 b.timestamp
            ++ (write_slice write_siacoin_output b.miner_payouts
                ++ write_slice write_transaction b.transactions)))

unfoldable pub read_block : Decoder Block
read_block = do
  parent_id ← read_hash
  nonce ← read_full 8
  timestamp ← next_uint64
  miner_payouts ← read_slice 64 read_siacoin_output
  transactions ← read_slice 240 read_transaction
  done (record {
    parent_id = parent_id;
    nonce = nonce;
    timestamp = timestamp;
    miner_payouts = miner_payouts;
    transactions = transactions;
  })

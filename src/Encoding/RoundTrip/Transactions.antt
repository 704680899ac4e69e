-- ===== src/Encoding/RoundTrip/Transactions.antt =====
-- types/encoding.go: transactions and blocks are read back.
use sia_hostdb_profiles.Prelude.{
  ℕ, ◌+◌, ◌++◌, some, ◌≡◌, ◌≤◌, [], ◌∷◌, Bool, true, false, refl, length,
}
use mathlib.Core.Path.{subst}
use mathlib.Core.List.{append_assoc}
use sia_hostdb_profiles.Transaction.{CoveredFields, TransactionSignature, Transaction}
use sia_hostdb_profiles.Block.{Block}
use sia_hostdb_profiles.Encoding.{
  Bytes, next_uint64, read_prefix, write_uint64, write_prefix, little_value,
}
use sia_hostdb_profiles.Encoding.Reads.{
  Reads, bind-Reads, last-Reads, read_bytes-Reads, next_uint64-Reads, read_prefix-Reads,
}
use sia_hostdb_profiles.Encoding.Types.{
  write_siacoin_input, read_siacoin_input, write_siacoin_output, read_siacoin_output,
  write_siafund_input, read_siafund_input, write_siafund_output, read_siafund_output,
  write_currency, read_currency,
}
use sia_hostdb_profiles.Encoding.Contracts.{
  write_file_contract, read_file_contract, write_file_contract_revision,
  read_file_contract_revision, write_storage_proof, read_storage_proof,
}
use sia_hostdb_profiles.Encoding.Transactions.{
  write_bool, read_bool, write_covered_fields, read_covered_fields, write_transaction_signature,
  read_transaction_signature, write_no_signatures, write_transaction, read_transaction, write_block,
  read_block,
}
use sia_hostdb_profiles.Encoding.RoundTrip.{
  FitsHash, FitsUint64, FitsCurrency, FitsSlice, FitsSiacoinInput, FitsSiacoinOutput,
  FitsSiafundInput, FitsSiafundOutput, hash-Reads, currency-Reads, slice-Reads, siacoin_input-Reads,
  siacoin_output-Reads, siafund_input-Reads, siafund_output-Reads,
}
use sia_hostdb_profiles.Encoding.RoundTrip.Contracts.{
  FitsFileContract, FitsFileContractRevision, FitsStorageProof, file_contract-Reads,
  file_contract_revision-Reads, storage_proof-Reads,
}

bool-Reads : (b : Bool) → Reads read_bool (write_bool b) b
unfolding read_bool write_bool little_value
bool-Reads true = last-Reads _ (read_bytes-Reads 1 (1 ∷ []) refl)
bool-Reads false = last-Reads _ (read_bytes-Reads 1 (0 ∷ []) refl)

abbrev FitsPrefix : Bytes → Type 0
FitsPrefix bs = length bs ≤ 5000000

pub record FitsCoveredFields (cf : CoveredFields) : Type 0 where
  pub siacoin_inputs : FitsSlice 8 FitsUint64 cf.siacoin_inputs
  pub siacoin_outputs : FitsSlice 8 FitsUint64 cf.siacoin_outputs
  pub file_contracts : FitsSlice 8 FitsUint64 cf.file_contracts
  pub file_contract_revisions : FitsSlice 8 FitsUint64 cf.file_contract_revisions
  pub storage_proofs : FitsSlice 8 FitsUint64 cf.storage_proofs
  pub siafund_inputs : FitsSlice 8 FitsUint64 cf.siafund_inputs
  pub siafund_outputs : FitsSlice 8 FitsUint64 cf.siafund_outputs
  pub miner_fees : FitsSlice 8 FitsUint64 cf.miner_fees
  pub arbitrary_data : FitsSlice 8 FitsUint64 cf.arbitrary_data
  pub transaction_signatures : FitsSlice 8 FitsUint64 cf.transaction_signatures

pub covered_fields-Reads :
    (cf : CoveredFields)
    → FitsCoveredFields cf
    → Reads read_covered_fields (write_covered_fields cf) cf
unfolding read_covered_fields write_covered_fields
covered_fields-Reads cf fits = bind-Reads _ (bool-Reads cf.whole_transaction) (
    bind-Reads _
      (slice-Reads next_uint64 write_uint64 FitsUint64 8 next_uint64-Reads cf.siacoin_inputs
        fits.siacoin_inputs)
      (bind-Reads _
        (slice-Reads next_uint64 write_uint64 FitsUint64 8 next_uint64-Reads cf.siacoin_outputs
          fits.siacoin_outputs)
        (bind-Reads _
          (slice-Reads next_uint64 write_uint64 FitsUint64 8 next_uint64-Reads cf.file_contracts
            fits.file_contracts)
          (bind-Reads _
            (slice-Reads next_uint64 write_uint64 FitsUint64 8 next_uint64-Reads
              cf.file_contract_revisions fits.file_contract_revisions)
            (bind-Reads _
              (slice-Reads next_uint64 write_uint64 FitsUint64 8 next_uint64-Reads cf.storage_proofs
                fits.storage_proofs)
              (bind-Reads _
                (slice-Reads next_uint64 write_uint64 FitsUint64 8 next_uint64-Reads
                  cf.siafund_inputs fits.siafund_inputs)
                (bind-Reads _
                  (slice-Reads next_uint64 write_uint64 FitsUint64 8 next_uint64-Reads
                    cf.siafund_outputs fits.siafund_outputs)
                  (bind-Reads _
                    (slice-Reads next_uint64 write_uint64 FitsUint64 8 next_uint64-Reads
                      cf.miner_fees fits.miner_fees)
                    (bind-Reads _
                      (slice-Reads next_uint64 write_uint64 FitsUint64 8 next_uint64-Reads
                        cf.arbitrary_data fits.arbitrary_data)
                      (last-Reads _ (
                        slice-Reads next_uint64 write_uint64 FitsUint64 8 next_uint64-Reads
                          cf.transaction_signatures fits.transaction_signatures)))))))))))

pub record FitsTransactionSignature (ts : TransactionSignature) : Type 0 where
  pub parent_id : FitsHash ts.parent_id
  pub public_key_index : FitsUint64 ts.public_key_index
  pub timelock : FitsUint64 ts.timelock
  pub covered_fields : FitsCoveredFields ts.covered_fields
  pub signature : length ts.signature ≤ 5000000

pub transaction_signature-Reads :
    (ts : TransactionSignature)
    → FitsTransactionSignature ts
    → Reads read_transaction_signature (write_transaction_signature ts) ts
unfolding read_transaction_signature write_transaction_signature
transaction_signature-Reads ts fits = bind-Reads _ (hash-Reads ts.parent_id fits.parent_id) (
    bind-Reads _ (next_uint64-Reads ts.public_key_index fits.public_key_index) (
      bind-Reads _ (next_uint64-Reads ts.timelock fits.timelock) (
        bind-Reads _ (covered_fields-Reads ts.covered_fields fits.covered_fields)
          (last-Reads _ (read_prefix-Reads ts.signature fits.signature)))))

pub record FitsTransaction (t : Transaction) : Type 0 where
  pub siacoin_inputs : FitsSlice 72 FitsSiacoinInput t.siacoin_inputs
  pub siacoin_outputs : FitsSlice 64 FitsSiacoinOutput t.siacoin_outputs
  pub file_contracts : FitsSlice 176 FitsFileContract t.file_contracts
  pub file_contract_revisions : FitsSlice 216 FitsFileContractRevision t.file_contract_revisions
  pub storage_proofs : FitsSlice 120 FitsStorageProof t.storage_proofs
  pub siafund_inputs : FitsSlice 104 FitsSiafundInput t.siafund_inputs
  pub siafund_outputs : FitsSlice 96 FitsSiafundOutput t.siafund_outputs
  pub miner_fees : FitsSlice 32 FitsCurrency t.miner_fees
  pub arbitrary_data : FitsSlice 24 FitsPrefix t.arbitrary_data
  pub transaction_signatures : FitsSlice 320 FitsTransactionSignature t.transaction_signatures

pub transaction-Reads :
    (t : Transaction) → FitsTransaction t → Reads read_transaction (write_transaction t) t
unfolding read_transaction write_transaction write_no_signatures
transaction-Reads t fits =
    subst (λ bs. Reads read_transaction bs t) (simp append_assoc)
      (bind-Reads _
        (slice-Reads read_siacoin_input write_siacoin_input FitsSiacoinInput 72 siacoin_input-Reads
          t.siacoin_inputs fits.siacoin_inputs)
        (bind-Reads _
          (slice-Reads read_siacoin_output write_siacoin_output FitsSiacoinOutput 64
            siacoin_output-Reads t.siacoin_outputs fits.siacoin_outputs)
          (bind-Reads _
            (slice-Reads read_file_contract write_file_contract FitsFileContract 176
              file_contract-Reads t.file_contracts fits.file_contracts)
            (bind-Reads _
              (slice-Reads read_file_contract_revision write_file_contract_revision
                FitsFileContractRevision 216 file_contract_revision-Reads t.file_contract_revisions
                fits.file_contract_revisions)
              (bind-Reads _
                (slice-Reads read_storage_proof write_storage_proof FitsStorageProof 120
                  storage_proof-Reads t.storage_proofs fits.storage_proofs)
                (bind-Reads _
                  (slice-Reads read_siafund_input write_siafund_input FitsSiafundInput 104
                    siafund_input-Reads t.siafund_inputs fits.siafund_inputs)
                  (bind-Reads _
                    (slice-Reads read_siafund_output write_siafund_output FitsSiafundOutput 96
                      siafund_output-Reads t.siafund_outputs fits.siafund_outputs)
                    (bind-Reads _
                      (slice-Reads read_currency write_currency FitsCurrency 32 currency-Reads
                        t.miner_fees fits.miner_fees)
                      (bind-Reads _
                        (slice-Reads read_prefix write_prefix FitsPrefix 24 read_prefix-Reads
                          t.arbitrary_data fits.arbitrary_data)
                        (last-Reads _ (
                          slice-Reads read_transaction_signature write_transaction_signature
                            FitsTransactionSignature 320 transaction_signature-Reads
                            t.transaction_signatures fits.transaction_signatures)))))))))))

pub record FitsBlock (b : Block) : Type 0 where
  pub parent_id : FitsHash b.parent_id
  pub nonce : length b.nonce ≡ 8
  pub timestamp : FitsUint64 b.timestamp
  pub miner_payouts : FitsSlice 64 FitsSiacoinOutput b.miner_payouts
  pub transactions : FitsSlice 240 FitsTransaction b.transactions

pub block-Reads : (b : Block) → FitsBlock b → Reads read_block (write_block b) b
unfolding read_block write_block
block-Reads b fits = bind-Reads _ (hash-Reads b.parent_id fits.parent_id) (
    bind-Reads _ (read_bytes-Reads 8 b.nonce fits.nonce) (
      bind-Reads _ (next_uint64-Reads b.timestamp fits.timestamp) (
        bind-Reads _
          (slice-Reads read_siacoin_output write_siacoin_output FitsSiacoinOutput 64
            siacoin_output-Reads b.miner_payouts fits.miner_payouts)
          (last-Reads _ (
            slice-Reads read_transaction write_transaction FitsTransaction 240 transaction-Reads
              b.transactions fits.transactions)))))

-- A transaction whose numbers are of 64 bits, whose hashes are of 32 bytes and whose slices are within
-- the limits of the decoder is read back from its encoding, with anything behind it, as long as no
-- more than the greatest object size is read.
pub read_transaction-write_transaction :
    (t : Transaction) (rest : Bytes) (n : ℕ)
    → FitsTransaction t
    → n + length (write_transaction t) ≤ 12000000
    → read_transaction (write_transaction t ++ rest) n
      ≡ some (t, rest, n + length (write_transaction t))
read_transaction-write_transaction t rest n fits small =
    (transaction-Reads t fits).reads rest n small

-- A block whose numbers are of 64 bits, whose hashes are of 32 bytes, whose nonce is of 8 bytes and
-- whose slices are within the limits of the decoder is read back from its encoding, with anything
-- behind it, as long as no more than the greatest object size is read.
pub read_block-write_block :
    (b : Block) (rest : Bytes) (n : ℕ)
    → FitsBlock b
    → n + length (write_block b) ≤ 12000000
    → read_block (write_block b ++ rest) n ≡ some (b, rest, n + length (write_block b))
read_block-write_block b rest n fits small = (block-Reads b fits).reads rest n small

-- ===== src/Encoding/Sizes.antt =====
-- types/encoding.go: MarshalSiaSize gives the length of what MarshalSia writes.
use mathlib.Core.List.{reverse}
use sia_hostdb_profiles.Prelude.{
  ℕ, ◌+◌, ◌*◌, ◌≡◌, refl, ◌∙◌, List, [], ◌∷◌, ◌++◌, Bool, All, All-imp, arith, length,
  length-append, sum_of,
}
use sia_hostdb_profiles.HostEntry.{SiaPublicKey}
use sia_hostdb_profiles.Transaction.{
  UnlockConditions, SiacoinInput, SiacoinOutput, SiafundInput, SiafundOutput, FileContract,
  FileContractRevision, StorageProof, CoveredFields, TransactionSignature, Transaction,
}
use sia_hostdb_profiles.Encoding.{
  Bytes, little_endian, digits, write_uint64, write_prefix, write_each, write_slice,
}
use sia_hostdb_profiles.Encoding.Digits.{length-little_endian, length-reverse}
use sia_hostdb_profiles.Encoding.Words.{words-digits}
use sia_hostdb_profiles.Encoding.Types.{
  write_array, write_hash, key_bytes, write_currency, currency_size, write_public_key,
  write_unlock_conditions, unlock_conditions_size, write_siacoin_input, write_siacoin_output,
  write_siafund_input, write_siafund_output,
}
use sia_hostdb_profiles.Encoding.Contracts.{
  siacoin_output_size, write_file_contract, file_contract_size, write_file_contract_revision,
  file_contract_revision_size, write_storage_proof,
}
use sia_hostdb_profiles.Encoding.Transactions.{
  write_covered_fields, write_bool, covered_fields_size, write_transaction_signature,
  write_no_signatures, write_transaction, transaction_size,
}

length-write_uint64 : (u : ℕ) → length (write_uint64 u) ≡ 8
unfolding write_uint64
length-write_uint64 u = length-little_endian 8 u

length-write_array : (w h : ℕ) → length (write_array w h) ≡ w
unfolding write_array
length-write_array w h = length-reverse (little_endian w h) ∙ length-little_endian w h

length-write_hash : (h : ℕ) → length (write_hash h) ≡ 32
unfolding write_hash
length-write_hash h = length-write_array 32 h

length-write_prefix : (bs : Bytes) → length (write_prefix bs) ≡ 8 + length bs
unfolding write_prefix
length-write_prefix bs =
    omega (arith, length-append (write_uint64 (length bs)) bs, length-write_uint64 (length bs))

-- The measure of every element is the length of its encoding.
length-write_each :
    {A : Type 0} (w : A → Bytes) (size : A → ℕ) (xs : List A)
    → All (λ x. length (w x) ≡ size x) xs
    → length (write_each w xs) ≡ sum_of size xs
unfolding write_each
length-write_each w size [] h = refl
length-write_each w size (x ∷ xs) h =
    omega (arith, length-append (w x) (write_each w xs), h.0, length-write_each w size xs h.1)

length-write_slice :
    {A : Type 0} (w : A → Bytes) (size : A → ℕ) (xs : List A)
    → All (λ x. length (w x) ≡ size x) xs
    → length (write_slice w xs) ≡ 8 + sum_of size xs
unfolding write_slice
length-write_slice w size xs h = omega (
  arith,
  length-append (write_uint64 (length xs)) (write_each w xs),
  length-write_uint64 (length xs),
  length-write_each w size xs h,
)

each {ℓ} : {A : Type 0} {P : A → Type ℓ} → ((x : A) → P x) → (xs : List A) → All P xs
each h [] = tt
each h (x ∷ xs) = (h x, each h xs)

pub length-write_currency : (c : ℕ) → length (write_currency c) ≡ currency_size c
unfolding write_currency currency_size
length-write_currency c = omega (
  arith,
  length-write_prefix (reverse (digits c c)),
  length-reverse (digits c c),
  words-digits c c c (omega arith) (omega arith),
)

public_key_size : SiaPublicKey → ℕ
public_key_size spk = 16 + (8 + length (key_bytes spk.key spk.key))

length-write_public_key : (spk : SiaPublicKey) → length (write_public_key spk) ≡ public_key_size spk
unfolding write_public_key public_key_size
length-write_public_key spk = omega (
  arith,
  length-append (write_array 16 spk.algorithm) (write_prefix (key_bytes spk.key spk.key)),
  length-write_array 16 spk.algorithm,
  length-write_prefix (key_bytes spk.key spk.key),
)

length-write_unlock_conditions :
    (uc : UnlockConditions) → length (write_unlock_conditions uc) ≡ unlock_conditions_size uc
unfolding write_unlock_conditions unlock_conditions_size public_key_size
length-write_unlock_conditions uc = omega (
  arith,
  length-append (write_uint64 uc.timelock)
      (write_slice write_public_key uc.public_keys ++ write_uint64 uc.signatures_required),
  length-append (write_slice write_public_key uc.public_keys) (write_uint64 uc.signatures_required),
  length-write_uint64 uc.timelock,
  length-write_uint64 uc.signatures_required,
  length-write_slice write_public_key public_key_size uc.public_keys
      (each length-write_public_key uc.public_keys),
)

-- PARTS
siacoin_input_size : SiacoinInput → ℕ
siacoin_input_size sci = 32 + unlock_conditions_size sci.unlock_conditions

siafund_input_size : SiafundInput → ℕ
siafund_input_size sfi = 32 + 32 + unlock_conditions_size sfi.unlock_conditions

siafund_output_size : SiafundOutput → ℕ
siafund_output_size sfo = currency_size sfo.value + 32 + currency_size sfo.claim_start

length-write_siacoin_input :
    (sci : SiacoinInput) → length (write_siacoin_input sci) ≡ siacoin_input_size sci
unfolding write_siacoin_input siacoin_input_size
length-write_siacoin_input sci = simp length-append (
    omega (
      arith,
      length-write_hash sci.parent_id,
      length-write_unlock_conditions sci.unlock_conditions,
    ))

length-write_siacoin_output :
    (sco : SiacoinOutput) → length (write_siacoin_output sco) ≡ siacoin_output_size sco
unfolding write_siacoin_output siacoin_output_size
length-write_siacoin_output sco =
    simp length-append
      (omega (arith, length-write_currency sco.value, length-write_hash sco.unlock_hash))

length-write_siafund_input :
    (sfi : SiafundInput) → length (write_siafund_input sfi) ≡ siafund_input_size sfi
unfolding write_siafund_input siafund_input_size
length-write_siafund_input sfi = simp length-append (
    omega (
      arith,
      length-write_hash sfi.parent_id,
      length-write_unlock_conditions sfi.unlock_conditions,
      length-write_hash sfi.claim_unlock_hash,
    ))

length-write_siafund_output :
    (sfo : SiafundOutput) → length (write_siafund_output sfo) ≡ siafund_output_size sfo
unfolding write_siafund_output siafund_output_size
length-write_siafund_output sfo = simp length-append (
    omega (
      arith,
      length-write_currency sfo.value,
      length-write_hash sfo.unlock_hash,
      length-write_currency sfo.claim_start,
    ))

length-write_file_contract :
    (fc : FileContract) → length (write_file_contract fc) ≡ file_contract_size fc
unfolding write_file_contract file_contract_size
length-write_file_contract fc = simp length-append (
    omega (
      arith,
      length-write_uint64 fc.file_size,
      length-write_hash fc.file_merkle_root,
      length-write_uint64 fc.window_start,
      length-write_uint64 fc.window_end,
      length-write_currency fc.payout,
      length-write_slice write_siacoin_output siacoin_output_size fc.valid_proof_outputs
          (each length-write_siacoin_output fc.valid_proof_outputs),
      length-write_slice write_siacoin_output siacoin_output_size fc.missed_proof_outputs
          (each length-write_siacoin_output fc.missed_proof_outputs),
      length-write_hash fc.unlock_hash,
      length-write_uint64 fc.revision_number,
    ))

length-write_file_contract_revision :
    (fcr : FileContractRevision)
    → length (write_file_contract_revision fcr) ≡ file_contract_revision_size fcr
unfolding write_file_contract_revision file_contract_revision_size
length-write_file_contract_revision fcr = simp length-append (
    omega (
      arith,
      length-write_hash fcr.parent_id,
      length-write_unlock_conditions fcr.unlock_conditions,
      length-write_uint64 fcr.new_revision_number,
      length-write_uint64 fcr.new_file_size,
      length-write_hash fcr.new_file_merkle_root,
      length-write_uint64 fcr.new_window_start,
      length-write_uint64 fcr.new_window_end,
      length-write_slice write_siacoin_output siacoin_output_size fcr.new_valid_proof_outputs
          (each length-write_siacoin_output fcr.new_valid_proof_outputs),
      length-write_slice write_siacoin_output siacoin_output_size fcr.new_missed_proof_outputs
          (each length-write_siacoin_output fcr.new_missed_proof_outputs),
      length-write_hash fcr.new_unlock_hash,
    ))

sum_of_same {ℓ} : {A : Type ℓ} (n : ℕ) (xs : List A) → sum_of (λ (x : A). n) xs ≡ length xs * n
sum_of_same n [] = omega arith
sum_of_same n (x ∷ xs) = omega (arith, sum_of_same n xs)

length-write_hashes : (hs : List ℕ) → length (write_slice write_hash hs) ≡ 8 + length hs * 32
length-write_hashes hs = omega (
  arith,
  length-write_slice write_hash (λ h. 32) hs (each length-write_hash hs),
  sum_of_same 32 hs,
)

length-write_uint64s : (us : List ℕ) → length (write_slice write_uint64 us) ≡ 8 + length us * 8
length-write_uint64s us = omega (
  arith,
  length-write_slice write_uint64 (λ u. 8) us (each length-write_uint64 us),
  sum_of_same 8 us,
)

storage_proof_size : StorageProof → ℕ
storage_proof_size sp = 32 + 64 + (8 + length sp.hash_set * 32)

length-write_storage_proof :
    (sp : StorageProof)
    → length sp.segment ≡ 64
    → length (write_storage_proof sp) ≡ storage_proof_size sp
unfolding write_storage_proof storage_proof_size
length-write_storage_proof sp segment =
    simp length-append
      (omega (arith, length-write_hash sp.parent_id, segment, length-write_hashes sp.hash_set))

length-write_bool : (b : Bool) → length (write_bool b) ≡ 1
unfolding write_bool
length-write_bool b = refl

length-write_covered_fields :
    (cf : CoveredFields) → length (write_covered_fields cf) ≡ covered_fields_size cf
unfolding write_covered_fields covered_fields_size
length-write_covered_fields cf = simp length-append (
    omega (
      arith,
      length-write_bool cf.whole_transaction,
      length-write_uint64s cf.siacoin_inputs,
      length-write_uint64s cf.siacoin_outputs,
      length-write_uint64s cf.file_contracts,
      length-write_uint64s cf.file_contract_revisions,
      length-write_uint64s cf.storage_proofs,
      length-write_uint64s cf.siafund_inputs,
      length-write_uint64s cf.siafund_outputs,
      length-write_uint64s cf.miner_fees,
      length-write_uint64s cf.arbitrary_data,
      length-write_uint64s cf.transaction_signatures,
    ))

signature_size : TransactionSignature → ℕ
signature_size ts = 32 + 8 + 8 + covered_fields_size ts.covered_fields + (8 + length ts.signature)

length-write_transaction_signature :
    (ts : TransactionSignature) → length (write_transaction_signature ts) ≡ signature_size ts
unfolding write_transaction_signature signature_size
length-write_transaction_signature ts = simp length-append (
    omega (
      arith,
      length-write_hash ts.parent_id,
      length-write_uint64 ts.public_key_index,
      length-write_uint64 ts.timelock,
      length-write_covered_fields ts.covered_fields,
      length-write_prefix ts.signature,
    ))

-- MarshalSiaSize of a transaction gives the number of bytes that MarshalSia writes. Segments of
-- storage proofs are of 64 bytes.
pub length-write_transaction :
    (t : Transaction)
    → All (λ (sp : StorageProof). length sp.segment ≡ 64) t.storage_proofs
    → length (write_transaction t) ≡ transaction_size t
unfolding write_transaction write_no_signatures transaction_size siacoin_input_size
    siafund_input_size siafund_output_size storage_proof_size signature_size
length-write_transaction t segments = simp length-append (
    omega (
      arith,
      length-write_slice write_siacoin_input siacoin_input_size t.siacoin_inputs
          (each length-write_siacoin_input t.siacoin_inputs),
      length-write_slice write_siacoin_output siacoin_output_size t.siacoin_outputs
          (each length-write_siacoin_output t.siacoin_outputs),
      length-write_slice write_file_contract file_contract_size t.file_contracts
          (each length-write_file_contract t.file_contracts),
      length-write_slice write_file_contract_revision file_contract_revision_size
          t.file_contract_revisions
          (each length-write_file_contract_revision t.file_contract_revisions),
      length-write_slice write_storage_proof storage_proof_size t.storage_proofs
          (All-imp _ _ t.storage_proofs length-write_storage_proof segments),
      length-write_slice write_siafund_input siafund_input_size t.siafund_inputs
          (each length-write_siafund_input t.siafund_inputs),
      length-write_slice write_siafund_output siafund_output_size t.siafund_outputs
          (each length-write_siafund_output t.siafund_outputs),
      length-write_slice write_currency currency_size t.miner_fees
          (each length-write_currency t.miner_fees),
      length-write_slice write_prefix (λ (bs : Bytes). 8 + length bs) t.arbitrary_data
          (each length-write_prefix t.arbitrary_data),
      length-write_slice write_transaction_signature signature_size t.transaction_signatures
          (each length-write_transaction_signature t.transaction_signatures),
    ))

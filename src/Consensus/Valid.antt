-- ===== src/Consensus/Valid.antt =====
-- consensus/validtransaction.go: the checks on a transaction that need the consensus set. `none` is
-- the nil error.
-- The hash of a trigger block's id and a contract's id, read as a number, and the check of a Merkle
-- proof are parameters.
use sia_hostdb_profiles.Prelude.{
  ℕ, zero, suc, ◌+◌, ◌-◌, ◌/◌, ◌%◌, ◌^◌, List, [], ◌∷◌, Option, none, some, Bool, not, ◌&&◌, ◌||◌,
  ltb, leb, ◌==◌, if◌then◌else◌, sum_of,
}
use sia_hostdb_profiles.Prelude.Options.{◌>>=◌}
use sia_hostdb_profiles.Bolt.{Bolt}
use sia_hostdb_profiles.Currency.{Currency}
use sia_hostdb_profiles.HostEntry.{SiaPublicKey}
use sia_hostdb_profiles.Transaction.{
  Hash, BlockHeight, SiacoinInput, SiafundInput, SiafundOutput, FileContract, FileContractRevision,
  StorageProof, Transaction,
}
use sia_hostdb_profiles.Standalone.{TxError, value_sum}
use sia_hostdb_profiles.Standalone.Valid.{standalone_valid}
use sia_hostdb_profiles.Consensus.Chain.{Chain, add_heights}
use sia_hostdb_profiles.Consensus.Apply.{or_default}
use sia_hostdb_profiles.Consensus.Store.{
  Database, siacoin_output_at, file_contract_at, siafund_output_at,
}

pub data ConsensusError : Type 0 where
  standalone : TxError → ConsensusError
  nil_item missing_siacoin_output wrong_unlock_conditions : ConsensusError
  siacoin_input_output_mismatch unrecognized_file_contract_id : ConsensusError
  unfinished_file_contract invalid_storage_proof late_revision : ConsensusError
  low_revision_number altered_revision_payouts siafund_input_output_mismatch : ConsensusError

-- A value or an error; `panicked` is a panic.
pub data Answer (A : Type 0) : Type 0 where
  gives : A → Answer A
  fails : ConsensusError → Answer A
  panicked : Answer A

infixl 5 ◌then◌
abbrev pub ◌then◌ : {A B : Type 0} → Answer A → (A → Answer B) → Answer B
gives a then f = f a
fails e then f = fails e
panicked then f = panicked

-- `if c { return e }`
abbrev pub refuse_if : Bool → ConsensusError → Answer Unit
refuse_if c e = if c then fails e else gives tt

-- `for _, x := range xs { ... }` with a check as its body.
unfoldable pub check_each : {A : Type 0} → (A → Answer Unit) → List A → Answer Unit
check_each f [] = gives tt
check_each f (x ∷ xs) = f x then λ _. check_each f xs

-- A call that returns errNilItem, or another error, on an item that is not there.
abbrev pub or_error : {A : Type 0} → ConsensusError → Option A → Answer A
or_error e none = fails e
or_error e (some a) = gives a

-- `Transaction.SiacoinOutputSum`
unfoldable pub siacoin_output_sum : Transaction → Currency
siacoin_output_sum t =
    value_sum t.siacoin_outputs
    + sum_of (λ (fc : FileContract). fc.payout) t.file_contracts
    + sum_of (λ (fee : Currency). fee) t.miner_fees

-- crypto/merkle.go, `CalculateLeaves`
pub calculate_leaves : ℕ → ℕ
calculate_leaves size = if size == 0 || not (size % 64 == 0) then size / 64 + 1 else size / 64

-- What the checks of storage proofs rest on in other packages: `seed trigger contract` is the hash
-- of two ids as a number, `verify_segment segment hashes leaves index root` checks a proof.
pub record Proofs : Type 0 where
  pub seed : Hash → Hash → ℕ
  pub verify_segment : List ℕ → List Hash → ℕ → ℕ → Hash → Bool
  -- The heights before which validStorageProofs100e3 is in use and before which that takes a whole
  -- segment; zero in a development build.
  pub empty_proof_fork : BlockHeight
  pub segment_fork : BlockHeight

-- `s[:n]`; `none` is the panic on a slice that is too short.
pub take_first : List ℕ → ℕ → Option (List ℕ)
take_first xs zero = some []
take_first [] (suc n) = none
take_first (x ∷ xs) (suc n) = take_first xs n >>= λ ys. some (x ∷ ys)

module _ ⦃bolt : Bolt⦄ where
  module _ (chain : Chain) (db : Database) where
    -- The sum of the outputs that the inputs spend, from a sum.
    unfoldable pub siacoin_input_sum : Currency → List SiacoinInput → Answer Currency
    siacoin_input_sum sum [] = gives sum
    siacoin_input_sum sum (sci ∷ scis) =
        or_error missing_siacoin_output (siacoin_output_at sci.parent_id db) then λ sco.
        if chain.unlock_hash sci.unlock_conditions == sco.unlock_hash
        then siacoin_input_sum (sum + sco.value) scis
        else fails wrong_unlock_conditions

    -- `validSiacoins`
    unfoldable pub valid_siacoins : Transaction → Answer Unit
    valid_siacoins t = siacoin_input_sum 0 t.siacoin_inputs then λ sum.
        refuse_if (not (sum == siacoin_output_sum t)) siacoin_input_output_mismatch

    -- `validFileContractRevisions`
    unfoldable pub valid_file_contract_revision : FileContractRevision → Answer Unit
    valid_file_contract_revision fcr =
        or_error nil_item (file_contract_at fcr.parent_id db) then λ fc.
        refuse_if (ltb fc.window_start db.height) late_revision
        then (λ _. refuse_if (leb fcr.new_revision_number fc.revision_number) low_revision_number)
        then (λ _.
            refuse_if (not (chain.unlock_hash fcr.unlock_conditions == fc.unlock_hash))
              wrong_unlock_conditions)
        then (λ _.
            refuse_if
              (not (value_sum fcr.new_valid_proof_outputs == value_sum fc.valid_proof_outputs))
              altered_revision_payouts)
        then λ _.
            refuse_if
              (not (value_sum fcr.new_missed_proof_outputs == value_sum fc.valid_proof_outputs))
              altered_revision_payouts

    unfoldable pub valid_file_contract_revisions : Transaction → Answer Unit
    valid_file_contract_revisions t =
        check_each valid_file_contract_revision t.file_contract_revisions

    -- The siafunds that the inputs spend, from a sum.
    unfoldable pub siafund_input_sum : Currency → List SiafundInput → Answer Currency
    siafund_input_sum sum [] = gives sum
    siafund_input_sum sum (sfi ∷ sfis) =
        or_error nil_item (siafund_output_at chain sfi.parent_id db) then λ sfo.
        if chain.unlock_hash sfi.unlock_conditions == sfo.unlock_hash
        then siafund_input_sum (sum + sfo.value) sfis
        else fails wrong_unlock_conditions

    -- `validSiafunds`
    unfoldable pub valid_siafunds : Transaction → Answer Unit
    valid_siafunds t = siafund_input_sum 0 t.siafund_inputs then λ sum.
        refuse_if (not (sum_of (λ (o : SiafundOutput). o.value) t.siafund_outputs == sum))
          siafund_input_output_mismatch

    module _ (proofs : Proofs) where
      -- `storageProofSegment`. A block that is not in the path has the id zero.
      unfoldable pub storage_proof_segment : Hash → Answer ℕ
      storage_proof_segment fcid =
          or_error unrecognized_file_contract_id (file_contract_at fcid db) then λ fc.
          let trigger_height = add_heights fc.window_start (2 ^ 64 - 1) in
          if ltb db.height trigger_height
          then fails unfinished_file_contract
          else let trigger_id = or_default 0 (bolt.get trigger_height db.path) in
            gives (proofs.seed trigger_id fcid % calculate_leaves fc.file_size)

      -- The last segment may be shorter.
      abbrev pub segment_length : ℕ → ℕ → ℕ
      segment_length index size = if index == calculate_leaves size - 1 then size % 64 else 64

      abbrev pub check_segment : StorageProof → FileContract → ℕ → ℕ → Answer Bool
      check_segment sp fc index n = elim (take_first sp.segment n) [
        | none ↦ panicked
        | some segment ↦ gives (
            proofs.verify_segment segment sp.hash_set (calculate_leaves fc.file_size) index
              fc.file_merkle_root)
      ]

      -- `validStorageProofs100e3`
      unfoldable pub valid_storage_proof_100e3 : StorageProof → Answer Unit
      valid_storage_proof_100e3 sp = storage_proof_segment sp.parent_id then λ index.
          or_error nil_item (file_contract_at sp.parent_id db) then λ fc.
          check_segment sp fc index
            (if ltb db.height proofs.segment_fork then 64 else segment_length index fc.file_size)
          then λ verified. refuse_if (not verified) invalid_storage_proof

      unfoldable pub valid_storage_proof : StorageProof → Answer Unit
      valid_storage_proof sp = storage_proof_segment sp.parent_id then λ index.
          or_error nil_item (file_contract_at sp.parent_id db) then λ fc.
          let n = segment_length index fc.file_size in
          check_segment sp fc index (if n == 0 then 64 else n) then λ verified.
          refuse_if (not verified && ltb 0 fc.file_size) invalid_storage_proof

      -- `validStorageProofs`
      unfoldable pub valid_storage_proofs : Transaction → Answer Unit
      valid_storage_proofs t =
          if ltb db.height proofs.empty_proof_fork
          then check_each valid_storage_proof_100e3 t.storage_proofs
          else check_each valid_storage_proof t.storage_proofs

      -- `validTransaction`, of a transaction of `size` bytes.
      unfoldable pub valid_transaction :
          (ℕ → SiaPublicKey → List ℕ → Bool) → ℕ → Transaction → Answer Unit
      valid_transaction verify size t =
          (elim (standalone_valid chain.forks verify size db.height t) [
            | none ↦ gives tt
            | some e ↦ fails (standalone e)
          ])
          then (λ _. valid_siacoins t)
          then (λ _. valid_storage_proofs t)
          then (λ _. valid_file_contract_revisions t)
          then λ _. valid_siafunds t

-- ===== src/Standalone.antt =====
-- types/validtransaction.go, types/signatures.go: the checks on a transaction that need no
-- consensus set. `none` is the nil error.
-- The size in bytes of the encoded transaction, the hash that a signature signs and the check of an
-- ed25519 signature are parameters: they rest on the encoding and on other packages.
pub mod Decides
pub mod Fresh
pub mod Signatures
pub mod Valid
use sia_hostdb_profiles.Prelude.{
  ℕ, ◌+◌, ◌-◌, ◌^◌, List, [], ◌∷◌, ◌++◌, Option, none, some, Bool, true, false, not, ◌&&◌, ◌||◌,
  ltb, leb, ◌==◌, if◌then◌else◌, map, length, sum_of, All, ◌≡◌, refl,
}
use sia_hostdb_profiles.Currency.{Currency, is_zero, post_tax}
use sia_hostdb_profiles.Transaction.{
  Hash, BlockHeight, UnlockConditions, SiacoinInput, SiacoinOutput, SiafundInput, SiafundOutput,
  FileContract, FileContractRevision, StorageProof, Transaction,
}

pub data TxError : Type 0 where
  double_spend output_sum_violation window_end_violation window_start_violation : TxError
  nonzero_claim_start storage_proof_with_outputs timelock_not_satisfied : TxError
  transaction_too_large zero_miner_fee zero_output : TxError
  whole_transaction_violation sorted_unique_violation frivolous_signature : TxError
  public_key_overuse invalid_pub_key_index premature_signature entropy_key : TxError
  invalid_signature missing_signatures : TxError

abbrev pub Check : Type 0
Check = Option TxError

-- `if c { return e }`
abbrev pub refuse : Bool → TxError → Check
refuse c e = if c then some e else none

-- A check, and the next one if it finds nothing.
infixl 5 ◌>>◌
abbrev pub ◌>>◌ : Check → Check → Check
some e >> k = some e
none >> k = k

-- `for _, x := range xs { ... }` with a check as its body.
pub check_all {ℓ} : {A : Type ℓ} → (A → Check) → List A → Check
check_all f [] = none
check_all f (x ∷ xs) = f x >> check_all f xs

-- The heights of hardforks, which differ between builds.
pub record Forks : Type 0 where
  pub tax_hardfork_height : BlockHeight
  pub oak_hardfork_block : BlockHeight

abbrev pub value_sum : List SiacoinOutput → Currency
value_sum = sum_of (λ o. o.value)

-- `correctFileContracts`
abbrev pub check_contract : Forks → BlockHeight → FileContract → Check
check_contract forks height fc =
    let portion = post_tax forks.tax_hardfork_height height fc.payout in
    refuse (leb fc.window_start height) window_start_violation
    >> refuse (leb fc.window_end fc.window_start) window_end_violation
    >> refuse (not (value_sum fc.valid_proof_outputs == portion)) output_sum_violation
    >> refuse (not (value_sum fc.missed_proof_outputs == portion)) output_sum_violation

pub correct_file_contracts : Forks → BlockHeight → Transaction → Check
correct_file_contracts forks height t = check_all (check_contract forks height) t.file_contracts

-- `correctFileContractRevisions`
abbrev pub check_revision : BlockHeight → FileContractRevision → Check
check_revision height fcr =
    refuse (leb fcr.new_window_start height) window_start_violation
    >> refuse (leb fcr.new_window_end fcr.new_window_start) window_end_violation
    >> refuse
        (not (value_sum fcr.new_valid_proof_outputs == value_sum fcr.new_missed_proof_outputs))
        output_sum_violation

pub correct_file_contract_revisions : BlockHeight → Transaction → Check
correct_file_contract_revisions height t =
    check_all (check_revision height) t.file_contract_revisions

abbrev pub block_size_limit : ℕ
block_size_limit = 2000000

abbrev pub oak_size_limit : ℕ
oak_size_limit = 64000

-- `fitsInABlock`, of a transaction of `size` bytes.
pub fits_in_a_block : Forks → ℕ → BlockHeight → Check
fits_in_a_block forks size height =
    refuse (ltb (block_size_limit - 5000) size) transaction_too_large
    >> refuse (leb forks.oak_hardfork_block height && ltb oak_size_limit size) transaction_too_large

-- `followsMinimumValues`
pub follows_minimum_values : Transaction → Check
follows_minimum_values t =
    check_all (λ (o : SiacoinOutput). refuse (is_zero o.value) zero_output) t.siacoin_outputs
    >> check_all (λ (fc : FileContract). refuse (is_zero fc.payout) zero_output) t.file_contracts
    >> check_all
        (λ (o : SiafundOutput).
          refuse (not (is_zero o.claim_start)) nonzero_claim_start
          >> refuse (is_zero o.value) zero_output)
        t.siafund_outputs
    >> check_all (λ (fee : Currency). refuse (is_zero fee) zero_miner_fee) t.miner_fees

-- `followsStorageProofRules`
pub follows_storage_proof_rules : Transaction → Check
follows_storage_proof_rules t =
    if length t.storage_proofs == 0
    then none
    else refuse (not (length t.siacoin_outputs == 0)) storage_proof_with_outputs
      >> refuse (not (length t.file_contracts == 0)) storage_proof_with_outputs
      >> refuse (not (length t.file_contract_revisions == 0)) storage_proof_with_outputs
      >> refuse (not (length t.siafund_outputs == 0)) storage_proof_with_outputs

-- `_, exists := seen[id]`
unfoldable pub is_seen : Hash → List Hash → Bool
is_seen k [] = false
is_seen k (j ∷ seen) = if k == j then true else is_seen k seen

-- One loop of `noRepeats` from the set `seen`; `none` is the error, else the set after it.
pub add_new : List Hash → List Hash → Option (List Hash)
add_new seen [] = some seen
add_new seen (id ∷ ids) = if is_seen id seen then none else add_new (id ∷ seen) ids

abbrev pub doubled : Option (List Hash) → Check
doubled none = some double_spend
doubled (some seen) = none

-- The loops over the storage proofs and over the revisions share a set.
abbrev pub proofs_then_revisions : Option (List Hash) → Transaction → Check
proofs_then_revisions none t = some double_spend
proofs_then_revisions (some seen) t =
    doubled
      (add_new seen (map (λ (fcr : FileContractRevision). fcr.parent_id) t.file_contract_revisions))

-- `noRepeats`
pub no_repeats : Transaction → Check
no_repeats t =
    doubled (add_new [] (map (λ (i : SiacoinInput). i.parent_id) t.siacoin_inputs))
    >> proofs_then_revisions (add_new [] (map (λ (p : StorageProof). p.parent_id) t.storage_proofs))
        t
    >> doubled (add_new [] (map (λ (i : SiafundInput). i.parent_id) t.siafund_inputs))

-- `validUnlockConditions`, of one input and of a transaction.
abbrev pub check_timelock : BlockHeight → UnlockConditions → Check
check_timelock height uc = refuse (ltb height uc.timelock) timelock_not_satisfied

pub valid_unlock_conditions : BlockHeight → Transaction → Check
valid_unlock_conditions height t =
    check_all (λ (i : SiacoinInput). check_timelock height i.unlock_conditions) t.siacoin_inputs
    >> check_all (λ (r : FileContractRevision). check_timelock height r.unlock_conditions)
        t.file_contract_revisions
    >> check_all (λ (i : SiafundInput). check_timelock height i.unlock_conditions) t.siafund_inputs

-- A check finds nothing just if its parts find nothing.
pub >>-none : (a b : Check) → (a >> b) ≡ none → (a ≡ none) × (b ≡ none)
>>-none none b h = (refl, h)
>>-none (some e) b h = cc

pub refuse-none : (c : Bool) (e : TxError) → refuse c e ≡ none → c ≡ false
refuse-none true e h = cc
refuse-none false e h = refl

module _ {ℓ κ} {A : Type ℓ} {P : A → Type κ} (f : A → Check) where
  pub check_all-none :
      ((x : A) → f x ≡ none → P x) → (xs : List A) → check_all f xs ≡ none → All P xs
  unfolding check_all
  check_all-none g [] h = tt
  check_all-none g (x ∷ xs) h =
      let (first, rest) = >>-none (f x) (check_all f xs) h in (g x first, check_all-none g xs rest)

  pub check_all-of_All :
      ((x : A) → P x → f x ≡ none) → (xs : List A) → All P xs → check_all f xs ≡ none
  unfolding check_all
  check_all-of_All g [] h = refl
  check_all-of_All g (x ∷ xs) h = rw (g x h.0) (check_all-of_All g xs h.1)

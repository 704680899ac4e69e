-- ===== src/Standalone/Signatures.antt =====
-- types/signatures.go: `validCoveredFields` and `validSignatures`.
-- A specifier of 16 bytes is read as a number, its first byte the highest. `verify i pk sig` tells
-- whether the bytes `sig` decode to an ed25519 signature of the i-th signature's hash under `pk`.
pub mod Exact
pub mod Tests
use sia_hostdb_profiles.Prelude.{
  ℕ, ◌+◌, ◌-◌, List, [], ◌∷◌, ◌++◌, Option, none, some, Bool, true, false, not, ◌&&◌, ◌||◌, ltb,
  leb, ◌==◌, if◌then◌else◌, map, length,
}
use sia_hostdb_profiles.Prelude.Dict
use sia_hostdb_profiles.Prelude.Dict.{Dict}
use sia_hostdb_profiles.HostEntry.{SiaPublicKey}
use sia_hostdb_profiles.Transaction.{
  Hash, BlockHeight, UnlockConditions, SiacoinInput, SiafundInput, FileContractRevision,
  CoveredFields, TransactionSignature, Transaction,
}
use sia_hostdb_profiles.Standalone.{
  TxError, double_spend, whole_transaction_violation, sorted_unique_violation, frivolous_signature,
  public_key_overuse, invalid_pub_key_index, premature_signature, entropy_key, invalid_signature,
  missing_signatures, Check, refuse, ◌>>◌, check_all, is_seen,
}

-- `sortedUnique`; the loop, from its `biggest`.
sorted_from : ℕ → List ℕ → ℕ → Bool
sorted_from biggest [] max = ltb biggest max
sorted_from biggest (e ∷ es) max =
    let rest = sorted_from e es max in if leb e biggest then false else rest

unfoldable pub sorted_unique : List ℕ → ℕ → Bool
unfolding sorted_from
sorted_unique [] max = true
sorted_unique (e ∷ es) max = sorted_from e es max

-- `fieldMaxs`, without its last entry.
abbrev pub field_maxs : CoveredFields → Transaction → List (List ℕ × ℕ)
field_maxs cf t =
    (cf.siacoin_inputs, length t.siacoin_inputs)
    ∷ (cf.siacoin_outputs, length t.siacoin_outputs)
    ∷ (cf.file_contracts, length t.file_contracts)
    ∷ (cf.file_contract_revisions, length t.file_contract_revisions)
    ∷ (cf.storage_proofs, length t.storage_proofs)
    ∷ (cf.siafund_inputs, length t.siafund_inputs)
    ∷ (cf.siafund_outputs, length t.siafund_outputs)
    ∷ (cf.miner_fees, length t.miner_fees)
    ∷ (cf.arbitrary_data, length t.arbitrary_data)
    ∷ []

-- `validCoveredFields`
check_covered : Transaction → CoveredFields → Check
unfolding sorted_unique
check_covered t cf =
    (if cf.whole_transaction
      then check_all
          (λ (f : List ℕ × ℕ). refuse (not (length f.0 == 0)) whole_transaction_violation)
          (field_maxs cf t)
      else none)
    >> check_all (λ (f : List ℕ × ℕ). refuse (not (sorted_unique f.0 f.1)) sorted_unique_violation)
        (field_maxs cf t ++ (cf.transaction_signatures, length t.transaction_signatures) ∷ [])

pub valid_covered_fields : Transaction → Check
valid_covered_fields t =
    check_all (λ (sig : TransactionSignature). check_covered t sig.covered_fields)
      t.transaction_signatures

-- `inputSignatures`, without the index that nothing reads.
pub record InputSignatures : Type 0 where
  pub remaining_signatures : ℕ
  pub possible_keys : List SiaPublicKey
  pub used_keys : List ℕ

abbrev pub SigMap : Type 0
SigMap = Dict InputSignatures

-- Everything that a transaction's signatures unlock: ids and their conditions.
abbrev pub unlocked : Transaction → List (Hash × UnlockConditions)
unlocked t =
    map (λ (i : SiacoinInput). (i.parent_id, i.unlock_conditions)) t.siacoin_inputs
    ++ (map (λ (r : FileContractRevision). (r.parent_id, r.unlock_conditions))
          t.file_contract_revisions
        ++ map (λ (i : SiafundInput). (i.parent_id, i.unlock_conditions)) t.siafund_inputs)

abbrev pub unsigned : UnlockConditions → InputSignatures
unsigned uc = record {
  remaining_signatures = uc.signatures_required;
  possible_keys = uc.public_keys;
  used_keys = [];
}

-- The loops that fill `sigMap`; `none` is ErrDoubleSpend.
unfoldable pub fill : List (Hash × UnlockConditions) → SigMap → Option SigMap
fill [] m = some m
fill ((id, uc) ∷ us) m = elim (Dict.lookup id m) [
  | some _ ↦ none
  | none ↦ fill us (Dict.insert id (unsigned uc) m)
]

abbrev pub signature_entropy : ℕ
signature_entropy = 0x656e74726f7079000000000000000000

abbrev pub signature_ed25519 : ℕ
signature_ed25519 = 0x65643235353139000000000000000000

pub key_at : List SiaPublicKey → ℕ → Option SiaPublicKey
key_at [] i = none
key_at (k ∷ ks) i = if i == 0 then some k else key_at ks (i - 1)

-- The switch on the key's algorithm.
pub check_algorithm : (ℕ → SiaPublicKey → List ℕ → Bool) → ℕ → SiaPublicKey → List ℕ → Check
check_algorithm verify i pk sig =
    if pk.algorithm == signature_entropy
    then some entropy_key
    else if pk.algorithm == signature_ed25519
    then refuse (not (verify i pk sig)) invalid_signature
    else none

-- The checks on the i-th signature, for an input that has an entry.
abbrev pub check_key :
    (ℕ → SiaPublicKey → List ℕ → Bool)
    → BlockHeight
    → ℕ
    → TransactionSignature
    → InputSignatures
    → Check
check_key verify height i sig s =
    refuse (s.remaining_signatures == 0) frivolous_signature
    >> refuse (is_seen sig.public_key_index s.used_keys) public_key_overuse
    >> refuse (leb (length s.possible_keys) sig.public_key_index) invalid_pub_key_index
    >> refuse (ltb height sig.timelock) premature_signature
    >> (elim (key_at s.possible_keys sig.public_key_index) [
      | none ↦ some invalid_pub_key_index
      | some pk ↦ check_algorithm verify i pk sig.signature
    ])

-- How the loop over the signatures ends.
pub data Signed : Type 0 where
  bad : TxError → Signed
  good : SigMap → Signed

abbrev pub sign : TransactionSignature → InputSignatures → InputSignatures
sign sig s = record s {
  used_keys = sig.public_key_index ∷ s.used_keys;
  remaining_signatures = s.remaining_signatures - 1;
}

unfoldable pub check_signatures :
    (ℕ → SiaPublicKey → List ℕ → Bool)
    → BlockHeight
    → ℕ
    → List TransactionSignature
    → SigMap
    → Signed
check_signatures verify height i [] m = good m
check_signatures verify height i (sig ∷ sigs) m = elim (Dict.lookup sig.parent_id m) [
  | none ↦ bad frivolous_signature
  | some s ↦ elim (check_key verify height i sig s) [
    | some e ↦ bad e
    | none ↦ check_signatures verify height (i + 1) sigs (Dict.insert sig.parent_id (sign sig s) m)
  ]
]

-- The last loop, over the map.
pub all_signed : SigMap → Check
all_signed =
    check_all
      (λ (s : ℕ × InputSignatures). refuse (not (s.1.remaining_signatures == 0)) missing_signatures)

abbrev pub finish : Signed → Check
finish (bad e) = some e
finish (good m) = all_signed m

-- `validSignatures`
unfoldable pub valid_signatures :
    (ℕ → SiaPublicKey → List ℕ → Bool) → BlockHeight → Transaction → Check
valid_signatures verify height t = valid_covered_fields t >> (elim (fill (unlocked t) []) [
  | none ↦ some double_spend
  | some m ↦ finish (check_signatures verify height 0 t.transaction_signatures m)
])

-- ===== src/Standalone/Valid/Spec.antt =====
-- types/validtransaction.go, `StandaloneValid`: it accepts just the transactions that obey the rules,
-- which are stated here without the code's order and its errors.
use sia_hostdb_profiles.Prelude.{
  ℕ, ◌≤◌, ◌<◌, ◌≡◌, refl, sym, ◌∙◌, ◌≢◌, ◌↔◌, List, [], ◌∷◌, ◌++◌, Option, none, some, Bool, All,
  arith, map, ◌==◌, not, if◌then◌else◌, length,
}
use mathlib.Core.Path.{subst}
use sia_hostdb_profiles.Currency.{Currency, post_tax, is_zero}
use sia_hostdb_profiles.HostEntry.{SiaPublicKey}
use sia_hostdb_profiles.Transaction.{
  BlockHeight, Hash, UnlockConditions, SiacoinInput, SiacoinOutput, SiafundInput, SiafundOutput,
  FileContract, FileContractRevision, StorageProof, Transaction,
}
use sia_hostdb_profiles.Standalone.{
  Forks, Check, refuse, ◌>>◌, doubled, add_new, check_contract, check_revision, fits_in_a_block,
  follows_storage_proof_rules, no_repeats, proofs_then_revisions, follows_minimum_values,
  correct_file_contracts, correct_file_contract_revisions, valid_unlock_conditions, check_timelock,
  value_sum, TxError, double_spend, nonzero_claim_start, zero_output,
}
use sia_hostdb_profiles.Standalone.Decides.{Decides, as_rule, both, each_decides}
use sia_hostdb_profiles.Standalone.Fresh.{AreFresh, add_new_iff}
use sia_hostdb_profiles.Standalone.Signatures.{valid_signatures}
use sia_hostdb_profiles.Standalone.Valid.{standalone_valid}

-- The rules for a new contract: a window that is still to come and does not end before it begins,
-- and outputs that share out, whether the proof is given or missed, just what the fee leaves.
pub record FollowsContractRules (forks : Forks) (height : BlockHeight) (fc : FileContract)
    : Type 0 where
  pub starts_later : height < fc.window_start
  pub ends_later : fc.window_start < fc.window_end
  pub valid_share :
      value_sum fc.valid_proof_outputs ≡ post_tax forks.tax_hardfork_height height fc.payout
  pub missed_share :
      value_sum fc.missed_proof_outputs ≡ post_tax forks.tax_hardfork_height height fc.payout

check_contract_iff :
    (forks : Forks) (height : BlockHeight) (fc : FileContract)
    → Decides (check_contract forks height fc) (FollowsContractRules forks height fc)
check_contract_iff forks height fc = (λ h. ground arith, λ h. ground arith)

pub record FollowsRevisionRules (height : BlockHeight) (r : FileContractRevision) : Type 0 where
  pub starts_later : height < r.new_window_start
  pub ends_later : r.new_window_start < r.new_window_end
  pub equal_shares : value_sum r.new_valid_proof_outputs ≡ value_sum r.new_missed_proof_outputs

check_revision_iff :
    (height : BlockHeight) (r : FileContractRevision)
    → Decides (check_revision height r) (FollowsRevisionRules height r)
check_revision_iff height r = (λ h. ground arith, λ h. ground arith)

-- The size limits, the second one from the hardfork on.
pub record IsSmall (forks : Forks) (size : ℕ) (height : BlockHeight) : Type 0 where
  pub in_block : size ≤ 1995000
  pub after_oak : forks.oak_hardfork_block ≤ height → size ≤ 64000

fits_iff :
    (forks : Forks) (size : ℕ) (height : BlockHeight)
    → Decides (fits_in_a_block forks size height) (IsSmall forks size height)
unfolding fits_in_a_block
fits_iff forks size height = (λ h. ground arith, λ h. ground arith)

-- A transaction with a storage proof makes no outputs, contracts and revisions.
pub record MakesNothing (t : Transaction) : Type 0 where
  pub no_coins : t.siacoin_outputs ≡ []
  pub no_contracts : t.file_contracts ≡ []
  pub no_revisions : t.file_contract_revisions ≡ []
  pub no_funds : t.siafund_outputs ≡ []

empty_iff {ℓ} :
    {A : Type ℓ} (xs : List A) (e : TxError) → Decides (refuse (not (length xs == 0)) e) (xs ≡ [])
empty_iff [] e = (λ h. refl, λ h. refl)
empty_iff (x ∷ xs) e = (λ h. ground arith, λ h. absurd (cc h))

unless_empty {ℓ κ} :
    {A : Type ℓ} {P : Type κ} {c : Check} (xs : List A)
    → Decides c P
    → Decides (if length xs == 0 then none else c) (xs ≢ [] → P)
unless_empty [] d = (λ h ne. absurd (ne refl), λ h. refl)
unless_empty (x ∷ xs) d =
    (λ h ne. d.0 (ground (arith, h)), λ h. ground (arith, d.1 (h (λ e. cc e))))

proofs_iff :
    (t : Transaction)
    → Decides (follows_storage_proof_rules t) (t.storage_proofs ≢ [] → MakesNothing t)
unfolding follows_storage_proof_rules
proofs_iff t = unless_empty t.storage_proofs (
    as_rule
      (λ h. record {
        no_coins = h.0.0.0;
        no_contracts = h.0.0.1;
        no_revisions = h.0.1;
        no_funds = h.1;
      })
      (λ r. (((r.no_coins, r.no_contracts), r.no_revisions), r.no_funds))
      (both
        (both (both (empty_iff t.siacoin_outputs _) (empty_iff t.file_contracts _))
          (empty_iff t.file_contract_revisions _))
        (empty_iff t.siafund_outputs _)))

-- The contracts that a transaction ends, by a proof, or changes.
abbrev pub contract_ids : Transaction → List Hash
contract_ids t =
    map (λ (p : StorageProof). p.parent_id) t.storage_proofs
    ++ map (λ (r : FileContractRevision). r.parent_id) t.file_contract_revisions

-- No siacoin output, contract or siafund output is spent or changed twice.
pub record UsesOnce (t : Transaction) : Type 0 where
  pub coins_once : AreFresh [] (map (λ (i : SiacoinInput). i.parent_id) t.siacoin_inputs)
  pub contracts_once : AreFresh [] (contract_ids t)
  pub funds_once : AreFresh [] (map (λ (i : SiafundInput). i.parent_id) t.siafund_inputs)

-- The set that the proofs leave goes on to the revisions.
one_loop :
    (ps rs : List Hash)
    → (seen : List Hash)
    → doubled (add_new seen (ps ++ rs)) ≡ elim (add_new seen ps) [
      | none ↦ some double_spend
      | some seen' ↦ doubled (add_new seen' rs)
    ]
unfolding add_new
one_loop [] rs seen = refl
one_loop (p ∷ ps) rs seen = ground (arith, one_loop ps rs (p ∷ seen))

proofs_then_revisions_rule :
    (seen : Option (List Hash)) (t : Transaction)
    → proofs_then_revisions seen t ≡ (elim seen [
      | none ↦ some double_spend
      | some seen' ↦ doubled (
          add_new seen' (map (λ (r : FileContractRevision). r.parent_id) t.file_contract_revisions))
    ])
proofs_then_revisions_rule none t = refl
proofs_then_revisions_rule (some seen) t = refl

contracts_once_iff :
    (t : Transaction)
    → Decides
        (proofs_then_revisions
          (add_new [] (map (λ (p : StorageProof). p.parent_id) t.storage_proofs))
          t)
        (AreFresh [] (contract_ids t))
contracts_once_iff t =
    subst (λ c. Decides c (AreFresh [] (contract_ids t)))
      (one_loop _ _ [] ∙ sym (proofs_then_revisions_rule _ t)) (add_new_iff [] _)

no_repeats_iff : (t : Transaction) → Decides (no_repeats t) (UsesOnce t)
unfolding no_repeats
no_repeats_iff t =
    as_rule (λ h. record { coins_once = h.0.0; contracts_once = h.0.1; funds_once = h.1 })
      (λ r. ((r.coins_once, r.contracts_once), r.funds_once))
      (both (both (add_new_iff [] _) (contracts_once_iff t)) (add_new_iff [] _))

-- No output, contract or fee is of no value, and a siafund output claims from where it is made.
pub record HasValues (t : Transaction) : Type 0 where
  pub coin_values : All (λ (o : SiacoinOutput). 0 < o.value) t.siacoin_outputs
  pub payouts : All (λ (fc : FileContract). 0 < fc.payout) t.file_contracts
  pub fund_values :
      All (λ (o : SiafundOutput). (o.claim_start ≡ 0) × (0 < o.value)) t.siafund_outputs
  pub fees : All (λ (fee : Currency). 0 < fee) t.miner_fees

positive_iff : (v : Currency) (e : TxError) → Decides (refuse (is_zero v) e) (0 < v)
positive_iff v e = (λ h. ground arith, λ h. ground arith)

fund_output_iff :
    (o : SiafundOutput)
    → Decides
        (refuse (not (is_zero o.claim_start)) nonzero_claim_start
          >> refuse (is_zero o.value) zero_output)
        ((o.claim_start ≡ 0) × (0 < o.value))
fund_output_iff o = (λ h. ground arith, λ h. ground arith)

values_iff : (t : Transaction) → Decides (follows_minimum_values t) (HasValues t)
unfolding follows_minimum_values
values_iff t =
    as_rule
      (λ h. record { coin_values = h.0.0.0; payouts = h.0.0.1; fund_values = h.0.1; fees = h.1 })
      (λ r. (((r.coin_values, r.payouts), r.fund_values), r.fees))
      (both
        (both
          (both (each_decides (λ o. positive_iff o.value _) t.siacoin_outputs)
            (each_decides (λ fc. positive_iff fc.payout _) t.file_contracts))
          (each_decides fund_output_iff t.siafund_outputs))
        (each_decides (λ fee. positive_iff fee _) t.miner_fees))

-- What is spent or changed is unlocked by this height.
pub record IsUnlocked (height : BlockHeight) (t : Transaction) : Type 0 where
  pub coins : All (λ (i : SiacoinInput). i.unlock_conditions.timelock ≤ height) t.siacoin_inputs
  pub contracts :
      All
        (λ (r : FileContractRevision). r.unlock_conditions.timelock ≤ height)
        t.file_contract_revisions
  pub funds : All (λ (i : SiafundInput). i.unlock_conditions.timelock ≤ height) t.siafund_inputs

timelock_iff :
    (height : BlockHeight) (uc : UnlockConditions)
    → Decides (check_timelock height uc) (uc.timelock ≤ height)
timelock_iff height uc = (λ h. ground arith, λ h. ground arith)

unlocked_iff :
    (height : BlockHeight) (t : Transaction)
    → Decides (valid_unlock_conditions height t) (IsUnlocked height t)
unfolding valid_unlock_conditions
unlocked_iff height t =
    as_rule (λ h. record { coins = h.0.0; contracts = h.0.1; funds = h.1 })
      (λ r. ((r.coins, r.contracts), r.funds))
      (both
        (both (each_decides (λ i. timelock_iff height i.unlock_conditions) t.siacoin_inputs)
          (each_decides (λ r. timelock_iff height r.unlock_conditions) t.file_contract_revisions))
        (each_decides (λ i. timelock_iff height i.unlock_conditions) t.siafund_inputs))

-- The rules of a valid transaction, apart from its signatures.
pub record IsStandaloneValid (forks : Forks) (size : ℕ) (height : BlockHeight) (t : Transaction)
    : Type 0 where
  pub small : IsSmall forks size height
  pub proofs_alone : t.storage_proofs ≢ [] → MakesNothing t
  pub uses_once : UsesOnce t
  pub values : HasValues t
  pub contracts : All (FollowsContractRules forks height) t.file_contracts
  pub revisions : All (FollowsRevisionRules height) t.file_contract_revisions
  pub unlocked : IsUnlocked height t

-- `standalone_valid` finds no error just if the transaction obeys the rules and `valid_signatures`
-- finds none.
pub standalone_valid_exact :
    (forks : Forks) (verify : ℕ → SiaPublicKey → List ℕ → Bool) (size : ℕ) (height : BlockHeight)
    (t : Transaction)
    → (standalone_valid forks verify size height t ≡ none)
      ↔ (IsStandaloneValid forks size height t × (valid_signatures verify height t ≡ none))
unfolding standalone_valid correct_file_contracts correct_file_contract_revisions
standalone_valid_exact forks verify size height t =
    as_rule
      (λ h. (
        record {
          small = h.0.0.0.0.0.0.0;
          proofs_alone = h.0.0.0.0.0.0.1;
          uses_once = h.0.0.0.0.0.1;
          values = h.0.0.0.0.1;
          contracts = h.0.0.0.1;
          revisions = h.0.0.1;
          unlocked = h.0.1;
        },
        h.1,
      ))
      (λ r.
        let v = r.0 in
        (
          (
            (((((v.small, v.proofs_alone), v.uses_once), v.values), v.contracts), v.revisions),
            v.unlocked,
          ),
          r.1,
        ))
      (both
        (both
          (both
            (both
              (both (both (both (fits_iff forks size height) (proofs_iff t)) (no_repeats_iff t))
                (values_iff t))
              (each_decides (check_contract_iff forks height) t.file_contracts))
            (each_decides (check_revision_iff height) t.file_contract_revisions))
          (unlocked_iff height t))
        (λ h. h, λ h. h))

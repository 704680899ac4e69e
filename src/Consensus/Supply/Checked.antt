-- ===== src/Consensus/Supply/Checked.antt =====
-- consensus/validtransaction.go: what the checks that passed say of the database.
use sia_hostdb_profiles.Prelude.{
  ℕ, ◌+◌, ◌≡◌, ◌≢◌, refl, sym, ap, ◌∙◌, if_rule, List, [], ◌∷◌, Option, none, some, Bool, true,
  false, All, arith, map, ◌==◌, if◌then◌else◌,
}
use sia_hostdb_profiles.Prelude.Options.{>>=-eq-some, some_inj}
use sia_hostdb_profiles.Bolt.{Bolt}
use sia_hostdb_profiles.Currency.{Currency}
use sia_hostdb_profiles.Transaction.{
  SiacoinInput, SiacoinOutput, SiafundInput, SiafundOutput, FileContract, FileContractRevision,
  StorageProof,
}
use sia_hostdb_profiles.Standalone.{value_sum}
use sia_hostdb_profiles.Consensus.Chain.{Chain}
use sia_hostdb_profiles.Consensus.Store.{Database, readdress, siafund_output_at}
use sia_hostdb_profiles.Consensus.Valid.{
  ConsensusError, Answer, gives, fails, panicked, ◌then◌, refuse_if, or_error, check_each,
  siacoin_input_sum, siafund_input_sum, valid_file_contract_revision, missing_siacoin_output,
  nil_item, Proofs, storage_proof_segment, unrecognized_file_contract_id, valid_storage_proof,
  valid_storage_proof_100e3,
}
use sia_hostdb_profiles.Consensus.Supply.Coins.{Spends}
use sia_hostdb_profiles.Consensus.Supply.Funds.{Redeems}
use sia_hostdb_profiles.Consensus.Supply.Different.{AreDifferent, All-of_map}

pub then-gives :
    {A B : Type 0} (a : Answer A) (f : A → Answer B) {b : B}
    → (a then f) ≡ gives b
    → (x : A) × (a ≡ gives x) × (f x ≡ gives b)
then-gives (gives x) f h = (x, refl, h)
then-gives (fails e) f h = cc
then-gives panicked f h = cc

pub or_error-gives :
    {A : Type 0} (e : ConsensusError) (o : Option A) {a : A} → or_error e o ≡ gives a → o ≡ some a
or_error-gives e none h = cc
or_error-gives e (some b) h = cc

pub refuse_if-gives : (c : Bool) (e : ConsensusError) → refuse_if c e ≡ gives tt → c ≡ false
refuse_if-gives true e h = cc
refuse_if-gives false e h = refl

pub check_each-All {κ} :
    {A : Type 0} (P : A → Type κ) (f : A → Answer Unit)
    → ((x : A) → f x ≡ gives tt → P x)
    → (xs : List A) → check_each f xs ≡ gives tt
    → All P xs
unfolding check_each
check_each-All P f g [] h = tt
check_each-All P f g (x ∷ xs) h =
    let (_, first, rest) = then-gives (f x) (λ _. check_each f xs) h in
    (g x first, check_each-All P f g xs rest)

if_gives :
    {A : Type 0} (c : Bool) (a : Answer A) (e : ConsensusError) {b : A}
    → (if c then a else fails e) ≡ gives b
    → a ≡ gives b
if_gives true a e h = h
if_gives false a e h = cc

module _ ⦃bolt : Bolt⦄ (chain : Chain) (db : Database) where
  pub inputs-Spends :
      (scis : List SiacoinInput) (sum n : Currency) (coins : bolt.Bucket SiacoinOutput)
      → All
          (λ (sci : SiacoinInput).
            bolt.get sci.parent_id coins ≡ bolt.get sci.parent_id db.siacoin_outputs)
          scis
      → AreDifferent (map (λ (sci : SiacoinInput). sci.parent_id) scis)
      → siacoin_input_sum chain db sum scis ≡ gives n
      → (m : ℕ) × (n ≡ sum + m) × Spends scis m coins
  unfolding siacoin_input_sum
  inputs-Spends [] sum n coins same apart ok = (0, ground (arith, ok), refl)
  inputs-Spends (sci ∷ scis) sum n coins same apart ok =
      let (sco, found, next) =
        then-gives (or_error missing_siacoin_output (bolt.get sci.parent_id db.siacoin_outputs)) _
          ok in
      let there : bolt.get sci.parent_id db.siacoin_outputs ≡ some sco = or_error-gives _ _ found in
      let (m, split, rest) =
        inputs-Spends scis (sum + sco.value) n (bolt.delete sci.parent_id coins)
          (still scis (All-of_map (λ j. j ≢ sci.parent_id) _ scis apart.0) same.1) apart.1
          (if_gives (chain.unlock_hash sci.unlock_conditions == sco.unlock_hash) _ _ next) in
      (sco.value + m, omega (arith, split), (sco, m, same.0 ∙ there, refl, rest))
    where
      still :
          (xs : List SiacoinInput)
          → All (λ (x : SiacoinInput). x.parent_id ≢ sci.parent_id) xs
          → All
              (λ (x : SiacoinInput).
                bolt.get x.parent_id coins ≡ bolt.get x.parent_id db.siacoin_outputs)
              xs
          → All
              (λ (x : SiacoinInput).
                bolt.get x.parent_id (bolt.delete sci.parent_id coins)
                ≡ bolt.get x.parent_id db.siacoin_outputs)
              xs
      still [] others same = tt
      still (x ∷ xs) others same = (
        ground (arith, bolt.get-delete x.parent_id sci.parent_id coins, others.0, same.0),
        still xs others.1 same.1,
      )

  pub inputs-Redeems :
      (sfis : List SiafundInput) (sum n : Currency) (funds : bolt.Bucket SiafundOutput)
      → All
          (λ (sfi : SiafundInput).
            bolt.get sfi.parent_id funds ≡ bolt.get sfi.parent_id db.siafund_outputs)
          sfis
      → AreDifferent (map (λ (sfi : SiafundInput). sfi.parent_id) sfis)
      → siafund_input_sum chain db sum sfis ≡ gives n
      → (m : ℕ) × (n ≡ sum + m) × Redeems sfis m funds
  unfolding siafund_input_sum siafund_output_at
  inputs-Redeems [] sum n funds same apart ok = (0, ground (arith, ok), refl)
  inputs-Redeems (sfi ∷ sfis) sum n funds same apart ok =
      let (o', found, next) =
        then-gives (or_error nil_item (siafund_output_at chain sfi.parent_id db)) _ ok in
      let (o, there, is) =
        >>=-eq-some (bolt.get sfi.parent_id db.siafund_outputs) _ (or_error-gives _ _ found) in
      let (m, split, rest) =
        inputs-Redeems sfis (sum + o'.value) n (bolt.delete sfi.parent_id funds)
          (still sfis (All-of_map (λ j. j ≢ sfi.parent_id) _ sfis apart.0) same.1) apart.1
          (if_gives (chain.unlock_hash sfi.unlock_conditions == o'.unlock_hash) _ _ next) in
      let valued : o'.value ≡ o.value = ap (λ p. p.value) (sym (some_inj is)) ∙ same_value o in
      (o.value + m, omega (arith, split, valued), (o, m, same.0 ∙ there, refl, rest))
    where
      same_value : (o : SiafundOutput) → (readdress chain db.height o).value ≡ o.value
      same_value o = if_rule (λ (p : SiafundOutput). p.value ≡ o.value) _ (λ _. refl) (λ _. refl)

      still :
          (xs : List SiafundInput)
          → All (λ (x : SiafundInput). x.parent_id ≢ sfi.parent_id) xs
          → All
              (λ (x : SiafundInput).
                bolt.get x.parent_id funds ≡ bolt.get x.parent_id db.siafund_outputs)
              xs
          → All
              (λ (x : SiafundInput).
                bolt.get x.parent_id (bolt.delete sfi.parent_id funds)
                ≡ bolt.get x.parent_id db.siafund_outputs)
              xs
      still [] others same = tt
      still (x ∷ xs) others same = (
        ground (arith, bolt.get-delete x.parent_id sfi.parent_id funds, others.0, same.0),
        still xs others.1 same.1,
      )

  -- A revision that passed changes a contract that is there and keeps the sum of its outputs.
  abbrev pub Matches : FileContractRevision → Type 0
  Matches fcr =
      (fc : FileContract) × (bolt.get fcr.parent_id db.file_contracts ≡ some fc)
      × (value_sum fcr.new_valid_proof_outputs ≡ value_sum fc.valid_proof_outputs)

  pub revision-Matches :
      (fcr : FileContractRevision)
      → valid_file_contract_revision chain db fcr ≡ gives tt
      → Matches fcr
  unfolding valid_file_contract_revision
  revision-Matches fcr ok =
      let (fc, found, checks) =
        then-gives (or_error nil_item (bolt.get fcr.parent_id db.file_contracts)) _ ok in
      (fc, or_error-gives _ _ found, ground (arith, checks))

  -- A storage proof that passed is of a contract that is there.
  abbrev pub IsThere : StorageProof → Type 0
  IsThere sp = (fc : FileContract) × (bolt.get sp.parent_id db.file_contracts ≡ some fc)

  module _ (proofs : Proofs) where
    segment-IsThere :
        (sp : StorageProof) {index : ℕ}
        → storage_proof_segment chain db proofs sp.parent_id ≡ gives index
        → IsThere sp
    unfolding storage_proof_segment
    segment-IsThere sp ok =
        let (fc, found, _) =
          then-gives
            (or_error unrecognized_file_contract_id (bolt.get sp.parent_id db.file_contracts)) _
            ok in
        (fc, or_error-gives _ _ found)

    pub proof-IsThere :
        (sp : StorageProof) → valid_storage_proof chain db proofs sp ≡ gives tt → IsThere sp
    unfolding valid_storage_proof
    proof-IsThere sp ok =
        segment-IsThere sp (then-gives (storage_proof_segment chain db proofs sp.parent_id) _ ok).1

    pub proof_100e3-IsThere :
        (sp : StorageProof) → valid_storage_proof_100e3 chain db proofs sp ≡ gives tt → IsThere sp
    unfolding valid_storage_proof_100e3
    proof_100e3-IsThere sp ok =
        segment-IsThere sp (then-gives (storage_proof_segment chain db proofs sp.parent_id) _ ok).1

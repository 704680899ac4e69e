-- ===== src/Consensus/Supply/Applicable.antt =====
-- consensus/validtransaction.go, applytransaction.go: when a transaction can be applied: the state of
-- the database before it, its new ids, and what the checks say of it.
use sia_hostdb_profiles.Prelude.{
  ℕ, ◌+◌, ◌%◌, ◌≡◌, ◌≢◌, refl, sym, ◌∙◌, List, [], ◌∷◌, ◌++◌, Bool, All, All-imp, arith, map,
  sum_of,
}
use mathlib.Core.Path.{subst}
use sia_hostdb_profiles.Bolt.{Bolt}
use sia_hostdb_profiles.HostEntry.{SiaPublicKey}
use sia_hostdb_profiles.Currency.{post_tax}
use sia_hostdb_profiles.Transaction.{
  SiacoinInput, SiafundInput, FileContract, FileContractRevision, StorageProof, Transaction,
}
use sia_hostdb_profiles.Standalone.{value_sum}
use sia_hostdb_profiles.Standalone.Valid.Spec.{standalone_valid_exact}
use sia_hostdb_profiles.Consensus.Chain.{Chain}
use sia_hostdb_profiles.Consensus.Store.{Database}
use sia_hostdb_profiles.Consensus.Diffs.{ProcessedBlock}
use sia_hostdb_profiles.Consensus.Valid.{Proofs, siacoin_output_sum}
use sia_hostdb_profiles.Consensus.Supply.{fund_value, siafund_total}
use sia_hostdb_profiles.Consensus.Supply.Keys.{AreNew}
use sia_hostdb_profiles.Consensus.Supply.Coins.{Spends, coin_ids}
use sia_hostdb_profiles.Consensus.Supply.Contracts.{AreSound, IsBalanced}
use sia_hostdb_profiles.Consensus.Supply.Formed.{contracts_of, contract_ids}
use sia_hostdb_profiles.Consensus.Supply.Delayed.{HasRoom, maturity}
use sia_hostdb_profiles.Consensus.Supply.Funds.{AreAligned, Redeems, claim_ids, fund_ids}
use sia_hostdb_profiles.Consensus.Supply.Different.{
  AreDifferent, fresh-AreDifferent, AreDifferent-split, All-of_map,
}
use sia_hostdb_profiles.Consensus.Supply.Checked.{inputs-Spends, inputs-Redeems, Matches, IsThere}
use sia_hostdb_profiles.Consensus.Supply.Accepted.{Accepted, created_ids}

module _ ⦃bolt : Bolt⦄ where
  -- Every contract is listed where it expires and nothing else is, a contract pays as much for a
  -- missed as for a valid proof, there are 10,000 siafunds, and the pool and the claims on it are
  -- whole numbers of hastings for each.
  pub record IsFunded (db : Database) : Type 0 where
    pub listed : AreSound (contracts_of db)
    pub whole : db.siafund_pool % 10000 ≡ 0
    pub aligned : AreAligned db.siafund_pool db.siafund_outputs
    pub count : siafund_total db ≡ 10000

  -- The ids that the transaction creates are different and not in use, and there is a bucket for
  -- the outputs that it delays.
  pub record HasNewIds (chain : Chain) (t : Transaction) (db : Database) (pb : ProcessedBlock)
      : Type 0 where
    pub coins : AreNew (coin_ids chain t 0 t.siacoin_outputs) db.siacoin_outputs
    pub contracts : AreNew (contract_ids chain t 0 t.file_contracts) db.file_contracts
    pub funds : AreNew (fund_ids chain t 0 t.siafund_outputs) db.siafund_outputs
    pub delayed :
        HasRoom
          (maturity chain pb)
          (created_ids chain db t.storage_proofs ++ claim_ids chain t.siafund_inputs)
          db.delayed_outputs

  -- What the parts of the application need of the transaction.
  pub record IsApplicable (chain : Chain) (t : Transaction) (db : Database) : Type 0 where
    pub spends : Spends t.siacoin_inputs (siacoin_output_sum t) db.siacoin_outputs
    pub shares :
        All
          (λ (fc : FileContract).
            (value_sum fc.valid_proof_outputs
              ≡ post_tax chain.forks.tax_hardfork_height db.height fc.payout)
            × IsBalanced fc)
          t.file_contracts
    pub matches : All (Matches chain db) t.file_contract_revisions
    pub level :
        All
          (λ (r : FileContractRevision).
            value_sum r.new_missed_proof_outputs ≡ value_sum r.new_valid_proof_outputs)
          t.file_contract_revisions
    pub there : All (IsThere chain db) t.storage_proofs
    pub redeems : Redeems t.siafund_inputs (sum_of fund_value t.siafund_outputs) db.siafund_outputs
    pub proofs_apart : AreDifferent (map (λ (p : StorageProof). p.parent_id) t.storage_proofs)
    pub revisions_apart :
        AreDifferent (map (λ (r : FileContractRevision). r.parent_id) t.file_contract_revisions)
    pub unrevised :
        All
          (λ (p : StorageProof).
            All (λ (r : FileContractRevision). r.parent_id ≢ p.parent_id) t.file_contract_revisions)
          t.storage_proofs

  agree_all {ℓ} :
      {A : Type ℓ} {V : Type 0} (f : A → ℕ) (b : bolt.Bucket V) (xs : List A)
      → All (λ x. bolt.get (f x) b ≡ bolt.get (f x) b) xs
  agree_all f b [] = tt
  agree_all f b (x ∷ xs) = (refl, agree_all f b xs)

  module _ (chain : Chain) (db : Database) (proofs : Proofs)
      (verify : ℕ → SiaPublicKey → List ℕ → Bool) (size : ℕ) (t : Transaction) where
    pub Accepted-IsApplicable : Accepted chain db proofs verify size t → IsApplicable chain t db
    Accepted-IsApplicable ok =
        let rules =
          ((standalone_valid_exact chain.forks verify size db.height t).0 ok.standalone).0 in
        let once = rules.uses_once in
        let (m, coins_sum, spends) =
          inputs-Spends chain db t.siacoin_inputs 0 _ db.siacoin_outputs
            (agree_all (λ (i : SiacoinInput). i.parent_id) db.siacoin_outputs t.siacoin_inputs)
            (fresh-AreDifferent [] _ once.coins_once) ok.siacoins in
        let (n, funds_sum, redeems) =
          inputs-Redeems chain db t.siafund_inputs 0 _ db.siafund_outputs
            (agree_all (λ (i : SiafundInput). i.parent_id) db.siafund_outputs t.siafund_inputs)
            (fresh-AreDifferent [] _ once.funds_once) ok.siafunds in
        let (proofs_apart, revisions_apart, between) =
          AreDifferent-split (map (λ (p : StorageProof). p.parent_id) t.storage_proofs)
            (map (λ (r : FileContractRevision). r.parent_id) t.file_contract_revisions)
            (fresh-AreDifferent [] _ once.contracts_once) in
        record {
          spends =
              subst (λ k. Spends t.siacoin_inputs k db.siacoin_outputs) (same_coins m coins_sum)
                spends;
          shares =
              All-imp _ _ t.file_contracts
                (λ fc rule. (rule.valid_share, rule.missed_share ∙ sym rule.valid_share))
                rules.contracts;
          matches = ok.matches;
          level =
              All-imp _ _ t.file_contract_revisions (λ r rule. sym rule.equal_shares)
                rules.revisions;
          there = ok.there;
          redeems =
              subst (λ k. Redeems t.siafund_inputs k db.siafund_outputs) (same_funds n funds_sum)
                redeems;
          proofs_apart = proofs_apart;
          revisions_apart = revisions_apart;
          unrevised =
              All-imp _ _ t.storage_proofs
                (λ p others.
                  All-of_map (λ j. j ≢ p.parent_id) (λ (r : FileContractRevision). r.parent_id)
                    t.file_contract_revisions others)
                (All-of_map _ (λ (p : StorageProof). p.parent_id) t.storage_proofs between);
        }
      where
        same_coins : (m : ℕ) → siacoin_output_sum t ≡ 0 + m → m ≡ siacoin_output_sum t
        same_coins m h = omega (arith, h)

        same_funds :
            (n : ℕ)
            → sum_of fund_value t.siafund_outputs ≡ 0 + n
            → n ≡ sum_of fund_value t.siafund_outputs
        same_funds n h = omega (arith, h)

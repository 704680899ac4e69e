-- ===== src/Consensus/Supply/Accepted.antt =====
-- consensus/validtransaction.go, `validTransaction`: what an accepted transaction is, as the parts of
-- its application need it.
use sia_hostdb_profiles.Prelude.{
  ℕ, ◌≡◌, ◌≢◌, refl, List, [], ◌∷◌, ◌++◌, none, some, Bool, All, arith, map, ltb, if_rule, sum_of,
}
use sia_hostdb_profiles.Bolt.{Bolt}
use sia_hostdb_profiles.HostEntry.{SiaPublicKey}
use sia_hostdb_profiles.Transaction.{FileContract, FileContractRevision, StorageProof, Transaction}
use sia_hostdb_profiles.Standalone.{value_sum}
use sia_hostdb_profiles.Standalone.Valid.{standalone_valid}
use sia_hostdb_profiles.Consensus.Chain.{Chain}
use sia_hostdb_profiles.Consensus.Store.{Database}
use sia_hostdb_profiles.Consensus.Apply.{or_default, no_file_contract, revised}
use sia_hostdb_profiles.Consensus.Valid.{
  Answer, gives, siacoin_input_sum, siacoin_output_sum, siafund_input_sum, Proofs, valid_siacoins,
  valid_siafunds, valid_storage_proofs, valid_file_contract_revisions, valid_transaction,
}
use sia_hostdb_profiles.Consensus.Supply.{fund_value}
use sia_hostdb_profiles.Consensus.Supply.Revised.{Revises}
use sia_hostdb_profiles.Consensus.Supply.Delayed.{Proves, proof_ids}
use sia_hostdb_profiles.Consensus.Supply.Checked.{
  check_each-All, Matches, IsThere, revision-Matches, proof-IsThere, proof_100e3-IsThere,
}
use sia_hostdb_profiles.Consensus.Supply.Different.{AreDifferent, All-of_map}

module _ ⦃bolt : Bolt⦄ (chain : Chain) (db : Database) where
  pub siacoins_sum :
      (t : Transaction)
      → valid_siacoins chain db t ≡ gives tt
      → siacoin_input_sum chain db 0 t.siacoin_inputs ≡ gives (siacoin_output_sum t)
  unfolding valid_siacoins
  siacoins_sum t ok = ground (arith, ok)

  pub siafunds_sum :
      (t : Transaction)
      → valid_siafunds chain db t ≡ gives tt
      → siafund_input_sum chain db 0 t.siafund_inputs ≡ gives (sum_of fund_value t.siafund_outputs)
  unfolding valid_siafunds
  siafunds_sum t ok = ground (arith, ok)

  pub proofs-IsThere :
      (proofs : Proofs) (t : Transaction)
      → valid_storage_proofs chain db proofs t ≡ gives tt
      → All (IsThere chain db) t.storage_proofs
  unfolding valid_storage_proofs
  proofs-IsThere proofs t =
      if_rule (λ (a : Answer Unit). a ≡ gives tt → All (IsThere chain db) t.storage_proofs)
        (ltb db.height proofs.empty_proof_fork)
        (λ _.
          check_each-All (IsThere chain db) _ (proof_100e3-IsThere chain db proofs)
            t.storage_proofs)
        (λ _. check_each-All (IsThere chain db) _ (proof-IsThere chain db proofs) t.storage_proofs)

  pub revisions_match :
      (t : Transaction)
      → valid_file_contract_revisions chain db t ≡ gives tt
      → All (Matches chain db) t.file_contract_revisions
  unfolding valid_file_contract_revisions
  revisions_match t =
      check_each-All (Matches chain db) _ (revision-Matches chain db) t.file_contract_revisions

  -- The parts of an acceptance.
  pub record Accepted (proofs : Proofs) (verify : ℕ → SiaPublicKey → List ℕ → Bool) (size : ℕ)
      (t : Transaction) : Type 0 where
    pub standalone : standalone_valid chain.forks verify size db.height t ≡ none
    pub siacoins : siacoin_input_sum chain db 0 t.siacoin_inputs ≡ gives (siacoin_output_sum t)
    pub there : All (IsThere chain db) t.storage_proofs
    pub matches : All (Matches chain db) t.file_contract_revisions
    pub siafunds :
        siafund_input_sum chain db 0 t.siafund_inputs ≡ gives (sum_of fund_value t.siafund_outputs)

  pub valid_transaction-Accepted :
      (proofs : Proofs) (verify : ℕ → SiaPublicKey → List ℕ → Bool) (size : ℕ) (t : Transaction)
      → valid_transaction chain db proofs verify size t ≡ gives tt
      → Accepted proofs verify size t
  unfolding valid_transaction
  valid_transaction-Accepted proofs verify size t ok =
      let standalone : standalone_valid chain.forks verify size db.height t ≡ none =
        ground (arith, ok) in
      let siacoins : valid_siacoins chain db t ≡ gives tt = ground (arith, ok) in
      let storage : valid_storage_proofs chain db proofs t ≡ gives tt = ground (arith, ok) in
      let revisions : valid_file_contract_revisions chain db t ≡ gives tt = ground (arith, ok) in
      let siafunds : valid_siafunds chain db t ≡ gives tt = ground (arith, ok) in
      record {
        standalone = standalone;
        siacoins = siacoins_sum t siacoins;
        there = proofs-IsThere proofs t storage;
        matches = revisions_match t revisions;
        siafunds = siafunds_sum t siafunds;
      }

  abbrev pub MatchesIn : bolt.Bucket FileContract → FileContractRevision → Type 0
  MatchesIn fcs fcr =
      (fc : FileContract) × (bolt.get fcr.parent_id fcs ≡ some fc)
      × (value_sum fcr.new_valid_proof_outputs ≡ value_sum fc.valid_proof_outputs)
      × (value_sum fcr.new_missed_proof_outputs ≡ value_sum fcr.new_valid_proof_outputs)

  still_match :
      (id : ℕ) (gc : FileContract) (fcs : bolt.Bucket FileContract)
      (fcrs : List FileContractRevision)
      → All (λ (r : FileContractRevision). r.parent_id ≢ id) fcrs
      → All (MatchesIn fcs) fcrs
      → All (MatchesIn (bolt.put id gc (bolt.delete id fcs))) fcrs
  still_match id gc fcs [] others h = tt
  still_match id gc fcs (r ∷ rs) others ((fc, at, same, level), rest) = (
    (
      fc,
      ground (
        arith,
        bolt.get-put r.parent_id id gc (bolt.delete id fcs),
        bolt.get-delete r.parent_id id fcs,
        others.0,
        at,
      ),
      same,
      level,
    ),
    still_match id gc fcs rs others.1 rest,
  )

  -- Revisions of different contracts that match can be made one after another.
  pub matches-Revises :
      (fcrs : List FileContractRevision) (fcs : bolt.Bucket FileContract)
      → All (MatchesIn fcs) fcrs
      → AreDifferent (map (λ (r : FileContractRevision). r.parent_id) fcrs)
      → Revises fcrs fcs
  matches-Revises [] fcs h apart = tt
  matches-Revises (r ∷ rs) fcs ((fc, at, same, level), rest) apart = (
    fc,
    at,
    same,
    level,
    matches-Revises rs (bolt.put r.parent_id (revised fc r) (bolt.delete r.parent_id fcs))
        (still_match r.parent_id (revised fc r) fcs rs
          (All-of_map (λ j. j ≢ r.parent_id) (λ (x : FileContractRevision). x.parent_id) rs apart.0)
          rest)
        apart.1,
  )

  -- The ids of the outputs that the proofs create.
  abbrev pub created_ids : List StorageProof → List ℕ
  created_ids [] = []
  created_ids (sp ∷ sps) =
      proof_ids chain sp.parent_id 0
        (or_default no_file_contract (bolt.get sp.parent_id db.file_contracts)).valid_proof_outputs
      ++ created_ids sps

  -- The proved contract is in `fcs` as it is in the database.
  abbrev pub IsIn : bolt.Bucket FileContract → StorageProof → Type 0
  IsIn fcs sp =
      (fc : FileContract) × (bolt.get sp.parent_id db.file_contracts ≡ some fc)
      × (bolt.get sp.parent_id fcs ≡ some fc)

  still-IsIn :
      (id : ℕ) (fcs : bolt.Bucket FileContract) (sps : List StorageProof)
      → All (λ (sp : StorageProof). sp.parent_id ≢ id) sps
      → All (IsIn fcs) sps
      → All (IsIn (bolt.delete id fcs)) sps
  still-IsIn id fcs [] others h = tt
  still-IsIn id fcs (sp ∷ sps) others ((fc, was, at), rest) = (
    (fc, was, ground (arith, bolt.get-delete sp.parent_id id fcs, others.0, at)),
    still-IsIn id fcs sps others.1 rest,
  )

  pub there-Proves :
      (sps : List StorageProof) (fcs : bolt.Bucket FileContract)
      → All (IsIn fcs) sps
      → AreDifferent (map (λ (sp : StorageProof). sp.parent_id) sps)
      → Proves chain sps (created_ids sps) fcs
  there-Proves [] fcs h apart = refl
  there-Proves (sp ∷ sps) fcs ((fc, was, at), rest) apart = (
    fc,
    created_ids sps,
    at,
    rw was refl,
    there-Proves sps (bolt.delete sp.parent_id fcs)
        (still-IsIn sp.parent_id fcs sps
          (All-of_map (λ j. j ≢ sp.parent_id) (λ (x : StorageProof). x.parent_id) sps apart.0) rest)
        apart.1,
  )

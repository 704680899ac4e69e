-- ===== src/Consensus/Supply/Revised.antt =====
-- applytransaction.go, `applyFileContractRevisions`: revisions replace contracts by contracts with
-- as many siacoins.
use sia_hostdb_profiles.Prelude.{
  ℕ, ◌≡◌, ◌≢◌, refl, ◌∙◌, List, [], ◌∷◌, ◌++◌, Option, none, some, true, false, All, arith,
}
use sia_hostdb_profiles.Bolt.{Bolt}
use sia_hostdb_profiles.Bolt.Totals.{total, total-put_new, total-delete}
use sia_hostdb_profiles.Transaction.{FileContract, FileContractRevision}
use sia_hostdb_profiles.Standalone.{value_sum}
use sia_hostdb_profiles.Consensus.Store.{Database, add_file_contract}
use sia_hostdb_profiles.Consensus.Diffs.{
  FileContractDiff, ProcessedBlock, run, commit_file_contract_diff,
}
use sia_hostdb_profiles.Consensus.Apply.{Applying, apply_file_contract_revision, revised}
use sia_hostdb_profiles.Consensus.Supply.{contract_value}
use sia_hostdb_profiles.Consensus.Supply.Contracts.{
  Contracts, AreSound, added, added-AreSound, taken, taken-AreSound, remove_listed,
}
use sia_hostdb_profiles.Consensus.Supply.Formed.{contracts_of}

module _ ⦃bolt : Bolt⦄ where
  -- The revisions change contracts that are there and keep the sum of their outputs.
  abbrev pub Revises : List FileContractRevision → bolt.Bucket FileContract → Type 0
  Revises [] fcs = Unit
  Revises (fcr ∷ fcrs) fcs =
      (fc : FileContract) × (bolt.get fcr.parent_id fcs ≡ some fc)
      × (value_sum fcr.new_valid_proof_outputs ≡ value_sum fc.valid_proof_outputs)
      × (value_sum fcr.new_missed_proof_outputs ≡ value_sum fcr.new_valid_proof_outputs)
      × Revises fcrs (bolt.put fcr.parent_id (revised fc fcr) (bolt.delete fcr.parent_id fcs))

  -- `c'` has as many siacoins as `c`, and the contracts that no revision names.
  pub record Kept (fcrs : List FileContractRevision) (c c' : Contracts) : Type 0 where
    pub listed : AreSound c'
    pub same_total : total contract_value c'.0 ≡ total contract_value c.0
    pub keeps :
        (id : ℕ) (fc : FileContract)
        → All (λ (fcr : FileContractRevision). fcr.parent_id ≢ id) fcrs
        → bolt.get id c.0 ≡ some fc
        → bolt.get id c'.0 ≡ some fc

  abbrev pub TablesChange :
      Option Applying → Database → ProcessedBlock → (Contracts → Type 0) → Type 0
  TablesChange result db pb P =
      (c : Contracts) × (pb' : ProcessedBlock) × (pb'.height ≡ pb.height)
      × (result
          ≡ some (record { db = record db { file_contracts = c.0; expirations = c.1 }; pb = pb' }))
      × P c

  abbrev pub replaced :
      FileContractRevision → FileContract → bolt.Bucket Unit → Contracts → Contracts
  replaced fcr fc b c = added fcr.parent_id (revised fc fcr) (taken fcr.parent_id fc b c)

  revise_one :
      (fcr : FileContractRevision) (fc : FileContract) (db : Database) (pb : ProcessedBlock)
      → bolt.get fcr.parent_id db.file_contracts ≡ some fc
      → AreSound (contracts_of db)
      → (b : bolt.Bucket Unit) × (bolt.get fc.window_end db.expirations ≡ some b)
        × (pb' : ProcessedBlock) × (pb'.height ≡ pb.height)
        × (apply_file_contract_revision fcr (record { db = db; pb = pb })
            ≡ some (record {
              db = record db {
                file_contracts = (replaced fcr fc b (contracts_of db)).0;
                expirations = (replaced fcr fc b (contracts_of db)).1;
              };
              pb = pb';
            }))
  unfolding apply_file_contract_revision commit_file_contract_diff add_file_contract
  revise_one fcr fc db pb there listed =
      let (b, at, ran) = remove_listed fcr.parent_id fc db there listed in
      (
        b,
        at,
        record pb { file_contract_diffs = (pb.file_contract_diffs ++ old ∷ []) ++ new ∷ [] },
        refl,
        rw (there, ran) refl,
      )
    where
      old : FileContractDiff
      old = record { direction = false; id = fcr.parent_id; file_contract = fc }

      new : FileContractDiff
      new = record { direction = true; id = fcr.parent_id; file_contract = revised fc fcr }

  revise_total :
      (fcr : FileContractRevision) (fc : FileContract) (fcs : bolt.Bucket FileContract)
      → bolt.get fcr.parent_id fcs ≡ some fc
      → value_sum fcr.new_valid_proof_outputs ≡ value_sum fc.valid_proof_outputs
      → total contract_value
          (bolt.put fcr.parent_id (revised fc fcr) (bolt.delete fcr.parent_id fcs))
        ≡ total contract_value fcs
  revise_total fcr fc fcs there same =
      let gone : bolt.get fcr.parent_id (bolt.delete fcr.parent_id fcs) ≡ none =
        ground (arith, bolt.get-delete fcr.parent_id fcr.parent_id fcs) in
      omega (
        arith,
        same,
        total-delete contract_value fcr.parent_id fc fcs there,
        total-put_new contract_value fcr.parent_id (revised fc fcr) (bolt.delete fcr.parent_id fcs)
            gone,
      )

  pub revisions_keep :
      (fcrs : List FileContractRevision) (db : Database) (pb : ProcessedBlock)
      → Revises fcrs db.file_contracts
      → AreSound (contracts_of db)
      → TablesChange
          (run apply_file_contract_revision fcrs (record { db = db; pb = pb }))
          db
          pb
          (Kept fcrs (contracts_of db))
  unfolding run
  revisions_keep [] db pb revises listed = (
    contracts_of db,
    pb,
    refl,
    refl,
    record { listed = listed; same_total = refl; keeps = λ id fc _ h. h },
  )
  revisions_keep (fcr ∷ fcrs) db pb (fc, there, same, level, rest) listed =
      let (b, at, pb1, height1, ran1) = revise_one fcr fc db pb there listed in
      let c1 = replaced fcr fc b (contracts_of db) in
      let (c, pb', height, ran, kept) =
        revisions_keep fcrs (record db { file_contracts = c1.0; expirations = c1.1 }) pb1 rest
          (added-AreSound fcr.parent_id (revised fc fcr)
            (taken fcr.parent_id fc b (contracts_of db))
            (ground (arith, bolt.get-delete fcr.parent_id fcr.parent_id db.file_contracts)) level
            (taken-AreSound fcr.parent_id fc b (contracts_of db) there at listed)) in
      (
        c,
        pb',
        height ∙ height1,
        rw ran1 ran,
        record {
          listed = kept.listed;
          same_total = kept.same_total ∙ revise_total fcr fc db.file_contracts there same;
          keeps = λ id gc others h. kept.keeps id gc others.1 (
              ground (
                arith,
                others.0,
                h,
                bolt.get-put id fcr.parent_id (revised fc fcr)
                    (bolt.delete fcr.parent_id db.file_contracts),
                bolt.get-delete id fcr.parent_id db.file_contracts,
              ));
        },
      )

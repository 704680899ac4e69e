-- ===== src/Consensus/Supply/Delayed.antt =====
-- applytransaction.go, `applyStorageProofs`: the siacoins of a proved contract go to delayed outputs.
use sia_hostdb_profiles.Prelude.{
  ℕ, ◌+◌, ◌≡◌, ◌≢◌, refl, ◌∙◌, List, [], ◌∷◌, ◌++◌, Option, some, true, false, arith, ==_refl,
}
use mathlib.Core.List.{append_assoc}
use sia_hostdb_profiles.Bolt.{Bolt}
use sia_hostdb_profiles.Bolt.Totals.{total, total-put_new, total-delete, total-replace}
use sia_hostdb_profiles.Transaction.{SiacoinOutput, FileContract, StorageProof}
use sia_hostdb_profiles.Standalone.{value_sum}
use sia_hostdb_profiles.Consensus.Chain.{Chain, add_heights}
use sia_hostdb_profiles.Consensus.Store.{Database, add_dsco}
use sia_hostdb_profiles.Consensus.Diffs.{
  FileContractDiff, ProcessedBlock, run, commit_file_contract_diff,
  commit_delayed_siacoin_output_diff,
}
use sia_hostdb_profiles.Consensus.Apply.{
  Applying, run_from, record_delayed_output, apply_proof_output, apply_storage_proof,
}
use sia_hostdb_profiles.Consensus.Supply.{coin_value, contract_value}
use sia_hostdb_profiles.Consensus.Supply.Keys.{AreNew, put-AreNew}
use sia_hostdb_profiles.Consensus.Supply.Contracts.{
  Contracts, AreSound, taken, taken-AreSound, remove_listed,
}
use sia_hostdb_profiles.Consensus.Supply.Formed.{contracts_of}

module _ ⦃bolt : Bolt⦄ where
  abbrev pub Delayed : Type 0
  Delayed = bolt.Bucket (bolt.Bucket SiacoinOutput)

  -- The bucket for a height is there, and the ids are new in it.
  abbrev pub HasRoom : ℕ → List ℕ → Delayed → Type 0
  HasRoom height ids delayed =
      (b : bolt.Bucket SiacoinOutput) × (bolt.get height delayed ≡ some b) × AreNew ids b

  -- A delayed output with a new id is added to the bucket that is there.
  pub add_new :
      (height id : ℕ) (ids : List ℕ) (sco : SiacoinOutput) (db : Database)
      → HasRoom height (id ∷ ids) db.delayed_outputs
      → (delayed : Delayed) × (add_dsco height id sco db
          ≡ some (record db { delayed_outputs = delayed }))
        × HasRoom height ids delayed
        × (total (total coin_value) delayed
            ≡ sco.value + total (total coin_value) db.delayed_outputs)
        × ((h : ℕ) → h ≢ height → bolt.get h delayed ≡ bolt.get h db.delayed_outputs)
  unfolding add_dsco
  add_new height id ids sco db (b, at, new) = (
    bolt.put height (bolt.put id sco b) db.delayed_outputs,
    rw at,
    (
      bolt.put id sco b,
      bolt.get-put height height (bolt.put id sco b) db.delayed_outputs ∙ rw (==_refl height),
      put-AreNew id sco ids b new.1 new.2,
    ),
    omega (
      arith,
      total-replace (total coin_value) height (bolt.put id sco b) db.delayed_outputs b at,
      total-put_new coin_value id sco b new.0,
    ),
    λ h other. ground (arith, bolt.get-put h height (bolt.put id sco b) db.delayed_outputs, other),
  )

  module _ (chain : Chain) where
    -- What a part of a transaction does that adds delayed outputs only.
    abbrev pub DelayedChange :
        Option Applying → Database → ProcessedBlock → (Delayed → Type 0) → Type 0
    DelayedChange result db pb P =
        (delayed : Delayed) × (pb' : ProcessedBlock) × (pb'.height ≡ pb.height)
        × (result ≡ some (record { db = record db { delayed_outputs = delayed }; pb = pb' }))
        × P delayed

    abbrev pub maturity : ProcessedBlock → ℕ
    maturity pb = add_heights pb.height chain.maturity_delay

    abbrev pub ids_from : (ℕ → ℕ) → ℕ → List SiacoinOutput → List ℕ
    ids_from ids i [] = []
    ids_from ids i (o ∷ os) = ids i ∷ ids_from ids (i + 1) os

    abbrev pub proof_ids : ℕ → ℕ → List SiacoinOutput → List ℕ
    proof_ids id = ids_from (chain.storage_proof_output_id id true)

    -- An output is delayed under an id that its index gives.
    abbrev pub delay_output : (ℕ → ℕ) → ℕ → SiacoinOutput → Applying → Option Applying
    delay_output ids i o s =
        record_delayed_output
          (record {
            direction = true;
            id = ids i;
            siacoin_output = o;
            maturity_height = add_heights s.pb.height chain.maturity_delay;
          })
          s

    pub outputs_delay :
        (ids : ℕ → ℕ) (os : List SiacoinOutput) (i : ℕ) (later : List ℕ) (db : Database)
        (pb : ProcessedBlock)
        → HasRoom (maturity pb) (ids_from ids i os ++ later) db.delayed_outputs
        → DelayedChange
            (run_from (delay_output ids) i os (record { db = db; pb = pb }))
            db
            pb
            (λ delayed.
              HasRoom (maturity pb) later delayed
              × (total (total coin_value) delayed
                  ≡ value_sum os + total (total coin_value) db.delayed_outputs)
              × ((h : ℕ) → h ≢ maturity pb → bolt.get h delayed ≡ bolt.get h db.delayed_outputs))
    unfolding run_from commit_delayed_siacoin_output_diff
    outputs_delay ids [] i later db pb room =
        (db.delayed_outputs, pb, refl, refl, (room, omega arith, λ h other. refl))
    outputs_delay ids (o ∷ os) i later db pb room =
        let (delayed1, ran1, room1, more1, others1) =
          add_new (maturity pb) (ids i) (ids_from ids (i + 1) os ++ later) o db room in
        let (delayed, pb', height, ran, (room', more, others)) =
          outputs_delay ids os (i + 1) later (record db { delayed_outputs = delayed1 }) (noted i o)
            room1 in
        (
          delayed,
          pb',
          height,
          rw ran1 ran,
          (room', omega (arith, more, more1), λ h other. others h other ∙ others1 h other),
        )
      where
        noted : ℕ → SiacoinOutput → ProcessedBlock
        noted i o = record pb {
          delayed_siacoin_output_diffs =
              pb.delayed_siacoin_output_diffs
              ++ (record {
                direction = true;
                id = ids i;
                siacoin_output = o;
                maturity_height = maturity pb;
              })
                ∷ [];
        }

    -- The proofs are of contracts that are there, none of them twice, and create outputs with `ids`.
    abbrev pub Proves : List StorageProof → List ℕ → bolt.Bucket FileContract → Type 0
    Proves [] ids fcs = ids ≡ []
    Proves (sp ∷ sps) ids fcs =
        (fc : FileContract) × (rest : List ℕ) × (bolt.get sp.parent_id fcs ≡ some fc)
        × (ids ≡ proof_ids sp.parent_id 0 fc.valid_proof_outputs ++ rest)
        × Proves sps rest (bolt.delete sp.parent_id fcs)

    -- The siacoins of the proved contracts are in delayed outputs.
    pub record Paid (later : List ℕ) (height : ℕ) (db : Database) (c : Contracts)
        (delayed : Delayed) : Type 0 where
      pub listed : AreSound c
      pub room : HasRoom height later delayed
      pub moved :
          total (total coin_value) delayed + total contract_value c.0
          ≡ total (total coin_value) db.delayed_outputs + total contract_value db.file_contracts

    abbrev pub PaidChange :
        Option Applying → Database → ProcessedBlock → (Contracts → Delayed → Type 0) → Type 0
    PaidChange result db pb P =
        (c : Contracts) × (delayed : Delayed) × (pb' : ProcessedBlock) × (pb'.height ≡ pb.height)
        × (result
            ≡ some (record {
              db = record db { file_contracts = c.0; expirations = c.1; delayed_outputs = delayed };
              pb = pb';
            }))
        × P c delayed

    prove_one :
        (sp : StorageProof) (fc : FileContract) (later : List ℕ) (db : Database)
        (pb : ProcessedBlock)
        → bolt.get sp.parent_id db.file_contracts ≡ some fc
        → AreSound (contracts_of db)
        → HasRoom
            (maturity pb)
            (proof_ids sp.parent_id 0 fc.valid_proof_outputs ++ later)
            db.delayed_outputs
        → PaidChange
            (apply_storage_proof chain sp (record { db = db; pb = pb }))
            db
            pb
            (λ c delayed.
              (c.0 ≡ bolt.delete sp.parent_id db.file_contracts)
              × Paid later (maturity pb) db c delayed)
    unfolding apply_storage_proof apply_proof_output commit_file_contract_diff
    prove_one sp fc later db pb there listed room =
        let (delayed, pb1, height, ran, (room', more, _)) =
          outputs_delay (chain.storage_proof_output_id sp.parent_id true) fc.valid_proof_outputs 0
            later db pb room in
        let (b, at, removed) =
          remove_listed sp.parent_id fc (record db { delayed_outputs = delayed }) there listed in
        (
          taken sp.parent_id fc b (contracts_of db),
          delayed,
          record pb1 { file_contract_diffs = pb1.file_contract_diffs ++ ended ∷ [] },
          height,
          rw (there, ran, removed) refl,
          (
            refl,
            record {
              listed = taken-AreSound sp.parent_id fc b (contracts_of db) there at listed;
              room = room';
              moved = omega (
                arith,
                more,
                total-delete contract_value sp.parent_id fc db.file_contracts there,
              );
            },
          ),
        )
      where
        ended : FileContractDiff
        ended = record { direction = false; id = sp.parent_id; file_contract = fc }

    pub proofs_pay :
        (sps : List StorageProof) (ids later : List ℕ) (db : Database) (pb : ProcessedBlock)
        → Proves sps ids db.file_contracts
        → AreSound (contracts_of db)
        → HasRoom (maturity pb) (ids ++ later) db.delayed_outputs
        → PaidChange
            (run (apply_storage_proof chain) sps (record { db = db; pb = pb }))
            db
            pb
            (Paid later (maturity pb) db)
    unfolding run
    proofs_pay [] ids later db pb none_left listed room = (
      contracts_of db,
      db.delayed_outputs,
      pb,
      refl,
      refl,
      record { listed = listed; room = rw none_left at room; moved = refl },
    )
    proofs_pay (sp ∷ sps) ids later db pb (fc, rest, there, split, proves) listed room =
        let room0 : HasRoom (maturity pb)
            (proof_ids sp.parent_id 0 fc.valid_proof_outputs ++ (rest ++ later))
            db.delayed_outputs =
          rw (split, append_assoc) at room in
        let (c1, delayed1, pb1, height1, ran1, (is, paid1)) =
          prove_one sp fc (rest ++ later) db pb there listed room0 in
        let (c, delayed, pb', height, ran, paid) =
          proofs_pay sps rest later
            (record db { file_contracts = c1.0; expirations = c1.1; delayed_outputs = delayed1 })
            pb1 (rw is proves) paid1.listed (rw height1 paid1.room) in
        (
          c,
          delayed,
          pb',
          height ∙ height1,
          rw ran1 ran,
          record {
            listed = paid.listed;
            room = rw height1 at paid.room;
            moved = omega (arith, paid.moved, paid1.moved);
          },
        )

-- ===== src/Consensus/Supply/Missed.antt =====
-- maintenance.go, `applyMissedStorageProof`: the diffs of the contracts that expire add the outputs of
-- their missed proofs, which are worth what the contracts hold.
use sia_hostdb_profiles.Prelude.{
  ℕ, ◌+◌, ◌≡◌, refl, ap, ◌∙◌, List, [], ◌∷◌, ◌++◌, Option, none, some, true, false, All, All-append,
  arith, Option-cases, inl, inr, sum_of, sum_of-append, map,
}
use sia_hostdb_profiles.Bolt.{Bolt}
use sia_hostdb_profiles.Bolt.Totals.{total}
use sia_hostdb_profiles.Transaction.{SiacoinOutput, FileContract}
use sia_hostdb_profiles.Standalone.{value_sum}
use sia_hostdb_profiles.Consensus.Chain.{Chain, add_heights}
use sia_hostdb_profiles.Consensus.Store.{Database, add_dsco}
use sia_hostdb_profiles.Consensus.Diffs.{
  DelayedSiacoinOutputDiff, ProcessedBlock, run, commit_delayed_siacoin_output_diff,
}
use sia_hostdb_profiles.Consensus.Apply.{
  Applying, record_delayed_output, or_default, no_file_contract,
}
use sia_hostdb_profiles.Consensus.Maintenance.{
  missed_outputs, apply_missed_storage_proof, missed_diffs,
}
use sia_hostdb_profiles.Consensus.Supply.{coin_value, contract_value}
use sia_hostdb_profiles.Consensus.Supply.Contracts.{AreSound, IsBalanced}
use sia_hostdb_profiles.Consensus.Supply.Formed.{contracts_of}
use sia_hostdb_profiles.Consensus.Supply.Delayed.{
  HasRoom, DelayedChange, add_new, ids_from, maturity,
}

abbrev pub diff_id : DelayedSiacoinOutputDiff → ℕ
diff_id d = d.id

abbrev pub diff_value : DelayedSiacoinOutputDiff → ℕ
diff_value d = d.siacoin_output.value

-- The diffs add outputs to the bucket for a height.
abbrev AddAt : ℕ → DelayedSiacoinOutputDiff → Type 0
AddAt m d = (d.direction ≡ true) × (d.maturity_height ≡ m)

module _ ⦃bolt : Bolt⦄ (chain : Chain) where
  commit_add :
      (m : ℕ) (d : DelayedSiacoinOutputDiff) (db : Database)
      → AddAt m d
      → commit_delayed_siacoin_output_diff true d db ≡ add_dsco m d.id d.siacoin_output db
  unfolding commit_delayed_siacoin_output_diff
  commit_add m d db (adds, at) = rw (adds, at) refl

  pub diffs_add :
      (m : ℕ) (ds : List DelayedSiacoinOutputDiff) (later : List ℕ) (db : Database)
      (pb : ProcessedBlock)
      → All (AddAt m) ds
      → HasRoom m (map diff_id ds ++ later) db.delayed_outputs
      → DelayedChange chain
          (run record_delayed_output ds (record { db = db; pb = pb }))
          db
          pb
          (λ delayed.
            HasRoom m later delayed
            × (total (total coin_value) delayed
                ≡ sum_of diff_value ds + total (total coin_value) db.delayed_outputs))
  unfolding run
  diffs_add m [] later db pb adds room = (db.delayed_outputs, pb, refl, refl, (room, omega arith))
  diffs_add m (d ∷ ds) later db pb adds room =
      let (delayed1, ran1, room1, more1, _) =
        add_new m d.id (map diff_id ds ++ later) d.siacoin_output db room in
      let (delayed, pb', height, ran, (room', more)) =
        diffs_add m ds later (record db { delayed_outputs = delayed1 })
          (record pb { delayed_siacoin_output_diffs = pb.delayed_siacoin_output_diffs ++ d ∷ [] })
          adds.1 room1 in
      (
        delayed,
        pb',
        height,
        rw (commit_add m d db adds.0, ran1) ran,
        (room', omega (arith, more, more1)),
      )

  missed_outputs-AddAt :
      (height fcid i : ℕ) (mpos : List SiacoinOutput)
      → All
          (AddAt (add_heights height chain.maturity_delay))
          (missed_outputs chain height fcid i mpos)
  missed_outputs-AddAt height fcid i [] = tt
  missed_outputs-AddAt height fcid i (mpo ∷ mpos) =
      ((refl, refl), missed_outputs-AddAt height fcid (i + 1) mpos)

  missed_outputs_sum :
      (height fcid i : ℕ) (mpos : List SiacoinOutput)
      → sum_of diff_value (missed_outputs chain height fcid i mpos) ≡ value_sum mpos
  missed_outputs_sum height fcid i [] = refl
  missed_outputs_sum height fcid i (mpo ∷ mpos) =
      ap (λ n. mpo.value + n) (missed_outputs_sum height fcid (i + 1) mpos)

  module _ (s : Applying) where
    abbrev pub contract_at : ℕ × Unit {0} → FileContract
    contract_at e = or_default no_file_contract (bolt.get e.0 s.db.file_contracts)

    abbrev pub held : ℕ × Unit {0} → ℕ
    held e = contract_value (contract_at e)

    pub missed_diffs-AddAt :
        (es : List (ℕ × Unit {0})) → All (AddAt (maturity chain s.pb)) (missed_diffs chain s es).0
    unfolding missed_diffs apply_missed_storage_proof
    missed_diffs-AddAt [] = tt
    missed_diffs-AddAt (e ∷ es) =
        All-append _ _ _
          (missed_outputs-AddAt s.pb.height e.0 0 (contract_at e).missed_proof_outputs)
          (missed_diffs-AddAt es)

    at-IsBalanced : AreSound (contracts_of s.db) → (e : ℕ × Unit {0}) → IsBalanced (contract_at e)
    at-IsBalanced sound e = elim (Option-cases (bolt.get e.0 s.db.file_contracts)) [
      | inl absent ↦ rw absent refl
      | inr (fc, at) ↦ rw at (sound.balanced e.0 fc at)
    ]

    pub missed_diffs_sum :
        (es : List (ℕ × Unit {0}))
        → AreSound (contracts_of s.db)
        → sum_of diff_value (missed_diffs chain s es).0 ≡ sum_of held es
    unfolding missed_diffs apply_missed_storage_proof
    missed_diffs_sum [] sound = refl
    missed_diffs_sum (e ∷ es) sound = omega (
      arith,
      sum_of-append diff_value
          (missed_outputs chain s.pb.height e.0 0 (contract_at e).missed_proof_outputs)
          (missed_diffs chain s es).0,
      missed_outputs_sum s.pb.height e.0 0 (contract_at e).missed_proof_outputs,
      at-IsBalanced sound e,
      missed_diffs_sum es sound,
    )

  -- The ids of the outputs that missed proofs create.
  abbrev pub ids_of_missed : bolt.Bucket FileContract → List (ℕ × Unit {0}) → List ℕ
  ids_of_missed fcs [] = []
  ids_of_missed fcs (e ∷ es) =
      ids_from chain (chain.storage_proof_output_id e.0 false) 0
        (or_default no_file_contract (bolt.get e.0 fcs)).missed_proof_outputs
      ++ ids_of_missed fcs es

  -- The same, given the bucket for the height.
  abbrev pub missed_ids : bolt.Bucket FileContract → Option (bolt.Bucket (Unit {0})) → List ℕ
  missed_ids fcs none = []
  missed_ids fcs (some b) = ids_of_missed fcs (bolt.entries b)

  missed_outputs_ids :
      (height fcid i : ℕ) (mpos : List SiacoinOutput) (ds : List DelayedSiacoinOutputDiff)
      → map diff_id (missed_outputs chain height fcid i mpos ++ ds)
        ≡ ids_from chain (chain.storage_proof_output_id fcid false) i mpos ++ map diff_id ds
  missed_outputs_ids height fcid i [] ds = refl
  missed_outputs_ids height fcid i (mpo ∷ mpos) ds =
      ap (λ ids. chain.storage_proof_output_id fcid false i ∷ ids)
        (missed_outputs_ids height fcid (i + 1) mpos ds)

  pub missed_diffs_ids :
      (s : Applying) (es : List (ℕ × Unit {0}))
      → map diff_id (missed_diffs chain s es).0 ≡ ids_of_missed s.db.file_contracts es
  unfolding missed_diffs apply_missed_storage_proof
  missed_diffs_ids s [] = refl
  missed_diffs_ids s (e ∷ es) =
      missed_outputs_ids s.pb.height e.0 0 (contract_at s e).missed_proof_outputs
        (missed_diffs chain s es).0
      ∙ ap
          (λ ids.
            ids_from chain (chain.storage_proof_output_id e.0 false) 0
              (contract_at s e).missed_proof_outputs
            ++ ids)
          (missed_diffs_ids s es)

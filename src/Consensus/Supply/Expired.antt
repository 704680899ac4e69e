-- ===== src/Consensus/Supply/Expired.antt =====
-- maintenance.go, `applyFileContractMaintenance`: the contracts that expire at a height go, and what
-- they hold goes to delayed outputs.
use sia_hostdb_profiles.Prelude.{
  ℕ, ◌+◌, ◌≡◌, ◌≢◌, refl, sym, ap, ◌∙◌, List, [], ◌∷◌, ◌++◌, Option, none, some, false, All, arith,
  ==_refl, ◌==◌, Bool-cases, Option-cases, inl, inr, sum_of,
}
use mathlib.Core.Path.{subst}
use sia_hostdb_profiles.Prelude.Options.{some_inj}
use sia_hostdb_profiles.Bolt.{Bolt}
use sia_hostdb_profiles.Bolt.Totals.{total, on_pair, total-delete}
use sia_hostdb_profiles.Bolt.Entries.{
  AreApart, AreIn, entries-AreApart, delete-AreIn, total_list, total_zero-absent,
}
use sia_hostdb_profiles.Consensus.Chain.{Chain}
use sia_hostdb_profiles.Consensus.Store.{Database}
use sia_hostdb_profiles.Consensus.Diffs.{ProcessedBlock, run, commit_file_contract_diff}
use sia_hostdb_profiles.Consensus.Apply.{Applying, record_file_contract}
use sia_hostdb_profiles.Consensus.Maintenance.{
  apply_missed_storage_proof, missed_diffs, expire_contracts, apply_file_contract_maintenance,
}
use sia_hostdb_profiles.Consensus.Supply.{coin_value, contract_value}
use sia_hostdb_profiles.Consensus.Supply.Contracts.{
  Contracts, AreSound, listed_at, taken, taken-AreSound, remove_listed,
}
use sia_hostdb_profiles.Consensus.Supply.Formed.{contracts_of}
use sia_hostdb_profiles.Consensus.Supply.Revised.{TablesChange}
use sia_hostdb_profiles.Consensus.Supply.Delayed.{Delayed, HasRoom, maturity}
use sia_hostdb_profiles.Consensus.Supply.Missed.{
  diffs_add, missed_ids, missed_diffs_ids, contract_at, held, missed_diffs-AddAt, missed_diffs_sum,
}

abbrev one : Unit {0} → ℕ
one u = 1

module _ ⦃bolt : Bolt⦄ (chain : Chain) where
  module _ (s : Applying) where
    -- The contracts that a loop over `es` is still to remove are as they were, and expire now.
    abbrev ToGo : List (ℕ × Unit {0}) → Database → Type 0
    ToGo es db =
        All
          (λ (e : ℕ × Unit {0}).
            (bolt.get e.0 db.file_contracts ≡ some ((contract_at chain s) e))
            × (((contract_at chain s) e).window_end ≡ s.pb.height))
          es

    delete-ToGo :
        (id : ℕ) (es : List (ℕ × Unit {0})) (db : Database) (exps : bolt.Bucket (bolt.Bucket Unit))
        → All (λ (d : ℕ × Unit {0}). d.0 ≢ id) es
        → ToGo es db
        → ToGo es
            (record db { file_contracts = bolt.delete id db.file_contracts; expirations = exps })
    delete-ToGo id [] db exps other h = tt
    delete-ToGo id (e ∷ es) db exps other ((at, ends), rest) = (
      (ground (arith, bolt.get-delete e.0 id db.file_contracts, other.0, at), ends),
      delete-ToGo id es db exps other.1 rest,
    )

    -- The contracts of `es` are gone, from the bucket for the height too.
    record Gone (es : List (ℕ × Unit {0})) (b : bolt.Bucket (Unit {0})) (db : Database)
        (c : Contracts) : Type 0 where
      sound : AreSound c
      fewer :
          total contract_value c.0 + sum_of (held chain s) es
          ≡ total contract_value db.file_contracts
      bucket : bolt.Bucket (Unit {0})
      at : bolt.get s.pb.height c.1 ≡ some bucket
      left : total one bucket + sum_of (on_pair one) es ≡ total one b

    remove_all :
        (es : List (ℕ × Unit {0})) (b : bolt.Bucket (Unit {0})) (db : Database)
        (pb : ProcessedBlock)
        → bolt.get s.pb.height db.expirations ≡ some b
        → AreApart es
        → AreIn es b
        → ToGo es db
        → AreSound (contracts_of db)
        → TablesChange
            (run record_file_contract (missed_diffs chain s es).1 (record { db = db; pb = pb }))
            db
            pb
            (Gone es b db)
    unfolding run missed_diffs apply_missed_storage_proof commit_file_contract_diff
    remove_all [] b db pb at apart there go sound = (
      contracts_of db,
      pb,
      refl,
      refl,
      record { sound = sound; fewer = omega arith; bucket = b; at = at; left = omega arith },
    )
    remove_all (e ∷ es) b db pb at apart there ((here, ends), go) sound =
        let (b0, at0, removed) = remove_listed e.0 ((contract_at chain s) e) db here sound in
        let c1 = taken e.0 ((contract_at chain s) e) b0 (contracts_of db) in
        let same : b0 ≡ b = some_inj (sym at0 ∙ ap (λ h. bolt.get h db.expirations) ends ∙ at) in
        let (c, pb', height, ran, gone) =
          remove_all es (bolt.delete e.0 b)
            (record db { file_contracts = c1.0; expirations = c1.1 }) (noted e)
            (rw (ends, same)
              (bolt.get-put s.pb.height s.pb.height (bolt.delete e.0 b) db.expirations
                ∙ rw (==_refl s.pb.height) refl))
            apart.1 (delete-AreIn e.0 es b apart.0 there.1) (delete-ToGo e.0 es db c1.1 apart.0 go)
            (taken-AreSound e.0 ((contract_at chain s) e) b0 (contracts_of db) here at0 sound) in
        (
          c,
          pb',
          height,
          rw removed ran,
          record {
            sound = gone.sound;
            fewer = omega (
              arith,
              gone.fewer,
              total-delete contract_value e.0 ((contract_at chain s) e) db.file_contracts here,
            );
            bucket = gone.bucket;
            at = gone.at;
            left = omega (arith, gone.left, total-delete one e.0 e.1 b there.0);
          },
        )
      where
        noted : ℕ × Unit {0} → ProcessedBlock
        noted e = record pb {
          file_contract_diffs =
              pb.file_contract_diffs
              ++ (record { direction = false; id = e.0; file_contract = (contract_at chain s) e })
                ∷ [];
        }

  delete-AreSound :
      (height : ℕ) (b : bolt.Bucket (Unit {0})) (c : Contracts)
      → bolt.get height c.1 ≡ some b
      → ((id : ℕ) → bolt.get id b ≡ none)
      → AreSound c
      → AreSound (c.0, bolt.delete height c.1)
  delete-AreSound height b (fcs, exps) at empty sound = record {
    listed = λ id fc there. elim (Bool-cases (fc.window_end == height)) [
      | inl now ↦
          let lists : listed_at height id exps ≡ some tt =
            subst (λ h. listed_at h id exps ≡ some tt) (ground (arith, now))
              (sound.listed id fc there) in
          absurd (ground (arith, lists, at, empty id))
      | inr other ↦
          let kept : bolt.get fc.window_end (bolt.delete height exps)
              ≡ bolt.get fc.window_end exps =
            bolt.get-delete fc.window_end height exps ∙ rw other refl in
          rw kept (sound.listed id fc there)
    ];
    expires = λ h id lists. elim (Bool-cases (h == height)) [
      | inl now ↦ absurd (ground (arith, lists, now, bolt.get-delete h height exps))
      | inr other ↦ sound.expires h id (ground (arith, lists, other, bolt.get-delete h height exps))
    ];
    balanced = sound.balanced;
  }

  bucket-ToGo :
      (b : bolt.Bucket (Unit {0})) (db : Database) (pb : ProcessedBlock)
      → bolt.get pb.height db.expirations ≡ some b
      → AreSound (contracts_of db)
      → (es : List (ℕ × Unit {0})) → AreIn es b
      → ToGo (record { db = db; pb = pb }) es db
  bucket-ToGo b db pb at sound [] there = tt
  bucket-ToGo b db pb at sound (e ∷ es) there =
      let (fc, here, ends) = sound.expires pb.height e.0 (rw at there.0) in
      ((rw here refl, rw here ends), bucket-ToGo b db pb at sound es there.1)

  abbrev pub ExpiredChange :
      Option Applying → Database → ProcessedBlock → (Contracts → Delayed → Type 0) → Type 0
  ExpiredChange result db pb P =
      (c : Contracts) × (delayed : Delayed) × (pb' : ProcessedBlock) × (pb'.height ≡ pb.height)
      × (result
          ≡ some (record {
            db = record db { file_contracts = c.0; expirations = c.1; delayed_outputs = delayed };
            pb = pb';
          }))
      × P c delayed

  pub expired_move :
      (later : List ℕ) (db : Database) (pb : ProcessedBlock)
      → AreSound (contracts_of db)
      → HasRoom
          (maturity chain pb)
          (missed_ids chain db.file_contracts (bolt.get pb.height db.expirations) ++ later)
          db.delayed_outputs
      → ExpiredChange
          (apply_file_contract_maintenance chain (record { db = db; pb = pb }))
          db
          pb
          (λ c delayed.
            AreSound c
            × HasRoom (maturity chain pb) later delayed
            × (total (total coin_value) delayed + total contract_value c.0
                ≡ total (total coin_value) db.delayed_outputs
                  + total contract_value db.file_contracts))
  unfolding apply_file_contract_maintenance expire_contracts
  expired_move later db pb sound room = elim (Option-cases (bolt.get pb.height db.expirations)) [
    | inl absent ↦ (
      contracts_of db,
      db.delayed_outputs,
      pb,
      refl,
      rw (apply_file_contract_maintenance, absent) refl,
      (sound, rw absent at room, refl),
    )
    | inr (b, at) ↦
        let s : Applying = record { db = db; pb = pb } in
        let es = bolt.entries b in
        let (delayed, pb1, height1, ran1, (room', more)) =
          diffs_add chain (maturity chain pb) (missed_diffs chain s es).0 later db pb
            (missed_diffs-AddAt chain s es) (rw (missed_diffs_ids chain s es) (rw at at room)) in
        let (c, pb2, height2, ran2, gone) =
          remove_all s es b (record db { delayed_outputs = delayed }) pb1 at (entries-AreApart b)
            (bolt.entries-get b) (bucket-ToGo b db pb at sound es (bolt.entries-get b)) sound in
        (
          (c.0, bolt.delete pb.height c.1),
          delayed,
          pb2,
          height2 ∙ height1,
          rw (apply_file_contract_maintenance, at, ran1, ran2) refl,
          (
            delete-AreSound pb.height gone.bucket c gone.at
                (total_zero-absent gone.bucket (omega (arith, gone.left, total_list one b)))
                gone.sound,
            room',
            omega (arith, more, gone.fewer, missed_diffs_sum chain s es sound),
          ),
        )
  ]

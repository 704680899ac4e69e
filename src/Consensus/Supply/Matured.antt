-- ===== src/Consensus/Supply/Matured.antt =====
-- maintenance.go, `applyMaturedSiacoinOutputs`: the outputs of the bucket for a height move from the
-- delayed outputs to the siacoin outputs.
use sia_hostdb_profiles.Prelude.{
  ℕ, ◌+◌, ◌≡◌, ◌≢◌, refl, ◌∙◌, List, [], ◌∷◌, ◌++◌, Option, none, some, false, All, arith, ==_refl,
  ltb, Bool-cases, inl, inr, sum_of, map,
}
use sia_hostdb_profiles.Bolt.{Bolt}
use sia_hostdb_profiles.Bolt.Totals.{total, on_pair, total-put_new, total-delete, total-replace}
use sia_hostdb_profiles.Bolt.Entries.{AreApart, AreIn, entries-AreApart, delete-AreIn, total_list}
use sia_hostdb_profiles.Transaction.{SiacoinOutput}
use sia_hostdb_profiles.Consensus.Chain.{Chain}
use sia_hostdb_profiles.Consensus.Store.{Database, remove_dsco, delete_dsco_bucket}
use sia_hostdb_profiles.Consensus.Diffs.{
  ProcessedBlock, run, commit_siacoin_output_diff, commit_delayed_siacoin_output_diff,
}
use sia_hostdb_profiles.Consensus.Apply.{Applying, record_siacoin_output, record_delayed_output}
use sia_hostdb_profiles.Consensus.Maintenance.{
  matured_output, no_longer_delayed, apply_matured_siacoin_outputs,
}
use sia_hostdb_profiles.Consensus.Supply.{coin_value}
use sia_hostdb_profiles.Consensus.Supply.Keys.{AreNew, put-AreNew}
use sia_hostdb_profiles.Consensus.Supply.Coins.{CoinsChange}
use sia_hostdb_profiles.Consensus.Supply.Delayed.{Delayed, HasRoom, DelayedChange}

module _ ⦃bolt : Bolt⦄ (chain : Chain) where
  abbrev Outputs : Type 0
  Outputs = List (ℕ × SiacoinOutput)

  abbrev key : ℕ × SiacoinOutput → ℕ
  key e = e.0

  matured_add :
      (es : Outputs) (db : Database) (pb : ProcessedBlock)
      → AreNew (map key es) db.siacoin_outputs
      → CoinsChange
          (run
            (λ e. record_siacoin_output (matured_output chain e))
            es
            (record { db = db; pb = pb }))
          db
          pb
          (λ coins.
            total coin_value coins
            ≡ sum_of (on_pair coin_value) es + total coin_value db.siacoin_outputs)
  unfolding run commit_siacoin_output_diff
  matured_add [] db pb new = (db.siacoin_outputs, pb, refl, refl, omega arith)
  matured_add (e ∷ es) db pb new =
      let (coins, pb', height, ran, more) =
        matured_add es (record db { siacoin_outputs = bolt.put e.0 e.1 db.siacoin_outputs }) _
          (put-AreNew e.0 e.1 (map key es) db.siacoin_outputs new.1 new.2) in
      (
        coins,
        pb',
        height,
        ran,
        omega (arith, more, total-put_new coin_value e.0 e.1 db.siacoin_outputs new.0),
      )

  -- The bucket for the height after the loop.
  pub record Emptied (height : ℕ) (es : Outputs) (b : bolt.Bucket SiacoinOutput)
      (delayed delayed' : Delayed) : Type 0 where
    pub bucket : bolt.Bucket SiacoinOutput
    pub at : bolt.get height delayed' ≡ some bucket
    pub left : total coin_value bucket + sum_of (on_pair coin_value) es ≡ total coin_value b
    pub taken :
        total (total coin_value) delayed' + sum_of (on_pair coin_value) es
        ≡ total (total coin_value) delayed
    pub others : (h : ℕ) → h ≢ height → bolt.get h delayed' ≡ bolt.get h delayed

  undelay :
      (height : ℕ) (es : Outputs) (b : bolt.Bucket SiacoinOutput) (db : Database)
      (pb : ProcessedBlock)
      → bolt.get height db.delayed_outputs ≡ some b
      → AreApart es
      → AreIn es b
      → DelayedChange chain
          (run
            (λ e. record_delayed_output (no_longer_delayed chain height e))
            es
            (record { db = db; pb = pb }))
          db
          pb
          (Emptied height es b db.delayed_outputs)
  unfolding run commit_delayed_siacoin_output_diff remove_dsco
  undelay height [] b db pb at apart there = (
    db.delayed_outputs,
    pb,
    refl,
    refl,
    record {
      bucket = b;
      at = at;
      left = omega arith;
      taken = omega arith;
      others = λ h other. refl;
    },
  )
  undelay height (e ∷ es) b db pb at apart there =
      let b1 = bolt.delete e.0 b in
      let delayed1 = bolt.put height b1 db.delayed_outputs in
      let (delayed, pb', same, ran, emptied) =
        undelay height es b1 (record db { delayed_outputs = delayed1 }) (noted e)
          (bolt.get-put height height b1 db.delayed_outputs ∙ rw (==_refl height)) apart.1
          (delete-AreIn e.0 es b apart.0 there.1) in
      (
        delayed,
        pb',
        same,
        rw at ran,
        record {
          bucket = emptied.bucket;
          at = emptied.at;
          left = omega (arith, emptied.left, total-delete coin_value e.0 e.1 b there.0);
          taken = omega (
            arith,
            emptied.taken,
            total-delete coin_value e.0 e.1 b there.0,
            total-replace (total coin_value) height b1 db.delayed_outputs b at,
          );
          others = λ h other.
              emptied.others h other
              ∙ ground (arith, bolt.get-put h height b1 db.delayed_outputs, other);
        },
      )
    where
      noted : ℕ × SiacoinOutput → ProcessedBlock
      noted e = record pb {
        delayed_siacoin_output_diffs =
            pb.delayed_siacoin_output_diffs ++ no_longer_delayed chain height e ∷ [];
      }

  -- Where there are outputs to mature there is a bucket for them, and none of them is in the set yet.
  abbrev pub CanMature : Database → ℕ → Type 0
  CanMature db height =
      ltb height chain.maturity_delay ≡ false
      → (b : bolt.Bucket SiacoinOutput) × (bolt.get height db.delayed_outputs ≡ some b)
        × ((id : ℕ) (sco : SiacoinOutput)
            → bolt.get id b ≡ some sco
            → bolt.get id db.siacoin_outputs ≡ none)

  entries-AreNew :
      (es : Outputs) (b : bolt.Bucket SiacoinOutput) (coins : bolt.Bucket SiacoinOutput)
      → ((id : ℕ) (sco : SiacoinOutput) → bolt.get id b ≡ some sco → bolt.get id coins ≡ none)
      → AreApart es
      → AreIn es b
      → AreNew (map key es) coins
  entries-AreNew [] b coins fresh apart there = tt
  entries-AreNew (e ∷ es) b coins fresh apart there = (
    fresh e.0 e.1 there.0,
    All-map es e.0 apart.0,
    entries-AreNew es b coins fresh apart.1 there.1,
  )
    where
      All-map :
          (ds : Outputs) (k : ℕ)
          → All (λ (d : ℕ × SiacoinOutput). d.0 ≢ k) ds
          → All (λ j. j ≢ k) (map key ds)
      All-map [] k h = tt
      All-map (d ∷ ds) k h = (h.0, All-map ds k h.1)

  others-HasRoom :
      (height : ℕ) (ids : List ℕ) (delayed delayed' : Delayed)
      → bolt.get height delayed' ≡ bolt.get height delayed
      → HasRoom height ids delayed
      → HasRoom height ids delayed'
  others-HasRoom height ids delayed delayed' same (b, at, new) = (b, same ∙ at, new)

  abbrev pub MaturedChange :
      Option Applying
      → Database
      → ProcessedBlock
      → (bolt.Bucket SiacoinOutput → Delayed → Type 0)
      → Type 0
  MaturedChange result db pb P =
      (coins : bolt.Bucket SiacoinOutput) × (delayed : Delayed) × (pb' : ProcessedBlock)
      × (pb'.height ≡ pb.height)
      × (result
          ≡ some (record {
            db = record db { siacoin_outputs = coins; delayed_outputs = delayed };
            pb = pb';
          }))
      × P coins delayed

  pub matured_move :
      (height : ℕ) (later : List ℕ) (db : Database) (pb : ProcessedBlock)
      → height ≢ pb.height
      → CanMature db pb.height
      → HasRoom height later db.delayed_outputs
      → MaturedChange
          (apply_matured_siacoin_outputs chain (record { db = db; pb = pb }))
          db
          pb
          (λ coins delayed.
            HasRoom height later delayed
            × (total coin_value coins + total (total coin_value) delayed
                ≡ total coin_value db.siacoin_outputs
                  + total (total coin_value) db.delayed_outputs))
  unfolding apply_matured_siacoin_outputs delete_dsco_bucket
  matured_move height later db pb other matures room =
      elim (Bool-cases (ltb pb.height chain.maturity_delay)) [
        | inl young ↦
            (db.siacoin_outputs, db.delayed_outputs, pb, refl, rw young refl, (room, refl))
        | inr old ↦
            let (b, at, fresh) = matures old in
            let es = bolt.entries b in
            let (coins, pb1, height1, ran1, more) = matured_add es db pb (
              entries-AreNew es b db.siacoin_outputs fresh (entries-AreApart b)
                (bolt.entries-get b)) in
            let (delayed, pb2, height2, ran2, emptied) =
              undelay pb.height es b (record db { siacoin_outputs = coins }) pb1 at
                (entries-AreApart b) (bolt.entries-get b) in
            (
              coins,
              bolt.delete pb.height delayed,
              pb2,
              height2 ∙ height1,
              rw (old, at, ran1, ran2) refl,
              (
                others-HasRoom height later db.delayed_outputs (bolt.delete pb.height delayed)
                    (bolt.get-delete height pb.height delayed
                      ∙ ground (arith, other, emptied.others height other))
                    room,
                omega (
                  arith,
                  more,
                  emptied.left,
                  emptied.taken,
                  total_list coin_value b,
                  total-delete (total coin_value) pb.height emptied.bucket delayed emptied.at,
                ),
              ),
            )
      ]

-- ===== src/Consensus/Supply/Coins.antt =====
-- applytransaction.go, `applySiacoinInputs` and `applySiacoinOutputs`: the siacoins that they take
-- out of the set and put into it.
use sia_hostdb_profiles.Prelude.{ℕ, ◌+◌, ◌≡◌, refl, List, [], ◌∷◌, Option, some, arith}
use sia_hostdb_profiles.Bolt.{Bolt}
use sia_hostdb_profiles.Bolt.Totals.{total, total-put_new, total-delete}
use sia_hostdb_profiles.Transaction.{SiacoinInput, SiacoinOutput, Transaction}
use sia_hostdb_profiles.Standalone.{value_sum}
use sia_hostdb_profiles.Consensus.Chain.{Chain}
use sia_hostdb_profiles.Consensus.Store.{Database}
use sia_hostdb_profiles.Consensus.Diffs.{ProcessedBlock, run, commit_siacoin_output_diff}
use sia_hostdb_profiles.Consensus.Apply.{
  Applying, run_from, apply_siacoin_input, apply_siacoin_output,
}
use sia_hostdb_profiles.Consensus.Supply.{coin_value}
use sia_hostdb_profiles.Consensus.Supply.Keys.{AreNew, put-AreNew, delete-AreNew}

module _ ⦃bolt : Bolt⦄ where
  -- The inputs spend `n` siacoins of outputs that are there, none of them twice.
  abbrev pub Spends : List SiacoinInput → ℕ → bolt.Bucket SiacoinOutput → Type 0
  Spends [] n coins = n ≡ 0
  Spends (sci ∷ scis) n coins =
      (sco : SiacoinOutput) × (m : ℕ) × (bolt.get sci.parent_id coins ≡ some sco)
      × (n ≡ sco.value + m)
      × Spends scis m (bolt.delete sci.parent_id coins)

  -- What a part of a transaction does that changes the siacoin outputs only.
  abbrev pub CoinsChange :
      Option Applying → Database → ProcessedBlock → (bolt.Bucket SiacoinOutput → Type 0) → Type 0
  CoinsChange result db pb P =
      (coins : bolt.Bucket SiacoinOutput) × (pb' : ProcessedBlock) × (pb'.height ≡ pb.height)
      × (result ≡ some (record { db = record db { siacoin_outputs = coins }; pb = pb' }))
      × P coins

  pub inputs_spend :
      (scis : List SiacoinInput) (n : ℕ) (db : Database) (pb : ProcessedBlock)
      → Spends scis n db.siacoin_outputs
      → CoinsChange (run apply_siacoin_input scis (record { db = db; pb = pb })) db pb (λ coins.
        (total coin_value coins + n ≡ total coin_value db.siacoin_outputs)
        × ((ks : List ℕ) → AreNew ks db.siacoin_outputs → AreNew ks coins))
  unfolding run apply_siacoin_input commit_siacoin_output_diff
  inputs_spend [] n db pb h =
      (db.siacoin_outputs, pb, refl, refl, (omega (arith, h), λ ks new. new))
  inputs_spend (sci ∷ scis) n db pb (sco, m, there, sum, rest) =
      let (coins, pb', height, ran, (left, unused)) =
        inputs_spend scis m
          (record db { siacoin_outputs = bolt.delete sci.parent_id db.siacoin_outputs }) _ rest in
      (
        coins,
        pb',
        height,
        ran,
        (
          omega (
            arith,
            left,
            sum,
            total-delete coin_value sci.parent_id sco db.siacoin_outputs there,
          ),
          λ ks new. unused ks (delete-AreNew sci.parent_id ks db.siacoin_outputs new),
        ),
      )

  module _ (chain : Chain) (t : Transaction) where
    -- The ids of the outputs of a list, from an index.
    abbrev pub coin_ids : ℕ → List SiacoinOutput → List ℕ
    coin_ids i [] = []
    coin_ids i (sco ∷ scos) = chain.siacoin_output_id t i ∷ coin_ids (i + 1) scos

    pub outputs_add :
        (scos : List SiacoinOutput) (i : ℕ) (db : Database) (pb : ProcessedBlock)
        → AreNew (coin_ids i scos) db.siacoin_outputs
        → CoinsChange
            (run_from (apply_siacoin_output chain t) i scos (record { db = db; pb = pb }))
            db
            pb
            (λ coins. total coin_value coins ≡ value_sum scos + total coin_value db.siacoin_outputs)
    unfolding run_from apply_siacoin_output commit_siacoin_output_diff
    outputs_add [] i db pb new = (db.siacoin_outputs, pb, refl, refl, omega arith)
    outputs_add (sco ∷ scos) i db pb new =
        let id = chain.siacoin_output_id t i in
        let (coins, pb', height, ran, more) =
          outputs_add scos (i + 1)
            (record db { siacoin_outputs = bolt.put id sco db.siacoin_outputs }) _
            (put-AreNew id sco (coin_ids (i + 1) scos) db.siacoin_outputs new.1 new.2) in
        (
          coins,
          pb',
          height,
          ran,
          omega (arith, more, total-put_new coin_value id sco db.siacoin_outputs new.0),
        )

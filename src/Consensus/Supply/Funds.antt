-- ===== src/Consensus/Supply/Funds.antt =====
-- applytransaction.go, `applySiafundInputs` and `applySiafundOutputs`: spent siafunds pay their claims
-- to delayed outputs, and new ones have no claims yet.
use sia_hostdb_profiles.Prelude.{
  ℕ, ◌+◌, ◌-◌, ◌%◌, ◌≡◌, refl, sym, ◌∙◌, List, [], ◌∷◌, ◌++◌, Option, some, true, false, arith,
  ◌==◌, if_rule, Bool-cases, inl, inr, sum_of,
}
use sia_hostdb_profiles.Prelude.Options.{some_inj}
use mathlib.Core.Path.{subst}
use sia_hostdb_profiles.Bolt.{Bolt}
use sia_hostdb_profiles.Bolt.Totals.{total, total-put_new, total-delete}
use sia_hostdb_profiles.Currency.{Currency, sub}
use sia_hostdb_profiles.Transaction.{SiacoinOutput, SiafundInput, SiafundOutput, Transaction}
use sia_hostdb_profiles.Consensus.Chain.{Chain}
use sia_hostdb_profiles.Consensus.Store.{Database, readdress, siafund_output_at}
use sia_hostdb_profiles.Consensus.Diffs.{
  ProcessedBlock, run, commit_siafund_output_diff, commit_delayed_siacoin_output_diff,
}
use sia_hostdb_profiles.Consensus.Apply.{
  Applying, run_from, claim_portion, apply_siafund_input, apply_siafund_output,
}
use sia_hostdb_profiles.Consensus.Supply.{coin_value, fund_value, claim_value}
use sia_hostdb_profiles.Consensus.Supply.Keys.{AreNew, put-AreNew, delete-AreNew}
use sia_hostdb_profiles.Consensus.Supply.Delayed.{Delayed, HasRoom, add_new, maturity}
use sia_hostdb_profiles.Consensus.Supply.Claims.{IsAligned, claim_exact}

module _ ⦃bolt : Bolt⦄ where
  abbrev pub Funds : Type 0
  Funds = bolt.Bucket SiafundOutput

  abbrev pub AreAligned : Currency → Funds → Type 0
  AreAligned pool funds =
      (id : ℕ) (o : SiafundOutput) → bolt.get id funds ≡ some o → IsAligned pool o

  -- The inputs spend `n` siafunds of outputs that are there, none of them twice.
  abbrev pub Redeems : List SiafundInput → ℕ → Funds → Type 0
  Redeems [] n funds = n ≡ 0
  Redeems (sfi ∷ sfis) n funds =
      (o : SiafundOutput) × (m : ℕ) × (bolt.get sfi.parent_id funds ≡ some o)
      × (n ≡ o.value + m)
      × Redeems sfis m (bolt.delete sfi.parent_id funds)

  -- What a part of a transaction does that changes the siafunds and the delayed outputs only.
  abbrev pub FundsChange :
      Option Applying → Database → ProcessedBlock → (Funds → Delayed → Type 0) → Type 0
  FundsChange result db pb P =
      (funds : Funds) × (delayed : Delayed) × (pb' : ProcessedBlock) × (pb'.height ≡ pb.height)
      × (result
          ≡ some (record {
            db = record db { siafund_outputs = funds; delayed_outputs = delayed };
            pb = pb';
          }))
      × P funds delayed

  delete-AreAligned :
      (pool : Currency) (id : ℕ) (funds : Funds)
      → AreAligned pool funds
      → AreAligned pool (bolt.delete id funds)
  delete-AreAligned pool id funds aligned j o there =
      aligned j o (ground (arith, bolt.get-delete j id funds, there))

  readdress_claim :
      (chain : Chain) (height : ℕ) (pool : Currency) (o : SiafundOutput)
      → claim_portion chain pool (readdress chain height o) ≡ claim_portion chain pool o
  readdress_claim chain height pool o =
      if_rule (λ p. claim_portion chain pool p ≡ claim_portion chain pool o) _ (λ _. refl)
        (λ _. refl)

  module _ (chain : Chain) where
    abbrev pub claim_ids : List SiafundInput → List ℕ
    claim_ids [] = []
    claim_ids (sfi ∷ sfis) = chain.claim_output_id sfi.parent_id ∷ claim_ids sfis

    -- `n` siafunds were spent and their claims paid.
    pub record Redeemed (n : ℕ) (keys : List ℕ) (db : Database) (funds : Funds) (delayed : Delayed)
        : Type 0 where
      pub aligned : AreAligned db.siafund_pool funds
      pub unused : AreNew keys funds
      pub spent : total fund_value funds + n ≡ total fund_value db.siafund_outputs
      pub paid :
          total (total coin_value) delayed + total (claim_value db.siafund_pool) funds
          ≡ total (total coin_value) db.delayed_outputs
            + total (claim_value db.siafund_pool) db.siafund_outputs

    redeem_one :
        (sfi : SiafundInput) (o : SiafundOutput) (ids : List ℕ) (db : Database)
        (pb : ProcessedBlock)
        → bolt.get sfi.parent_id db.siafund_outputs ≡ some o
        → HasRoom (maturity chain pb) (chain.claim_output_id sfi.parent_id ∷ ids) db.delayed_outputs
        → (delayed : Delayed) × (pb' : ProcessedBlock) × (pb'.height ≡ pb.height)
          × (apply_siafund_input chain sfi (record { db = db; pb = pb })
              ≡ some (record {
                db = record db {
                  siafund_outputs = bolt.delete sfi.parent_id db.siafund_outputs;
                  delayed_outputs = delayed;
                };
                pb = pb';
              }))
          × HasRoom (maturity chain pb) ids delayed
          × (total (total coin_value) delayed
              ≡ claim_portion chain db.siafund_pool o + total (total coin_value) db.delayed_outputs)
    unfolding apply_siafund_input commit_siafund_output_diff commit_delayed_siacoin_output_diff
        siafund_output_at
    redeem_one sfi o ids db pb there room =
        let o' = readdress chain db.height o in
        let sco : SiacoinOutput = record {
          value = claim_portion chain db.siafund_pool o';
          unlock_hash = sfi.claim_unlock_hash;
        } in
        let (delayed, ran, room', more, _) =
          add_new (maturity chain pb) (chain.claim_output_id sfi.parent_id) ids sco db room in
        (
          delayed,
          record pb {
            delayed_siacoin_output_diffs =
                pb.delayed_siacoin_output_diffs
                ++ (record {
                  direction = true;
                  id = chain.claim_output_id sfi.parent_id;
                  siacoin_output = sco;
                  maturity_height = maturity chain pb;
                })
                  ∷ [];
            siafund_output_diffs =
                pb.siafund_output_diffs
                ++ (record { direction = false; id = sfi.parent_id; siafund_output = o' }) ∷ [];
          },
          refl,
          rw (there, ran) refl,
          room',
          omega (arith, more, readdress_claim chain db.height db.siafund_pool o),
        )

    -- The claim that is paid is the one that was counted.
    portion_counted :
        (pool : Currency) (o : SiafundOutput)
        → pool % 10000 ≡ 0
        → IsAligned pool o
        → claim_portion chain pool o ≡ claim_value pool o
    unfolding sub
    portion_counted pool o whole a =
        let now : sub pool o.claim_start ≡ pool - o.claim_start = ground (arith, a.earlier) in
        rw now (
          sym
            (claim_exact (pool - o.claim_start) o.value (omega (arith, a.earlier, a.whole, whole))))

    pub funds_redeem :
        (sfis : List SiafundInput) (n : ℕ) (keys : List ℕ) (db : Database) (pb : ProcessedBlock)
        → Redeems sfis n db.siafund_outputs
        → db.siafund_pool % 10000 ≡ 0
        → AreAligned db.siafund_pool db.siafund_outputs
        → AreNew keys db.siafund_outputs
        → HasRoom (maturity chain pb) (claim_ids sfis) db.delayed_outputs
        → FundsChange
            (run (apply_siafund_input chain) sfis (record { db = db; pb = pb }))
            db
            pb
            (Redeemed n keys db)
    unfolding run
    funds_redeem [] n keys db pb redeems whole aligned unused room = (
      db.siafund_outputs,
      db.delayed_outputs,
      pb,
      refl,
      refl,
      record { aligned = aligned; unused = unused; spent = omega (arith, redeems); paid = refl },
    )
    funds_redeem (sfi ∷ sfis) n keys db pb (o, m, there, sum, rest) whole aligned unused room =
        let pool = db.siafund_pool in
        let (delayed1, pb1, height1, ran1, room1, more1) =
          redeem_one sfi o (claim_ids sfis) db pb there room in
        let (funds, delayed, pb', height, ran, redeemed) =
          funds_redeem sfis m keys
            (record db {
              siafund_outputs = bolt.delete sfi.parent_id db.siafund_outputs;
              delayed_outputs = delayed1;
            })
            pb1 rest whole (delete-AreAligned pool sfi.parent_id db.siafund_outputs aligned)
            (delete-AreNew sfi.parent_id keys db.siafund_outputs unused) (rw height1 room1) in
        (
          funds,
          delayed,
          pb',
          height ∙ height1,
          rw ran1 ran,
          record {
            aligned = redeemed.aligned;
            unused = redeemed.unused;
            spent = omega (
              arith,
              redeemed.spent,
              sum,
              total-delete fund_value sfi.parent_id o db.siafund_outputs there,
            );
            paid = omega (
              arith,
              redeemed.paid,
              more1,
              portion_counted pool o whole (aligned sfi.parent_id o there),
              total-delete (claim_value pool) sfi.parent_id o db.siafund_outputs there,
            );
          },
        )

    module _ (t : Transaction) where
      abbrev pub fund_ids : ℕ → List SiafundOutput → List ℕ
      fund_ids i [] = []
      fund_ids i (o ∷ os) = chain.siafund_output_id t i ∷ fund_ids (i + 1) os

      -- `n` siafunds were added, with nothing to claim.
      pub record Issued (n : ℕ) (db : Database) (funds : Funds) : Type 0 where
        pub aligned : AreAligned db.siafund_pool funds
        pub issued : total fund_value funds ≡ n + total fund_value db.siafund_outputs
        pub unclaimed :
            total (claim_value db.siafund_pool) funds
            ≡ total (claim_value db.siafund_pool) db.siafund_outputs

      claims_nothing :
          (pool : Currency) (o : SiafundOutput)
          → claim_value pool (record o { claim_start = pool }) ≡ 0
      unfolding sub
      claims_nothing pool o =
          let nothing : sub pool pool ≡ 0 = ground arith in rw nothing (omega arith)

      put-AreAligned :
          (pool : Currency) (id : ℕ) (o : SiafundOutput) (funds : Funds)
          → pool % 10000 ≡ 0
          → AreAligned pool funds
          → AreAligned pool (bolt.put id (record o { claim_start = pool }) funds)
      put-AreAligned pool id o funds whole aligned j p there = elim (Bool-cases (j == id)) [
        | inl its ↦
            subst (IsAligned pool) (some_inj (rw its at (sym (bolt.get-put j id _ funds) ∙ there)))
              (record { earlier = omega arith; whole = whole })
        | inr other ↦ aligned j p (rw other at (sym (bolt.get-put j id _ funds) ∙ there))
      ]

      pub funds_issue :
          (os : List SiafundOutput) (i : ℕ) (db : Database) (pb : ProcessedBlock)
          → db.siafund_pool % 10000 ≡ 0
          → AreAligned db.siafund_pool db.siafund_outputs
          → AreNew (fund_ids i os) db.siafund_outputs
          → (funds : Funds) × (pb' : ProcessedBlock) × (run_from
                (apply_siafund_output chain t)
                i
                os
                (record { db = db; pb = pb })
              ≡ some (record { db = record db { siafund_outputs = funds }; pb = pb' }))
            × Issued (sum_of fund_value os) db funds
      unfolding run_from apply_siafund_output commit_siafund_output_diff
      funds_issue [] i db pb whole aligned new = (
        db.siafund_outputs,
        pb,
        refl,
        record { aligned = aligned; issued = omega arith; unclaimed = refl },
      )
      funds_issue (o ∷ os) i db pb whole aligned new =
          let id = chain.siafund_output_id t i in
          let made = record o { claim_start = db.siafund_pool } in
          let (funds, pb', ran, issued) =
            funds_issue os (i + 1)
              (record db { siafund_outputs = bolt.put id made db.siafund_outputs }) _ whole
              (put-AreAligned db.siafund_pool id o db.siafund_outputs whole aligned)
              (put-AreNew id made (fund_ids (i + 1) os) db.siafund_outputs new.1 new.2) in
          (
            funds,
            pb',
            ran,
            record {
              aligned = issued.aligned;
              issued =
                  omega (
                    arith,
                    issued.issued,
                    total-put_new fund_value id made db.siafund_outputs new.0,
                  );
              unclaimed = omega (
                arith,
                issued.unclaimed,
                claims_nothing db.siafund_pool o,
                total-put_new (claim_value db.siafund_pool) id made db.siafund_outputs new.0,
              );
            },
          )

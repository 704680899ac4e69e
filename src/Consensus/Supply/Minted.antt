-- ===== src/Consensus/Supply/Minted.antt =====
-- diffs.go, `generateAndApplyDiff`, with `checkMinerPayouts` of block_validation.go: a block adds just
-- its coinbase to the siacoins of the consensus set.
use sia_hostdb_profiles.Prelude.{
  ℕ, ◌+◌, ◌≡◌, refl, sym, ap, ◌∙◌, List, [], ◌∷◌, some, Bool, true, Option-cases, inl, inr, arith,
  sum_of,
}
use mathlib.Core.Path.{subst}
use sia_hostdb_profiles.Bolt.{Bolt}
use sia_hostdb_profiles.Bolt.Totals.{total, total-empty, total-put_new}
use sia_hostdb_profiles.HostEntry.{SiaPublicKey}
use sia_hostdb_profiles.Transaction.{Transaction}
use sia_hostdb_profiles.Block.{Block, calculate_coinbase}
use sia_hostdb_profiles.Consensus.Chain.{Chain, add_heights}
use sia_hostdb_profiles.Consensus.Store.{
  Database, create_dsco_bucket, create_dsco_bucket_new, create_dsco_bucket_there, push_path,
}
use sia_hostdb_profiles.Consensus.Diffs.{ProcessedBlock, update_current_path}
use sia_hostdb_profiles.Consensus.Apply.{Applying, apply_transaction}
use sia_hostdb_profiles.Consensus.Valid.{gives, Proofs, valid_transaction}
use sia_hostdb_profiles.Consensus.BlockValid.{check_miner_payouts}
use sia_hostdb_profiles.Consensus.BlockValid.Exact.{fees_of, check_miner_payouts_exact}
use sia_hostdb_profiles.Consensus.Maintenance.{apply_transactions, generate_and_apply_diff}
use sia_hostdb_profiles.Consensus.Supply.{siacoin_count, coin_value}
use sia_hostdb_profiles.Consensus.Supply.Applicable.{IsFunded, HasNewIds}
use sia_hostdb_profiles.Consensus.Supply.Conserved.{apply_transaction_moves}
use sia_hostdb_profiles.Consensus.Supply.Maintained.{CanMaintain, apply_maintenance_pays}

module _ ⦃bolt : Bolt⦄ (chain : Chain) (proofs : Proofs) (verify : ℕ → SiaPublicKey → List ℕ → Bool)
    (size : Transaction → ℕ) (b : Block) where
  -- validTransaction accepts each transaction where its turn comes, its new ids are unused there, and
  -- after the last one the block can be maintained.
  unfoldable pub CanApply : List Transaction → Applying → Type 0
  CanApply [] s = CanMaintain chain b s.db s.pb
  CanApply (t ∷ ts) s =
      (valid_transaction chain s.db proofs verify (size t) t ≡ gives tt)
      × HasNewIds chain t s.db s.pb
      × ((s' : Applying) → apply_transaction chain t s ≡ some s' → CanApply ts s')

  transactions_conserve :
      (ts : List Transaction) (s : Applying)
      → IsFunded s.db
      → CanApply ts s
      → (s' : Applying) × (apply_transactions chain proofs verify size ts s ≡ gives s')
        × IsFunded s'.db
        × CanMaintain chain b s'.db s'.pb
        × (s'.db.height ≡ s.db.height)
        × (siacoin_count s'.db + sum_of fees_of ts ≡ siacoin_count s.db)
  unfolding apply_transactions CanApply
  transactions_conserve [] s funded can = (s, refl, funded, can, refl, omega arith)
  transactions_conserve (t ∷ ts) s funded (valid, new, can) =
      let (s1, ran1, funded1, count1, high1) =
        apply_transaction_moves chain proofs verify (size t) t s.db s.pb funded new valid in
      let (s', ran, funded', can', high, count) =
        transactions_conserve ts s1 funded1 (can s1 ran1) in
      (s', rw (valid, ran1) ran, funded', can', high ∙ high1, omega (arith, count, count1))

  create_dsco_bucket-IsFunded :
      (height : ℕ) (db : Database)
      → IsFunded db
      → IsFunded (create_dsco_bucket height db)
        × ((create_dsco_bucket height db).height ≡ db.height)
        × (siacoin_count (create_dsco_bucket height db) ≡ siacoin_count db)
  create_dsco_bucket-IsFunded height db funded =
      elim (Option-cases (bolt.get height db.delayed_outputs)) [
        | inl absent ↦
            subst (λ d. IsFunded d × (d.height ≡ db.height) × (siacoin_count d ≡ siacoin_count db))
              (sym (create_dsco_bucket_new height db absent))
              (
                record {
                  listed = funded.listed;
                  whole = funded.whole;
                  aligned = funded.aligned;
                  count = funded.count;
                },
                refl,
                omega (
                  arith,
                  total-empty coin_value,
                  total-put_new (total coin_value) height bolt.empty db.delayed_outputs absent,
                ),
              )
        | inr (bucket, at) ↦
            subst (λ d. IsFunded d × (d.height ≡ db.height) × (siacoin_count d ≡ siacoin_count db))
              (sym (create_dsco_bucket_there height db bucket at)) (funded, refl, refl)
      ]

  pub generate_and_apply_diff_extends :
      (minimum : ℕ) (db : Database) (pb : ProcessedBlock)
      → IsFunded db
      → check_miner_payouts minimum b pb.height ≡ true
      → CanApply b.transactions (record {
        db = create_dsco_bucket (add_heights pb.height chain.maturity_delay) db;
        pb = pb;
      })
      → (s : Applying) × (generate_and_apply_diff chain proofs verify size b
            (record { db = db; pb = pb })
          ≡ gives s)
        × IsFunded s.db
        × (siacoin_count s.db ≡ calculate_coinbase minimum pb.height + siacoin_count db)
        × (s.db.height ≡ add_heights db.height 1)
  unfolding generate_and_apply_diff update_current_path push_path
  generate_and_apply_diff_extends minimum db pb funded paid can =
      let (funded0, high0, count0) =
        create_dsco_bucket-IsFunded (add_heights pb.height chain.maturity_delay) db funded in
      let (s1, ran1, funded1, can1, high1, count1) =
        transactions_conserve b.transactions _ funded0 can in
      let (s2, ran2, funded2, high2, count2) =
        apply_maintenance_pays chain b s1.db s1.pb funded1 can1 in
      (
        record {
          db = update_current_path true s2.pb s2.db;
          pb = record (s2.pb) { diffs_generated = true };
        },
        rw (ran1, ran2) refl,
        record {
          listed = funded2.listed;
          whole = funded2.whole;
          aligned = funded2.aligned;
          count = funded2.count;
        },
        omega (
          arith,
          count0,
          count1,
          count2,
          ((check_miner_payouts_exact minimum b pb.height).0 paid).1,
        ),
        ap (λ h. add_heights h 1) (high2 ∙ high1 ∙ high0),
      )

  -- On a funded database, generateAndApplyDiff of a block that passes checkMinerPayouts, and whose
  -- transactions are valid in turn and can be applied, runs through. The database is funded again,
  -- and holds as many siacoins as before and the coinbase of the block's height.
  pub generate_and_apply_diff_mints :
      (minimum : ℕ) (db : Database) (pb : ProcessedBlock)
      → IsFunded db
      → check_miner_payouts minimum b pb.height ≡ true
      → CanApply b.transactions (record {
        db = create_dsco_bucket (add_heights pb.height chain.maturity_delay) db;
        pb = pb;
      })
      → (s : Applying) × (generate_and_apply_diff chain proofs verify size b
            (record { db = db; pb = pb })
          ≡ gives s)
        × IsFunded s.db
        × (siacoin_count s.db ≡ calculate_coinbase minimum pb.height + siacoin_count db)
  generate_and_apply_diff_mints minimum db pb funded paid can =
      let (s, ran, funded', count, _) =
        generate_and_apply_diff_extends minimum db pb funded paid can in
      (s, ran, funded', count)

-- ===== src/Consensus/Supply/Formed.antt =====
-- applytransaction.go, `applyFileContracts` and `applyFileContractRevisions`: what a contract takes
-- goes to its outputs and to the siafund pool, and a revision moves nothing in or out.
use sia_hostdb_profiles.Prelude.{
  ℕ, ◌+◌, ◌%◌, ◌≡◌, ◌≤◌, refl, List, [], ◌∷◌, Option, some, All, arith, sum_of,
}
use sia_hostdb_profiles.Bolt.{Bolt}
use sia_hostdb_profiles.Bolt.Totals.{total, total-put_new}
use sia_hostdb_profiles.Currency.{Currency, tax, post_tax}
use sia_hostdb_profiles.Currency.Tax.{tax_correct}
use sia_hostdb_profiles.Transaction.{FileContract, Transaction}
use sia_hostdb_profiles.Standalone.{value_sum}
use sia_hostdb_profiles.Consensus.Chain.{Chain}
use sia_hostdb_profiles.Consensus.Store.{Database, add_file_contract}
use sia_hostdb_profiles.Consensus.Diffs.{
  ProcessedBlock, commit_file_contract_diff, commit_siafund_pool_diff,
}
use sia_hostdb_profiles.Consensus.Apply.{Applying, run_from, apply_file_contract}
use sia_hostdb_profiles.Consensus.Supply.{contract_value}
use sia_hostdb_profiles.Consensus.Supply.Keys.{AreNew, put-AreNew}
use sia_hostdb_profiles.Consensus.Supply.Contracts.{
  Contracts, AreSound, IsBalanced, added, added-AreSound,
}

module _ ⦃bolt : Bolt⦄ where
  abbrev pub contracts_of : Database → Contracts
  contracts_of db = (db.file_contracts, db.expirations)

  -- What a part of a transaction does that changes the contracts and the pool only.
  abbrev pub ContractsChange :
      Option Applying → Database → ProcessedBlock → (Contracts → Currency → Type 0) → Type 0
  ContractsChange result db pb P =
      (c : Contracts) × (pool : Currency) × (pb' : ProcessedBlock) × (pb'.height ≡ pb.height)
      × (result
          ≡ some (record {
            db = record db { file_contracts = c.0; expirations = c.1; siafund_pool = pool };
            pb = pb';
          }))
      × P c pool

  -- Payouts of `n` siacoins went into contracts and the pool.
  pub record Formed (n : ℕ) (c : Contracts) (pool : Currency) (c' : Contracts) (pool' : Currency)
      : Type 0 where
    pub listed : AreSound c'
    pub grows : total contract_value c'.0 + pool' ≡ n + (total contract_value c.0 + pool)
    pub pool_grows : pool ≤ pool'
    pub whole : pool' % 10000 ≡ 0
    pub keeps :
        (id : ℕ) (fc : FileContract) → bolt.get id c.0 ≡ some fc → bolt.get id c'.0 ≡ some fc

  module _ (chain : Chain) (t : Transaction) where
    abbrev pub contract_ids : ℕ → List FileContract → List ℕ
    contract_ids i [] = []
    contract_ids i (fc ∷ fcs) = chain.file_contract_id t i ∷ contract_ids (i + 1) fcs

    pub contracts_form :
        (fcs : List FileContract) (i : ℕ) (db : Database) (pb : ProcessedBlock)
        → AreNew (contract_ids i fcs) db.file_contracts
        → All
            (λ (fc : FileContract).
              (value_sum fc.valid_proof_outputs
                ≡ post_tax chain.forks.tax_hardfork_height db.height fc.payout)
              × IsBalanced fc)
            fcs
        → db.siafund_pool % 10000 ≡ 0
        → AreSound (contracts_of db)
        → ContractsChange
            (run_from (apply_file_contract chain t) i fcs (record { db = db; pb = pb }))
            db
            pb
            (Formed
              (sum_of (λ (fc : FileContract). fc.payout) fcs)
              (contracts_of db)
              db.siafund_pool)
    unfolding run_from apply_file_contract commit_file_contract_diff commit_siafund_pool_diff
        add_file_contract
    contracts_form [] i db pb new shares whole listed = (
      contracts_of db,
      db.siafund_pool,
      pb,
      refl,
      refl,
      record {
        listed = listed;
        grows = omega arith;
        pool_grows = omega arith;
        whole = whole;
        keeps = λ id fc h. h;
      },
    )
    contracts_form (fc ∷ fcs) i db pb new shares whole listed =
        let id = chain.file_contract_id t i in
        let fee = tax chain.forks.tax_hardfork_height db.height fc.payout in
        let (fee_whole, _, parts) =
          tax_correct chain.forks.tax_hardfork_height db.height fc.payout in
        let c1 = added id fc (contracts_of db) in
        let (c, pool, pb', height, ran, formed) =
          contracts_form fcs (i + 1)
            (record db {
              file_contracts = c1.0;
              expirations = c1.1;
              siafund_pool = db.siafund_pool + fee;
            })
            _ (put-AreNew id fc (contract_ids (i + 1) fcs) db.file_contracts new.1 new.2) shares.1
            (omega (arith, whole, fee_whole))
            (added-AreSound id fc (contracts_of db) new.0 shares.0.1 listed) in
        (
          c,
          pool,
          pb',
          height,
          ran,
          record {
            listed = formed.listed;
            grows = omega (
              arith,
              formed.grows,
              parts,
              shares.0.0,
              total-put_new contract_value id fc db.file_contracts new.0,
            );
            pool_grows = omega (arith, formed.pool_grows);
            whole = formed.whole;
            keeps = λ j gc h.
                formed.keeps j gc
                  (ground (arith, bolt.get-put j id fc db.file_contracts, new.0, h));
          },
        )

-- ===== src/Consensus/Supply/Counted.antt =====
-- consistency.go, `checkSiacoinCount` and `checkSiafundCount`, after `generateAndApplyDiff`.
use sia_hostdb_profiles.Prelude.{
  ℕ, suc, ◌+◌, ◌^◌, ◌≤◌, ◌<◌, ◌≡◌, sym, ap, ◌∙◌, List, Bool, true, arith,
}
use mathlib.Core.Path.{subst}
use sia_hostdb_profiles.Bolt.{Bolt}
use sia_hostdb_profiles.HostEntry.{SiaPublicKey}
use sia_hostdb_profiles.Transaction.{Transaction}
use sia_hostdb_profiles.Block.{Block, calculate_coinbase, calculate_num_siacoins}
use sia_hostdb_profiles.Block.Coinbase.{sum_coinbases, calculate_num_siacoins_sums}
use sia_hostdb_profiles.Consensus.Chain.{Chain, add_heights}
use sia_hostdb_profiles.Consensus.Store.{Database, create_dsco_bucket}
use sia_hostdb_profiles.Consensus.Diffs.{ProcessedBlock}
use sia_hostdb_profiles.Consensus.Apply.{Applying}
use sia_hostdb_profiles.Consensus.Valid.{gives, Proofs}
use sia_hostdb_profiles.Consensus.BlockValid.{check_miner_payouts}
use sia_hostdb_profiles.Consensus.Maintenance.{generate_and_apply_diff}
use sia_hostdb_profiles.Consensus.Supply.{siacoin_count, check_siacoin_count, check_siafund_count}
use sia_hostdb_profiles.Consensus.Supply.Applicable.{IsFunded}
use sia_hostdb_profiles.Consensus.Supply.Minted.{CanApply, generate_and_apply_diff_extends}

calculate_num_siacoins_next :
    (minimum height : ℕ)
    → minimum ≤ 300000
    → suc height < 2 ^ 64
    → calculate_num_siacoins minimum (suc height)
      ≡ calculate_coinbase minimum (suc height) + calculate_num_siacoins minimum height
unfolding sum_coinbases
calculate_num_siacoins_next minimum height le small = omega (
  arith,
  calculate_num_siacoins_sums minimum height le (omega (arith, small)),
  calculate_num_siacoins_sums minimum (suc height) le small,
)

module _ ⦃bolt : Bolt⦄ (chain : Chain) (proofs : Proofs) (verify : ℕ → SiaPublicKey → List ℕ → Bool)
    (size : Transaction → ℕ) (b : Block) where
  -- On a funded database that passes checkSiacoinCount, generateAndApplyDiff of a block of the next
  -- height that passes checkMinerPayouts, and whose transactions are valid in turn and can be
  -- applied, runs through to a funded database of that height, which passes checkSiacoinCount and
  -- checkSiafundCount. The minimum of the coinbase is at most the initial one.
  pub generate_and_apply_diff_counts :
      (minimum : ℕ) (db : Database) (pb : ProcessedBlock)
      → minimum ≤ 300000
      → suc db.height < 2 ^ 64
      → pb.height ≡ suc db.height
      → IsFunded db
      → check_siacoin_count minimum db ≡ true
      → check_miner_payouts minimum b pb.height ≡ true
      → CanApply chain proofs verify size b b.transactions (record {
        db = create_dsco_bucket (add_heights pb.height chain.maturity_delay) db;
        pb = pb;
      })
      → (s : Applying) × (generate_and_apply_diff chain proofs verify size b
            (record { db = db; pb = pb })
          ≡ gives s)
        × IsFunded s.db
        × (s.db.height ≡ suc db.height)
        × (check_siacoin_count minimum s.db ≡ true)
        × (check_siafund_count s.db ≡ true)
  unfolding add_heights check_siacoin_count check_siafund_count
  generate_and_apply_diff_counts minimum db pb le small next funded counted paid can =
      let (s, ran, funded', count, high) =
        generate_and_apply_diff_extends chain proofs verify size b minimum db pb funded paid can in
      let height : s.db.height ≡ suc db.height = omega (arith, high, small) in
      let before : siacoin_count db ≡ calculate_num_siacoins minimum db.height =
        ground (arith, counted) in
      let after : siacoin_count s.db ≡ calculate_num_siacoins minimum s.db.height =
        count
        ∙ ap (λ h. calculate_coinbase minimum h + siacoin_count db) next
        ∙ ap (λ n. calculate_coinbase minimum (suc db.height) + n) before
        ∙ sym (calculate_num_siacoins_next minimum db.height le small)
        ∙ sym (ap (calculate_num_siacoins minimum) height) in
      (s, ran, funded', height, ground (arith, after), ground (arith, funded'.count))

module _ ⦃bolt : Bolt⦄ (chain : Chain) (verify : ℕ → SiaPublicKey → List ℕ → Bool)
    (size : Transaction → ℕ) (minimum : ℕ) where
  -- The databases that blocks lead to from a database, one block of the next height after another.
  -- The segments and the seeds that the storage proofs are checked with change from block to block.
  pub data Reaches (from : Database) : Database → Type 0 where
    start : Reaches from from
    block :
        (proofs : Proofs) (b : Block) (db : Database) (pb : ProcessedBlock) (s : Applying)
        → Reaches from db
        → pb.height ≡ suc db.height
        → suc db.height < 2 ^ 64
        → check_miner_payouts minimum b pb.height ≡ true
        → CanApply chain proofs verify size b b.transactions (record {
          db = create_dsco_bucket (add_heights pb.height chain.maturity_delay) db;
          pb = pb;
        })
        → generate_and_apply_diff chain proofs verify size b (record { db = db; pb = pb }) ≡ gives s
        → Reaches from s.db

  gives_inj : (s s' : Applying) → gives s ≡ gives s' → s ≡ s'
  gives_inj s s' h = cc

  -- Whatever blocks are applied from a funded database that passes checkSiacoinCount, each of the
  -- next height, with the payouts and the transactions that the checks accept and with new ids, the
  -- database is funded and passes checkSiacoinCount and checkSiafundCount. The minimum of the
  -- coinbase is at most the initial one.
  pub reached_counts :
      (from db : Database)
      → minimum ≤ 300000
      → IsFunded from
      → check_siacoin_count minimum from ≡ true
      → Reaches from db
      → IsFunded db × (check_siacoin_count minimum db ≡ true) × (check_siafund_count db ≡ true)
  unfolding check_siafund_count
  reached_counts from _ le funded counted Reaches.start =
      (funded, counted, ground (arith, funded.count))
  reached_counts from _ le funded counted
        (Reaches.block proofs b db pb s reaches next small paid can ran) =
      let (funded', counted', _) = reached_counts from db le funded counted reaches in
      let (s', ran', funded'', _, siacoins, siafunds) =
        generate_and_apply_diff_counts chain proofs verify size b minimum db pb le small next
          funded' counted' paid can in
      subst
        (λ (s : Applying).
          IsFunded s.db
          × (check_siacoin_count minimum s.db ≡ true)
          × (check_siafund_count s.db ≡ true))
        (gives_inj s' s (sym ran' ∙ ran)) (funded'', siacoins, siafunds)

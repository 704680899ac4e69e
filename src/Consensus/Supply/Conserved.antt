-- ===== src/Consensus/Supply/Conserved.antt =====
-- applytransaction.go: an accepted transaction is applied to its end, and takes out of the consensus
-- set just its miner fees.
use sia_hostdb_profiles.Prelude.{ℕ, ◌+◌, ◌≡◌, ap, ◌∙◌, List, Option, some, Bool, arith, sum_of}
use sia_hostdb_profiles.Prelude.Options.{◌>>=◌}
use sia_hostdb_profiles.Bolt.{Bolt}
use sia_hostdb_profiles.HostEntry.{SiaPublicKey}
use sia_hostdb_profiles.Currency.{Currency}
use sia_hostdb_profiles.Transaction.{Transaction}
use sia_hostdb_profiles.Consensus.Chain.{Chain}
use sia_hostdb_profiles.Consensus.Store.{Database}
use sia_hostdb_profiles.Consensus.Diffs.{ProcessedBlock}
use sia_hostdb_profiles.Consensus.Apply.{
  Applying, apply_siacoin_inputs, apply_siacoin_outputs, apply_file_contracts,
  apply_file_contract_revisions, apply_storage_proofs, apply_siafund_inputs, apply_siafund_outputs,
  apply_transaction,
}
use sia_hostdb_profiles.Consensus.Valid.{gives, Proofs, siacoin_output_sum, valid_transaction}
use sia_hostdb_profiles.Consensus.Supply.{siacoin_count}
use sia_hostdb_profiles.Consensus.Supply.Coins.{inputs_spend, outputs_add}
use sia_hostdb_profiles.Consensus.Supply.Accepted.{valid_transaction-Accepted}
use sia_hostdb_profiles.Consensus.Supply.Applicable.{
  IsFunded, HasNewIds, IsApplicable, Accepted-IsApplicable,
}
use sia_hostdb_profiles.Consensus.Supply.Parts.{contracts_part}

module _ ⦃bolt : Bolt⦄ where
  pub apply_transaction_moves :
      (chain : Chain) (proofs : Proofs) (verify : ℕ → SiaPublicKey → List ℕ → Bool) (size : ℕ)
      (t : Transaction) (db : Database) (pb : ProcessedBlock)
      → IsFunded db
      → HasNewIds chain t db pb
      → valid_transaction chain db proofs verify size t ≡ gives tt
      → (s : Applying) × (apply_transaction chain t (record { db = db; pb = pb }) ≡ some s)
        × IsFunded s.db
        × (siacoin_count s.db + sum_of (λ (fee : Currency). fee) t.miner_fees ≡ siacoin_count db)
        × (s.db.height ≡ db.height)
  unfolding apply_transaction apply_siacoin_inputs apply_siacoin_outputs siacoin_output_sum
  apply_transaction_moves chain proofs verify size t db pb funded new valid =
      let ok : IsApplicable chain t db =
        Accepted-IsApplicable chain db proofs verify size t
          (valid_transaction-Accepted chain db proofs verify size t valid) in
      let (coins1, pb1, h1, ran1, (spent, unused)) =
        inputs_spend t.siacoin_inputs (siacoin_output_sum t) db pb ok.spends in
      let (coins2, pb2, h2, ran2, more) =
        outputs_add chain t t.siacoin_outputs 0 (record db { siacoin_outputs = coins1 }) pb1
          (unused _ new.coins) in
      let (s, ran, funded', high, same) = contracts_part chain t db coins2 pb2 funded ok (record {
        coins = new.coins;
        contracts = new.contracts;
        funds = new.funds;
        delayed = rw (h2, h1) new.delayed;
      }) in
      (
        s,
        ap (finish chain t) (ap (λ m. m >>= apply_siacoin_outputs chain t) ran1 ∙ ran2) ∙ ran,
        funded',
        omega (arith, same, spent, more),
        high,
      )
    where
      finish : Chain → Transaction → Option Applying → Option Applying
      finish chain t m =
          m
          >>= apply_file_contracts chain t
          >>= apply_file_contract_revisions t
          >>= apply_storage_proofs chain t
          >>= apply_siafund_inputs chain t
          >>= apply_siafund_outputs chain t

  -- On a funded database, a transaction that validTransaction accepts, and whose new ids are
  -- unused, is applied without a panic. The database is funded again, and it holds as many siacoins
  -- as before, less the miner fees.
  pub apply_transaction_conserves :
      (chain : Chain) (proofs : Proofs) (verify : ℕ → SiaPublicKey → List ℕ → Bool) (size : ℕ)
      (t : Transaction) (db : Database) (pb : ProcessedBlock)
      → IsFunded db
      → HasNewIds chain t db pb
      → valid_transaction chain db proofs verify size t ≡ gives tt
      → (s : Applying) × (apply_transaction chain t (record { db = db; pb = pb }) ≡ some s)
        × IsFunded s.db
        × (siacoin_count s.db + sum_of (λ (fee : Currency). fee) t.miner_fees ≡ siacoin_count db)
  apply_transaction_conserves chain proofs verify size t db pb funded new valid =
      let (s, ran, funded', count, _) =
        apply_transaction_moves chain proofs verify size t db pb funded new valid in
      (s, ran, funded', count)

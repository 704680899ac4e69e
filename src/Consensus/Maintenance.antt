-- ===== src/Consensus/Maintenance.antt =====
-- maintenance.go, and `generateAndApplyDiff` of diffs.go: what a block does to the consensus set
-- besides its transactions, and the whole application of a block.
use sia_hostdb_profiles.Prelude.{
  ℕ, ◌+◌, List, [], ◌∷◌, ◌++◌, Option, none, some, Bool, true, false, ltb, if◌then◌else◌,
}
use sia_hostdb_profiles.Prelude.Options.{◌>>=◌}
use sia_hostdb_profiles.Bolt.{Bolt}
use sia_hostdb_profiles.HostEntry.{SiaPublicKey}
use sia_hostdb_profiles.Transaction.{Hash, BlockHeight, SiacoinOutput, Transaction}
use sia_hostdb_profiles.Block.{Block}
use sia_hostdb_profiles.Consensus.Chain.{Chain, add_heights}
use sia_hostdb_profiles.Consensus.Store.{file_contract_at, create_dsco_bucket, delete_dsco_bucket}
use sia_hostdb_profiles.Consensus.Diffs.{
  SiacoinOutputDiff, FileContractDiff, DelayedSiacoinOutputDiff, ProcessedBlock, run,
  update_current_path,
}
use sia_hostdb_profiles.Consensus.Apply.{
  Applying, run_from, or_default, no_file_contract, record_siacoin_output, record_file_contract,
  record_delayed_output, apply_transaction,
}
use sia_hostdb_profiles.Consensus.Valid.{Answer, gives, panicked, ◌then◌, Proofs, valid_transaction}

module _ ⦃bolt : Bolt⦄ (chain : Chain) where
  -- `applyMinerPayouts`
  unfoldable pub apply_miner_payout : Block → ℕ → SiacoinOutput → Applying → Option Applying
  apply_miner_payout b i payout s =
      record_delayed_output
        (record {
          direction = true;
          id = chain.miner_payout_id b i;
          siacoin_output = payout;
          maturity_height = add_heights s.pb.height chain.maturity_delay;
        })
        s

  unfoldable pub apply_miner_payouts : Block → Applying → Option Applying
  apply_miner_payouts b = run_from (apply_miner_payout b) 0 b.miner_payouts

  abbrev pub matured_output : Hash × SiacoinOutput → SiacoinOutputDiff
  matured_output (id, sco) = record { direction = true; id = id; siacoin_output = sco }

  abbrev pub no_longer_delayed : BlockHeight → Hash × SiacoinOutput → DelayedSiacoinOutputDiff
  no_longer_delayed height (id, sco) = record {
    direction = false;
    id = id;
    siacoin_output = sco;
    maturity_height = height;
  }

  -- `applyMaturedSiacoinOutputs`. It panics when there is no bucket for the height.
  unfoldable pub apply_matured_siacoin_outputs : Applying → Option Applying
  apply_matured_siacoin_outputs s = if ltb s.pb.height chain.maturity_delay then some s else (do
    bucket ← bolt.get s.pb.height s.db.delayed_outputs
    s' ← run (λ e. record_siacoin_output (matured_output e)) (bolt.entries bucket) s
    s'' ←
        run (λ e. record_delayed_output (no_longer_delayed s.pb.height e)) (bolt.entries bucket) s'
    some (record s'' { db = delete_dsco_bucket s.pb.height s''.db }))

  -- The diffs of the missed proof outputs of a contract, from the index `i`.
  abbrev pub missed_outputs :
      BlockHeight → Hash → ℕ → List SiacoinOutput → List DelayedSiacoinOutputDiff
  missed_outputs height fcid i [] = []
  missed_outputs height fcid i (mpo ∷ mpos) =
      record {
        direction = true;
        id = chain.storage_proof_output_id fcid false i;
        siacoin_output = mpo;
        maturity_height = add_heights height chain.maturity_delay;
      }
      ∷ missed_outputs height fcid (i + 1) mpos

  -- `applyMissedStorageProof`
  unfoldable pub apply_missed_storage_proof :
      Applying → Hash → List DelayedSiacoinOutputDiff × FileContractDiff
  apply_missed_storage_proof s fcid =
      let fc = or_default no_file_contract (file_contract_at fcid s.db) in
      (
        missed_outputs s.pb.height fcid 0 fc.missed_proof_outputs,
        record { direction = false; id = fcid; file_contract = fc },
      )

  -- The diffs of all contracts that a bucket lists, as ForEach collects them.
  unfoldable pub missed_diffs :
      Applying → List (Hash × Unit {0}) → List DelayedSiacoinOutputDiff × List FileContractDiff
  missed_diffs s [] = ([], [])
  missed_diffs s (e ∷ es) =
      let (dscods, fcd) = apply_missed_storage_proof s e.0 in
      let (more, fcds) = missed_diffs s es in (dscods ++ more, fcd ∷ fcds)

  -- The end of `applyFileContractMaintenance`, where there is a bucket.
  unfoldable pub expire_contracts : bolt.Bucket (Unit {0}) → Applying → Option Applying
  expire_contracts bucket s = do
    s' ← run record_delayed_output (missed_diffs s (bolt.entries bucket)).0 s
    s'' ← run record_file_contract (missed_diffs s (bolt.entries bucket)).1 s'
    some (record s'' {
      db = record (s''.db) { expirations = bolt.delete s.pb.height s''.db.expirations };
    })

  -- `applyFileContractMaintenance`
  unfoldable pub apply_file_contract_maintenance : Applying → Option Applying
  apply_file_contract_maintenance s = elim (bolt.get s.pb.height s.db.expirations) [
    | none ↦ some s
    | some bucket ↦ expire_contracts bucket s
  ]

  -- `applyMaintenance`
  unfoldable pub apply_maintenance : Block → Applying → Option Applying
  apply_maintenance b s =
      apply_miner_payouts b s >>= apply_matured_siacoin_outputs >>= apply_file_contract_maintenance

  -- A call that can panic.
  abbrev pub or_panic : {A : Type 0} → Option A → Answer A
  or_panic none = panicked
  or_panic (some a) = gives a

  module _ (proofs : Proofs) (verify : ℕ → SiaPublicKey → List ℕ → Bool)
      (size : Transaction → ℕ) where
    -- The transactions of a block, each checked and then applied. `size` gives the encoded size.
    unfoldable pub apply_transactions : List Transaction → Applying → Answer Applying
    apply_transactions [] s = gives s
    apply_transactions (t ∷ ts) s = valid_transaction chain s.db proofs verify (size t) t then λ _.
        or_panic (apply_transaction chain t s) then apply_transactions ts

    -- `generateAndApplyDiff`, without its last write, to the block map, and that write's error.
    unfoldable pub generate_and_apply_diff : Block → Applying → Answer Applying
    generate_and_apply_diff b s =
        let upcoming = add_heights s.pb.height chain.maturity_delay in
        apply_transactions b.transactions (record s { db = create_dsco_bucket upcoming s.db })
        then λ s'. or_panic (apply_maintenance b s') then λ s''. gives (record {
          db = update_current_path true s''.pb s''.db;
          pb = record (s''.pb) { diffs_generated = true };
        })

    -- `tryTransactionSet`: the diffs of the transactions, or the first error. The database is rolled
    -- back either way.
    unfoldable pub try_transaction_set : List Transaction → Applying → Answer ProcessedBlock
    try_transaction_set ts s = apply_transactions ts s then λ s'. gives s'.pb

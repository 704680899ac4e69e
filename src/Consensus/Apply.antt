-- ===== src/Consensus/Apply.antt =====
-- applytransaction.go: a transaction is applied part by part, each part as diffs that are recorded in
-- the block and committed. The transaction has been checked before.
use sia_hostdb_profiles.Prelude.{
  ℕ, ◌+◌, ◌*◌, ◌/◌, List, [], ◌∷◌, ◌++◌, Option, none, some, true, false,
}
use sia_hostdb_profiles.Prelude.Options.{◌>>=◌}
use sia_hostdb_profiles.Bolt.{Bolt}
use sia_hostdb_profiles.Currency.{Currency, sub, tax, siafund_count}
use sia_hostdb_profiles.Transaction.{
  Hash, SiacoinInput, SiacoinOutput, SiafundInput, SiafundOutput, FileContract,
  FileContractRevision, StorageProof, Transaction,
}
use sia_hostdb_profiles.Consensus.Chain.{Chain, add_heights}
use sia_hostdb_profiles.Consensus.Store.{
  Database, siacoin_output_at, file_contract_at, siafund_output_at,
}
use sia_hostdb_profiles.Consensus.Diffs.{
  SiacoinOutputDiff, FileContractDiff, SiafundOutputDiff, DelayedSiacoinOutputDiff, SiafundPoolDiff,
  ProcessedBlock, run, commit_siacoin_output_diff, commit_file_contract_diff,
  commit_siafund_output_diff, commit_delayed_siacoin_output_diff, commit_siafund_pool_diff,
}

-- `for i, x := range xs` from the index `i`, with a body that can panic.
unfoldable pub run_from {ℓ κ} :
    {A : Type ℓ} {S : Type κ} → (ℕ → A → S → Option S) → ℕ → List A → S → Option S
run_from f i [] s = some s
run_from f i (x ∷ xs) s = f i x s >>= run_from f (i + 1) xs

-- The values that a release build goes on with when an item is not there.
abbrev pub no_siacoin_output : SiacoinOutput
no_siacoin_output = record { value = 0; unlock_hash = 0 }

abbrev pub no_siafund_output : SiafundOutput
no_siafund_output = record { value = 0; unlock_hash = 0; claim_start = 0 }

abbrev pub no_file_contract : FileContract
no_file_contract = record {
  file_size = 0;
  file_merkle_root = 0;
  window_start = 0;
  window_end = 0;
  payout = 0;
  valid_proof_outputs = [];
  missed_proof_outputs = [];
  unlock_hash = 0;
  revision_number = 0;
}

abbrev pub or_default {ℓ} : {A : Type ℓ} → A → Option A → A
or_default a none = a
or_default a (some b) = b

module _ ⦃bolt : Bolt⦄ where
  -- The database and the block while a block or a transaction is applied.
  pub record Applying : Type 0 where
    pub db : Database
    pub pb : ProcessedBlock

  -- A diff is recorded in the block and committed.
  abbrev pub record_siacoin_output : SiacoinOutputDiff → Applying → Option Applying
  record_siacoin_output d s = do
    db' ← commit_siacoin_output_diff true d s.db
    some (record {
      db = db';
      pb = record (s.pb) { siacoin_output_diffs = s.pb.siacoin_output_diffs ++ d ∷ [] };
    })

  abbrev pub record_file_contract : FileContractDiff → Applying → Option Applying
  record_file_contract d s = do
    db' ← commit_file_contract_diff true d s.db
    some (record {
      db = db';
      pb = record (s.pb) { file_contract_diffs = s.pb.file_contract_diffs ++ d ∷ [] };
    })

  abbrev pub record_siafund_output : SiafundOutputDiff → Applying → Option Applying
  record_siafund_output d s = do
    db' ← commit_siafund_output_diff true d s.db
    some (record {
      db = db';
      pb = record (s.pb) { siafund_output_diffs = s.pb.siafund_output_diffs ++ d ∷ [] };
    })

  abbrev pub record_delayed_output : DelayedSiacoinOutputDiff → Applying → Option Applying
  record_delayed_output d s = do
    db' ← commit_delayed_siacoin_output_diff true d s.db
    some (record {
      db = db';
      pb = record (s.pb) {
        delayed_siacoin_output_diffs = s.pb.delayed_siacoin_output_diffs ++ d ∷ [];
      };
    })

  abbrev pub record_siafund_pool : SiafundPoolDiff → Applying → Option Applying
  record_siafund_pool d s = do
    db' ← commit_siafund_pool_diff true d s.db
    some (record {
      db = db';
      pb = record (s.pb) { siafund_pool_diffs = s.pb.siafund_pool_diffs ++ d ∷ [] };
    })

  -- `applySiacoinInputs`
  unfoldable pub apply_siacoin_input : SiacoinInput → Applying → Option Applying
  apply_siacoin_input sci s =
      record_siacoin_output
        (record {
          direction = false;
          id = sci.parent_id;
          siacoin_output = or_default no_siacoin_output (siacoin_output_at sci.parent_id s.db);
        })
        s

  unfoldable pub apply_siacoin_inputs : Transaction → Applying → Option Applying
  apply_siacoin_inputs t = run apply_siacoin_input t.siacoin_inputs

  module _ (chain : Chain) where
    -- `applySiacoinOutputs`
    unfoldable pub apply_siacoin_output :
        Transaction → ℕ → SiacoinOutput → Applying → Option Applying
    apply_siacoin_output t i sco =
        record_siacoin_output
          (record { direction = true; id = chain.siacoin_output_id t i; siacoin_output = sco })

    unfoldable pub apply_siacoin_outputs : Transaction → Applying → Option Applying
    apply_siacoin_outputs t = run_from (apply_siacoin_output t) 0 t.siacoin_outputs

    -- `applyFileContracts`
    unfoldable pub apply_file_contract : Transaction → ℕ → FileContract → Applying → Option Applying
    apply_file_contract t i fc s = do
      s' ←
          record_file_contract
            (record { direction = true; id = chain.file_contract_id t i; file_contract = fc }) s
      record_siafund_pool
          (record {
            direction = true;
            previous = s'.db.siafund_pool;
            adjusted =
                s'.db.siafund_pool + tax chain.forks.tax_hardfork_height s'.db.height fc.payout;
          })
          s'

    unfoldable pub apply_file_contracts : Transaction → Applying → Option Applying
    apply_file_contracts t = run_from (apply_file_contract t) 0 t.file_contracts

    -- The storage proof outputs of a contract, from the index `i`.
    unfoldable pub apply_proof_output : Hash → ℕ → SiacoinOutput → Applying → Option Applying
    apply_proof_output id i vpo s =
        record_delayed_output
          (record {
            direction = true;
            id = chain.storage_proof_output_id id true i;
            siacoin_output = vpo;
            maturity_height = add_heights s.pb.height chain.maturity_delay;
          })
          s

    -- `applyStorageProofs`
    unfoldable pub apply_storage_proof : StorageProof → Applying → Option Applying
    apply_storage_proof sp s =
        let fc = or_default no_file_contract (file_contract_at sp.parent_id s.db) in
        run_from (apply_proof_output sp.parent_id) 0 fc.valid_proof_outputs s
        >>= record_file_contract
            (record { direction = false; id = sp.parent_id; file_contract = fc })

    unfoldable pub apply_storage_proofs : Transaction → Applying → Option Applying
    apply_storage_proofs t = run apply_storage_proof t.storage_proofs

    -- The claim of a siafund output on the pool.
    abbrev pub claim_portion : Currency → SiafundOutput → Currency
    claim_portion pool sfo = sub pool sfo.claim_start / siafund_count * sfo.value

    -- `applySiafundInputs`
    unfoldable pub apply_siafund_input : SiafundInput → Applying → Option Applying
    apply_siafund_input sfi s =
        let sfo = or_default no_siafund_output (siafund_output_at chain sfi.parent_id s.db) in
        record_delayed_output
          (record {
            direction = true;
            id = chain.claim_output_id sfi.parent_id;
            siacoin_output = record {
              value = claim_portion s.db.siafund_pool sfo;
              unlock_hash = sfi.claim_unlock_hash;
            };
            maturity_height = add_heights s.pb.height chain.maturity_delay;
          })
          s
        >>= record_siafund_output
            (record { direction = false; id = sfi.parent_id; siafund_output = sfo })

    unfoldable pub apply_siafund_inputs : Transaction → Applying → Option Applying
    apply_siafund_inputs t = run apply_siafund_input t.siafund_inputs

    -- `applySiafundOutputs`
    unfoldable pub apply_siafund_output :
        Transaction → ℕ → SiafundOutput → Applying → Option Applying
    apply_siafund_output t i sfo s =
        record_siafund_output
          (record {
            direction = true;
            id = chain.siafund_output_id t i;
            siafund_output = record sfo { claim_start = s.db.siafund_pool };
          })
          s

    unfoldable pub apply_siafund_outputs : Transaction → Applying → Option Applying
    apply_siafund_outputs t = run_from (apply_siafund_output t) 0 t.siafund_outputs

  -- The contract after a revision.
  abbrev pub revised : FileContract → FileContractRevision → FileContract
  revised fc fcr = record {
    file_size = fcr.new_file_size;
    file_merkle_root = fcr.new_file_merkle_root;
    window_start = fcr.new_window_start;
    window_end = fcr.new_window_end;
    payout = fc.payout;
    valid_proof_outputs = fcr.new_valid_proof_outputs;
    missed_proof_outputs = fcr.new_missed_proof_outputs;
    unlock_hash = fcr.new_unlock_hash;
    revision_number = fcr.new_revision_number;
  }

  -- `applyFileContractRevisions`
  unfoldable pub apply_file_contract_revision : FileContractRevision → Applying → Option Applying
  apply_file_contract_revision fcr s =
      let fc = or_default no_file_contract (file_contract_at fcr.parent_id s.db) in
      record_file_contract (record { direction = false; id = fcr.parent_id; file_contract = fc }) s
      >>= record_file_contract
          (record { direction = true; id = fcr.parent_id; file_contract = revised fc fcr })

  unfoldable pub apply_file_contract_revisions : Transaction → Applying → Option Applying
  apply_file_contract_revisions t = run apply_file_contract_revision t.file_contract_revisions

  -- `applyTransaction`
  unfoldable pub apply_transaction : Chain → Transaction → Applying → Option Applying
  apply_transaction chain t s =
      apply_siacoin_inputs t s
      >>= apply_siacoin_outputs chain t
      >>= apply_file_contracts chain t
      >>= apply_file_contract_revisions t
      >>= apply_storage_proofs chain t
      >>= apply_siafund_inputs chain t
      >>= apply_siafund_outputs chain t

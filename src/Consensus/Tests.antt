-- ===== src/Consensus/Tests.antt =====
-- modules/consensus: a small consensus set, and a transaction that forms a contract in it.
use sia_hostdb_profiles.Prelude.{◌+◌, ◌≡◌, refl, [], ◌∷◌, some, true, false, arith, sum_of}
use sia_hostdb_profiles.Bolt.Totals.{total}
use sia_hostdb_profiles.Bolt.Pairs.{pairs}
use sia_hostdb_profiles.Currency.{Currency}
use sia_hostdb_profiles.Standalone.Signatures.Tests.{transaction, seven, forks, standalone_accepts}
use sia_hostdb_profiles.Consensus.Chain.{Chain, add_heights}
use sia_hostdb_profiles.Consensus.Store.{Database}
use sia_hostdb_profiles.Consensus.Diffs.{ProcessedBlock}
use sia_hostdb_profiles.Consensus.Apply.{Applying, apply_transaction}
use sia_hostdb_profiles.Consensus.Valid.{
  gives, Proofs, check_each, siacoin_input_sum, siacoin_output_sum, siafund_input_sum,
  valid_siacoins, valid_siafunds, valid_storage_proofs, valid_file_contract_revisions,
  valid_transaction,
}
use sia_hostdb_profiles.Consensus.Supply.{siacoin_count}
use sia_hostdb_profiles.Consensus.Supply.Applicable.{IsFunded, HasNewIds}
use sia_hostdb_profiles.Consensus.Supply.Conserved.{apply_transaction_conserves}

abbrev pub chain : Chain
chain = record {
  forks = forks;
  maturity_delay = 10;
  last_allocation = 1;
  unlock_hash = λ uc. 77;
  siacoin_output_id = λ t i. 1000 + i;
  file_contract_id = λ t i. 2000 + i;
  siafund_output_id = λ t i. 3000 + i;
  storage_proof_output_id = λ id valid i. 4000 + i;
  claim_output_id = λ id. 5000 + id;
  miner_payout_id = λ b i. 6000 + i;
}

abbrev pub proofs : Proofs
proofs = record {
  seed = λ trigger id. trigger + id;
  verify_segment = λ segment hashes leaves index root. true;
  empty_proof_fork = 0;
  segment_fork = 0;
}

-- One siacoin output, and all siafunds in one output.
abbrev pub database : Database ⦃bolt = pairs⦄
database = record {
  height = 100;
  path = ([], tt);
  siacoin_outputs = ((5, record { value = 10000100; unlock_hash = 77 }) ∷ [], (refl, tt));
  file_contracts = ([], tt);
  siafund_outputs =
      ((9, record { value = 10000; unlock_hash = 8; claim_start = 0 }) ∷ [], (refl, tt));
  siafund_pool = 0;
  delayed_outputs = ((110, ([], tt)) ∷ [], (refl, tt));
  expirations = ([], tt);
}

abbrev pub block : ProcessedBlock
block = record {
  id = 6;
  height = 100;
  diffs_generated = false;
  siacoin_output_diffs = [];
  file_contract_diffs = [];
  siafund_output_diffs = [];
  delayed_siacoin_output_diffs = [];
  siafund_pool_diffs = [];
}

database-IsFunded : IsFunded ⦃bolt = pairs⦄ database
unfolding total
database-IsFunded = record {
  listed = record { listed = λ id fc h. cc; expires = λ height id h. cc; balanced = λ id fc h. cc };
  whole = refl;
  aligned = λ id o h. ground arith;
  count = refl;
}

new_ids : HasNewIds ⦃bolt = pairs⦄ chain transaction database block
unfolding add_heights
new_ids = record {
  coins = (refl, tt, tt);
  contracts = (refl, tt, tt);
  funds = tt;
  delayed = (([], tt), refl, tt);
}

accepted : valid_transaction ⦃bolt = pairs⦄ chain database proofs seven 900 transaction ≡ gives tt
unfolding valid_transaction valid_siacoins siacoin_input_sum siacoin_output_sum siafund_input_sum
    valid_siafunds valid_storage_proofs valid_file_contract_revisions check_each
accepted = rw standalone_accepts refl

apply_transaction_conserves_example :
    (s : Applying ⦃bolt = pairs⦄) × (apply_transaction ⦃bolt = pairs⦄ chain transaction
        (record { db = database; pb = block })
      ≡ some s)
    × IsFunded ⦃bolt = pairs⦄ s.db
    × (siacoin_count ⦃bolt = pairs⦄ s.db + sum_of (λ (fee : Currency). fee) transaction.miner_fees
        ≡ siacoin_count ⦃bolt = pairs⦄ database)
apply_transaction_conserves_example =
    apply_transaction_conserves ⦃bolt = pairs⦄ chain proofs seven 900 transaction database block
      database-IsFunded new_ids accepted

-- ===== src/Consensus/Supply/Tests.antt =====
-- diffs.go, maintenance.go: a block with one transaction, at whose height an output matures and a
-- contract expires.
use sia_hostdb_profiles.Prelude.{◌+◌, ◌∙◌, sym, ◌≡◌, ◌↔◌, refl, [], ◌∷◌, some, none, true, arith}
use mathlib.Core.Path.{subst}
use sia_hostdb_profiles.Prelude.Options.{some_inj}
use sia_hostdb_profiles.Bolt.Totals.{total}
use sia_hostdb_profiles.Bolt.Pairs.{pairs}
use sia_hostdb_profiles.Currency.{sub, tax, mul_tax, round_down}
use sia_hostdb_profiles.Transaction.{FileContract}
use sia_hostdb_profiles.Standalone.Signatures.Tests.{transaction, seven, standalone_accepts}
use sia_hostdb_profiles.Standalone.{value_sum}
use sia_hostdb_profiles.Consensus.Supply.Counted.{
  Reaches, generate_and_apply_diff_counts, reached_counts,
}
use sia_hostdb_profiles.Block.{
  Block, calculate_coinbase, calculate_num_siacoins, calculate_subsidy, add_fees, add_all_fees,
}
use sia_hostdb_profiles.Consensus.Chain.{add_heights}
use sia_hostdb_profiles.Consensus.Store.{Database, add_file_contract, create_dsco_bucket}
use sia_hostdb_profiles.Consensus.Diffs.{
  ProcessedBlock, run, commit_siacoin_output_diff, commit_file_contract_diff,
  commit_siafund_pool_diff,
}
use sia_hostdb_profiles.Consensus.Apply.{
  Applying, run_from, apply_transaction, apply_siacoin_inputs, apply_siacoin_input,
  apply_siacoin_outputs, apply_siacoin_output, apply_file_contracts, apply_file_contract,
  apply_file_contract_revisions, apply_storage_proofs, apply_siafund_inputs, apply_siafund_outputs,
}
use sia_hostdb_profiles.Consensus.Valid.{
  gives, check_each, siacoin_input_sum, siacoin_output_sum, siafund_input_sum, valid_siacoins,
  valid_siafunds, valid_storage_proofs, valid_file_contract_revisions, valid_transaction,
}
use sia_hostdb_profiles.Consensus.BlockValid.{
  Limits, early_timestamp, payout_sum, check_miner_payouts, check_target, validate_block,
}
use sia_hostdb_profiles.Consensus.BlockValid.Exact.{FollowsBlockRules, validate_block_exact}
use sia_hostdb_profiles.Consensus.Maintenance.{apply_maintenance, generate_and_apply_diff}
use sia_hostdb_profiles.Consensus.Supply.{siacoin_count, check_siacoin_count, check_siafund_count}
use sia_hostdb_profiles.Consensus.Supply.Applicable.{IsFunded, HasNewIds}
use sia_hostdb_profiles.Consensus.Supply.Maintained.{CanMaintain, apply_maintenance_pays}
use sia_hostdb_profiles.Consensus.Supply.Parts.{Gains}
use sia_hostdb_profiles.Consensus.Supply.Minted.{CanApply, generate_and_apply_diff_mints}
use sia_hostdb_profiles.Consensus.Tests.{chain, proofs, database, block}

abbrev expiring : FileContract
expiring = record {
  file_size = 0;
  file_merkle_root = 0;
  window_start = 50;
  window_end = 101;
  payout = 7;
  valid_proof_outputs = record { value = 7; unlock_hash = 70 } ∷ [];
  missed_proof_outputs = record { value = 7; unlock_hash = 71 } ∷ [];
  unlock_hash = 2;
  revision_number = 0;
}

abbrev full : Database ⦃bolt = pairs⦄
full = record database {
  siacoin_outputs = (
    (5, record { value = 10000100; unlock_hash = 77 })
        ∷ (8, record { value = 30294949999999999999999989999886; unlock_hash = 78 })
        ∷ [],
    (refl, (refl, tt)),
  );
  file_contracts = ((20, expiring) ∷ [], (refl, tt));
  delayed_outputs =
      ((101, ((40, record { value = 7; unlock_hash = 70 }) ∷ [], (refl, tt))) ∷ [], (refl, tt));
  expirations = ((101, ((20, tt) ∷ [], (refl, tt))) ∷ [], (refl, tt));
}

abbrev next : ProcessedBlock
next = record block { height = 101 }

-- Its one transaction has a miner fee.
abbrev mined : Block
mined = record {
  parent_id = 5;
  nonce = [];
  timestamp = 1000;
  miner_payouts = record { value = 299899000000000000000000000010; unlock_hash = 5 } ∷ [];
  transactions = transaction ∷ [];
}

full-IsFunded : IsFunded ⦃bolt = pairs⦄ full
unfolding total
full-IsFunded = record {
  listed = record {
    listed = λ id fc h. ground (arith, h);
    expires = λ height id h. (expiring, ground (arith, h), ground (arith, h));
    balanced = λ id fc h.
        let same : expiring ≡ fc = some_inj (ground (arith, h)) in
        subst (λ f. value_sum f.missed_proof_outputs ≡ value_sum f.valid_proof_outputs) same refl;
  };
  whole = refl;
  aligned = λ id o h. ground arith;
  count = refl;
}

paid : check_miner_payouts 30000 mined 101 ≡ true
unfolding check_miner_payouts payout_sum calculate_subsidy calculate_coinbase add_fees add_all_fees
paid = refl

abbrev opened : Applying ⦃bolt = pairs⦄
opened = record { db = create_dsco_bucket ⦃bolt = pairs⦄ 111 full; pb = next }

accepted : valid_transaction ⦃bolt = pairs⦄ chain opened.db proofs seven 900 transaction ≡ gives tt
unfolding valid_transaction valid_siacoins siacoin_input_sum siacoin_output_sum siafund_input_sum
    valid_siafunds valid_storage_proofs valid_file_contract_revisions check_each create_dsco_bucket
accepted = rw standalone_accepts refl

new_ids : HasNewIds ⦃bolt = pairs⦄ chain transaction opened.db next
unfolding add_heights create_dsco_bucket
new_ids = record {
  coins = (refl, tt, tt);
  contracts = (refl, tt, tt);
  funds = tt;
  delayed = (([], tt), refl, tt);
}

applied :
    (s : Applying ⦃bolt = pairs⦄) × (apply_transaction ⦃bolt = pairs⦄ chain transaction opened
      ≡ some s)
unfolding apply_transaction apply_siacoin_inputs apply_siacoin_input apply_siacoin_outputs
    apply_siacoin_output apply_file_contracts apply_file_contract apply_file_contract_revisions
    apply_storage_proofs apply_siafund_inputs apply_siafund_outputs run run_from
    commit_siacoin_output_diff commit_file_contract_diff commit_siafund_pool_diff add_file_contract
    create_dsco_bucket tax mul_tax round_down add_heights
applied = (_, refl)

applied-CanMaintain : CanMaintain ⦃bolt = pairs⦄ chain mined applied.0.db applied.0.pb
unfolding applied apply_transaction apply_siacoin_inputs apply_siacoin_input apply_siacoin_outputs
    apply_siacoin_output apply_file_contracts apply_file_contract apply_file_contract_revisions
    apply_storage_proofs apply_siafund_inputs apply_siafund_outputs run run_from
    commit_siacoin_output_diff commit_file_contract_diff commit_siafund_pool_diff add_file_contract
    create_dsco_bucket tax mul_tax round_down add_heights
applied-CanMaintain = record {
  room = (([], tt), refl, (refl, (λ e. ground (arith, e), tt), (refl, tt, tt)));
  ahead = λ e. ground (arith, e);
  matures = λ old. (
    ((40, record { value = 7; unlock_hash = 70 }) ∷ [], (refl, tt)),
    refl,
    λ id sco h. ground (arith, h),
  );
}

can_apply :
    CanApply ⦃bolt = pairs⦄ chain proofs seven
      (λ t. 900)
      mined
      (transaction ∷ [])
      (record { db = create_dsco_bucket ⦃bolt = pairs⦄ (add_heights 101 10) full; pb = next })
unfolding CanApply add_heights
can_apply = (
  accepted,
  new_ids,
  λ s ran.
      subst (λ s. CanMaintain ⦃bolt = pairs⦄ chain mined s.db s.pb) (some_inj (sym applied.1 ∙ ran))
        applied-CanMaintain,
)

generate_and_apply_diff_mints_example :
    (s : Applying ⦃bolt = pairs⦄) × (generate_and_apply_diff ⦃bolt = pairs⦄ chain proofs seven
        (λ t. 900)
        mined
        (record { db = full; pb = next })
      ≡ gives s)
    × IsFunded ⦃bolt = pairs⦄ s.db
    × (siacoin_count ⦃bolt = pairs⦄ s.db
        ≡ calculate_coinbase 30000 101 + siacoin_count ⦃bolt = pairs⦄ full)
generate_and_apply_diff_mints_example =
    generate_and_apply_diff_mints ⦃bolt = pairs⦄ chain proofs seven (λ t. 900) mined 30000 full next
      full-IsFunded paid can_apply

can_maintain : CanMaintain ⦃bolt = pairs⦄ chain mined opened.db next
unfolding create_dsco_bucket add_heights
can_maintain = record {
  room = (([], tt), refl, (refl, (λ e. ground (arith, e), tt), (refl, tt, tt)));
  ahead = λ e. ground (arith, e);
  matures = λ old. (
    ((40, record { value = 7; unlock_hash = 70 }) ∷ [], (refl, tt)),
    refl,
    λ id sco h. ground (arith, h),
  );
}

opened-IsFunded : IsFunded ⦃bolt = pairs⦄ opened.db
unfolding create_dsco_bucket total
opened-IsFunded = record {
  listed = full-IsFunded.listed;
  whole = refl;
  aligned = full-IsFunded.aligned;
  count = refl;
}

apply_maintenance_pays_example :
    Gains ⦃bolt = pairs⦄
      (apply_maintenance ⦃bolt = pairs⦄ chain mined (record { db = opened.db; pb = next }))
      (value_sum mined.miner_payouts)
      opened.db
apply_maintenance_pays_example =
    apply_maintenance_pays ⦃bolt = pairs⦄ chain mined opened.db next opened-IsFunded can_maintain

abbrev limits : Limits
limits = record {
  block_size_limit = 2000000;
  extreme_future_threshold = 18000;
  future_threshold = 10800;
  minimum_coinbase = 30000;
}

validate_block_exact_example :
    (validate_block limits 900 500 mined 3 800 4 101 ≡ none)
    ↔ FollowsBlockRules limits 900 500 mined 3 800 4 101
validate_block_exact_example = validate_block_exact limits 900 500 mined 3 800 4 101

-- The block is valid at its time, and it is early at a higher minimum.
mined-valid : validate_block limits 900 500 mined 3 800 4 101 ≡ none
unfolding validate_block check_target check_miner_payouts payout_sum calculate_subsidy
    calculate_coinbase add_fees add_all_fees
mined-valid = refl

mined-early : validate_block limits 900 500 mined 3 1001 4 101 ≡ some early_timestamp
unfolding validate_block
mined-early = refl

full-counted : check_siacoin_count ⦃bolt = pairs⦄ 30000 full ≡ true
unfolding check_siacoin_count total calculate_num_siacoins calculate_coinbase sub
full-counted = refl

generate_and_apply_diff_counts_example :
    (s : Applying ⦃bolt = pairs⦄) × (generate_and_apply_diff ⦃bolt = pairs⦄ chain proofs seven
        (λ t. 900)
        mined
        (record { db = full; pb = next })
      ≡ gives s)
    × IsFunded ⦃bolt = pairs⦄ s.db
    × (s.db.height ≡ 101)
    × (check_siacoin_count ⦃bolt = pairs⦄ 30000 s.db ≡ true)
    × (check_siafund_count ⦃bolt = pairs⦄ s.db ≡ true)
generate_and_apply_diff_counts_example =
    generate_and_apply_diff_counts ⦃bolt = pairs⦄ chain proofs seven (λ t. 900) mined 30000 full
      next (omega arith) (omega arith) refl full-IsFunded full-counted paid can_apply

applied_block :
    (s : Applying ⦃bolt = pairs⦄) × (generate_and_apply_diff ⦃bolt = pairs⦄ chain proofs seven
        (λ t. 900)
        mined
        (record { db = full; pb = next })
      ≡ gives s)
applied_block =
    let (s, ran, _, _) =
      generate_and_apply_diff_mints ⦃bolt = pairs⦄ chain proofs seven (λ t. 900) mined 30000 full
        next full-IsFunded paid can_apply in
    (s, ran)

reached : Reaches ⦃bolt = pairs⦄ chain seven (λ t. 900) 30000 full applied_block.0.db
reached =
    Reaches.block proofs mined full next applied_block.0 Reaches.start refl (omega arith) paid
      can_apply applied_block.1

reached_counts_example :
    IsFunded ⦃bolt = pairs⦄ applied_block.0.db
    × (check_siacoin_count ⦃bolt = pairs⦄ 30000 applied_block.0.db ≡ true)
    × (check_siafund_count ⦃bolt = pairs⦄ applied_block.0.db ≡ true)
reached_counts_example =
    reached_counts ⦃bolt = pairs⦄ chain seven (λ t. 900) 30000 full applied_block.0.db (omega arith)
      full-IsFunded full-counted reached

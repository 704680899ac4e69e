-- ===== src/Consensus/Revert/Tests.antt =====
-- diffs.go: a block with a diff of every kind, in which one output matures.
use sia_hostdb_profiles.Prelude.{
  ◌≡◌, refl, [], ◌∷◌, some, none, true, false, arith, ◌==◌, if◌then◌else◌,
}
use sia_hostdb_profiles.Bolt.Pairs.{pairs}
use sia_hostdb_profiles.Transaction.{SiacoinOutput}
use sia_hostdb_profiles.Consensus.Chain.{add_heights}
use sia_hostdb_profiles.Consensus.Tests.{chain}
use sia_hostdb_profiles.Consensus.Store.{Database}
use sia_hostdb_profiles.Consensus.Diffs.{ProcessedBlock, commit_diff_set}
use sia_hostdb_profiles.Consensus.Revert.View.{
  View, view, put_at, delete_at, table, tables, listing, siacoin_output_step, file_contract_step,
  siafund_output_step, delayed_output_step, siafund_pool_step,
}
use sia_hostdb_profiles.Consensus.Revert.Fits.{
  IsFitSiacoinOutput, IsFitFileContract, IsFitSiafundOutput, IsFitDelayedOutput, IsFitSiafundPool,
}
use sia_hostdb_profiles.Consensus.Revert.Node.{AreFit}
use sia_hostdb_profiles.Consensus.Revert.Block.{create_at, create_view, IsFitBlock}
use sia_hostdb_profiles.Consensus.Revert.Undone.{commit_diff_set_undone}

abbrev sco : SiacoinOutput
sco = record { value = 7; unlock_hash = 70 }

abbrev before : Database ⦃bolt = pairs⦄
before = record {
  height = 100;
  path = ([], tt);
  siacoin_outputs = ((5, sco) ∷ [], (refl, tt));
  file_contracts = ([], tt);
  siafund_outputs = ([], tt);
  siafund_pool = 0;
  delayed_outputs = ((101, ((40, sco) ∷ [], (refl, tt))) ∷ [], (refl, tt));
  expirations = ([], tt);
}

abbrev next_block : ProcessedBlock
next_block = record {
  id = 6;
  height = 101;
  diffs_generated = true;
  siacoin_output_diffs =
      record { direction = false; id = 5; siacoin_output = sco }
      ∷ record { direction = true; id = 40; siacoin_output = sco }
      ∷ [];
  file_contract_diffs =
      record {
        direction = true;
        id = 20;
        file_contract = record {
          file_size = 64;
          file_merkle_root = 1;
          window_start = 200;
          window_end = 300;
          payout = 7;
          valid_proof_outputs = sco ∷ [];
          missed_proof_outputs = sco ∷ [];
          unlock_hash = 2;
          revision_number = 0;
        };
      }
      ∷ [];
  siafund_output_diffs =
      record {
        direction = true;
        id = 9;
        siafund_output = record { value = 3; unlock_hash = 4; claim_start = 0 };
      }
      ∷ [];
  delayed_siacoin_output_diffs =
      record { direction = true; id = 41; siacoin_output = sco; maturity_height = 111 }
      ∷ record { direction = false; id = 40; siacoin_output = sco; maturity_height = 101 }
      ∷ [];
  siafund_pool_diffs = record { direction = true; previous = 0; adjusted = 390 } ∷ [];
}

matures : (k : _) → (if k == 40 then none else if k == 40 then some sco else none) ≡ none
matures k = ground arith

next_block-IsFit : (w : View) × IsFitBlock chain next_block (view ⦃bolt = pairs⦄ before) w
unfolding view table tables listing add_heights create_view create_at siacoin_output_step
    file_contract_step siafund_output_step delayed_output_step siafund_pool_step put_at delete_at
    IsFitSiacoinOutput IsFitFileContract IsFitSiafundOutput IsFitDelayedOutput IsFitSiafundPool
next_block-IsFit = (
  record {
    height = 100;
    path = _;
    siacoin_outputs = _;
    contracts = _;
    siafund_outputs = _;
    delayed_outputs = _;
    siafund_pool = _;
  },
  record {
    fit = record {
      siacoin_outputs = AreFit.cons refl refl (AreFit.cons refl refl AreFit.nil);
      contracts = AreFit.cons (refl, refl) refl AreFit.nil;
      siafund_outputs = AreFit.cons refl refl AreFit.nil;
      delayed_outputs =
          AreFit.cons (_, refl, refl) refl (AreFit.cons (_, refl, refl) refl AreFit.nil);
      siafund_pool = AreFit.cons refl refl AreFit.nil;
      height = refl;
      path = refl;
    };
    upcoming = refl;
    matured = λ old i. some (λ k. matures k i);
    next = refl;
    bounded = ground arith;
  },
)

commit_diff_set_undone_example :
    (db' db'' : Database ⦃bolt = pairs⦄) × (commit_diff_set ⦃bolt = pairs⦄ chain true next_block
        before
      ≡ some db')
    × (commit_diff_set ⦃bolt = pairs⦄ chain false next_block db' ≡ some db'')
    × (view ⦃bolt = pairs⦄ db'' ≡ view ⦃bolt = pairs⦄ before)
commit_diff_set_undone_example =
    commit_diff_set_undone chain next_block ⦃bolt = pairs⦄ before next_block-IsFit.0
      next_block-IsFit.1

-- ===== src/Consensus/Diffs.antt =====
-- diffs.go, and the diffs of modules/consensus.go: a block changes the consensus set by a list of
-- diffs, which are applied in order and reverted in reverse. Direction true is DiffApply.
use sia_hostdb_profiles.Prelude.{
  List, [], ◌∷◌, Option, some, Bool, true, false, not, ◌&&◌, leb, if◌then◌else◌,
}
use sia_hostdb_profiles.Prelude.Options.{◌>>=◌}
use sia_hostdb_profiles.Bolt.{Bolt}
use sia_hostdb_profiles.Currency.{Currency}
use sia_hostdb_profiles.Transaction.{Hash, BlockHeight, SiacoinOutput, SiafundOutput, FileContract}
use sia_hostdb_profiles.Consensus.Chain.{Chain, add_heights}
use sia_hostdb_profiles.Consensus.Store.{
  Database, push_path, pop_path, add_siacoin_output, remove_siacoin_output, add_file_contract,
  remove_file_contract, add_siafund_output, remove_siafund_output, set_siafund_pool, add_dsco,
  remove_dsco, create_dsco_bucket, delete_dsco_bucket,
}

pub record SiacoinOutputDiff : Type 0 where
  pub direction : Bool
  pub id : Hash
  pub siacoin_output : SiacoinOutput

pub record FileContractDiff : Type 0 where
  pub direction : Bool
  pub id : Hash
  pub file_contract : FileContract

pub record SiafundOutputDiff : Type 0 where
  pub direction : Bool
  pub id : Hash
  pub siafund_output : SiafundOutput

pub record DelayedSiacoinOutputDiff : Type 0 where
  pub direction : Bool
  pub id : Hash
  pub siacoin_output : SiacoinOutput
  pub maturity_height : BlockHeight

pub record SiafundPoolDiff : Type 0 where
  pub direction : Bool
  pub previous : Currency
  pub adjusted : Currency

-- The fields of `processedBlock` that this code reads and writes; `id` is the id of the block.
pub record ProcessedBlock : Type 0 where
  pub id : Hash
  pub height : BlockHeight
  pub diffs_generated : Bool
  pub siacoin_output_diffs : List SiacoinOutputDiff
  pub file_contract_diffs : List FileContractDiff
  pub siafund_output_diffs : List SiafundOutputDiff
  pub delayed_siacoin_output_diffs : List DelayedSiacoinOutputDiff
  pub siafund_pool_diffs : List SiafundPoolDiff

-- `==` on directions.
abbrev pub same : Bool → Bool → Bool
same true d = d
same false d = not d

-- A loop whose body can panic, forwards and backwards.
unfoldable pub run {ℓ κ} : {A : Type ℓ} {S : Type κ} → (A → S → Option S) → List A → S → Option S
run f [] s = some s
run f (x ∷ xs) s = f x s >>= run f xs

unfoldable pub run_back {ℓ κ} :
    {A : Type ℓ} {S : Type κ} → (A → S → Option S) → List A → S → Option S
run_back f [] s = some s
run_back f (x ∷ xs) s = run_back f xs s >>= f x

module _ ⦃bolt : Bolt⦄ where
  unfoldable pub commit_siacoin_output_diff : Bool → SiacoinOutputDiff → Database → Option Database
  commit_siacoin_output_diff dir d db =
      if same d.direction dir
      then some (add_siacoin_output d.id d.siacoin_output db)
      else some (remove_siacoin_output d.id db)

  unfoldable pub commit_file_contract_diff : Bool → FileContractDiff → Database → Option Database
  commit_file_contract_diff dir d db =
      if same d.direction dir
      then some (add_file_contract d.id d.file_contract db)
      else remove_file_contract d.id db

  unfoldable pub commit_siafund_output_diff : Bool → SiafundOutputDiff → Database → Option Database
  commit_siafund_output_diff dir d db =
      if same d.direction dir
      then some (add_siafund_output d.id d.siafund_output db)
      else some (remove_siafund_output d.id db)

  unfoldable pub commit_delayed_siacoin_output_diff :
      Bool → DelayedSiacoinOutputDiff → Database → Option Database
  commit_delayed_siacoin_output_diff dir d db =
      if same d.direction dir
      then add_dsco d.maturity_height d.id d.siacoin_output db
      else remove_dsco d.maturity_height d.id db

  unfoldable pub commit_siafund_pool_diff : Bool → SiafundPoolDiff → Database → Option Database
  commit_siafund_pool_diff dir d db =
      some (set_siafund_pool (if dir then d.adjusted else d.previous) db)

  -- `createUpcomingDelayedOutputMaps`
  unfoldable pub create_upcoming_delayed_output_maps :
      Chain → Bool → ProcessedBlock → Database → Database
  create_upcoming_delayed_output_maps chain dir pb db =
      if dir
      then create_dsco_bucket (add_heights pb.height chain.maturity_delay) db
      else if leb chain.maturity_delay pb.height
      then create_dsco_bucket pb.height db
      else db

  -- `commitNodeDiffs`
  unfoldable pub commit_node_diffs : Bool → ProcessedBlock → Database → Option Database
  commit_node_diffs true pb db =
      run (commit_siacoin_output_diff true) pb.siacoin_output_diffs db
      >>= run (commit_file_contract_diff true) pb.file_contract_diffs
      >>= run (commit_siafund_output_diff true) pb.siafund_output_diffs
      >>= run (commit_delayed_siacoin_output_diff true) pb.delayed_siacoin_output_diffs
      >>= run (commit_siafund_pool_diff true) pb.siafund_pool_diffs
  commit_node_diffs false pb db =
      run_back (commit_siacoin_output_diff false) pb.siacoin_output_diffs db
      >>= run_back (commit_file_contract_diff false) pb.file_contract_diffs
      >>= run_back (commit_siafund_output_diff false) pb.siafund_output_diffs
      >>= run_back (commit_delayed_siacoin_output_diff false) pb.delayed_siacoin_output_diffs
      >>= run_back (commit_siafund_pool_diff false) pb.siafund_pool_diffs

  -- `deleteObsoleteDelayedOutputMaps`
  unfoldable pub delete_obsolete_delayed_output_maps :
      Chain → Bool → ProcessedBlock → Database → Database
  delete_obsolete_delayed_output_maps chain dir pb db =
      if dir && leb chain.maturity_delay pb.height
      then delete_dsco_bucket pb.height db
      else if not dir
      then delete_dsco_bucket (add_heights pb.height chain.maturity_delay) db
      else db

  -- `updateCurrentPath`
  unfoldable pub update_current_path : Bool → ProcessedBlock → Database → Database
  update_current_path dir pb db = if dir then push_path pb.id db else pop_path db

  -- `commitDiffSet`
  unfoldable pub commit_diff_set : Chain → Bool → ProcessedBlock → Database → Option Database
  commit_diff_set chain dir pb db = do
    db' ← commit_node_diffs dir pb (create_upcoming_delayed_output_maps chain dir pb db)
    some (update_current_path dir pb (delete_obsolete_delayed_output_maps chain dir pb db'))

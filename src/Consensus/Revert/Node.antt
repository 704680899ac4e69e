-- ===== src/Consensus/Revert/Node.antt =====
-- diffs.go, `commitNodeDiffs`: its lists of diffs as updates of the view, and the revert of a block's
-- diffs, which goes through the kinds in the order of the apply and through each list in reverse.
use sia_hostdb_profiles.Prelude.{
  ◌≡◌, refl, sym, ap, ◌∙◌, Option, none, some, Bool, true, false, List, [], ◌∷◌,
}
use sia_hostdb_profiles.Prelude.Options.{◌>>=◌}
use sia_hostdb_profiles.Prelude.Monad.{after, after-eq-some}
use sia_hostdb_profiles.Bolt.{Bolt}
use sia_hostdb_profiles.Consensus.Store.{Database}
use sia_hostdb_profiles.Consensus.Diffs.{
  SiacoinOutputDiff, FileContractDiff, SiafundOutputDiff, DelayedSiacoinOutputDiff, SiafundPoolDiff,
  ProcessedBlock, run, run_back, commit_siacoin_output_diff, commit_file_contract_diff,
  commit_siafund_output_diff, commit_delayed_siacoin_output_diff, commit_siafund_pool_diff,
  commit_node_diffs,
}
use sia_hostdb_profiles.Consensus.Revert.Undo.{
  Undoes, Undoes-run, Undoes-run_back, run-Acts, run_back-Acts,
}
use sia_hostdb_profiles.Consensus.Revert.View.{
  View, view, siacoin_output_step, file_contract_step, siafund_output_step, delayed_output_step,
  siafund_pool_step,
}
use sia_hostdb_profiles.Consensus.Revert.Kinds.{
  on_siacoin_outputs, on_contracts, on_siafund_outputs, on_delayed_outputs, on_siafund_pool,
  Refines, commit_siacoin_output_diff-Refines, commit_file_contract_diff-Refines,
  commit_siafund_output_diff-Refines, commit_delayed_siacoin_output_diff-Refines,
  commit_siafund_pool_diff-Refines,
}
use sia_hostdb_profiles.Consensus.Revert.Fits.{
  IsFitSiacoinOutput, IsFitFileContract, IsFitSiafundOutput, IsFitDelayedOutput, IsFitSiafundPool,
  siacoin_output_step-Reverts, file_contract_step-Reverts, siafund_output_step-Reverts,
  delayed_output_step-Reverts, siafund_pool_step-Reverts, Reverts,
}

-- `commitNodeDiffs` on the view.
unfoldable pub update_view : Bool → ProcessedBlock → View → Option View
update_view true pb v =
    on_siacoin_outputs (run (siacoin_output_step true) pb.siacoin_output_diffs) v
    >>= on_contracts (run (file_contract_step true) pb.file_contract_diffs)
    >>= on_siafund_outputs (run (siafund_output_step true) pb.siafund_output_diffs)
    >>= on_delayed_outputs (run (delayed_output_step true) pb.delayed_siacoin_output_diffs)
    >>= on_siafund_pool (run (siafund_pool_step true) pb.siafund_pool_diffs)
update_view false pb v =
    on_siacoin_outputs (run_back (siacoin_output_step false) pb.siacoin_output_diffs) v
    >>= on_contracts (run_back (file_contract_step false) pb.file_contract_diffs)
    >>= on_siafund_outputs (run_back (siafund_output_step false) pb.siafund_output_diffs)
    >>= on_delayed_outputs (run_back (delayed_output_step false) pb.delayed_siacoin_output_diffs)
    >>= on_siafund_pool (run_back (siafund_pool_step false) pb.siafund_pool_diffs)

-- Every diff fits where it stands.
pub data AreFit {A S : Type 0} (Fit : A → S → Type 0) (f : A → S → Option S)
    : List A → S → S → Type 0 where
  nil : {s : S} → AreFit Fit f [] s s
  cons :
      {d : A} {ds : List A} {s t u : S}
      → Fit d s
      → f d s ≡ some t
      → AreFit Fit f ds t u
      → AreFit Fit f (d ∷ ds) s u

module _ {A S : Type 0} {Fit : A → S → Type 0} (step : Bool → A → S → Option S) where
  pub AreFit-Undoes :
      ((d : A) (s : S) → Fit d s → Reverts step d s)
      → {ds : List A} {s u : S} → AreFit Fit (step true) ds s u
      → Undoes (step true) (step false) ds s u
  AreFit-Undoes reverts AreFit.nil = Undoes.nil
  AreFit-Undoes reverts (AreFit.cons {d} {ds} {s} {t} {u} fit does rest) =
      let (t', forth, back) = reverts d s fit in
      let same : t' ≡ t = cc in
      Undoes.cons does (ap (step false d) (sym same) ∙ back) (AreFit-Undoes reverts rest)

-- The diffs of a block, each of which fits where it stands, from one view to another.
pub record IsFit (pb : ProcessedBlock) (v w : View) : Type 0 where
  pub siacoin_outputs :
      AreFit IsFitSiacoinOutput
        (siacoin_output_step true)
        pb.siacoin_output_diffs
        v.siacoin_outputs
        w.siacoin_outputs
  pub contracts :
      AreFit IsFitFileContract
        (file_contract_step true)
        pb.file_contract_diffs
        v.contracts
        w.contracts
  pub siafund_outputs :
      AreFit IsFitSiafundOutput
        (siafund_output_step true)
        pb.siafund_output_diffs
        v.siafund_outputs
        w.siafund_outputs
  pub delayed_outputs :
      AreFit IsFitDelayedOutput
        (delayed_output_step true)
        pb.delayed_siacoin_output_diffs
        v.delayed_outputs
        w.delayed_outputs
  pub siafund_pool :
      AreFit IsFitSiafundPool
        (siafund_pool_step true)
        pb.siafund_pool_diffs
        v.siafund_pool
        w.siafund_pool
  pub height : w.height ≡ v.height
  pub path : w.path ≡ v.path

module _ ⦃bolt : Bolt⦄ where
  >>=-Refines :
      (m : Option Database) (n : Option View) (f : Database → Option Database)
      (g : View → Option View)
      → after view m ≡ n
      → Refines f g
      → after view (m >>= f) ≡ (n >>= g)
  >>=-Refines none none f g h refines = refl
  >>=-Refines none (some v) f g h refines = cc
  >>=-Refines (some db) none f g h refines = cc
  >>=-Refines (some db) (some v) f g h refines = refines db ∙ ap g cc

  -- Each list of diffs, forwards and backwards.
  siacoin_outputs_runs :
      (dir : Bool) (ds : List SiacoinOutputDiff)
      → Refines
          (run (commit_siacoin_output_diff dir) ds)
          (on_siacoin_outputs (run (siacoin_output_step dir) ds))
        × Refines
            (run_back (commit_siacoin_output_diff dir) ds)
            (on_siacoin_outputs (run_back (siacoin_output_step dir) ds))
  siacoin_outputs_runs dir ds = (
    run-Acts view (λ v. v.siacoin_outputs) (λ t v. record v { siacoin_outputs = t }) (λ t v. refl)
        (λ t u v. refl) (λ v. refl) (commit_siacoin_output_diff dir) (siacoin_output_step dir)
        (commit_siacoin_output_diff-Refines dir) ds,
    run_back-Acts view (λ v. v.siacoin_outputs) (λ t v. record v { siacoin_outputs = t })
        (λ t v. refl) (λ t u v. refl) (λ v. refl) (commit_siacoin_output_diff dir)
        (siacoin_output_step dir) (commit_siacoin_output_diff-Refines dir) ds,
  )

  contracts_runs :
      (dir : Bool) (ds : List FileContractDiff)
      → Refines
          (run (commit_file_contract_diff dir) ds)
          (on_contracts (run (file_contract_step dir) ds))
        × Refines
            (run_back (commit_file_contract_diff dir) ds)
            (on_contracts (run_back (file_contract_step dir) ds))
  contracts_runs dir ds = (
    run-Acts view (λ v. v.contracts) (λ t v. record v { contracts = t }) (λ t v. refl)
        (λ t u v. refl) (λ v. refl) (commit_file_contract_diff dir) (file_contract_step dir)
        (commit_file_contract_diff-Refines dir) ds,
    run_back-Acts view (λ v. v.contracts) (λ t v. record v { contracts = t }) (λ t v. refl)
        (λ t u v. refl) (λ v. refl) (commit_file_contract_diff dir) (file_contract_step dir)
        (commit_file_contract_diff-Refines dir) ds,
  )

  siafund_outputs_runs :
      (dir : Bool) (ds : List SiafundOutputDiff)
      → Refines
          (run (commit_siafund_output_diff dir) ds)
          (on_siafund_outputs (run (siafund_output_step dir) ds))
        × Refines
            (run_back (commit_siafund_output_diff dir) ds)
            (on_siafund_outputs (run_back (siafund_output_step dir) ds))
  siafund_outputs_runs dir ds = (
    run-Acts view (λ v. v.siafund_outputs) (λ t v. record v { siafund_outputs = t }) (λ t v. refl)
        (λ t u v. refl) (λ v. refl) (commit_siafund_output_diff dir) (siafund_output_step dir)
        (commit_siafund_output_diff-Refines dir) ds,
    run_back-Acts view (λ v. v.siafund_outputs) (λ t v. record v { siafund_outputs = t })
        (λ t v. refl) (λ t u v. refl) (λ v. refl) (commit_siafund_output_diff dir)
        (siafund_output_step dir) (commit_siafund_output_diff-Refines dir) ds,
  )

  delayed_outputs_runs :
      (dir : Bool) (ds : List DelayedSiacoinOutputDiff)
      → Refines
          (run (commit_delayed_siacoin_output_diff dir) ds)
          (on_delayed_outputs (run (delayed_output_step dir) ds))
        × Refines
            (run_back (commit_delayed_siacoin_output_diff dir) ds)
            (on_delayed_outputs (run_back (delayed_output_step dir) ds))
  delayed_outputs_runs dir ds = (
    run-Acts view (λ v. v.delayed_outputs) (λ t v. record v { delayed_outputs = t }) (λ t v. refl)
        (λ t u v. refl) (λ v. refl) (commit_delayed_siacoin_output_diff dir)
        (delayed_output_step dir) (commit_delayed_siacoin_output_diff-Refines dir) ds,
    run_back-Acts view (λ v. v.delayed_outputs) (λ t v. record v { delayed_outputs = t })
        (λ t v. refl) (λ t u v. refl) (λ v. refl) (commit_delayed_siacoin_output_diff dir)
        (delayed_output_step dir) (commit_delayed_siacoin_output_diff-Refines dir) ds,
  )

  siafund_pool_runs :
      (dir : Bool) (ds : List SiafundPoolDiff)
      → Refines
          (run (commit_siafund_pool_diff dir) ds)
          (on_siafund_pool (run (siafund_pool_step dir) ds))
        × Refines
            (run_back (commit_siafund_pool_diff dir) ds)
            (on_siafund_pool (run_back (siafund_pool_step dir) ds))
  siafund_pool_runs dir ds = (
    run-Acts view (λ v. v.siafund_pool) (λ t v. record v { siafund_pool = t }) (λ t v. refl)
        (λ t u v. refl) (λ v. refl) (commit_siafund_pool_diff dir) (siafund_pool_step dir)
        (commit_siafund_pool_diff-Refines dir) ds,
    run_back-Acts view (λ v. v.siafund_pool) (λ t v. record v { siafund_pool = t }) (λ t v. refl)
        (λ t u v. refl) (λ v. refl) (commit_siafund_pool_diff dir) (siafund_pool_step dir)
        (commit_siafund_pool_diff-Refines dir) ds,
  )

  pub commit_node_diffs-Refines :
      (dir : Bool) (pb : ProcessedBlock) → Refines (commit_node_diffs dir pb) (update_view dir pb)
  unfolding commit_node_diffs update_view
  commit_node_diffs-Refines true pb db =
      >>=-Refines _ _ _ _
        (>>=-Refines _ _ _ _
          (>>=-Refines _ _ _ _
            (>>=-Refines _ _ _ _ ((siacoin_outputs_runs true pb.siacoin_output_diffs).0 db)
              (contracts_runs true pb.file_contract_diffs).0)
            (siafund_outputs_runs true pb.siafund_output_diffs).0)
          (delayed_outputs_runs true pb.delayed_siacoin_output_diffs).0)
        (siafund_pool_runs true pb.siafund_pool_diffs).0
  commit_node_diffs-Refines false pb db =
      >>=-Refines _ _ _ _
        (>>=-Refines _ _ _ _
          (>>=-Refines _ _ _ _
            (>>=-Refines _ _ _ _ ((siacoin_outputs_runs false pb.siacoin_output_diffs).1 db)
              (contracts_runs false pb.file_contract_diffs).1)
            (siafund_outputs_runs false pb.siafund_output_diffs).1)
          (delayed_outputs_runs false pb.delayed_siacoin_output_diffs).1)
        (siafund_pool_runs false pb.siafund_pool_diffs).1

pub update_view_undone :
    (pb : ProcessedBlock) (v w : View)
    → IsFit pb v w
    → (update_view true pb v ≡ some w) × (update_view false pb w ≡ some v)
unfolding update_view
update_view_undone pb v w fit =
    let outputs =
      AreFit-Undoes siacoin_output_step siacoin_output_step-Reverts fit.siacoin_outputs in
    let contracts = AreFit-Undoes file_contract_step file_contract_step-Reverts fit.contracts in
    let funds = AreFit-Undoes siafund_output_step siafund_output_step-Reverts fit.siafund_outputs in
    let delayed =
      AreFit-Undoes delayed_output_step delayed_output_step-Reverts fit.delayed_outputs in
    let pool = AreFit-Undoes siafund_pool_step siafund_pool_step-Reverts fit.siafund_pool in
    (
      rw
          (
            Undoes-run outputs,
            Undoes-run contracts,
            Undoes-run funds,
            Undoes-run delayed,
            Undoes-run pool,
          )
          cc,
      rw
          (
            Undoes-run_back outputs,
            Undoes-run_back contracts,
            Undoes-run_back funds,
            Undoes-run_back delayed,
            Undoes-run_back pool,
          )
          cc,
    )

module _ ⦃bolt : Bolt⦄ where
  pub commit_node_diffs_undone :
      (pb : ProcessedBlock) (db : Database) (w : View)
      → IsFit pb (view db) w
      → (db' db'' : Database) × (commit_node_diffs true pb db ≡ some db')
        × (view db' ≡ w)
        × (commit_node_diffs false pb db' ≡ some db'')
        × (view db'' ≡ view db)
  commit_node_diffs_undone pb db w fit =
      let (forth, back) = update_view_undone pb (view db) w fit in
      let (db', does, at) =
        after-eq-some view (commit_node_diffs true pb db)
          (commit_node_diffs-Refines true pb db ∙ forth) in
      let (db'', undoes, at') =
        after-eq-some view (commit_node_diffs false pb db')
          (commit_node_diffs-Refines false pb db' ∙ ap (update_view false pb) at ∙ back) in
      (db', db'', does, at, undoes, at')

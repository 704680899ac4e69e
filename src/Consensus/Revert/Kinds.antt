-- ===== src/Consensus/Revert/Kinds.antt =====
-- diffs.go: the commit of a diff of each kind is the update of its part of the view.
use sia_hostdb_profiles.Prelude.{
  ℕ, ◌≡◌, refl, ap, arith, Option, some, Bool, Option-cases, Bool-cases, inl, inr,
}
use sia_hostdb_profiles.Prelude.Monad.{after}
use sia_hostdb_profiles.Bolt.{Bolt}
use sia_hostdb_profiles.Currency.{Currency}
use sia_hostdb_profiles.Transaction.{SiacoinOutput, SiafundOutput, FileContract}
use sia_hostdb_profiles.Consensus.Store.{
  Database, add_file_contract, remove_file_contract, add_dsco, remove_dsco,
}
use sia_hostdb_profiles.Consensus.Diffs.{
  SiacoinOutputDiff, FileContractDiff, SiafundOutputDiff, DelayedSiacoinOutputDiff, SiafundPoolDiff,
  commit_siacoin_output_diff, commit_file_contract_diff, commit_siafund_output_diff,
  commit_delayed_siacoin_output_diff, commit_siafund_pool_diff, same,
}
use sia_hostdb_profiles.Consensus.Revert.View.{
  Table, View, Contracts, view, put_at, list_at, table, tables, listing, table-put, table-delete,
  tables-put, siacoin_output_step, file_contract_step, siafund_output_step, delayed_output_step,
  siafund_pool_step, remove_contract, listing-add, listing-remove,
}

-- An update of one part of the view.
abbrev pub on_siacoin_outputs :
    (Table SiacoinOutput → Option (Table SiacoinOutput)) → View → Option View
on_siacoin_outputs f v = after (λ t. record v { siacoin_outputs = t }) (f v.siacoin_outputs)

abbrev pub on_contracts : (Contracts → Option Contracts) → View → Option View
on_contracts f v = after (λ t. record v { contracts = t }) (f v.contracts)

abbrev pub on_siafund_outputs :
    (Table SiafundOutput → Option (Table SiafundOutput)) → View → Option View
on_siafund_outputs f v = after (λ t. record v { siafund_outputs = t }) (f v.siafund_outputs)

abbrev pub on_delayed_outputs :
    (Table (Table SiacoinOutput) → Option (Table (Table SiacoinOutput))) → View → Option View
on_delayed_outputs f v = after (λ t. record v { delayed_outputs = t }) (f v.delayed_outputs)

abbrev pub on_siafund_pool : (Currency → Option Currency) → View → Option View
on_siafund_pool f v = after (λ t. record v { siafund_pool = t }) (f v.siafund_pool)

module _ ⦃bolt : Bolt⦄ where
  abbrev pub Refines : (Database → Option Database) → (View → Option View) → Type 0
  Refines f g = (db : Database) → after view (f db) ≡ g (view db)

  pub commit_siacoin_output_diff-Refines :
      (dir : Bool) (d : SiacoinOutputDiff)
      → Refines (commit_siacoin_output_diff dir d) (on_siacoin_outputs (siacoin_output_step dir d))
  unfolding commit_siacoin_output_diff siacoin_output_step view
  commit_siacoin_output_diff-Refines dir d db = ground (
    arith,
    table-put d.id d.siacoin_output db.siacoin_outputs,
    table-delete d.id db.siacoin_outputs,
  )

  pub commit_siafund_output_diff-Refines :
      (dir : Bool) (d : SiafundOutputDiff)
      → Refines (commit_siafund_output_diff dir d) (on_siafund_outputs (siafund_output_step dir d))
  unfolding commit_siafund_output_diff siafund_output_step view
  commit_siafund_output_diff-Refines dir d db = ground (
    arith,
    table-put d.id d.siafund_output db.siafund_outputs,
    table-delete d.id db.siafund_outputs,
  )

  pub commit_siafund_pool_diff-Refines :
      (dir : Bool) (d : SiafundPoolDiff)
      → Refines (commit_siafund_pool_diff dir d) (on_siafund_pool (siafund_pool_step dir d))
  unfolding commit_siafund_pool_diff siafund_pool_step view
  commit_siafund_pool_diff-Refines dir d db = refl

  pub commit_delayed_siacoin_output_diff-Refines :
      (dir : Bool) (d : DelayedSiacoinOutputDiff)
      → Refines
          (commit_delayed_siacoin_output_diff dir d)
          (on_delayed_outputs (delayed_output_step dir d))
  unfolding commit_delayed_siacoin_output_diff delayed_output_step view add_dsco remove_dsco tables
  commit_delayed_siacoin_output_diff-Refines dir d db =
      elim (Option-cases (bolt.get d.maturity_height db.delayed_outputs)) [
        | inl absent ↦ ground (arith, absent)
        | inr (b, at) ↦ ground (
          arith,
          at,
          tables-put d.maturity_height (bolt.put d.id d.siacoin_output b) db.delayed_outputs,
          tables-put d.maturity_height (bolt.delete d.id b) db.delayed_outputs,
          table-put d.id d.siacoin_output b,
          table-delete d.id b,
        )
      ]

  add_file_contract-view :
      (id : ℕ) (fc : FileContract) (db : Database)
      → view (add_file_contract id fc db) ≡ record (view db) {
        contracts = record {
          file_contracts = put_at id fc (view db).contracts.file_contracts;
          listed = list_at fc.window_end id (some tt) (view db).contracts.listed;
        };
      }
  unfolding view add_file_contract
  add_file_contract-view id fc db =
      rw (table-put id fc db.file_contracts, listing-add fc.window_end id db.expirations)

  remove_file_contract-Refines :
      (id : ℕ) → Refines (remove_file_contract id) (on_contracts (remove_contract id))
  unfolding remove_contract view table listing remove_file_contract
  remove_file_contract-Refines id db = elim (Option-cases (bolt.get id db.file_contracts)) [
    | inl absent ↦ rw absent refl
    | inr (fc, at) ↦ elim (Option-cases (bolt.get fc.window_end db.expirations)) [
      | inl absent ↦ rw (at, absent) refl
      | inr (b, at_height) ↦ elim (Option-cases (bolt.get id b)) [
        | inl absent ↦ rw (at, at_height, absent) refl
        | inr (u, its) ↦
            rw
              (
                at,
                at_height,
                its,
                table-delete id db.file_contracts,
                listing-remove fc.window_end id b db.expirations at_height,
              )
              refl
      ]
    ]
  ]

  pub commit_file_contract_diff-Refines :
      (dir : Bool) (d : FileContractDiff)
      → Refines (commit_file_contract_diff dir d) (on_contracts (file_contract_step dir d))
  unfolding commit_file_contract_diff file_contract_step
  commit_file_contract_diff-Refines dir d db = elim (Bool-cases (same d.direction dir)) [
    | inl adds ↦ rw adds (ap some (add_file_contract-view d.id d.file_contract db))
    | inr removes ↦ rw removes (remove_file_contract-Refines d.id db)
  ]

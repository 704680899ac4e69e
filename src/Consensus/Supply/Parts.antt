-- ===== src/Consensus/Supply/Parts.antt =====
-- applytransaction.go: the parts of applyTransaction one after another, from the last one back to
-- applyFileContracts.
use sia_hostdb_profiles.Prelude.{
  ℕ, ◌+◌, ◌≡◌, ◌≢◌, ◌≤◌, refl, ap, ◌∙◌, List, [], ◌∷◌, ◌++◌, Option, some, All, arith, sum_of,
}
use sia_hostdb_profiles.Prelude.Options.{◌>>=◌}
use sia_hostdb_profiles.Bolt.{Bolt}
use sia_hostdb_profiles.Currency.{Currency}
use sia_hostdb_profiles.Transaction.{
  SiacoinOutput, SiafundOutput, FileContract, FileContractRevision, StorageProof, Transaction,
}
use sia_hostdb_profiles.Standalone.{value_sum}
use sia_hostdb_profiles.Consensus.Chain.{Chain}
use sia_hostdb_profiles.Consensus.Store.{Database}
use sia_hostdb_profiles.Consensus.Diffs.{ProcessedBlock}
use sia_hostdb_profiles.Consensus.Apply.{
  Applying, apply_file_contracts, apply_file_contract_revisions, apply_storage_proofs,
  apply_siafund_inputs, apply_siafund_outputs,
}
use sia_hostdb_profiles.Consensus.Supply.{fund_value, siacoin_count}
use sia_hostdb_profiles.Consensus.Supply.Keys.{AreNew}
use sia_hostdb_profiles.Consensus.Supply.Formed.{contracts_form}
use sia_hostdb_profiles.Consensus.Supply.Revised.{revisions_keep}
use sia_hostdb_profiles.Consensus.Supply.Delayed.{HasRoom, Proves, maturity, proofs_pay}
use sia_hostdb_profiles.Consensus.Supply.Claims.{IsAligned, claims_grow}
use sia_hostdb_profiles.Consensus.Supply.Funds.{
  Redeems, claim_ids, funds_redeem, fund_ids, funds_issue,
}
use sia_hostdb_profiles.Consensus.Supply.Checked.{Matches, IsThere}
use sia_hostdb_profiles.Consensus.Supply.Accepted.{
  MatchesIn, matches-Revises, created_ids, IsIn, there-Proves,
}
use sia_hostdb_profiles.Consensus.Supply.Applicable.{IsFunded, HasNewIds, IsApplicable}

module _ ⦃bolt : Bolt⦄ where
  -- A run that ends on a funded database of the same height, with `n` siacoins more than in `db`.
  abbrev pub Gains : Option Applying → ℕ → Database → Type 0
  Gains result n db =
      (s : Applying) × (result ≡ some s)
      × IsFunded s.db
      × (s.db.height ≡ db.height)
      × (siacoin_count s.db ≡ n + siacoin_count db)

  later :
      (pool pool' : Currency) (o : SiafundOutput)
      → pool ≤ pool'
      → IsAligned pool o
      → IsAligned pool' o
  later pool pool' o le a = record { earlier = omega (arith, le, a.earlier); whole = a.whole }

  -- Contracts that no revision names are where they were.
  each-IsIn :
      (chain : Chain) (db : Database) (fcs : bolt.Bucket FileContract)
      (fcrs : List FileContractRevision)
      → ((id : ℕ) (fc : FileContract)
          → All (λ (r : FileContractRevision). r.parent_id ≢ id) fcrs
          → bolt.get id db.file_contracts ≡ some fc
          → bolt.get id fcs ≡ some fc)
      → (sps : List StorageProof) → All (IsThere chain db) sps
      → All
          (λ (p : StorageProof). All (λ (r : FileContractRevision). r.parent_id ≢ p.parent_id) fcrs)
          sps
      → All (IsIn chain db fcs) sps
  each-IsIn chain db fcs fcrs keep [] there others = tt
  each-IsIn chain db fcs fcrs keep (p ∷ ps) ((fc, at), there) others = (
    (fc, at, keep p.parent_id fc others.0 at),
    each-IsIn chain db fcs fcrs keep ps there others.1,
  )

  each-MatchesIn :
      (chain : Chain) (start : Database) (fcs : bolt.Bucket FileContract)
      → ((id : ℕ) (fc : FileContract)
          → bolt.get id start.file_contracts ≡ some fc
          → bolt.get id fcs ≡ some fc)
      → (rs : List FileContractRevision) → All (Matches chain start) rs
      → All
          (λ (r : FileContractRevision).
            value_sum r.new_missed_proof_outputs ≡ value_sum r.new_valid_proof_outputs)
          rs
      → All (MatchesIn chain start fcs) rs
  each-MatchesIn chain start fcs old [] matches level = tt
  each-MatchesIn chain start fcs old (r ∷ rs) ((fc, at, same), matches) level = (
    (fc, old r.parent_id fc at, same, level.0),
    each-MatchesIn chain start fcs old rs matches level.1,
  )

  module _ (chain : Chain) (t : Transaction) where
    funds_part :
        (db : Database) (pb : ProcessedBlock)
        → IsFunded db
        → Redeems t.siafund_inputs (sum_of fund_value t.siafund_outputs) db.siafund_outputs
        → AreNew (fund_ids chain t 0 t.siafund_outputs) db.siafund_outputs
        → HasRoom (maturity chain pb) (claim_ids chain t.siafund_inputs) db.delayed_outputs
        → Gains
            (apply_siafund_inputs chain t (record { db = db; pb = pb })
              >>= apply_siafund_outputs chain t)
            0
            db
    unfolding apply_siafund_inputs apply_siafund_outputs
    funds_part db pb funded redeems new room =
        let (funds, delayed, pb1, _, ran1, redeemed) =
          funds_redeem chain t.siafund_inputs _ (fund_ids chain t 0 t.siafund_outputs) db pb redeems
            funded.whole funded.aligned new room in
        let (funds', pb2, ran2, issued) =
          funds_issue chain t t.siafund_outputs 0
            (record db { siafund_outputs = funds; delayed_outputs = delayed }) pb1 funded.whole
            redeemed.aligned redeemed.unused in
        (
          record {
            db = record db { siafund_outputs = funds'; delayed_outputs = delayed };
            pb = pb2;
          },
          ap (λ m. m >>= apply_siafund_outputs chain t) ran1 ∙ ran2,
          record {
            listed = funded.listed;
            whole = funded.whole;
            aligned = issued.aligned;
            count = omega (arith, issued.issued, redeemed.spent, funded.count);
          },
          refl,
          omega (arith, redeemed.paid, issued.unclaimed),
        )

    proofs_part :
        (ids : List ℕ) (db : Database) (pb : ProcessedBlock)
        → IsFunded db
        → Redeems t.siafund_inputs (sum_of fund_value t.siafund_outputs) db.siafund_outputs
        → AreNew (fund_ids chain t 0 t.siafund_outputs) db.siafund_outputs
        → Proves chain t.storage_proofs ids db.file_contracts
        → HasRoom (maturity chain pb) (ids ++ claim_ids chain t.siafund_inputs) db.delayed_outputs
        → Gains
            (apply_storage_proofs chain t (record { db = db; pb = pb })
              >>= apply_siafund_inputs chain t
              >>= apply_siafund_outputs chain t)
            0
            db
    unfolding apply_storage_proofs
    proofs_part ids db pb funded redeems new proves room =
        let (c, delayed, pb1, height, ran1, paid) =
          proofs_pay chain t.storage_proofs ids (claim_ids chain t.siafund_inputs) db pb proves
            funded.listed room in
        let (s, ran, funded', high, same) =
          funds_part
            (record db { file_contracts = c.0; expirations = c.1; delayed_outputs = delayed }) pb1
            (record {
              listed = paid.listed;
              whole = funded.whole;
              aligned = funded.aligned;
              count = funded.count;
            })
            redeems new (rw height paid.room) in
        (
          s,
          ap (λ m. m >>= apply_siafund_inputs chain t >>= apply_siafund_outputs chain t) ran1 ∙ ran,
          funded',
          high,
          omega (arith, same, paid.moved),
        )

    revisions_part :
        (start db : Database) (pb : ProcessedBlock)
        → IsFunded db
        → Redeems t.siafund_inputs (sum_of fund_value t.siafund_outputs) db.siafund_outputs
        → AreNew (fund_ids chain t 0 t.siafund_outputs) db.siafund_outputs
        → IsApplicable chain t start
        → ((id : ℕ) (fc : FileContract)
            → bolt.get id start.file_contracts ≡ some fc
            → bolt.get id db.file_contracts ≡ some fc)
        → HasRoom
            (maturity chain pb)
            (created_ids chain start t.storage_proofs ++ claim_ids chain t.siafund_inputs)
            db.delayed_outputs
        → Gains
            (apply_file_contract_revisions t (record { db = db; pb = pb })
              >>= apply_storage_proofs chain t
              >>= apply_siafund_inputs chain t
              >>= apply_siafund_outputs chain t)
            0
            db
    unfolding apply_file_contract_revisions
    revisions_part start db pb funded redeems new ok old room =
        let (c, pb1, height, ran1, kept) =
          revisions_keep t.file_contract_revisions db pb
            (matches-Revises chain start t.file_contract_revisions db.file_contracts
              (each-MatchesIn chain start db.file_contracts old t.file_contract_revisions ok.matches
                ok.level)
              ok.revisions_apart)
            funded.listed in
        let (s, ran, funded', high, same) =
          proofs_part (created_ids chain start t.storage_proofs)
            (record db { file_contracts = c.0; expirations = c.1 }) pb1
            (record {
              listed = kept.listed;
              whole = funded.whole;
              aligned = funded.aligned;
              count = funded.count;
            })
            redeems new
            (there-Proves chain start t.storage_proofs c.0
              (each-IsIn chain start c.0 t.file_contract_revisions
                (λ id fc others at. kept.keeps id fc others (old id fc at)) t.storage_proofs
                ok.there ok.unrevised)
              ok.proofs_apart)
            (rw height room) in
        (
          s,
          ap
                (λ m.
                  m
                  >>= apply_storage_proofs chain t
                  >>= apply_siafund_inputs chain t
                  >>= apply_siafund_outputs chain t)
                ran1
              ∙ ran,
          funded',
          high,
          omega (arith, same, kept.same_total),
        )

    abbrev pub payouts : ℕ
    payouts = sum_of (λ (fc : FileContract). fc.payout) t.file_contracts

    pub contracts_part :
        (start : Database) (coins : bolt.Bucket SiacoinOutput) (pb : ProcessedBlock)
        → IsFunded start
        → IsApplicable chain t start
        → HasNewIds chain t start pb
        → Gains
            (apply_file_contracts chain t
                (record { db = record start { siacoin_outputs = coins }; pb = pb })
              >>= apply_file_contract_revisions t
              >>= apply_storage_proofs chain t
              >>= apply_siafund_inputs chain t
              >>= apply_siafund_outputs chain t)
            payouts
            (record start { siacoin_outputs = coins })
    unfolding apply_file_contracts
    contracts_part start coins pb funded ok new =
        let db : Database = record start { siacoin_outputs = coins } in
        let (c, pool, pb1, height, ran1, formed) =
          contracts_form chain t t.file_contracts 0 db pb new.contracts ok.shares funded.whole
            funded.listed in
        let (s, ran, funded', high, same) =
          revisions_part start
            (record db { file_contracts = c.0; expirations = c.1; siafund_pool = pool }) pb1
            (record {
              listed = formed.listed;
              whole = formed.whole;
              aligned = λ id o at.
                  later start.siafund_pool pool o formed.pool_grows (funded.aligned id o at);
              count = funded.count;
            })
            ok.redeems new.funds ok formed.keeps (rw height new.delayed) in
        (
          s,
          ap
                (λ m.
                  m
                  >>= apply_file_contract_revisions t
                  >>= apply_storage_proofs chain t
                  >>= apply_siafund_inputs chain t
                  >>= apply_siafund_outputs chain t)
                ran1
              ∙ ran,
          funded',
          high,
          omega (
            arith,
            same,
            formed.grows,
            claims_grow start.siafund_pool pool formed.pool_grows funded.whole formed.whole
                start.siafund_outputs funded.aligned funded.count,
          ),
        )

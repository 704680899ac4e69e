-- ===== src/Consensus/Supply/Contracts.antt =====
-- applytransaction.go, `applyFileContracts` and `applyFileContractRevisions`: what a contract takes
-- goes to its outputs and to the siafund pool, and a revision moves nothing in or out.
use sia_hostdb_profiles.Prelude.{
  ℕ, ◌≡◌, sym, Option, none, some, arith, Bool-cases, Option-cases, inl, inr, ◌∙◌, ◌==◌,
  if◌then◌else◌,
}
use sia_hostdb_profiles.Prelude.Options.{◌>>=◌, some_inj}
use sia_hostdb_profiles.Bolt.{Bolt}
use sia_hostdb_profiles.Transaction.{FileContract}
use sia_hostdb_profiles.Standalone.{value_sum}
use mathlib.Core.Path.{subst}
use sia_hostdb_profiles.Consensus.Store.{Database, remove_file_contract, bucket_or_new}

module _ ⦃bolt : Bolt⦄ where
  -- The contracts and their expirations.
  abbrev pub Contracts : Type 0
  Contracts = bolt.Bucket FileContract × bolt.Bucket (bolt.Bucket Unit)

  -- Whether a contract is listed as expiring at a height.
  abbrev pub listed_at : ℕ → ℕ → bolt.Bucket (bolt.Bucket Unit) → Option (Unit {0})
  listed_at height id exps = bolt.get height exps >>= bolt.get id

  -- A contract that pays out as much for a missed proof as for a valid one.
  abbrev pub IsBalanced : FileContract → Type 0
  IsBalanced fc = value_sum fc.missed_proof_outputs ≡ value_sum fc.valid_proof_outputs

  -- Every contract is listed under the height at which it expires, nothing else is listed, and every
  -- contract pays out as much for a missed proof as for a valid one.
  pub record AreSound (c : Contracts) : Type 0 where
    pub listed :
        (id : ℕ) (fc : FileContract)
        → bolt.get id c.0 ≡ some fc
        → listed_at fc.window_end id c.1 ≡ some tt
    pub expires :
        (height id : ℕ)
        → listed_at height id c.1 ≡ some tt
        → (fc : FileContract) × (bolt.get id c.0 ≡ some fc) × (fc.window_end ≡ height)
    pub balanced : (id : ℕ) (fc : FileContract) → bolt.get id c.0 ≡ some fc → IsBalanced fc

  abbrev pub with_contracts : Database → Contracts → Database
  with_contracts db (fcs, exps) = record db { file_contracts = fcs; expirations = exps }

  abbrev pub contracts_of : Database → Contracts
  contracts_of db = (db.file_contracts, db.expirations)

  abbrev pub added : ℕ → FileContract → Contracts → Contracts
  added id fc (fcs, exps) = (
    bolt.put id fc fcs,
    bolt.put fc.window_end (bolt.put id tt (bucket_or_new (bolt.get fc.window_end exps))) exps,
  )

  in_new_bucket :
      (id j : ℕ) (o : Option (bolt.Bucket Unit))
      → bolt.get j (bolt.put id tt (bucket_or_new o))
        ≡ (if j == id then some tt else o >>= bolt.get j)
  in_new_bucket id j none = bolt.get-put j id tt bolt.empty ∙ rw (bolt.get-empty {V = Unit {0}} j)
  in_new_bucket id j (some b) = bolt.get-put j id tt b

  listed_at-add :
      (h id : ℕ) (exps : bolt.Bucket (bolt.Bucket Unit)) (g j : ℕ)
      → listed_at g j (bolt.put h (bolt.put id tt (bucket_or_new (bolt.get h exps))) exps)
        ≡ (if g == h then (if j == id then some tt else listed_at h j exps) else listed_at g j exps)
  listed_at-add h id exps g j = elim (Bool-cases (g == h)) [
    | inl its ↦
        let at : bolt.get g (bolt.put h (bolt.put id tt (bucket_or_new (bolt.get h exps))) exps)
            ≡ some (bolt.put id tt (bucket_or_new (bolt.get h exps))) =
          bolt.get-put g h _ exps ∙ rw its in
        rw (at, its) (in_new_bucket id j (bolt.get h exps))
    | inr other ↦
        let at : bolt.get g (bolt.put h (bolt.put id tt (bucket_or_new (bolt.get h exps))) exps)
            ≡ bolt.get g exps =
          bolt.get-put g h _ exps ∙ rw other in
        rw (at, other)
  ]

  listed_at-delete :
      (h id : ℕ) (b : bolt.Bucket Unit) (exps : bolt.Bucket (bolt.Bucket Unit)) (g j : ℕ)
      → bolt.get h exps ≡ some b
      → listed_at g j (bolt.put h (bolt.delete id b) exps)
        ≡ (if g == h then (if j == id then none else listed_at h j exps) else listed_at g j exps)
  listed_at-delete h id b exps g j there = elim (Bool-cases (g == h)) [
    | inl its ↦
        let at : bolt.get g (bolt.put h (bolt.delete id b) exps) ≡ some (bolt.delete id b) =
          bolt.get-put g h _ exps ∙ rw its in
        rw (at, its, there) (bolt.get-delete j id b)
    | inr other ↦
        let at : bolt.get g (bolt.put h (bolt.delete id b) exps) ≡ bolt.get g exps =
          bolt.get-put g h _ exps ∙ rw other in
        rw (at, other)
  ]

  pub added-AreSound :
      (id : ℕ) (fc : FileContract) (c : Contracts)
      → bolt.get id c.0 ≡ none
      → IsBalanced fc
      → AreSound c
      → AreSound (added id fc c)
  added-AreSound id fc (fcs, exps) new balanced sound = record {
    listed = λ j gc there. ground (
      arith,
      there,
      bolt.get-put j id fc fcs,
      listed_at-add fc.window_end id exps gc.window_end j,
      sound.listed j gc,
    );
    expires = λ height j at. elim (Bool-cases (j == id)) [
      | inl its ↦ elim (Bool-cases (height == fc.window_end)) [
        | inl now ↦ (fc, ground (arith, bolt.get-put j id fc fcs, its), ground (arith, now))
        | inr later ↦
            let before : listed_at height j exps ≡ some tt =
              ground (arith, at, later, listed_at-add fc.window_end id exps height j) in
            let (gc, there, _) = sound.expires height j before in
            absurd (ground (arith, there, new, its))
      ]
      | inr other ↦
          let before : listed_at height j exps ≡ some tt =
            ground (arith, at, other, listed_at-add fc.window_end id exps height j) in
          let (gc, there, ends) = sound.expires height j before in
          (gc, ground (arith, bolt.get-put j id fc fcs, other, there), ends)
    ];
    balanced = λ j gc there. elim (Bool-cases (j == id)) [
      | inl its ↦
          let same : fc ≡ gc = some_inj (rw its at (sym (bolt.get-put j id fc fcs) ∙ there)) in
          subst IsBalanced same balanced
      | inr other ↦ sound.balanced j gc (rw other at (sym (bolt.get-put j id fc fcs) ∙ there))
    ];
  }

  abbrev pub taken : ℕ → FileContract → bolt.Bucket Unit → Contracts → Contracts
  taken id fc b (fcs, exps) = (bolt.delete id fcs, bolt.put fc.window_end (bolt.delete id b) exps)

  pub taken-AreSound :
      (id : ℕ) (fc : FileContract) (b : bolt.Bucket Unit) (c : Contracts)
      → bolt.get id c.0 ≡ some fc
      → bolt.get fc.window_end c.1 ≡ some b
      → AreSound c
      → AreSound (taken id fc b c)
  taken-AreSound id fc b (fcs, exps) here at sound = record {
    listed = λ j gc there. ground (
      arith,
      there,
      bolt.get-delete j id fcs,
      listed_at-delete fc.window_end id b exps gc.window_end j at,
      sound.listed j gc,
    );
    expires = λ height j lists. elim (Bool-cases (j == id)) [
      | inl its ↦
          let before : listed_at height j exps ≡ some tt =
            ground (arith, lists, its, listed_at-delete fc.window_end id b exps height j at) in
          let (gc, there, ends) = sound.expires height j before in
          let same : gc ≡ fc = some_inj (ground (arith, there, here, its)) in
          let ends_now : fc.window_end ≡ height = subst (λ x. x.window_end ≡ height) same ends in
          absurd (
            ground
              (arith, lists, its, listed_at-delete fc.window_end id b exps height j at, ends_now))
      | inr other ↦
          let before : listed_at height j exps ≡ some tt =
            ground (arith, lists, other, listed_at-delete fc.window_end id b exps height j at) in
          let (gc, there, ends) = sound.expires height j before in
          (gc, ground (arith, bolt.get-delete j id fcs, other, there), ends)
    ];
    balanced = λ j gc there. sound.balanced j gc (ground (arith, there, bolt.get-delete j id fcs));
  }

  -- `removeFileContract` of a contract that is there and listed runs through.
  pub remove_listed :
      (id : ℕ) (fc : FileContract) (db : Database)
      → bolt.get id db.file_contracts ≡ some fc
      → AreSound (contracts_of db)
      → (b : bolt.Bucket Unit) × (bolt.get fc.window_end db.expirations ≡ some b)
        × (remove_file_contract id db
            ≡ some (record db {
              file_contracts = bolt.delete id db.file_contracts;
              expirations = bolt.put fc.window_end (bolt.delete id b) db.expirations;
            }))
  unfolding remove_file_contract
  remove_listed id fc db there sound = elim (Option-cases (bolt.get fc.window_end db.expirations)) [
    | inl gone ↦ absurd (cc (rw gone at (sound.listed id fc there)))
    | inr (b, at) ↦
        let in_b : bolt.get id b ≡ some tt = rw at at (sound.listed id fc there) in
        (b, at, rw (there, at, in_b))
  ]

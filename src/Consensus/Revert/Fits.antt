-- ===== src/Consensus/Revert/Fits.antt =====
-- diffs.go and consensusdb.go: the checks of a debug build on a diff, that what is added is not there
-- and that what is removed is. A diff that passes them is undone by its revert.
use sia_hostdb_profiles.Prelude.{
  ℕ, ◌≡◌, refl, ap, ◌∙◌, arith, Option, none, some, Bool, true, false, ◌==◌, if◌then◌else◌, ==_refl,
  Bool-cases, inl, inr,
}
use sia_hostdb_profiles.Currency.{Currency}
use sia_hostdb_profiles.Transaction.{SiacoinOutput, SiafundOutput}
use sia_hostdb_profiles.Consensus.Diffs.{
  SiacoinOutputDiff, FileContractDiff, SiafundOutputDiff, DelayedSiacoinOutputDiff, SiafundPoolDiff,
}
use sia_hostdb_profiles.Consensus.Revert.View.{
  Table, Contracts, put_at, delete_at, list_at, siacoin_output_step, file_contract_step,
  siafund_output_step, delayed_output_step, siafund_pool_step, remove_contract,
}

module _ {V : Type 0} where
  pub delete_at-put_at : (k : ℕ) (v : V) (t : Table V) → t k ≡ none → delete_at k (put_at k v t) ≡ t
  unfolding delete_at put_at
  delete_at-put_at k v t h = λ i j. at_key j i
    where
      at_key : (j : ℕ) → (if j == k then none else if j == k then some v else t j) ≡ t j
      at_key j = ground (arith, h)

  pub put_at-delete_at :
      (k : ℕ) (v : V) (t : Table V) → t k ≡ some v → put_at k v (delete_at k t) ≡ t
  unfolding delete_at put_at
  put_at-delete_at k v t h = λ i j. at_key j i
    where
      at_key : (j : ℕ) → (if j == k then some v else if j == k then none else t j) ≡ t j
      at_key j = ground (arith, h)

  pub put_at-put_at : (k : ℕ) (v w : V) (t : Table V) → t k ≡ some v → put_at k v (put_at k w t) ≡ t
  unfolding put_at
  put_at-put_at k v w t h = λ i j. at_key j i
    where
      at_key : (j : ℕ) → (if j == k then some v else if j == k then some w else t j) ≡ t j
      at_key j = ground (arith, h)

  pub delete_at_same : (k : ℕ) (t : Table V) → delete_at k t k ≡ none
  unfolding delete_at
  delete_at_same k t = rw (==_refl k) refl

  pub put_at_same : (k : ℕ) (v : V) (t : Table V) → put_at k v t k ≡ some v
  unfolding put_at
  put_at_same k v t = rw (==_refl k) refl

pub list_at-list_at :
    (h k : ℕ) (u w : Option (Unit {0})) (l : ℕ → Table Unit)
    → l h k ≡ u
    → list_at h k u (list_at h k w l) ≡ l
unfolding list_at
list_at-list_at h k u w l at = λ i h' k'. at_keys h' k' i
  where
    at_keys :
        (h' k' : ℕ)
        → (if h' == h
            then if k' == k then u else if h' == h then if k' == k then w else l h' k' else l h' k'
            else if h' == h
            then if k' == k then w else l h' k'
            else l h' k')
          ≡ l h' k'
    at_keys h' k' = ground (arith, at)

-- What the diff adds is not there; what it removes is.
abbrev pub item_before : {V : Type 0} → Bool → V → Option V
item_before adds v = if adds then none else some v

unfoldable pub IsFitSiacoinOutput : SiacoinOutputDiff → Table SiacoinOutput → Type 0
IsFitSiacoinOutput d t = t d.id ≡ item_before d.direction d.siacoin_output

unfoldable pub IsFitFileContract : FileContractDiff → Contracts → Type 0
IsFitFileContract d c =
    (c.file_contracts d.id ≡ item_before d.direction d.file_contract)
    × (c.listed d.file_contract.window_end d.id ≡ item_before d.direction tt)

unfoldable pub IsFitSiafundOutput : SiafundOutputDiff → Table SiafundOutput → Type 0
IsFitSiafundOutput d t = t d.id ≡ item_before d.direction d.siafund_output

unfoldable pub IsFitDelayedOutput : DelayedSiacoinOutputDiff → Table (Table SiacoinOutput) → Type 0
IsFitDelayedOutput d t =
    (b : Table SiacoinOutput) × (t d.maturity_height ≡ some b)
    × (b d.id ≡ item_before d.direction d.siacoin_output)

unfoldable pub IsFitSiafundPool : SiafundPoolDiff → Currency → Type 0
IsFitSiafundPool d pool = d.previous ≡ pool

-- A step that can be done and undone.
abbrev pub Reverts : {A S : Type 0} → (Bool → A → S → Option S) → A → S → Type 0
Reverts {S = S} f d s = (s' : S) × (f true d s ≡ some s') × (f false d s' ≡ some s)

pub siacoin_output_step-Reverts :
    (d : SiacoinOutputDiff) (t : Table SiacoinOutput)
    → IsFitSiacoinOutput d t
    → Reverts siacoin_output_step d t
unfolding siacoin_output_step IsFitSiacoinOutput
siacoin_output_step-Reverts d t fit = elim (Bool-cases d.direction) [
  | inl adds ↦ (
    put_at d.id d.siacoin_output t,
    rw adds refl,
    rw adds (ap some (delete_at-put_at d.id d.siacoin_output t (fit ∙ rw adds refl))),
  )
  | inr removes ↦ (
    delete_at d.id t,
    rw removes refl,
    rw removes (ap some (put_at-delete_at d.id d.siacoin_output t (fit ∙ rw removes refl))),
  )
]

pub siafund_output_step-Reverts :
    (d : SiafundOutputDiff) (t : Table SiafundOutput)
    → IsFitSiafundOutput d t
    → Reverts siafund_output_step d t
unfolding siafund_output_step IsFitSiafundOutput
siafund_output_step-Reverts d t fit = elim (Bool-cases d.direction) [
  | inl adds ↦ (
    put_at d.id d.siafund_output t,
    rw adds refl,
    rw adds (ap some (delete_at-put_at d.id d.siafund_output t (fit ∙ rw adds refl))),
  )
  | inr removes ↦ (
    delete_at d.id t,
    rw removes refl,
    rw removes (ap some (put_at-delete_at d.id d.siafund_output t (fit ∙ rw removes refl))),
  )
]

pub siafund_pool_step-Reverts :
    (d : SiafundPoolDiff) (pool : Currency)
    → IsFitSiafundPool d pool
    → Reverts siafund_pool_step d pool
unfolding siafund_pool_step IsFitSiafundPool
siafund_pool_step-Reverts d pool fit = (d.adjusted, refl, ap some fit)

pub delayed_output_step-Reverts :
    (d : DelayedSiacoinOutputDiff) (t : Table (Table SiacoinOutput))
    → IsFitDelayedOutput d t
    → Reverts delayed_output_step d t
unfolding delayed_output_step IsFitDelayedOutput
delayed_output_step-Reverts d t (b, at, fit) = elim (Bool-cases d.direction) [
  | inl adds ↦
      let b' = put_at d.id d.siacoin_output b in
      (
        put_at d.maturity_height b' t,
        rw (adds, at) refl,
        rw
            (
              adds,
              put_at_same d.maturity_height b' t,
              delete_at-put_at d.id d.siacoin_output b (fit ∙ rw adds refl),
              put_at-put_at d.maturity_height b b' t at,
            )
            refl,
      )
  | inr removes ↦
      let b' = delete_at d.id b in
      (
        put_at d.maturity_height b' t,
        rw (removes, at) refl,
        rw
            (
              removes,
              put_at_same d.maturity_height b' t,
              put_at-delete_at d.id d.siacoin_output b (fit ∙ rw removes refl),
              put_at-put_at d.maturity_height b b' t at,
            )
            refl,
      )
]

abbrev contract_added : FileContractDiff → Contracts → Contracts
contract_added d c = record {
  file_contracts = put_at d.id d.file_contract c.file_contracts;
  listed = list_at d.file_contract.window_end d.id (some tt) c.listed;
}

abbrev contract_removed : FileContractDiff → Contracts → Contracts
contract_removed d c = record {
  file_contracts = delete_at d.id c.file_contracts;
  listed = list_at d.file_contract.window_end d.id none c.listed;
}

list_at_same : (h k : ℕ) (u : Option (Unit {0})) (l : ℕ → Table Unit) → list_at h k u l h k ≡ u
unfolding list_at
list_at_same h k u l = rw (==_refl h, ==_refl k) refl

pub file_contract_step-Reverts :
    (d : FileContractDiff) (c : Contracts) → IsFitFileContract d c → Reverts file_contract_step d c
unfolding file_contract_step IsFitFileContract remove_contract
file_contract_step-Reverts d c (fit, listed) =
    let w = d.file_contract.window_end in
    elim (Bool-cases d.direction) [
      | inl adds ↦ (
        contract_added d c,
        rw adds refl,
        rw
            (
              adds,
              put_at_same d.id d.file_contract c.file_contracts,
              list_at_same w d.id (some tt) c.listed,
              delete_at-put_at d.id d.file_contract c.file_contracts (fit ∙ rw adds refl),
              list_at-list_at w d.id none (some tt) c.listed (listed ∙ rw adds refl),
            )
            refl,
      )
      | inr removes ↦
          let contract_at : c.file_contracts d.id ≡ some d.file_contract = fit ∙ rw removes refl in
          let listed_at : c.listed w d.id ≡ some tt = listed ∙ rw removes refl in
          (
            contract_removed d c,
            rw (removes, contract_at, listed_at) refl,
            rw
                (
                  removes,
                  put_at-delete_at d.id d.file_contract c.file_contracts contract_at,
                  list_at-list_at w d.id (some tt) none c.listed listed_at,
                )
                refl,
          )
    ]

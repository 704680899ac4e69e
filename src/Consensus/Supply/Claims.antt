-- ===== src/Consensus/Supply/Claims.antt =====
-- types.SiafundOutput, consistency.go: the siacoins that the siafunds can claim grow as the pool
-- grows, as long as there are 10,000 siafunds and all amounts are multiples of that.
use native.Mathlib.Nat.{mul_comm, mul_assoc, mul-add, add-mul}
use sia_hostdb_profiles.Prelude.{
  ℕ, ◌+◌, ◌-◌, ◌*◌, ◌/◌, ◌%◌, ◌≤◌, ◌≡◌, refl, ◌∙◌, ap, List, [], ◌∷◌, some, All, All-imp, arith,
  sum_of,
}
use sia_hostdb_profiles.Bolt.{Bolt}
use sia_hostdb_profiles.Bolt.Totals.{total, on_pair}
use sia_hostdb_profiles.Currency.{Currency, sub}
use sia_hostdb_profiles.Transaction.{SiafundOutput}
use sia_hostdb_profiles.Consensus.Supply.{claim_value, fund_value}

-- A siafund output that was made when the pool was no larger, and whose claim is a whole number of
-- hastings for each siafund.
pub record IsAligned (pool : Currency) (o : SiafundOutput) : Type 0 where
  pub earlier : o.claim_start ≤ pool
  pub whole : o.claim_start % 10000 ≡ 0

div_exact : (x : ℕ) → x * 10000 / 10000 ≡ x
div_exact x = omega arith

-- What is claimed is what checkSiacoinCount counts.
pub claim_exact : (d v : ℕ) → d % 10000 ≡ 0 → d * v / 10000 ≡ d / 10000 * v
claim_exact d v whole =
    let split : d ≡ 10000 * (d / 10000) = omega (arith, whole) in
    let product : d * v ≡ d / 10000 * v * 10000 =
      ap (λ n. n * v) split ∙ mul_assoc 10000 (d / 10000) v ∙ mul_comm 10000 (d / 10000 * v) in
    rw product (div_exact (d / 10000 * v))

claim_grows :
    (pool pool' : Currency) (o : SiafundOutput)
    → pool ≤ pool'
    → pool % 10000 ≡ 0
    → pool' % 10000 ≡ 0
    → IsAligned pool o
    → claim_value pool' o ≡ claim_value pool o + (pool' - pool) / 10000 * o.value
unfolding sub
claim_grows pool pool' o le whole whole' a =
    let d = pool - o.claim_start in
    let e = pool' - pool in
    let now : sub pool o.claim_start ≡ d = ground (arith, a.earlier) in
    let then_ : sub pool' o.claim_start ≡ d + e = ground (arith, a.earlier, le) in
    let parts : (d + e) / 10000 ≡ d / 10000 + e / 10000 =
      omega (arith, a.earlier, a.whole, whole, whole', le) in
    let here : claim_value pool o ≡ d / 10000 * o.value =
      rw now (claim_exact d o.value (omega (arith, a.earlier, a.whole, whole))) in
    let later : claim_value pool' o ≡ (d + e) / 10000 * o.value =
      rw then_
        (claim_exact (d + e) o.value (omega (arith, a.earlier, a.whole, whole, whole', le))) in
    later ∙ ap (λ n. n * o.value) parts ∙ add-mul (d / 10000) (e / 10000) o.value ∙ rw here refl

module _ ⦃bolt : Bolt⦄ (pool pool' : Currency) (le : pool ≤ pool') (whole : pool % 10000 ≡ 0)
    (whole' : pool' % 10000 ≡ 0) where
  claims_of_list :
      (xs : List (ℕ × SiafundOutput))
      → All (λ (e : ℕ × SiafundOutput). IsAligned pool e.1) xs
      → sum_of (on_pair (claim_value pool')) xs
        ≡ sum_of (on_pair (claim_value pool)) xs
          + (pool' - pool) / 10000 * sum_of (on_pair fund_value) xs
  claims_of_list [] h = omega arith
  claims_of_list (e ∷ xs) h = omega (
    arith,
    claims_of_list xs h.1,
    claim_grows pool pool' e.1 le whole whole' h.0,
    mul-add ((pool' - pool) / 10000) e.1.value (sum_of (on_pair fund_value) xs),
  )

  -- With 10,000 siafunds, all claims together grow by what the pool grows by.
  pub claims_grow :
      (funds : bolt.Bucket SiafundOutput)
      → ((id : ℕ) (o : SiafundOutput) → bolt.get id funds ≡ some o → IsAligned pool o)
      → total fund_value funds ≡ 10000
      → total (claim_value pool') funds + pool ≡ total (claim_value pool) funds + pool'
  unfolding total
  claims_grow funds aligned count = omega (
    arith,
    le,
    whole,
    whole',
    claims_of_list (bolt.entries funds)
        (All-imp _ _ (bolt.entries funds) (λ e at. aligned e.0 e.1 at) (bolt.entries-get funds)),
    ap (λ n. (pool' - pool) / 10000 * n) count,
  )

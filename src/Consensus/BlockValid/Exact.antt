-- ===== src/Consensus/BlockValid/Exact.antt =====
-- block_validation.go: just which blocks pass checkMinerPayouts and ValidateBlock.
use sia_hostdb_profiles.Prelude.{
  ℕ, ◌+◌, ◌%◌, ◌^◌, ◌≤◌, ◌≡◌, ◌≢◌, ◌↔◌, List, [], ◌∷◌, none, some, true, All, arith, sum_of,
  Option-cases, inl, inr,
}
use sia_hostdb_profiles.Currency.{Currency}
use sia_hostdb_profiles.Transaction.{SiacoinOutput, Transaction}
use sia_hostdb_profiles.Standalone.{value_sum}
use sia_hostdb_profiles.Block.{Block, calculate_coinbase, calculate_subsidy, add_fees, add_all_fees}
use sia_hostdb_profiles.Consensus.BlockValid.{
  Limits, payout_sum, check_miner_payouts, check_target, validate_block,
}

abbrev pub fees_of : Transaction → ℕ
fees_of t = sum_of (λ (fee : Currency). fee) t.miner_fees

add_fees_sum :
    (fees : List Currency) (n : ℕ) → add_fees fees n ≡ n + sum_of (λ (fee : Currency). fee) fees
unfolding add_fees
add_fees_sum [] n = omega arith
add_fees_sum (fee ∷ fees) n = omega (arith, add_fees_sum fees (n + fee))

add_all_fees_sum : (ts : List Transaction) (n : ℕ) → add_all_fees ts n ≡ n + sum_of fees_of ts
unfolding add_all_fees
add_all_fees_sum [] n = omega arith
add_all_fees_sum (t ∷ ts) n =
    omega (arith, add_all_fees_sum ts (add_fees t.miner_fees n), add_fees_sum t.miner_fees n)

abbrev pub IsPayout : SiacoinOutput → Type 0
IsPayout o = o.value ≢ 0

payout_sum-some :
    (os : List SiacoinOutput) (n sum : ℕ)
    → payout_sum os n ≡ some sum
    → All IsPayout os × (sum ≡ n + value_sum os)
unfolding payout_sum
payout_sum-some [] n sum h = (tt, ground (arith, h))
payout_sum-some (o ∷ os) n sum h = ground (arith, h, payout_sum-some os (n + o.value) sum)

payout_sum_all :
    (os : List SiacoinOutput) (n : ℕ) → All IsPayout os → payout_sum os n ≡ some (n + value_sum os)
unfolding payout_sum
payout_sum_all [] n h = ground arith
payout_sum_all (o ∷ os) n h = ground (arith, h.0, payout_sum_all os (n + o.value) h.1)

-- A block passes checkMinerPayouts just if no payout is zero and the payouts are the coinbase of the
-- height and the fees of all transactions.
pub check_miner_payouts_exact :
    (minimum : ℕ) (b : Block) (height : ℕ)
    → (check_miner_payouts minimum b height ≡ true) ↔ (
        All IsPayout b.miner_payouts
        × (value_sum b.miner_payouts
            ≡ calculate_coinbase minimum height + sum_of fees_of b.transactions))
unfolding check_miner_payouts calculate_subsidy
check_miner_payouts_exact minimum b height = (
  λ h. elim (Option-cases (payout_sum b.miner_payouts 0)) [
    | inl zero_payout ↦ absurd (ground (arith, h, zero_payout))
    | inr (sum, at) ↦
        let (payouts, total) = payout_sum-some b.miner_payouts 0 sum at in
        (
          payouts,
          ground (
            arith,
            h,
            at,
            total,
            add_all_fees_sum b.transactions (calculate_coinbase minimum height),
          ),
        )
  ],
  λ (payouts, total). ground (
    arith,
    payout_sum_all b.miner_payouts 0 payouts,
    total,
    add_all_fees_sum b.transactions (calculate_coinbase minimum height),
  ),
)

-- What ValidateBlock asks of a block, at the time `now` of the clock.
pub record FollowsBlockRules (limits : Limits) (now size : ℕ) (b : Block)
    (id min_timestamp target height : ℕ) : Type 0 where
  pub not_early : min_timestamp ≤ b.timestamp
  pub solved : id ≤ target
  pub small : size ≤ limits.block_size_limit
  pub not_far : b.timestamp ≤ (now + limits.extreme_future_threshold) % 2 ^ 64
  pub not_future : b.timestamp ≤ (now + limits.future_threshold) % 2 ^ 64
  pub pays : All IsPayout b.miner_payouts
  pub pays_all :
      value_sum b.miner_payouts
      ≡ calculate_coinbase limits.minimum_coinbase height + sum_of fees_of b.transactions

-- ValidateBlock gives no error just if the timestamp is neither below the minimum nor above either
-- threshold, the id is within the target, the size is within the limit, no payout is zero and the
-- payouts are the coinbase and the fees.
pub validate_block_exact :
    (limits : Limits) (now size : ℕ) (b : Block) (id min_timestamp target height : ℕ)
    → (validate_block limits now size b id min_timestamp target height ≡ none)
      ↔ FollowsBlockRules limits now size b id min_timestamp target height
unfolding validate_block check_target
validate_block_exact limits now size b id min_timestamp target height =
    let payouts = check_miner_payouts_exact limits.minimum_coinbase b height in
    (
      λ h.
          let paid : check_miner_payouts limits.minimum_coinbase b height ≡ true =
            ground (arith, h) in
          record {
            not_early = ground (arith, h);
            solved = ground (arith, h);
            small = ground (arith, h);
            not_far = ground (arith, h);
            not_future = ground (arith, h);
            pays = (payouts.0 paid).0;
            pays_all = (payouts.0 paid).1;
          },
      λ rules.
          let paid : check_miner_payouts limits.minimum_coinbase b height ≡ true =
            payouts.1 (rules.pays, rules.pays_all) in
          ground (
            arith, paid, rules.not_early, rules.solved, rules.small, rules.not_far,
            rules.not_future,
          ),
    )

-- ===== src/Standalone/Signatures/Exact.antt =====
-- types/signatures.go, `validSignatures`: it accepts a transaction only if each input is signed by
-- just as many different keys as its unlock conditions require.
use sia_hostdb_profiles.Prelude.{
  ℕ, ◌+◌, ◌-◌, ◌≤◌, ◌<◌, ◌≡◌, ◌≢◌, leb, ltb, refl, sym, ap, ◌∙◌, inl, inr, List, [], ◌∷◌, none,
  some, Bool, true, false, not, All, All-imp, arith, ◌==◌, if◌then◌else◌, Option-cases, Bool-cases,
  length,
}
use mathlib.Core.Path.{subst}
use sia_hostdb_profiles.Prelude.Dict.{lookup, insert, lookup-insert}
use sia_hostdb_profiles.HostEntry.{SiaPublicKey}
use sia_hostdb_profiles.Transaction.{
  Hash, BlockHeight, UnlockConditions, TransactionSignature, Transaction,
}
use sia_hostdb_profiles.Standalone.{
  invalid_pub_key_index, is_seen, >>-none, refuse-none, check_all-none,
}
use sia_hostdb_profiles.Standalone.Fresh.{AreFresh}
use sia_hostdb_profiles.Prelude.Options.{some_inj}
use sia_hostdb_profiles.Standalone.Signatures.{
  InputSignatures, SigMap, unlocked, unsigned, fill, key_at, check_algorithm, signature_entropy,
  signature_ed25519, check_key, Signed, bad, good, sign, check_signatures, all_signed, finish,
  valid_signatures, valid_covered_fields,
}

-- The key indices of the signatures of an input, in order.
pub keys_of : Hash → List TransactionSignature → List ℕ
keys_of id [] = []
keys_of id (sig ∷ sigs) =
    let rest = keys_of id sigs in if id == sig.parent_id then sig.public_key_index ∷ rest else rest

keys_of-its :
    (id : Hash) (sig : TransactionSignature) (sigs : List TransactionSignature)
    → (id == sig.parent_id) ≡ true
    → keys_of id (sig ∷ sigs) ≡ sig.public_key_index ∷ keys_of id sigs
unfolding keys_of
keys_of-its id sig sigs its = rw its

keys_of-other :
    (id : Hash) (sig : TransactionSignature) (sigs : List TransactionSignature)
    → (id == sig.parent_id) ≡ false
    → keys_of id (sig ∷ sigs) ≡ keys_of id sigs
unfolding keys_of
keys_of-other id sig sigs other = rw other

-- The signature names one of the keys, its timelock has passed, and the key accepts it: an ed25519 key
-- verifies it, and an entropy key accepts none.
pub record IsSigned (verify : ℕ → SiaPublicKey → List ℕ → Bool) (height : BlockHeight)
    (keys : List SiaPublicKey) (i : ℕ) (sig : TransactionSignature) : Type 0 where
  pub in_range : sig.public_key_index < length keys
  pub public_key : SiaPublicKey
  pub at : key_at keys sig.public_key_index ≡ some public_key
  pub ripe : sig.timelock ≤ height
  pub no_entropy : public_key.algorithm ≢ signature_entropy
  pub verified : public_key.algorithm ≡ signature_ed25519 → verify i public_key sig.signature ≡ true

-- Each signature for the id, from the index `i` on, is signed with one of the keys.
abbrev pub AreSigned :
    (ℕ → SiaPublicKey → List ℕ → Bool)
    → BlockHeight
    → Hash
    → List SiaPublicKey
    → ℕ
    → List TransactionSignature
    → Type 0
AreSigned verify height id keys i [] = Unit
AreSigned verify height id keys i (sig ∷ sigs) =
    (id ≡ sig.parent_id → IsSigned verify height keys i sig)
    × AreSigned verify height id keys (i + 1) sigs

left_over : (n : ℕ) → (n == 0) ≡ false → n ≡ n - 1 + 1
left_over n h = ground arith

module _ (verify : ℕ → SiaPublicKey → List ℕ → Bool) (height : BlockHeight) where
  -- What a loop that finds nothing has done to the entry of an input.
  record Signs (i : ℕ) (id : Hash) (sigs : List TransactionSignature) (m m' : SigMap)
      (s : InputSignatures) : Type 0 where
    after : InputSignatures
    found : lookup id m' ≡ some after
    counted : after.remaining_signatures + length (keys_of id sigs) ≡ s.remaining_signatures
    fresh : AreFresh s.used_keys (keys_of id sigs)
    signed : AreSigned verify height id s.possible_keys i sigs

  -- A round that goes on found the signature's input, and its checks found nothing.
  record Round (i : ℕ) (sig : TransactionSignature) (sigs : List TransactionSignature)
      (m m' : SigMap) : Type 0 where
    entry : InputSignatures
    at : lookup sig.parent_id m ≡ some entry
    checked : check_key verify height i sig entry ≡ none
    goes_on :
        check_signatures verify height (i + 1) sigs (insert sig.parent_id (sign sig entry) m)
        ≡ good m'

  round :
      (i : ℕ) (sig : TransactionSignature) (sigs : List TransactionSignature) (m m' : SigMap)
      → check_signatures verify height i (sig ∷ sigs) m ≡ good m'
      → Round i sig sigs m m'
  unfolding check_signatures
  round i sig sigs m m' ran = elim (Option-cases (lookup sig.parent_id m)) [
    | inl gone ↦ absurd (cc (rw (gone, check_signatures) at ran))
    | inr (s, found) ↦ elim (Option-cases (check_key verify height i sig s)) [
      | inr (e, refused) ↦ absurd (cc (rw (found, refused, check_signatures) at ran))
      | inl accepted ↦ record {
        entry = s;
        at = found;
        checked = accepted;
        goes_on = rw (found, accepted, check_signatures) at ran;
      }
    ]
  ]

  -- The signatures from one on are signed with the keys of an entry.
  abbrev SignedAt :
      ℕ → Hash → TransactionSignature → List TransactionSignature → InputSignatures → Type 0
  SignedAt i id sig sigs s = AreSigned verify height id s.possible_keys i (sig ∷ sigs)

  key_at-IsSigned :
      (i : ℕ) (sig : TransactionSignature) (keys : List SiaPublicKey)
      → leb (length keys) sig.public_key_index ≡ false
      → ltb height sig.timelock ≡ false
      → (elim (key_at keys sig.public_key_index) [
        | none ↦ some invalid_pub_key_index
        | some pk ↦ check_algorithm verify i pk sig.signature
      ])
        ≡ none
      → IsSigned verify height keys i sig
  unfolding check_algorithm
  key_at-IsSigned i sig keys beyond late h =
      elim (Option-cases (key_at keys sig.public_key_index)) [
        | inl gone ↦ absurd (cc (rw gone at h))
        | inr (pk, at) ↦
            let accepts : check_algorithm verify i pk sig.signature ≡ none = rw at at h in
            record {
              in_range = ground (arith, beyond);
              public_key = pk;
              at = at;
              ripe = ground (arith, late);
              no_entropy = λ e. ground (arith, accepts, e);
              verified = λ e. ground (arith, accepts, e);
            }
      ]

  check_key-inv :
      (i : ℕ) (sig : TransactionSignature) (s : InputSignatures)
      → check_key verify height i sig s ≡ none
      → (s.remaining_signatures ≡ s.remaining_signatures - 1 + 1)
        × (is_seen sig.public_key_index s.used_keys ≡ false)
        × IsSigned verify height s.possible_keys i sig
  check_key-inv i sig s h =
      let (ripe, algorithm) = >>-none _ _ h in
      let (in_range, late) = >>-none _ _ ripe in
      let (unused, beyond) = >>-none _ _ in_range in
      let (left, new) = >>-none _ _ unused in
      (
        left_over s.remaining_signatures (refuse-none _ _ left),
        refuse-none _ _ new,
        key_at-IsSigned i sig s.possible_keys (refuse-none _ _ beyond) (refuse-none _ _ late)
            algorithm,
      )

  check_signatures-Signs :
      (i : ℕ) (sigs : List TransactionSignature) (m m' : SigMap) (id : Hash) (s : InputSignatures)
      → check_signatures verify height i sigs m ≡ good m'
      → lookup id m ≡ some s
      → Signs i id sigs m m' s
  unfolding check_signatures
  check_signatures-Signs i [] m m' id s ran h = record {
    after = s;
    found = cc (ran, h);
    counted = unfold keys_of in omega arith;
    fresh = unfold keys_of in tt;
    signed = tt;
  }
  check_signatures-Signs i (sig ∷ sigs) m m' id s ran h =
      let r = round i sig sigs m m' ran in
      let at = lookup-insert id sig.parent_id (sign sig r.entry) m in
      elim (Bool-cases (id == sig.parent_id)) [
        | inl its ↦
            let its_id : id ≡ sig.parent_id = ground arith in
            let one : s ≡ r.entry = some_inj (sym h ∙ ap (λ k. lookup k m) its_id ∙ r.at) in
            let keys = keys_of-its id sig sigs its in
            let (left, new, its_signed) = check_key-inv i sig r.entry r.checked in
            let ih =
              check_signatures-Signs (i + 1) sigs _ m' id (sign sig r.entry) r.goes_on
                (rw its at at) in
            record {
              after = ih.after;
              found = ih.found;
              counted = rw keys (
                  omega (
                    arith,
                    ih.counted,
                    left,
                    ap (λ (e : InputSignatures). e.remaining_signatures) one,
                  ));
              fresh = rw (keys, one) (new, ih.fresh);
              signed = subst (SignedAt i id sig sigs) (sym one) ((λ e. its_signed), ih.signed);
            }
        | inr other ↦
            let ih = check_signatures-Signs (i + 1) sigs _ m' id s r.goes_on (rw other at at ∙ h) in
            let keys = keys_of-other id sig sigs other in
            record {
              after = ih.after;
              found = ih.found;
              counted = rw keys ih.counted;
              fresh = rw keys ih.fresh;
              signed = ((λ e. absurd (ground (arith, e, other))), ih.signed);
            }
      ]

-- Filling the map keeps what it has, and gives each input an entry of its own.
fill-keeps :
    (us : List (Hash × UnlockConditions)) (m m' : SigMap) (id : Hash) (s : InputSignatures)
    → fill us m ≡ some m'
    → lookup id m ≡ some s
    → lookup id m' ≡ some s
unfolding fill
fill-keeps [] m m' id s ran h = cc (ran, h)
fill-keeps ((j, uc) ∷ us) m m' id s ran h = elim (Option-cases (lookup j m)) [
  | inr (old, found) ↦ absurd (cc (rw (found, fill) at ran))
  | inl new ↦
      fill-keeps us (insert j (unsigned uc) m) m' id s (rw (new, fill) at ran)
        (ground (arith, lookup-insert id j (unsigned uc) m))
]

fill-All :
    (us : List (Hash × UnlockConditions)) (m m' : SigMap)
    → fill us m ≡ some m'
    → All (λ (u : Hash × UnlockConditions). lookup u.0 m' ≡ some (unsigned u.1)) us
unfolding fill
fill-All [] m m' ran = tt
fill-All ((j, uc) ∷ us) m m' ran = elim (Option-cases (lookup j m)) [
  | inr (old, found) ↦ absurd (cc (rw (found, fill) at ran))
  | inl new ↦
      let next = insert j (unsigned uc) m in
      let goes_on : fill us next ≡ some m' = rw (new, fill) at ran in
      (
        fill-keeps us next m' j (unsigned uc) goes_on
            (ground (arith, lookup-insert j j (unsigned uc) m)),
        fill-All us next m' goes_on,
      )
]

abbrev AllPaid : SigMap → Type 0
AllPaid = All (λ (e : ℕ × InputSignatures). e.1.remaining_signatures ≡ 0)

not_zero : (n : ℕ) → not (n == 0) ≡ false → n ≡ 0
not_zero n h = ground arith

all_signed-AllPaid : (m : SigMap) → all_signed m ≡ none → AllPaid m
unfolding all_signed
all_signed-AllPaid m ok =
    check_all-none _ (λ e h. not_zero e.1.remaining_signatures (refuse-none _ _ h)) m ok

AllPaid-lookup :
    (m : SigMap) (id : Hash) (s : InputSignatures)
    → AllPaid m
    → lookup id m ≡ some s
    → s.remaining_signatures ≡ 0
AllPaid-lookup [] id s paid h = cc
AllPaid-lookup ((j, r) ∷ m) id s paid h = elim (Bool-cases (id == j)) [
  | inl its ↦
      let one : r ≡ s = some_inj (rw its at h) in
      sym (ap (λ (e : InputSignatures). e.remaining_signatures) one) ∙ paid.0
  | inr other ↦ AllPaid-lookup m id s paid.1 (rw other at h)
]

-- What the two loops and the last one come to.
finish-good : (r : Signed) → finish r ≡ none → (m : SigMap) × (r ≡ good m) × AllPaid m
finish-good (bad e) ok = cc
finish-good (good m) ok = (m, refl, all_signed-AllPaid m ok)

-- `validSignatures` accepts a transaction only if every input and every revision is signed by just
-- as many signatures as its unlock conditions require, each by another of its keys. The index of each
-- such signature is below the number of keys, its timelock is not above the height, its key is no
-- entropy key, and an ed25519 key verifies it.
pub valid_signatures_exact :
    (verify : ℕ → SiaPublicKey → List ℕ → Bool) (height : BlockHeight) (t : Transaction)
    → valid_signatures verify height t ≡ none
    → All
        (λ (u : Hash × UnlockConditions).
          (length (keys_of u.0 t.transaction_signatures) ≡ u.1.signatures_required)
          × AreFresh [] (keys_of u.0 t.transaction_signatures)
          × AreSigned verify height u.0 u.1.public_keys 0 t.transaction_signatures)
        (unlocked t)
unfolding valid_signatures
valid_signatures_exact verify height t ok =
    let signed = (>>-none (valid_covered_fields t) _ ok).1 in
    elim (Option-cases (fill (unlocked t) [])) [
      | inl doubled ↦ absurd (cc (rw doubled at signed))
      | inr (m, filled) ↦
          let (m', ran, paid) =
            finish-good (check_signatures verify height 0 t.transaction_signatures m)
              (rw filled at signed) in
          All-imp _ _ (unlocked t)
            (λ u found.
              let s =
                check_signatures-Signs verify height 0 t.transaction_signatures m m' u.0
                  (unsigned u.1) ran found in
              let zero_left = AllPaid-lookup m' u.0 s.after paid s.found in
              (omega (arith, s.counted, zero_left), s.fresh, s.signed))
            (fill-All (unlocked t) [] m filled)
    ]

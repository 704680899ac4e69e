-- ===== src/Standalone/Fresh.antt =====
-- types/validtransaction.go, `noRepeats`: a list whose members are all different.
use sia_hostdb_profiles.Prelude.{
  ℕ, ◌≡◌, refl, inl, inr, List, [], ◌∷◌, ◌++◌, none, some, false, Bool-cases, arith,
}
use sia_hostdb_profiles.Transaction.{Hash}
use sia_hostdb_profiles.Standalone.{is_seen, add_new, doubled}

-- No member stands twice, and none is among those in `seen`.
abbrev pub AreFresh : List ℕ → List ℕ → Type 0
AreFresh seen [] = Unit
AreFresh seen (k ∷ ks) = (is_seen k seen ≡ false) × AreFresh (k ∷ seen) ks

-- A loop of `noRepeats` runs through just if the ids are all different and new.
pub add_new_iff :
    (seen ids : List Hash)
    → (doubled (add_new seen ids) ≡ none → AreFresh seen ids)
      × (AreFresh seen ids → doubled (add_new seen ids) ≡ none)
unfolding add_new
add_new_iff seen [] = (λ h. tt, λ h. refl)
add_new_iff seen (id ∷ ids) = elim (Bool-cases (is_seen id seen)) [
  | inl old ↦ (λ h. absurd (cc (rw (old, add_new) at h)), λ h. absurd (cc (old, h.0)))
  | inr new ↦
      let (to, from) = add_new_iff (id ∷ seen) ids in
      (λ h. (new, to (rw (new, add_new) at h)), λ h. rw (new, add_new) (from h.1))
]

-- Two loops with one set are one loop over both lists.
pub add_new-append :
    (seen ids jds : List Hash)
    → add_new seen (ids ++ jds)
      ≡ (elim (add_new seen ids) [ none ↦ none | some seen' ↦ add_new seen' jds ])
unfolding add_new
add_new-append seen [] jds = refl
add_new-append seen (id ∷ ids) jds = ground (arith, add_new-append (id ∷ seen) ids jds)

-- ===== src/HostTree/Tree/Blacklist.antt =====
-- hosttree.go, `insertIntoBlacklist` and `removeFromBlacklist`: the blacklist is a set of keys.
use sia_hostdb_profiles.Prelude.{
  ℕ, ◌≡◌, refl, true, false, List, [], ◌∷◌, ◌++◌, arith, ◌==◌, if◌then◌else◌, if_rule,
}
use sia_hostdb_profiles.HostEntry.{SiaPublicKey}
use sia_hostdb_profiles.HostTree.Tree.{is_blacklisted, insert_into_blacklist, remove_from_blacklist}

-- No key stands twice on the list.
abbrev pub IsDistinct : List SiaPublicKey → Type 0
IsDistinct [] = Unit
IsDistinct (v ∷ vs) = (is_blacklisted v.key vs ≡ false) × IsDistinct vs

is_blacklisted-append :
    (k : ℕ) (vs : List SiaPublicKey) (spk : SiaPublicKey)
    → is_blacklisted k (vs ++ spk ∷ []) ≡ (if spk.key == k then true else is_blacklisted k vs)
unfolding is_blacklisted
is_blacklisted-append k [] spk = refl
is_blacklisted-append k (v ∷ vs) spk = ground (arith, is_blacklisted-append k vs spk)

pub is_blacklisted-insert :
    (k : ℕ) (spk : SiaPublicKey) (vs : List SiaPublicKey)
    → is_blacklisted k (insert_into_blacklist spk vs)
      ≡ (if spk.key == k then true else is_blacklisted k vs)
unfolding insert_into_blacklist
is_blacklisted-insert k spk vs = ground (arith, is_blacklisted-append k vs spk)

IsDistinct-append :
    (vs : List SiaPublicKey) (spk : SiaPublicKey)
    → IsDistinct vs
    → is_blacklisted spk.key vs ≡ false
    → IsDistinct (vs ++ spk ∷ [])
unfolding is_blacklisted
IsDistinct-append [] spk h new = (refl, tt)
IsDistinct-append (v ∷ vs) spk h new =
    ground (arith, is_blacklisted-append v.key vs spk, IsDistinct-append vs spk h.1)

pub insert-IsDistinct :
    (spk : SiaPublicKey) (vs : List SiaPublicKey)
    → IsDistinct vs
    → IsDistinct (insert_into_blacklist spk vs)
unfolding insert_into_blacklist
insert-IsDistinct spk vs h =
    if_rule IsDistinct (is_blacklisted spk.key vs) (λ _. h) (IsDistinct-append vs spk h)

pub is_blacklisted-remove :
    (k : ℕ) (spk : SiaPublicKey) (vs : List SiaPublicKey)
    → IsDistinct vs
    → is_blacklisted k (remove_from_blacklist spk vs)
      ≡ (if spk.key == k then false else is_blacklisted k vs)
unfolding is_blacklisted remove_from_blacklist
is_blacklisted-remove k spk [] h = ground arith
is_blacklisted-remove k spk (v ∷ vs) h = ground (arith, is_blacklisted-remove k spk vs h.1)

pub remove-IsDistinct :
    (spk : SiaPublicKey) (vs : List SiaPublicKey)
    → IsDistinct vs
    → IsDistinct (remove_from_blacklist spk vs)
unfolding remove_from_blacklist
remove-IsDistinct spk [] h = tt
remove-IsDistinct spk (v ∷ vs) h =
    ground (arith, is_blacklisted-remove v.key spk vs h.1, remove-IsDistinct spk vs h.1)

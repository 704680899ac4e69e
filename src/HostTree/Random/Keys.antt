-- ===== src/HostTree/Random/Keys.antt =====
-- hosttree.go, `SelectRandom`: the keys of the entries that are out of the tree while it runs.
use sia_hostdb_profiles.Prelude.{
  ℕ, ◌≡◌, refl, Bool, true, false, Option, none, some, List, [], ◌∷◌, ◌++◌, arith, ◌==◌,
  if◌then◌else◌,
}
use sia_hostdb_profiles.HostEntry.{HostDbEntry}
use sia_hostdb_profiles.HostTree.Node.{HostEntry}
use sia_hostdb_profiles.HostTree.Index.{key}

-- The first entry of the list with a key.
unfoldable pub among : ℕ → List HostEntry → Option HostEntry
among k [] = none
among k (e ∷ es) = if k == key e.host then some e else among k es

-- Whether a host with the key is on the list.
unfoldable pub has_key : ℕ → List HostDbEntry → Bool
has_key k [] = false
has_key k (h ∷ hs) = if k == key h then true else has_key k hs

abbrev pub or_else : Option HostEntry → Option HostEntry → Option HostEntry
or_else none o = o
or_else (some e) o = some e

-- No key stands twice.
abbrev pub IsUnique : List HostEntry → Type 0
IsUnique [] = Unit
IsUnique (e ∷ es) = (among (key e.host) es ≡ none) × IsUnique es

-- No host is listed twice.
abbrev pub NoRepeats : List HostDbEntry → Type 0
NoRepeats [] = Unit
NoRepeats (h ∷ hs) = (has_key (key h) hs ≡ false) × NoRepeats hs

pub among-append :
    (k : ℕ) (es : List HostEntry) (e : HostEntry)
    → among k (es ++ e ∷ []) ≡ or_else (among k es) (if k == key e.host then some e else none)
unfolding among
among-append k [] e = refl
among-append k (f ∷ es) e = ground (arith, among-append k es e)

pub append-IsUnique :
    (es : List HostEntry) (e : HostEntry)
    → IsUnique es
    → among (key e.host) es ≡ none
    → IsUnique (es ++ e ∷ [])
unfolding among
append-IsUnique [] e u h = (refl, tt)
append-IsUnique (f ∷ es) e u h =
    ground (arith, among-append (key f.host) es e, append-IsUnique es e u.1)

pub has_key-append :
    (k : ℕ) (hs : List HostDbEntry) (h : HostDbEntry)
    → has_key k (hs ++ h ∷ []) ≡ (if k == key h then true else has_key k hs)
unfolding has_key
has_key-append k [] h = refl
has_key-append k (g ∷ hs) h = ground (arith, has_key-append k hs h)

pub append-NoRepeats :
    (hs : List HostDbEntry) (h : HostDbEntry)
    → NoRepeats hs
    → has_key (key h) hs ≡ false
    → NoRepeats (hs ++ h ∷ [])
unfolding has_key
append-NoRepeats [] h u new = (refl, tt)
append-NoRepeats (g ∷ hs) h u new =
    ground (arith, has_key-append (key g) hs h, append-NoRepeats hs h u.1)

-- ===== src/HostTree/Index/Find.antt =====
-- hosttree.go: the host that a public key leads to. As a function of the key this is all that
-- Insert, Remove, Modify and Select do to a tree; it forgets which node holds which host.
use sia_hostdb_profiles.Prelude.{
  ℕ, ◌≡◌, sym, ap, ◌∙◌, inl, inr, true, false, Option, none, some, ◌==◌, if◌then◌else◌, Bool-cases,
  Option-cases,
}
use sia_hostdb_profiles.Prelude.Dict.{lookup, lookup-insert}
use sia_hostdb_profiles.Prelude.Options.{◌>>=◌, some_inj}
use sia_hostdb_profiles.HostTree.Node.{HostEntry, NodePath, recursive_insert}
use sia_hostdb_profiles.HostTree.Node.Paths.{insert-Placed}
use sia_hostdb_profiles.HostTree.Node.Weights.{active_at}
use sia_hostdb_profiles.HostTree.Index.{Index, key, place}
use sia_hostdb_profiles.HostTree.Index.Invariant.{IsValid, TakenOut}

abbrev pub find : ℕ → Index → Option HostEntry
find k ix = lookup k ix.hosts >>= λ p. active_at p ix.root

-- In a valid index a key leads to a host just if the host is active and has the key.
pub find_of_active :
    (k : ℕ) (p : NodePath) (e : HostEntry) (ix : Index)
    → IsValid ix
    → active_at p ix.root ≡ some e
    → key e.host ≡ k
    → find k ix ≡ some e
find_of_active k p e ix v at named =
    rw (sym (ap (λ j. lookup j ix.hosts) named) ∙ v.listed p e at) at

pub active_of_find :
    (k : ℕ) (e : HostEntry) (ix : Index)
    → IsValid ix
    → find k ix ≡ some e
    → (p : NodePath) × (lookup k ix.hosts ≡ some p)
      × (active_at p ix.root ≡ some e)
      × (key e.host ≡ k)
active_of_find k e ix v h = elim (Option-cases (lookup k ix.hosts)) [
  | inl gone ↦ absurd (cc (h, gone))
  | inr (p, found) ↦
      let (f, at, named) = v.indexed k p found in
      let at' : active_at p ix.root ≡ some e = rw found at h in
      let same : f ≡ e = some_inj (sym at ∙ at') in
      (p, found, at', sym (ap (λ (g : HostEntry). key g.host) same) ∙ named)
]

pub lookup_of_find-none :
    (k : ℕ) (ix : Index) → IsValid ix → find k ix ≡ none → lookup k ix.hosts ≡ none
lookup_of_find-none k ix v h = elim (Option-cases (lookup k ix.hosts)) [
  | inl gone ↦ gone
  | inr (p, found) ↦ let (e, at, named) = v.indexed k p found in absurd (cc (rw found at h, at))
]

module _ (e : HostEntry) (ix : Index) (v : IsValid ix)
    (new : lookup (key e.host) ix.hosts ≡ none) where
  place_other : (k : ℕ) → (k == key e.host) ≡ false → find k (place e ix) ≡ find k ix
  unfolding place
  place_other k other =
      let at = insert-Placed true e ix.root in
      let kept = lookup-insert k (key e.host) (recursive_insert true e ix.root).2 ix.hosts in
      elim (Option-cases (lookup k ix.hosts)) [
        | inl gone ↦ rw (kept, other, gone)
        | inr (p, found) ↦
            rw (kept, other, found)
              (elim (at.keeps p) [
                | inl one ↦
                    let (f, old, _) = v.indexed k p found in absurd (cc (old, at.fresh, one))
                | inr same ↦ same
              ])
      ]

  -- Putting a new host in is a write at its key.
  pub find-place : (k : ℕ) → find k (place e ix) ≡ (if k == key e.host then some e else find k ix)
  unfolding place
  find-place k = elim (Bool-cases (k == key e.host)) [
    | inl its ↦
        rw (lookup-insert k (key e.host) (recursive_insert true e ix.root).2 ix.hosts, its)
          (insert-Placed true e ix.root).finds
    | inr other ↦ rw other (place_other k other)
  ]

module _ (k : ℕ) (ix : Index) (result : HostEntry × Index) (taken : TakenOut k ix result) where
  take_other : (j : ℕ) → (j == k) ≡ false → find j (result.1) ≡ find j ix
  take_other j other =
      let still : lookup j (result.1).hosts ≡ lookup j ix.hosts = rw other at (taken.unlisted j) in
      elim (Option-cases (lookup j ix.hosts)) [
        | inl gone ↦ rw (still, gone)
        | inr (q, found) ↦
            let (f, at, _) = taken.valid.indexed j q (still ∙ found) in
            rw (still, found) (at ∙ sym (taken.kept q f at))
      ]

  -- Taking a host out is a deletion at its key.
  pub find-take_out :
      (find k ix ≡ some (result.0))
      × ((j : ℕ) → find j (result.1) ≡ (if j == k then none else find j ix))
  find-take_out =
      let (p, found, at) = taken.was in
      (
        rw found at,
        λ j. elim (Bool-cases (j == k)) [
          | inl its ↦ rw (taken.unlisted j, its)
          | inr other ↦ rw other (take_other j other)
        ],
      )

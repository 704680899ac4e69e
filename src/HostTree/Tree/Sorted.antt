-- ===== src/HostTree/Tree/Sorted.antt =====
-- hosttree.go and sort.go, `All`: the hosts of a tree, in the order of their weights. Of sort.Sort it is
-- assumed what its documentation says of a `Less` that is a strict weak order.
use sia_hostdb_profiles.Prelude.{
  ℕ, ◌≤◌, ◌≡◌, refl, sym, ◌∙◌, List, [], ◌∷◌, Option, none, some, Bool, true, false, Perm, All,
  All-imp, arith, map, ◌==◌, if◌then◌else◌, Bool-cases, Option-cases, inl, inr, ==_refl,
}
use sia_hostdb_profiles.Prelude.Options.{◌>>=◌}
use sia_hostdb_profiles.Prelude.Dict.{Dict, lookup, AreDistinct}
use sia_hostdb_profiles.HostTree.Node.{HostEntry, NodePath, Tree, cell_at}
use sia_hostdb_profiles.HostTree.Node.Weights.{active_at}
use sia_hostdb_profiles.HostTree.Index.{key}
use sia_hostdb_profiles.HostTree.Index.Find.{find}
use sia_hostdb_profiles.HostTree.Tree.{HostTree, lighter, Sort, collect, all_hosts}
use sia_hostdb_profiles.HostTree.Tree.Methods.{IsConsistent}

-- A strict weak order.
pub record IsOrder (less : HostEntry → HostEntry → Bool) : Type 0 where
  pub asymmetric : (e f : HostEntry) → less e f ≡ true → less f e ≡ false
  pub transitive : (e f g : HostEntry) → less g f ≡ false → less f e ≡ false → less g e ≡ false

-- No entry is less than one before it.
abbrev pub IsOrdered : (HostEntry → HostEntry → Bool) → List HostEntry → Type 0
IsOrdered less [] = Unit
IsOrdered less (e ∷ es) = All (λ (f : HostEntry). less f e ≡ false) es × IsOrdered less es

-- What the documentation says of sort.Sort.
pub record IsSort (sort : Sort) : Type 0 where
  pub permutes :
      (less : HostEntry → HostEntry → Bool) (es : List HostEntry) → Perm (sort less es) es
  pub orders :
      (less : HostEntry → HostEntry → Bool)
      → IsOrder less
      → (es : List HostEntry) → IsOrdered less (sort less es)

lighter-IsOrder : IsOrder lighter
unfolding lighter
lighter-IsOrder = record {
  asymmetric = λ e f h. ground (arith, h);
  transitive = λ e f g h h'. ground (arith, h, h');
}

-- No entry is heavier than one after it.
abbrev pub IsRising : List HostEntry → Type 0
IsRising [] = Unit
IsRising (e ∷ es) = All (λ (f : HostEntry). e.weight ≤ f.weight) es × IsRising es

ordered-IsRising : (es : List HostEntry) → IsOrdered lighter es → IsRising es
unfolding lighter
ordered-IsRising [] h = tt
ordered-IsRising (e ∷ es) h =
    (All-imp _ _ es (λ f le. ground (arith, le)) h.0, ordered-IsRising es h.1)

-- The entry of a list with a key.
abbrev pub entry_at : ℕ → List HostEntry → Option HostEntry
entry_at k [] = none
entry_at k (e ∷ es) = if k == key e.host then some e else entry_at k es

-- No key stands twice.
abbrev pub HaveOneEach : List HostEntry → Type 0
HaveOneEach [] = Unit
HaveOneEach (e ∷ es) = (entry_at (key e.host) es ≡ none) × HaveOneEach es

abbrev found : Dict NodePath → Tree → ℕ → Option HostEntry
found d t k = lookup k d >>= λ p. active_at p t

collects :
    (d : Dict NodePath) (t : Tree)
    → ((k : ℕ) (p : NodePath)
        → lookup k d ≡ some p
        → (e : HostEntry) × (active_at p t ≡ some e) × (key e.host ≡ k))
    → AreDistinct d
    → (es : List HostEntry) × (collect d t ≡ some es)
      × HaveOneEach es
      × ((k : ℕ) → entry_at k es ≡ found d t k)
unfolding collect
collects [] t named apart = ([], refl, tt, λ k. refl)
collects ((k, p) ∷ d) t named apart =
    let (e, at, its) = named k p (rw (==_refl k) refl) in
    let (es, ran, once, finds) =
      collects d t (λ j q h. named j q (ground (arith, h, apart.0))) apart.1 in
    (
      e ∷ es,
      elim (Option-cases (cell_at p t)) [
        | inl gone ↦ absurd (cc (at, gone))
        | inr (c, cell) ↦
            let entry : c.entry ≡ some e = ground (arith, at, cell) in rw (cell, entry, ran) refl
      ],
      (finds (key e.host) ∙ rw (its, apart.0) refl, once),
      λ j. elim (Bool-cases (j == k)) [
        | inl here ↦
            let same : (j == key e.host) ≡ true = ground (arith, here, its) in
            rw (same, here) (sym at)
        | inr other ↦
            let differs : (j == key e.host) ≡ false = ground (arith, other, its) in
            rw (differs, other) (finds j)
      ],
    )

-- On a consistent tree All runs through for every sort that obeys its documentation. It gives the
-- hosts of a rearrangement of entries that has each host of the tree once and no other, and no entry
-- of which is heavier than one after it.
pub all_hosts_correct :
    (sort : Sort)
    → IsSort sort
    → (ht : HostTree) → IsConsistent ht
    → (sorted es : List HostEntry) × (all_hosts sort ht
        ≡ some (map (λ (e : HostEntry). e.host) sorted))
      × IsRising sorted
      × Perm sorted es
      × HaveOneEach es
      × ((k : ℕ) → entry_at k es ≡ find k ht.index)
unfolding all_hosts
all_hosts_correct sort sorts ht consistent =
    let (es, ran, once, finds) =
      collects ht.index.hosts ht.index.root consistent.valid.indexed consistent.valid.apart in
    (
      sort lighter es,
      es,
      rw ran refl,
      ordered-IsRising (sort lighter es) (sorts.orders lighter lighter-IsOrder es),
      sorts.permutes lighter es,
      once,
      finds,
    )

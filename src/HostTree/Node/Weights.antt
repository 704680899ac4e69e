-- ===== src/HostTree/Node/Weights.antt =====
-- hosttree.go, `node`: the weight and the count of a node are those of what lies below it.
use sia_hostdb_profiles.Prelude.{
  ℕ, ◌+◌, ◌≤◌, ◌≡◌, ◌≢◌, Bool, true, false, Option, none, some, [], ◌∷◌, arith, if◌then◌else◌, inl,
  inr, Option-cases,
}
use sia_hostdb_profiles.Prelude.Options.{◌>>=◌}
use sia_hostdb_profiles.Currency.{sub}
use sia_hostdb_profiles.HostTree.Node.{
  HostEntry, Cell, Tree, nil, node, left, right, NodePath, count, weight, recursive_insert,
  recursive_insert_rule, release, cell_at, remove,
}

-- The entry of an active host at a node.
abbrev pub active : Cell → Option HostEntry
active c = if c.taken then c.entry else none

abbrev pub entry_weight : Option HostEntry → ℕ
entry_weight none = 0
entry_weight (some e) = e.weight

-- What a node records of the subtrees below it is true.
pub record IsSound (c : Cell) (l r : Tree) : Type 0 where
  pub weighed : c.weight ≡ weight l + weight r + entry_weight (active c)
  pub counted : c.count ≡ 1 + count l + count r
  pub filled : c.taken ≡ true → c.entry ≢ none

abbrev pub IsWellFormed : Tree → Type 0
IsWellFormed nil = Unit
IsWellFormed (node c l r) = IsSound c l r × IsWellFormed l × IsWellFormed r

-- What an insertion into a well-formed tree gives.
pub record Inserted (e : HostEntry) (t : Tree) (result : Tree × ℕ × NodePath) : Type 0 where
  pub well_formed : IsWellFormed (result.0)
  pub weight_grows : weight (result.0) ≡ weight t + e.weight
  pub count_grows : count (result.0) ≡ count t + result.1

-- An insertion into a well-formed tree gives a well-formed tree that is heavier by the entry's weight
-- and whose count grows by the reported number of nodes.
pub insert-Inserted :
    (root : Bool) (e : HostEntry) (t : Tree)
    → IsWellFormed t
    → Inserted e t (recursive_insert root e t)
insert-Inserted root e nil h = unfold recursive_insert in ground arith
insert-Inserted root e (node c l r) h =
    recursive_insert_rule (Inserted e (node c l r)) root e c l r (λ childless untaken. ground arith)
      (λ untaken. ground arith) (λ taken. ground (arith, insert-Inserted false e l h.1))
      (λ taken. ground (arith, insert-Inserted false e r h.2))

-- The active host at the node that a pointer leads to.
abbrev pub active_at : NodePath → Tree → Option HostEntry
active_at p t = cell_at p t >>= active

-- What freeing the node of an active host of weight `w` gives.
pub record Released (w : ℕ) (t t' : Tree) : Type 0 where
  pub well_formed : IsWellFormed t'
  pub weight_falls : weight t' + w ≡ weight t
  pub count_stays : count t' ≡ count t

-- Freeing the node of an active host of a well-formed tree gives a well-formed tree that is lighter by
-- the host's weight and of the same count.
pub release-Released :
    (p : NodePath) (e : HostEntry) (t : Tree)
    → IsWellFormed t
    → active_at p t ≡ some e
    → Released e.weight t (release p e.weight t)
unfolding release cell_at sub
release-Released p e nil h a = cc
release-Released [] e (node c l r) h a = ground arith
release-Released (left ∷ p) e (node c l r) h a = ground (arith, release-Released p e l h.1 a)
release-Released (right ∷ p) e (node c l r) h a = ground (arith, release-Released p e r h.2 a)

-- `remove` of a node that holds an active host runs through.
pub remove_active :
    (p : NodePath) (e : HostEntry) (t : Tree)
    → active_at p t ≡ some e
    → remove p t ≡ some (release p e.weight t)
unfolding remove
remove_active p e t a = elim (Option-cases (cell_at p t)) [
  | inl gone ↦ absurd (ground arith)
  | inr (c, found) ↦ rw found (ground arith)
]

-- The entry of an active host stands at its node.
pub entry_of_active :
    (p : NodePath) (e : HostEntry) (t : Tree)
    → active_at p t ≡ some e
    → (cell_at p t >>= λ c. c.entry) ≡ some e
entry_of_active p e t a = elim (Option-cases (cell_at p t)) [
  | inl gone ↦ absurd (cc (a, gone))
  | inr (c, found) ↦ rw found (ground (arith, a, found))
]

-- An active host weighs no more than the tree.
pub active-le-weight :
    (p : NodePath) (e : HostEntry) (t : Tree)
    → IsWellFormed t
    → active_at p t ≡ some e
    → e.weight ≤ weight t
unfolding cell_at
active-le-weight p e nil h a = cc
active-le-weight [] e (node c l r) h a = ground arith
active-le-weight (left ∷ p) e (node c l r) h a = ground (arith, active-le-weight p e l h.1 a)
active-le-weight (right ∷ p) e (node c l r) h a = ground (arith, active-le-weight p e r h.2 a)

-- ===== src/HostTree/Node/Entries.antt =====
-- hosttree.go, `node`: the hosts of a tree in the order in which `nodeAtWeight` walks them, and how
-- an insertion and a removal change them. As a multiset they are all that a client sees.
use mathlib.Core.List.{perm_middle}
use mathlib.Core.List.Perm
use sia_hostdb_profiles.Prelude.{
  ℕ, ◌≡◌, refl, Bool, true, false, Option, none, some, List, [], ◌∷◌, ◌++◌, Perm, arith, sum_of,
  sum_of-append,
}
use sia_hostdb_profiles.HostTree.Node.{
  HostEntry, Tree, nil, node, left, right, NodePath, weight, recursive_insert,
  recursive_insert_rule, release, cell_at,
}
use sia_hostdb_profiles.HostTree.Node.Weights.{active, active_at, entry_weight, IsWellFormed}

abbrev pub to_list : Option HostEntry → List HostEntry
to_list none = []
to_list (some e) = e ∷ []

-- The active hosts below a node: those on the left, those on the right, and its own.
abbrev pub entries : Tree → List HostEntry
entries nil = []
entries (node c l r) = entries l ++ (entries r ++ to_list (active c))

abbrev pub total_weight : List HostEntry → ℕ
total_weight = sum_of (λ e. e.weight)

-- The weight of a well-formed tree is the sum of the weights of its hosts.
pub weight-eq-total : (t : Tree) → IsWellFormed t → weight t ≡ total_weight (entries t)
weight-eq-total nil h = refl
weight-eq-total (node c l r) h = omega (
  arith,
  weight-eq-total l h.1,
  weight-eq-total r h.2,
  h.0,
  own c.taken c.entry,
  sum_of-append (λ (e : HostEntry). e.weight) (entries l) (entries r ++ to_list (active c)),
  sum_of-append (λ (e : HostEntry). e.weight) (entries r) (to_list (active c)),
)
  where
    own :
        (b : Bool) (o : Option HostEntry)
        → total_weight (to_list (active (record c { taken = b; entry = o })))
          ≡ entry_weight (active (record c { taken = b; entry = o }))
    own true (some e) = omega arith
    own true none = refl
    own false o = refl

module _ (e : HostEntry) (xs ys : List HostEntry) where
  perm_own : Perm (xs ++ (ys ++ e ∷ [])) (e ∷ (xs ++ (ys ++ [])))
  perm_own = Perm.trans (Perm.append_left xs (perm_middle ys [])) (perm_middle xs (ys ++ []))

  perm_right :
      (own : List HostEntry) {ys' : List HostEntry}
      → Perm ys' (e ∷ ys)
      → Perm (xs ++ (ys' ++ own)) (e ∷ (xs ++ (ys ++ own)))
  perm_right own p =
      Perm.trans (Perm.append_left xs (Perm.append_right own p)) (perm_middle xs (ys ++ own))

-- An insertion adds exactly its entry.
pub entries-insert :
    (root : Bool) (e : HostEntry) (t : Tree)
    → Perm (entries (recursive_insert root e t).0) (e ∷ entries t)
entries-insert root e nil = unfold recursive_insert in Perm.refl (e ∷ [])
entries-insert root e (node c l r) =
    recursive_insert_rule (λ result. Perm (entries result.0) (e ∷ entries (node c l r))) root e c l
      r (λ _ free. claimed free) (λ free. claimed free)
      (λ _. Perm.append_right (entries r ++ to_list (active c)) (entries-insert false e l))
      (λ _. perm_right e (entries l) (entries r) (to_list (active c)) (entries-insert false e r))
  where
    claimed :
        c.taken ≡ false
        → Perm
            (entries l ++ (entries r ++ e ∷ []))
            (e ∷ (entries l ++ (entries r ++ to_list (active c))))
    claimed free = rw free (perm_own e (entries l) (entries r))

-- Freeing the node of an active host takes exactly its entry away.
pub entries-release :
    (p : NodePath) (w : ℕ) (e : HostEntry) (t : Tree)
    → active_at p t ≡ some e
    → Perm (e ∷ entries (release p w t)) (entries t)
unfolding release cell_at
entries-release p w e nil a = cc
entries-release [] w e (node c l r) a = rw a (Perm.symm (perm_own e (entries l) (entries r)))
entries-release (left ∷ p) w e (node c l r) a =
    Perm.append_right (entries r ++ to_list (active c)) (entries-release p w e l a)
entries-release (right ∷ p) w e (node c l r) a = Perm.symm (
    perm_right e (entries l) (entries (release p w r)) (to_list (active c))
      (Perm.symm (entries-release p w e r a)))

-- ===== src/HostTree/Node/Pick.antt =====
-- hosttree.go, `nodeAtWeight`: it selects from the hosts of a tree by weight.
use mathlib.Core.Option
use sia_hostdb_profiles.Prelude.{
  ℕ, ◌+◌, ◌-◌, ◌≤◌, ◌<◌, ◌≡◌, refl, true, false, Option, none, some, List, [], ◌∷◌, ◌++◌, arith,
  ltb, if◌then◌else◌, sum_of-append, inl, inr, Bool-cases, le→ltb_false, not, &&_false, ◌∙◌, ap,
}
use sia_hostdb_profiles.Currency.{sub}
use sia_hostdb_profiles.HostTree.Node.{
  HostEntry, Cell, Tree, nil, node, left, right, NodePath, weight, is_nil, node_at_weight, cell_at,
}
use sia_hostdb_profiles.HostTree.Node.Weights.{active, active_at, IsSound, IsWellFormed}
use sia_hostdb_profiles.HostTree.Node.Entries.{entries, to_list, total_weight, weight-eq-total}

-- The entry in whose share of the total weight the number `w` lies.
abbrev pub pick : ℕ → List HostEntry → Option HostEntry
pick w [] = none
pick w (e ∷ es) = if ltb w e.weight then some e else pick (w - e.weight) es

sub_zero : (w : ℕ) → w - 0 ≡ w
sub_zero w = omega arith

pick-append :
    (w : ℕ) (xs ys : List HostEntry)
    → pick w (xs ++ ys)
      ≡ (if ltb w (total_weight xs) then pick w xs else pick (w - total_weight xs) ys)
pick-append w [] ys = ground (arith, sub_zero w)
pick-append w (x ∷ xs) ys = ground (arith, pick-append (w - x.weight) xs ys)

-- `w` picks `e` if it lies in the share that begins behind those of the entries before `e`.
pick_share :
    (w : ℕ) (xs : List HostEntry) (e : HostEntry) (ys : List HostEntry)
    → total_weight xs ≤ w
    → w < total_weight xs + e.weight
    → pick w (xs ++ e ∷ ys) ≡ some e
pick_share w [] e ys lo hi = ground arith
pick_share w (x ∷ xs) e ys lo hi = ground (arith, pick_share (w - x.weight) xs e ys)

-- A child that weighs more than `w` is there, and an absent one weighs nothing.
lighter-is_nil : (w : ℕ) (t : Tree) → ltb w (weight t) ≡ true → is_nil t ≡ false
lighter-is_nil w nil h = ground arith
lighter-is_nil w (node c l r) h = refl

rest_of :
    (w : ℕ) (t : Tree)
    → ltb w (weight t) ≡ false
    → (if is_nil t then w else sub w (weight t)) ≡ w - weight t
unfolding sub
rest_of w nil h = omega arith
rest_of w (node c l r) h = ground arith

-- The three ways that the walk goes at a node.
module _ (w : ℕ) (c : Cell) (l r : Tree) (lt : w < c.weight) where
  walk_left :
      ltb w (weight l) ≡ true
      → node_at_weight w (node c l r) ≡ Option.map (◌∷◌ left) (node_at_weight w l)
  unfolding node_at_weight
  walk_left h = rw (le→ltb_false c.weight w (omega arith), lighter-is_nil w l h, h)

  walk_right :
      ltb w (weight l) ≡ false
      → ltb (w - weight l) (weight r) ≡ true
      → node_at_weight w (node c l r) ≡ Option.map (◌∷◌ right) (node_at_weight (w - weight l) r)
  unfolding node_at_weight
  walk_right h k = rw (
    le→ltb_false c.weight w (omega arith),
    rest_of w l h,
    h,
    k,
    lighter-is_nil (w - weight l) r k,
    &&_false (not (is_nil l)),
  )

  walk_own :
      ltb w (weight l) ≡ false
      → ltb (w - weight l) (weight r) ≡ false
      → c.taken ≡ true
      → node_at_weight w (node c l r) ≡ some []
  unfolding node_at_weight
  walk_own h k t = rw (
    le→ltb_false c.weight w (omega arith),
    rest_of w l h,
    h,
    k,
    &&_false (not (is_nil l)),
    &&_false (not (is_nil r)),
    t,
  )

-- The shares of a well-formed node: its left subtree's, its right subtree's and its own.
pick_node :
    (w : ℕ) (c : Cell) (l r : Tree)
    → IsWellFormed (node c l r)
    → pick w (entries (node c l r)) ≡ (
        if ltb w (weight l)
        then pick w (entries l)
        else if ltb (w - weight l) (weight r)
        then pick (w - weight l) (entries r)
        else pick (w - weight l - weight r) (to_list (active c)))
pick_node w c l r h = rw (
  pick-append w (entries l) (entries r ++ to_list (active c)),
  pick-append (w - total_weight (entries l)) (entries r) (to_list (active c)),
  ← weight-eq-total l h.1,
  ← weight-eq-total r h.2,
)

-- What the walk leaves to the node itself is its own share.
own_share :
    (w : ℕ) (c : Cell) (l r : Tree)
    → IsSound c l r
    → w < c.weight
    → weight l ≤ w
    → weight r ≤ w - weight l
    → (c.taken ≡ true) × (active c ≡ pick (w - weight l - weight r) (to_list (active c)))
own_share w c l r h lt pl pr = ground arith

pub node_at_weight_picks :
    (w : ℕ) (t : Tree)
    → IsWellFormed t
    → w < weight t
    → (p : NodePath) × (node_at_weight w t ≡ some p) × (active_at p t ≡ pick w (entries t))
unfolding cell_at
node_at_weight_picks w nil h lt = absurd (omega arith)
node_at_weight_picks w (node c l r) h lt =
    let split = pick_node w c l r h in
    elim (Bool-cases (ltb w (weight l))) [
      | inl here ↦
          let (p, found, picked) = node_at_weight_picks w l h.1 (ground arith) in
          (left ∷ p, rw (walk_left w c l r lt here, found), rw (split, here) picked)
      | inr past ↦ elim (Bool-cases (ltb (w - weight l) (weight r))) [
        | inl here ↦
            let (p, found, picked) = node_at_weight_picks (w - weight l) r h.2 (ground arith) in
            (right ∷ p, rw (walk_right w c l r lt past here, found), rw (split, past, here) picked)
        | inr own ↦
            let (taken, picked) = own_share w c l r h.0 lt (ground arith) (ground arith) in
            ([], walk_own w c l r lt past own taken, rw (split, past, own) picked)
      ]
    ]

-- In a well-formed tree, `nodeAtWeight` finds the node of a host for every number in the host's share
-- of the total weight: the share begins at the weight of the hosts before it and is as long as the
-- host's weight.
pub node_at_weight_share :
    (w : ℕ) (t : Tree) (xs : List HostEntry) (e : HostEntry) (ys : List HostEntry)
    → IsWellFormed t
    → entries t ≡ xs ++ e ∷ ys
    → total_weight xs ≤ w
    → w < total_weight xs + e.weight
    → (p : NodePath) × (node_at_weight w t ≡ some p) × (active_at p t ≡ some e)
node_at_weight_share w t xs e ys h order lo hi =
    let inside : w < weight t = omega (
      arith,
      weight-eq-total t h,
      ap total_weight order,
      sum_of-append (λ (e : HostEntry). e.weight) xs (e ∷ ys),
    ) in
    let (p, found, picked) = node_at_weight_picks w t h inside in
    (p, found, picked ∙ ap (pick w) order ∙ pick_share w xs e ys lo hi)

-- Every number below the total weight picks an entry.
pick_total :
    (w : ℕ) (es : List HostEntry) → w < total_weight es → (e : HostEntry) × (pick w es ≡ some e)
pick_total w [] lt = absurd (omega arith)
pick_total w (e ∷ es) lt = elim (Bool-cases (ltb w e.weight)) [
  | inl here ↦ (e, rw here)
  | inr past ↦ rw past (pick_total (w - e.weight) es (ground arith))
]

pub node_at_weight_total :
    (w : ℕ) (t : Tree)
    → IsWellFormed t
    → w < weight t
    → (p : NodePath) × (e : HostEntry) × (node_at_weight w t ≡ some p) × (active_at p t ≡ some e)
node_at_weight_total w t h lt =
    let (p, found, picked) = node_at_weight_picks w t h lt in
    let (e, some_e) = pick_total w (entries t) (rw (weight-eq-total t h) at lt) in
    (p, e, found, picked ∙ some_e)

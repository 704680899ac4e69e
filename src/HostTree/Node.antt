-- ===== src/HostTree/Node.antt =====
-- hosttree.go, `node`: the nodes of a host tree and the functions that walk them.
-- A node never moves and is never freed, so a pointer to one is the path to it from the root, and
-- its `parent` is the path without the last step.
pub mod Weights
pub mod Entries
pub mod Paths
pub mod Pick
use sia_hostdb_profiles.Prelude.{
  ℕ, ◌+◌, List, [], ◌∷◌, Option, none, some, Bool, true, false, not, ◌≡◌, if_rule, arith, ◌&&◌, ltb,
  leb, if◌then◌else◌,
}
use mathlib.Core.Option
use sia_hostdb_profiles.Prelude.Options.{◌>>=◌}
use sia_hostdb_profiles.Currency.{Currency, sub}
use sia_hostdb_profiles.HostEntry.{HostDbEntry}

pub record HostEntry : Type 0 where
  pub host : HostDbEntry
  pub weight : Currency

-- The fields of a node that are no pointers; `entry` is nil until the node is first taken.
pub record Cell : Type 0 where
  pub count : ℕ
  pub taken : Bool
  pub weight : Currency
  pub entry : Option HostEntry

pub data Tree : Type 0 where
  nil : Tree
  node : Cell → Tree → Tree → Tree

pub data Side : Type 0 where
  left right : Side

abbrev pub NodePath : Type 0
NodePath = List Side

abbrev pub is_nil : Tree → Bool
is_nil nil = true
is_nil (node _ _ _) = false

abbrev pub count : Tree → ℕ
count nil = 0
count (node c _ _) = c.count

abbrev pub weight : Tree → Currency
weight nil = 0
weight (node c _ _) = c.weight

-- `createNode`
abbrev pub create_node : HostEntry → Tree
create_node e = node (record { count = 1; taken = true; weight = e.weight; entry = some e }) nil nil

-- The side that an insertion goes on to: an absent child first, then the less populated side.
abbrev pub goes_left : Tree → Tree → Bool
goes_left l r = if is_nil l then true else if is_nil r then false else leb (count l) (count r)

-- The results of an insertion at a node: the entry is put on the node itself, with `w` for the
-- node's weight, or below it, where a result is passed up.
abbrev pub claim : Currency → Cell → HostEntry → Tree → Tree → Tree × ℕ × NodePath
claim w c e l r = (node (record c { weight = w; taken = true; entry = some e }) l r, 0, [])

abbrev pub descend_left : Cell → HostEntry → Tree → Tree × ℕ × NodePath → Tree × ℕ × NodePath
descend_left c e r (l', added, p) = (
  node (record c { weight = c.weight + e.weight; count = c.count + added }) l' r,
  added,
  left ∷ p,
)

abbrev pub descend_right : Cell → HostEntry → Tree → Tree × ℕ × NodePath → Tree × ℕ × NodePath
descend_right c e l (r', added, p) = (
  node (record c { weight = c.weight + e.weight; count = c.count + added }) l r',
  added,
  right ∷ p,
)

-- `recursiveInsert`: the tree after it, `nodesAdded` and the path to `newnode`. `root` tells
-- whether the node has no parent. The clause for nil is the branch of the caller that finds a
-- child absent and creates it.
unfoldable pub recursive_insert : Bool → HostEntry → Tree → Tree × ℕ × NodePath
recursive_insert root e nil = (create_node e, 1, [])
recursive_insert root e (node c l r) =
    let into_left = descend_left c e r (recursive_insert false e l) in
    let into_right = descend_right c e l (recursive_insert false e r) in
    if root && is_nil l && is_nil r && not c.taken
    then claim e.weight c e l r
    else if not c.taken
    then claim (c.weight + e.weight) c e l r
    else if goes_left l r
    then into_left
    else into_right

-- `nodeAtWeight`. `none` is the nil that the code returns after it has reported a corruption; a
-- nil child is never entered.
unfoldable pub node_at_weight : Currency → Tree → Option NodePath
node_at_weight w nil = none
node_at_weight w (node c l r) =
    let w' = if is_nil l then w else sub w (weight l) in
    let in_left = Option.map (◌∷◌ left) (node_at_weight w l) in
    let in_right = Option.map (◌∷◌ right) (node_at_weight w' r) in
    if ltb c.weight w
    then none
    else if not (is_nil l) && ltb w (weight l)
    then in_left
    else if not (is_nil r) && ltb w' (weight r)
    then in_right
    else if not c.taken
    then none
    else some []

-- The node that a pointer leads to.
unfoldable pub cell_at : NodePath → Tree → Option Cell
cell_at p nil = none
cell_at [] (node c l r) = some c
cell_at (left ∷ p) (node c l r) = cell_at p l
cell_at (right ∷ p) (node c l r) = cell_at p r

-- The writes of `remove`, for an entry of weight `w`: the node is freed, and its weight and that
-- of every ancestor falls by `w`.
unfoldable pub release : NodePath → Currency → Tree → Tree
release p w nil = nil
release [] w (node c l r) = node (record c { weight = sub c.weight w; taken = false }) l r
release (left ∷ p) w (node c l r) = node (record c { weight = sub c.weight w }) (release p w l) r
release (right ∷ p) w (node c l r) = node (record c { weight = sub c.weight w }) l (release p w r)

-- `remove`. `none` is the panic on a node with no entry.
unfoldable pub remove : NodePath → Tree → Option Tree
remove p t = do c ← cell_at p t; e ← c.entry; some (release p e.weight t)

-- The four ways that an insertion goes at a node.
pub recursive_insert_rule {ℓ} :
    (P : Tree × ℕ × NodePath → Type ℓ) (root : Bool) (e : HostEntry) (c : Cell) (l r : Tree)
    → ((is_nil l && is_nil r) ≡ true → c.taken ≡ false → P (claim e.weight c e l r))
    → (c.taken ≡ false → P (claim (c.weight + e.weight) c e l r))
    → (c.taken ≡ true → P (descend_left c e r (recursive_insert false e l)))
    → (c.taken ≡ true → P (descend_right c e l (recursive_insert false e r)))
    → P (recursive_insert root e (node c l r))
unfolding recursive_insert
recursive_insert_rule P root e c l r lone free into_left into_right =
    if_rule P (root && is_nil l && is_nil r && not c.taken)
      (λ h. lone (ground arith) (ground arith))
      λ _.
        if_rule P (not c.taken) (λ h. free (ground arith))
          λ h.
            if_rule P (goes_left l r) (λ _. into_left (ground arith))
              (λ _. into_right (ground arith))

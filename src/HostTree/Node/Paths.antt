-- ===== src/HostTree/Node/Paths.antt =====
-- hosttree.go, `node`: which host stands at which node, before and after an insertion or a
-- removal. A pointer that the tree's index holds stays good while other hosts come and go.
use sia_hostdb_profiles.Prelude.{
  ℕ, ◌≡◌, refl, ap, ◌⊎◌, inl, inr, Bool, true, false, none, some, [], ◌∷◌,
}
use sia_hostdb_profiles.HostTree.Node.{
  HostEntry, Cell, Tree, nil, node, left, right, NodePath, recursive_insert, recursive_insert_rule,
  release, cell_at, create_node, claim,
}
use sia_hostdb_profiles.HostTree.Node.Weights.{active, active_at}

-- Every node other than the one at `p` holds the same active host in `t'` as in `t`.
abbrev pub SameBut : NodePath → Tree → Tree → Type 0
SameBut p t t' = (q : NodePath) → (q ≡ p) ⊎ (active_at q t' ≡ active_at q t)

-- An insertion that gave `result` put `e` on a node that was free.
pub record Placed (e : HostEntry) (t : Tree) (result : Tree × ℕ × NodePath) : Type 0 where
  pub finds : active_at (result.2) (result.0) ≡ some e
  pub fresh : active_at (result.2) t ≡ none
  pub keeps : SameBut (result.2) t (result.0)

module _ (p : NodePath) (c c' : Cell) (same : active c' ≡ active c) where
  SameBut-left : (t t' r : Tree) → SameBut p t t' → SameBut (left ∷ p) (node c t r) (node c' t' r)
  unfolding cell_at
  SameBut-left t t' r h [] = inr same
  SameBut-left t t' r h (left ∷ q) = elim (h q) [ inl e ↦ inl (ap (◌∷◌ left) e) | inr e ↦ inr e ]
  SameBut-left t t' r h (right ∷ q) = inr refl

  SameBut-right : (t t' l : Tree) → SameBut p t t' → SameBut (right ∷ p) (node c l t) (node c' l t')
  unfolding cell_at
  SameBut-right t t' l h [] = inr same
  SameBut-right t t' l h (left ∷ q) = inr refl
  SameBut-right t t' l h (right ∷ q) = elim (h q) [ inl e ↦ inl (ap (◌∷◌ right) e) | inr e ↦ inr e ]

SameBut-here : (c c' : Cell) (l r : Tree) → SameBut [] (node c l r) (node c' l r)
unfolding cell_at
SameBut-here c c' l r [] = inl refl
SameBut-here c c' l r (left ∷ q) = inr refl
SameBut-here c c' l r (right ∷ q) = inr refl

SameBut-create : (e : HostEntry) → SameBut [] nil (create_node e)
unfolding cell_at
SameBut-create e [] = inl refl
SameBut-create e (left ∷ q) = inr refl
SameBut-create e (right ∷ q) = inr refl

claim-Placed :
    (w : ℕ) (e : HostEntry) (c : Cell) (l r : Tree)
    → c.taken ≡ false
    → Placed e (node c l r) (claim w c e l r)
unfolding cell_at
claim-Placed w e c l r free = record {
  finds = refl;
  fresh = rw free;
  keeps = SameBut-here c (record c { weight = w; taken = true; entry = some e }) l r;
}

-- An insertion puts the entry on a node that held no active host, gives the path to that node, and
-- leaves the active host of every other node alone.
pub insert-Placed :
    (root : Bool) (e : HostEntry) (t : Tree) → Placed e t (recursive_insert root e t)
unfolding cell_at
insert-Placed root e nil = record {
  finds = unfold recursive_insert in refl;
  fresh = refl;
  keeps = unfold recursive_insert in SameBut-create e;
}
insert-Placed root e (node c l r) =
    recursive_insert_rule (Placed e (node c l r)) root e c l r (λ _. claim-Placed e.weight e c l r)
      (claim-Placed _ e c l r)
      (λ _.
        let ih = insert-Placed false e l in
        record {
          finds = ih.finds;
          fresh = ih.fresh;
          keeps = SameBut-left _ c _ refl l _ r ih.keeps;
        })
      (λ _.
        let ih = insert-Placed false e r in
        record {
          finds = ih.finds;
          fresh = ih.fresh;
          keeps = SameBut-right _ c _ refl r _ l ih.keeps;
        })

-- A freed node holds no active host.
pub release_clears : (p : NodePath) (w : ℕ) (t : Tree) → active_at p (release p w t) ≡ none
unfolding cell_at release
release_clears p w nil = refl
release_clears [] w (node c l r) = refl
release_clears (left ∷ p) w (node c l r) = release_clears p w l
release_clears (right ∷ p) w (node c l r) = release_clears p w r

pub release-SameBut : (p : NodePath) (w : ℕ) (t : Tree) → SameBut p t (release p w t)
unfolding release
release-SameBut p w nil = λ q. inr refl
release-SameBut [] w (node c l r) = SameBut-here c _ l r
release-SameBut (left ∷ p) w (node c l r) = SameBut-left p c _ refl l _ r (release-SameBut p w l)
release-SameBut (right ∷ p) w (node c l r) = SameBut-right p c _ refl r _ l (release-SameBut p w r)

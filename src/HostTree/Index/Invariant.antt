-- ===== src/HostTree/Index/Invariant.antt =====
-- hosttree.go: the map `hosts` lists just the active hosts of the tree, each at its node.
use sia_hostdb_profiles.Prelude.{
  ℕ, ◌<◌, ◌≡◌, sym, ap, ◌∙◌, ◌≢◌, inl, inr, true, false, none, some, ◌∷◌, Perm, arith, ◌==◌,
  if◌then◌else◌, ==_refl, Bool-cases, Option-cases, length,
}
use sia_hostdb_profiles.Prelude.Dict
use sia_hostdb_profiles.Prelude.Dict.{
  AreDistinct, insert-AreDistinct, delete-AreDistinct, Dict, lookup, lookup-insert, lookup-delete,
  length-delete_lt,
}
use sia_hostdb_profiles.Prelude.Options.{some_inj}
use sia_hostdb_profiles.HostTree.Node.{
  HostEntry, Tree, NodePath, recursive_insert, release, cell_at,
}
use sia_hostdb_profiles.HostTree.Node.Weights.{
  active_at, IsWellFormed, insert-Inserted, release-Released, remove_active,
}
use sia_hostdb_profiles.HostTree.Node.Entries.{entries, entries-insert, entries-release}
use sia_hostdb_profiles.HostTree.Node.Paths.{insert-Placed, release-SameBut, release_clears}
use sia_hostdb_profiles.HostTree.Index.{Index, key, place, take_out}

pub record IsValid (ix : Index) : Type 0 where
  pub well_formed : IsWellFormed ix.root
  -- What a key leads to is the active host with that key.
  pub indexed :
      (k : ℕ) (p : NodePath)
      → lookup k ix.hosts ≡ some p
      → (e : HostEntry) × (active_at p ix.root ≡ some e) × (key e.host ≡ k)
  -- Every active host is found under its key.
  pub listed :
      (p : NodePath) (e : HostEntry)
      → active_at p ix.root ≡ some e
      → lookup (key e.host) ix.hosts ≡ some p
  pub apart : AreDistinct ix.hosts

-- Two nodes hold the same active host only if they are one.
same_node :
    {e f : HostEntry} (ix : Index) (p q : NodePath)
    → IsValid ix
    → active_at p ix.root ≡ some e
    → active_at q ix.root ≡ some f
    → key e.host ≡ key f.host
    → p ≡ q
same_node {e} {f} ix p q v hp hq same =
    cc (v.listed p e hp, v.listed q f hq, ap (λ k. lookup k ix.hosts) same)

module _ (e : HostEntry) (ix : Index) (v : IsValid ix)
    (new : lookup (key e.host) ix.hosts ≡ none) where
  placed_root : Tree
  placed_root = (recursive_insert true e ix.root).0

  placed_at : NodePath
  placed_at = (recursive_insert true e ix.root).2

  place-indexed :
      (k : ℕ) (p : NodePath)
      → (if k == key e.host then some placed_at else lookup k ix.hosts) ≡ some p
      → (f : HostEntry) × (active_at p placed_root ≡ some f) × (key f.host ≡ k)
  unfolding placed_root placed_at
  place-indexed k p h =
      let placed = insert-Placed true e ix.root in
      elim (Bool-cases (k == key e.host)) [
        | inl its ↦
            let at : placed_at ≡ p = ground arith in (e, rw (← at) placed.finds, ground arith)
        | inr other ↦
            let old : lookup k ix.hosts ≡ some p = ground arith in
            let (f, found, named) = v.indexed k p old in
            elim (placed.keeps p) [
              | inl at ↦ absurd (cc (found, placed.fresh, at))
              | inr same ↦ (f, same ∙ found, named)
            ]
      ]

  place-listed :
      (p : NodePath) (f : HostEntry)
      → active_at p placed_root ≡ some f
      → (if key f.host == key e.host then some placed_at else lookup (key f.host) ix.hosts) ≡ some p
  unfolding placed_root placed_at
  place-listed p f h =
      let placed = insert-Placed true e ix.root in
      elim (placed.keeps p) [
        | inl at ↦
            let same : e ≡ f =
              some_inj (sym placed.finds ∙ ap (λ q. active_at q placed_root) (sym at) ∙ h) in
            rw (← same, ==_refl (key e.host), at)
        | inr kept ↦
            let old = v.listed p f (sym kept ∙ h) in
            elim (Bool-cases (key f.host == key e.host)) [
              | inl its ↦ absurd (ground arith)
              | inr other ↦ rw other old
            ]
      ]

-- A host that is not listed yet is added, and nothing else changes.
pub place-IsValid :
    (e : HostEntry) (ix : Index)
    → IsValid ix
    → lookup (key e.host) ix.hosts ≡ none
    → IsValid (place e ix)
unfolding place placed_root placed_at
place-IsValid e ix v new = record {
  well_formed = (insert-Inserted true e ix.root v.well_formed).well_formed;
  indexed =
      λ k p h. place-indexed e ix v new k p (sym (lookup-insert k (key e.host) _ ix.hosts) ∙ h);
  listed =
      λ p f h. lookup-insert (key f.host) (key e.host) _ ix.hosts ∙ place-listed e ix v new p f h;
  apart = insert-AreDistinct (key e.host) _ ix.hosts v.apart;
}

pub place-entries :
    (e : HostEntry) (ix : Index) → Perm (entries (place e ix).root) (e ∷ entries ix.root)
unfolding place
place-entries e ix = entries-insert true e ix.root

pub place-lookup :
    (e : HostEntry) (ix : Index) (k : ℕ)
    → k ≢ key e.host
    → lookup k (place e ix).hosts ≡ lookup k ix.hosts
unfolding place
place-lookup e ix k other =
    ground (arith, lookup-insert k (key e.host) (recursive_insert true e ix.root).2 ix.hosts)

-- Taking out a listed host runs through, gives its entry, and keeps the index valid.
pub record TakenOut (k : ℕ) (ix : Index) (result : HostEntry × Index) : Type 0 where
  pub valid : IsValid (result.1)
  pub its_key : key (result.0).host ≡ k
  pub same : Perm (result.0 ∷ entries (result.1).root) (entries ix.root)
  pub was : (p : NodePath) × (lookup k ix.hosts ≡ some p) × (active_at p ix.root ≡ some (result.0))
  pub kept :
      (q : NodePath) (f : HostEntry)
      → active_at q (result.1).root ≡ some f
      → active_at q ix.root ≡ some f
  pub shorter : length (result.1).hosts < length ix.hosts
  pub unlisted : (j : ℕ) → lookup j (result.1).hosts ≡ (if j == k then none else lookup j ix.hosts)

module _ (k : ℕ) (p : NodePath) (e : HostEntry) (ix : Index) (v : IsValid ix)
    (at : active_at p ix.root ≡ some e) (named : key e.host ≡ k) where
  released : Index
  released = record { root = release p e.weight ix.root; hosts = Dict.delete k ix.hosts }

  released-indexed :
      (j : ℕ) (q : NodePath)
      → lookup j (Dict.delete k ix.hosts) ≡ some q
      → (f : HostEntry) × (active_at q (release p e.weight ix.root) ≡ some f) × (key f.host ≡ j)
  released-indexed j q h =
      let kept : (j == k ≡ false) × (lookup j ix.hosts ≡ some q) =
        ground (arith, lookup-delete j k ix.hosts) in
      let (f, found, named') = v.indexed j q kept.1 in
      elim (release-SameBut p e.weight ix.root q) [
        | inl one ↦
            absurd (ground (arith, some_inj (sym found ∙ ap (λ q. active_at q ix.root) one ∙ at)))
        | inr same ↦ (f, same ∙ found, named')
      ]

  released-listed :
      (q : NodePath) (f : HostEntry)
      → active_at q (release p e.weight ix.root) ≡ some f
      → lookup (key f.host) (Dict.delete k ix.hosts) ≡ some q
  released-listed q f h = elim (release-SameBut p e.weight ix.root q) [
    | inl one ↦ absurd (cc (h, release_clears p e.weight ix.root, one))
    | inr kept ↦
        let old = v.listed q f (sym kept ∙ h) in
        elim (Bool-cases (key f.host == k)) [
          | inl its ↦
              let one = same_node ix q p v (sym kept ∙ h) at (ground arith) in
              absurd (cc (h, release_clears p e.weight ix.root, one))
          | inr other ↦ rw (lookup-delete (key f.host) k ix.hosts, other) old
        ]
  ]

  released-TakenOut : TakenOut k ix (e, released)
  unfolding released
  released-TakenOut = record {
    valid = record {
      well_formed = (release-Released p e ix.root v.well_formed at).well_formed;
      indexed = released-indexed;
      listed = released-listed;
      apart = delete-AreDistinct k ix.hosts v.apart;
    };
    its_key = named;
    same = entries-release p e.weight e ix.root at;
    was = (p, rw (sym named) (v.listed p e at), at);
    kept = λ q f h. elim (release-SameBut p e.weight ix.root q) [
      | inl one ↦ absurd (cc (h, release_clears p e.weight ix.root, one))
      | inr same ↦ sym same ∙ h
    ];
    shorter = length-delete_lt k p ix.hosts (rw (sym named) (v.listed p e at));
    unlisted = λ j. lookup-delete j k ix.hosts;
  }

  take_out-released : take_out k p ix ≡ some (e, released)
  unfolding take_out released
  take_out-released = elim (Option-cases (cell_at p ix.root)) [
    | inl gone ↦ absurd (cc (at, gone))
    | inr (c, found) ↦
        let its : c.entry ≡ some e = ground (arith, at, found) in
        rw (remove_active p e ix.root at, found, its)
  ]

pub take_out-TakenOut :
    (k : ℕ) (p : NodePath) (ix : Index)
    → IsValid ix
    → lookup k ix.hosts ≡ some p
    → (result : HostEntry × Index) × (take_out k p ix ≡ some result) × TakenOut k ix result
unfolding released
take_out-TakenOut k p ix v h =
    let (e, at, named) = v.indexed k p h in
    (_, take_out-released k p e ix v at named, released-TakenOut k p e ix v at named)

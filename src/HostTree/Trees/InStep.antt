-- ===== src/HostTree/Trees/InStep.antt =====
-- hosttrees.go: as long as all trees list the same keys, an operation on all of them is done to
-- all or to none.
use sia_hostdb_profiles.Prelude.{
  ℕ, ◌≡◌, refl, ap, ◌≢◌, Bool, true, false, List, [], ◌∷◌, Option, none, some, All, arith, ◌==◌,
  if◌then◌else◌, map,
}
use Prim.Native.String.{String}
use sia_hostdb_profiles.HostEntry.{SiaPublicKey, HostDbEntry}
use sia_hostdb_profiles.HostTree.Node.{HostEntry}
use sia_hostdb_profiles.HostTree.Index.{key}
use sia_hostdb_profiles.HostTree.Index.Find.{find}
use sia_hostdb_profiles.HostTree.Tree.{
  HostTree, HostTreeError, host_exists, no_such_host, Outcome, ok, err, panic, insert, modify,
  remove_host,
}
use sia_hostdb_profiles.HostTree.Tree.Methods.{
  IsConsistent, Updates, scored_entry, InsertSpec, insert_correct, ModifySpec, modify_correct,
  RemoveSpec, remove_host_correct,
}
use sia_hostdb_profiles.HostTree.Trees.{
  HostTrees, Report, done, failed, each, insert_trees, modify_trees, remove_trees,
}

abbrev pub is_some : Option HostEntry → Bool
is_some none = false
is_some (some e) = true

-- The tree is consistent and lists just the keys in `keys`.
pub record Lists (keys : ℕ → Bool) (t : HostTree) : Type 0 where
  pub consistent : IsConsistent t
  pub listed : (k : ℕ) → is_some (find k t.index) ≡ keys k

-- All trees list the same keys.
abbrev pub AreInStep : (ℕ → Bool) → HostTrees → Type 0
AreInStep keys = All (λ (t : String × HostTree). Lists keys t.1)

abbrev pub names : HostTrees → List String
names = map (λ (t : String × HostTree). t.0)

-- `keys` with the answer `b` for `k`.
abbrev pub with_key : ℕ → Bool → (ℕ → Bool) → ℕ → Bool
with_key k b keys j = if j == k then b else keys j

-- Each tree has what `m` says of it at the key `k`, and is otherwise as it was, under its name.
abbrev pub AreUpdated : ℕ → (HostTree → Option HostEntry) → HostTrees → HostTrees → Type 0
AreUpdated k m [] [] = Unit
AreUpdated k m [] (t ∷ ts) = ⊥
AreUpdated k m (t ∷ ts) [] = ⊥
AreUpdated k m ((n, t) ∷ ts) ((n', t') ∷ ts') =
    (n' ≡ n) × Updates k (m t) t t' × AreUpdated k m ts ts'

-- A loop whose body succeeds at every tree runs to its end.
each_done :
    (f : HostTree → Outcome HostTree) (k : ℕ) (m : HostTree → Option HostEntry)
    (keys keys' : ℕ → Bool)
    → ((t : HostTree)
        → Lists keys t
        → (t' : HostTree) × (f t ≡ ok t') × Lists keys' t' × Updates k (m t) t t')
    → (ts : HostTrees) → AreInStep keys ts
    → ((each f ts).1 ≡ done)
      × AreInStep keys' (each f ts).0
      × (names (each f ts).0 ≡ names ts)
      × AreUpdated k m ts (each f ts).0
unfolding each
each_done f k m keys keys' step [] h = (refl, tt, refl, tt)
each_done f k m keys keys' step ((n, t) ∷ ts) h =
    let (t', ran, lists, updates) = step t h.0 in
    let (ended, rest, same, updated) = each_done f k m keys keys' step ts h.1 in
    rw (ran, each) (ended, (lists, rest), ap (◌∷◌ n) same, (refl, updates, updated))

-- A method of a tree that ends well, with what `m` says at `k`.
abbrev Accepts : ℕ → Option HostEntry → HostTree → Outcome HostTree → Type 0
Accepts k m t (ok t') = Updates k m t t'
Accepts k m t (err e) = ⊥
Accepts k m t panic = ⊥

-- A loop whose body is refused at the first tree changes nothing.
each_refused :
    (f : HostTree → Outcome HostTree) (e : HostTreeError) (first : String × HostTree)
    (rest : HostTrees)
    → f first.1 ≡ err e
    → each f (first ∷ rest) ≡ (first ∷ rest, failed e)
unfolding each
each_refused f e first rest h = rw (h, each)

module _ (keys : ℕ → Bool) (t : HostTree) (h : Lists keys t) where
  Updates-Lists :
      (k : ℕ) (m : Option HostEntry) (t' : HostTree)
      → Updates k m t t'
      → Lists (with_key k (is_some m) keys) t'
  Updates-Lists k m t' u = record {
    consistent = u.consistent;
    listed = λ j. ground (arith, u.found j, h.listed j);
  }

  accepted :
      (k : ℕ) (m : Option HostEntry) (r : Outcome HostTree)
      → Accepts k m t r
      → (t' : HostTree) × (r ≡ ok t') × Lists (with_key k (is_some m) keys) t' × Updates k m t t'
  accepted k m (ok t') u = (t', refl, Updates-Lists k m t' u, u)
  accepted k m (err e) u = absurd u
  accepted k m panic u = absurd u

  absent : (k : ℕ) → keys k ≡ false → find k t.index ≡ none
  absent k new = ground (arith, h.listed k)

  present : (k : ℕ) → keys k ≡ true → find k t.index ≢ none
  present k old gone = ground (arith, h.listed k)

-- What the specifications of a tree's methods say when the key is not there, and when it is.
module _ (t : HostTree) where
  insert-Accepts :
      (h : HostDbEntry) (r : Outcome HostTree)
      → InsertSpec h t r
      → find (key h) t.index ≡ none
      → Accepts (key h) (some (scored_entry t h)) t r
  insert-Accepts h (ok t') s new = s.1
  insert-Accepts h (err e) s new = absurd (s.0 new)
  insert-Accepts h panic s new = absurd s

  insert_refuses :
      (h : HostDbEntry) (r : Outcome HostTree)
      → InsertSpec h t r
      → find (key h) t.index ≢ none
      → r ≡ err host_exists
  insert_refuses h (ok t') s old = absurd (old s.0)
  insert_refuses h (err e) s old = ap err s.1
  insert_refuses h panic s old = absurd s

  modify-Accepts :
      (h : HostDbEntry) (r : Outcome HostTree)
      → ModifySpec h t r
      → find (key h) t.index ≢ none
      → Accepts (key h) (some (scored_entry t h)) t r
  modify-Accepts h (ok t') s old = s.1
  modify-Accepts h (err e) s old = absurd (old s.0)
  modify-Accepts h panic s old = absurd s

  modify_refuses :
      (h : HostDbEntry) (r : Outcome HostTree)
      → ModifySpec h t r
      → find (key h) t.index ≡ none
      → r ≡ err no_such_host
  modify_refuses h (ok t') s new = absurd (s.0 new)
  modify_refuses h (err e) s new = ap err s.1
  modify_refuses h panic s new = absurd s

  remove-Accepts :
      (pk : SiaPublicKey) (r : Outcome HostTree)
      → RemoveSpec pk t r
      → find pk.key t.index ≢ none
      → Accepts pk.key none t r
  remove-Accepts pk (ok t') s old = s.1
  remove-Accepts pk (err e) s old = absurd (old s.0)
  remove-Accepts pk panic s old = absurd s

  remove_refuses :
      (pk : SiaPublicKey) (r : Outcome HostTree)
      → RemoveSpec pk t r
      → find pk.key t.index ≡ none
      → r ≡ err no_such_host
  remove_refuses pk (ok t') s new = absurd (s.0 new)
  remove_refuses pk (err e) s new = ap err s.1
  remove_refuses pk panic s new = absurd s

-- All trees changed: the loop came to its end, each tree has what `m` says of it at the key `k`, and
-- under the same names the trees list `keys'`.
abbrev pub AllDone :
    ℕ → (HostTree → Option HostEntry) → (ℕ → Bool) → HostTrees → HostTrees × Report → Type 0
AllDone k m keys' ts (ts', report) =
    (report ≡ done) × AreInStep keys' ts' × (names ts' ≡ names ts) × AreUpdated k m ts ts'

-- The entry that each tree makes of a host.
abbrev pub new_entry : HostDbEntry → HostTree → Option HostEntry
new_entry h t = some (scored_entry t h)

abbrev pub no_entry : HostTree → Option HostEntry
no_entry t = none

module _ (keys : ℕ → Bool) (first : String × HostTree) (rest : HostTrees)
    (h : AreInStep keys (first ∷ rest)) where
  abbrev trees : HostTrees
  trees = first ∷ rest

  -- On trees that list the same keys, Insert adds a new host to every tree, with the weight that
  -- the tree gives it, and changes no other host, and the trees list the same keys again; a host
  -- that is known is refused at the first tree and nothing changes.
  pub insert_trees_atomic :
      (host : HostDbEntry)
      → (keys (key host) ≡ false
          → AllDone
              (key host)
              (new_entry host)
              (with_key (key host) true keys)
              trees
              (insert_trees host trees))
        × (keys (key host) ≡ true → insert_trees host trees ≡ (trees, failed host_exists))
  unfolding insert_trees
  insert_trees_atomic host = (
    λ new.
        each_done (insert host) (key host) (new_entry host) keys (with_key (key host) true keys)
          (λ t l.
            accepted keys t l _ _ _ (
              insert-Accepts t host _ (insert_correct host t l.consistent) (absent keys t l _ new)))
          trees h,
    λ old. each_refused (insert host) _ first rest (
        insert_refuses first.1 host _ (insert_correct host first.1 h.0.consistent)
          (present keys first.1 h.0 _ old)),
  )

  -- On trees that list the same keys, Modify gives every tree the new entry of a known host, with
  -- the weight that the tree gives it, and changes no other host, and the trees list the keys that
  -- they listed; an unknown host is refused at the first tree and nothing changes.
  pub modify_trees_atomic :
      (host : HostDbEntry)
      → (keys (key host) ≡ true
          → AllDone
              (key host)
              (new_entry host)
              (with_key (key host) true keys)
              trees
              (modify_trees host trees))
        × (keys (key host) ≡ false → modify_trees host trees ≡ (trees, failed no_such_host))
  unfolding modify_trees
  modify_trees_atomic host = (
    λ old.
        each_done (modify host) (key host) (new_entry host) keys (with_key (key host) true keys)
          (λ t l.
            accepted keys t l _ _ _ (
              modify-Accepts t host _ (modify_correct host t l.consistent)
                (present keys t l _ old)))
          trees h,
    λ new. each_refused (modify host) _ first rest (
        modify_refuses first.1 host _ (modify_correct host first.1 h.0.consistent)
          (absent keys first.1 h.0 _ new)),
  )

  -- On trees that list the same keys, Remove takes a known host out of every tree and changes no
  -- other host, and the trees list the same keys again; an unknown key is refused at the first
  -- tree and nothing changes.
  pub remove_trees_atomic :
      (pk : SiaPublicKey)
      → (keys pk.key ≡ true
          → AllDone pk.key no_entry (with_key pk.key false keys) trees (remove_trees pk trees))
        × (keys pk.key ≡ false → remove_trees pk trees ≡ (trees, failed no_such_host))
  unfolding remove_trees
  remove_trees_atomic pk = (
    λ old.
        each_done (remove_host pk) pk.key no_entry keys (with_key pk.key false keys)
          (λ t l. accepted keys t l _ _ _ (
            remove-Accepts t pk _ (remove_host_correct pk t l.consistent) (present keys t l _ old)))
          trees h,
    λ new. each_refused (remove_host pk) _ first rest (
        remove_refuses first.1 pk _ (remove_host_correct pk first.1 h.0.consistent)
          (absent keys first.1 h.0 _ new)),
  )

-- ===== src/HostTree/Tree/Methods.antt =====
-- hosttree.go: Insert, Remove, Modify and Select on a consistent tree, on every branch.
use mathlib.Core.Option
use mathlib.Core.Path.{subst}
use sia_hostdb_profiles.Prelude.{
  ℕ, ◌≡◌, refl, sym, ◌∙◌, ◌≢◌, inl, inr, Bool, true, false, Option, none, some, List, arith, ◌==◌,
  if◌then◌else◌, ==_refl, Bool-cases, Option-cases,
}
use sia_hostdb_profiles.Prelude.Dict.{lookup}
use sia_hostdb_profiles.HostEntry.{SiaPublicKey, HostDbEntry}
use sia_hostdb_profiles.HostTree.Node.{HostEntry}
use sia_hostdb_profiles.HostTree.Node.Weights.{entry_of_active}
use sia_hostdb_profiles.HostTree.Index.{Index, key, place}
use sia_hostdb_profiles.HostTree.Index.Invariant.{IsValid, place-IsValid, take_out-TakenOut}
use sia_hostdb_profiles.HostTree.Index.Find.{find, find_of_active, find-place, find-take_out}
use sia_hostdb_profiles.HostTree.Tree.{
  HostTree, host_exists, no_such_host, Outcome, ok, err, panic, insert, remove_host, modify, select,
  is_blacklisted, insert_into_blacklist, remove_from_blacklist,
}
use sia_hostdb_profiles.HostTree.Tree.Blacklist.{
  IsDistinct, is_blacklisted-insert, insert-IsDistinct, is_blacklisted-remove, remove-IsDistinct,
}

-- A consistent tree: its index is valid, every host has the weight and the place on the blacklist
-- that the weight function gives it, and the blacklist names each of its keys once and no key
-- of a host that is not in the tree.
pub record IsConsistent (ht : HostTree) : Type 0 where
  pub valid : IsValid ht.index
  pub scored :
      (k : ℕ) (e : HostEntry)
      → find k ht.index ≡ some e
      → ht.weight_fn e.host ht.name ≡ (e.weight, is_blacklisted k ht.blacklist)
  pub unlisted : (k : ℕ) → find k ht.index ≡ none → is_blacklisted k ht.blacklist ≡ false
  pub distinct : IsDistinct ht.blacklist

-- The entry that a tree makes of a host.
abbrev pub scored_entry : HostTree → HostDbEntry → HostEntry
scored_entry ht h = record { host = h; weight = (ht.weight_fn h ht.name).0 }

-- `ht'` is `ht` with what `m` says at the key `k`: a host, or none.
pub record Updates (k : ℕ) (m : Option HostEntry) (ht ht' : HostTree) : Type 0 where
  pub consistent : IsConsistent ht'
  pub found : (j : ℕ) → find j ht'.index ≡ (if j == k then m else find j ht.index)
  pub same_name : ht'.name ≡ ht.name
  pub same_fn : ht'.weight_fn ≡ ht.weight_fn

-- The blacklist `bl'` is `bl` with the answer `b` for the key `k`.
record Marks (k : ℕ) (b : Bool) (bl bl' : List SiaPublicKey) : Type 0 where
  marked : (j : ℕ) → is_blacklisted j bl' ≡ (if k == j then b else is_blacklisted j bl)
  distinct : IsDistinct bl'

mark_new :
    (b : Bool) (spk : SiaPublicKey) (bl : List SiaPublicKey)
    → IsDistinct bl
    → is_blacklisted spk.key bl ≡ false
    → Marks spk.key b bl (if b then insert_into_blacklist spk bl else bl)
mark_new true spk bl d h = record {
  marked = λ j. is_blacklisted-insert j spk bl;
  distinct = insert-IsDistinct spk bl d;
}
mark_new false spk bl d h = record { marked = λ j. ground arith; distinct = d }

mark_off :
    (spk : SiaPublicKey) (bl : List SiaPublicKey)
    → IsDistinct bl
    → Marks spk.key false bl (remove_from_blacklist spk bl)
mark_off spk bl d = record {
  marked = λ j. is_blacklisted-remove j spk bl d;
  distinct = remove-IsDistinct spk bl d;
}

mark :
    (b : Bool) (spk : SiaPublicKey) (bl : List SiaPublicKey)
    → IsDistinct bl
    → Marks spk.key b bl (if b then insert_into_blacklist spk bl else remove_from_blacklist spk bl)
mark true spk bl d = record {
  marked = λ j. is_blacklisted-insert j spk bl;
  distinct = insert-IsDistinct spk bl d;
}
mark false spk bl d = mark_off spk bl d

-- What the weight function says of the host at a key, if there is one.
abbrev Agrees : HostTree → Option HostEntry → Bool → Type 0
Agrees ht none b = b ≡ false
Agrees ht (some e) b = ht.weight_fn e.host ht.name ≡ (e.weight, b)

module _ (ht : HostTree) (c : IsConsistent ht) where
  agrees :
      (k : ℕ) (m : Option HostEntry)
      → find k ht.index ≡ m
      → Agrees ht m (is_blacklisted k ht.blacklist)
  agrees k none h = c.unlisted k h
  agrees k (some e) h = c.scored k e h

  module _ (k : ℕ) (m : Option HostEntry) (b : Bool) (ix : Index) (bl : List SiaPublicKey) where
    update-Updates :
        IsValid ix
        → ((j : ℕ) → find j ix ≡ (if j == k then m else find j ht.index))
        → Marks k b ht.blacklist bl
        → Agrees ht m b
        → Updates k m ht (record ht { index = ix; blacklist = bl })
    update-Updates v found marks ok_at = record {
      consistent = record {
        valid = v;
        scored = λ j e h. still j (some e) h;
        unlisted = λ j h. still j none h;
        distinct = marks.distinct;
      };
      found = found;
      same_name = refl;
      same_fn = refl;
    }
      where
        still : (j : ℕ) (o : Option HostEntry) → find j ix ≡ o → Agrees ht o (is_blacklisted j bl)
        still j o h = elim (Bool-cases (j == k)) [
          | inl its ↦
              let at : m ≡ o = rw its at (sym (found j) ∙ h) in
              let said : is_blacklisted j bl ≡ b = ground (arith, marks.marked j) in
              rw (said, ← at) ok_at
          | inr other ↦
              let old : find j ht.index ≡ o = rw other at (sym (found j) ∙ h) in
              let said : is_blacklisted j bl ≡ is_blacklisted j ht.blacklist =
                ground (arith, marks.marked j) in
              rw said (agrees j o old)
        ]

abbrev pub InsertSpec : HostDbEntry → HostTree → Outcome HostTree → Type 0
InsertSpec h ht (ok ht') =
    (find (key h) ht.index ≡ none) × Updates (key h) (some (scored_entry ht h)) ht ht'
InsertSpec h ht (err e) = (find (key h) ht.index ≢ none) × (e ≡ host_exists)
InsertSpec h ht panic = ⊥

-- On a consistent tree Insert refuses a host with a known key, and otherwise gives a consistent
-- tree that has the host at its key and is otherwise as before.
pub insert_correct :
    (h : HostDbEntry) (ht : HostTree) → IsConsistent ht → InsertSpec h ht (insert h ht)
unfolding insert
insert_correct h ht c = elim (Option-cases (lookup (key h) ht.index.hosts)) [
  | inr (p, known) ↦
      let (e, at, named) = c.valid.indexed (key h) p known in
      let refused : insert h ht ≡ err host_exists = rw (known, insert) in
      subst (InsertSpec h ht) (sym refused)
        (λ gone. cc (rw (find_of_active (key h) p e ht.index c.valid at named) at gone), refl)
  | inl new ↦
      let absent : find (key h) ht.index ≡ none = rw new in
      let e = scored_entry ht h in
      let added : insert h ht ≡ ok (record ht { index = place e ht.index; blacklist = _ }) =
        rw (new, insert) in
      subst (InsertSpec h ht) (sym added) (
        absent,
        update-Updates ht c (key h) (some e) (ht.weight_fn h ht.name).1 _ _
            (place-IsValid e ht.index c.valid new) (find-place e ht.index c.valid new)
            (mark_new (ht.weight_fn h ht.name).1 h.public_key ht.blacklist c.distinct
              (c.unlisted (key h) absent))
            refl,
      )
]

abbrev pub RemoveSpec : SiaPublicKey → HostTree → Outcome HostTree → Type 0
RemoveSpec pk ht (ok ht') = (find pk.key ht.index ≢ none) × Updates pk.key none ht ht'
RemoveSpec pk ht (err e) = (find pk.key ht.index ≡ none) × (e ≡ no_such_host)
RemoveSpec pk ht panic = ⊥

-- On a consistent tree Remove refuses an unknown key, and otherwise gives a consistent tree that
-- has no host at the key and is otherwise as before; it never panics.
pub remove_host_correct :
    (pk : SiaPublicKey) (ht : HostTree) → IsConsistent ht → RemoveSpec pk ht (remove_host pk ht)
unfolding remove_host
remove_host_correct pk ht c = elim (Option-cases (lookup pk.key ht.index.hosts)) [
  | inl gone ↦
      let refused : remove_host pk ht ≡ err no_such_host = rw (gone, remove_host) in
      subst (RemoveSpec pk ht) (sym refused) (rw gone, refl)
  | inr (p, known) ↦
      let (result, ran, taken) = take_out-TakenOut pk.key p ht.index c.valid known in
      let (was, left) = find-take_out pk.key ht.index result taken in
      let present : find pk.key ht.index ≢ none = λ gone. cc (was, gone) in
      let removed : remove_host pk ht ≡ ok (record ht { index = result.1; blacklist = _ }) =
        rw (known, ran, remove_host) in
      subst (RemoveSpec pk ht) (sym removed) (
        present,
        update-Updates ht c pk.key none false _ _ taken.valid left
            (mark_off pk ht.blacklist c.distinct) refl,
      )
]

abbrev pub ModifySpec : HostDbEntry → HostTree → Outcome HostTree → Type 0
ModifySpec h ht (ok ht') =
    (find (key h) ht.index ≢ none) × Updates (key h) (some (scored_entry ht h)) ht ht'
ModifySpec h ht (err e) = (find (key h) ht.index ≡ none) × (e ≡ no_such_host)
ModifySpec h ht panic = ⊥

-- On a consistent tree Modify refuses an unknown key, and otherwise gives a consistent tree that
-- has the new host at its key and is otherwise as before; it never panics.
pub modify_correct :
    (h : HostDbEntry) (ht : HostTree) → IsConsistent ht → ModifySpec h ht (modify h ht)
unfolding modify
modify_correct h ht c = elim (Option-cases (lookup (key h) ht.index.hosts)) [
  | inl gone ↦
      let refused : modify h ht ≡ err no_such_host = rw (gone, modify) in
      subst (ModifySpec h ht) (sym refused) (rw gone, refl)
  | inr (p, known) ↦
      let ((old, ix), ran, taken) = take_out-TakenOut (key h) p ht.index c.valid known in
      let (was, left) = find-take_out (key h) ht.index (old, ix) taken in
      let e = scored_entry ht h in
      let free : lookup (key h) ix.hosts ≡ none =
        rw (==_refl (key h)) at (taken.unlisted (key h)) in
      let present : find (key h) ht.index ≢ none = λ gone. cc (was, gone) in
      let changed : modify h ht ≡ ok (record ht { index = place e ix; blacklist = _ }) =
        rw (known, ran, modify) in
      subst (ModifySpec h ht) (sym changed) (
        present,
        update-Updates ht c (key h) (some e) (ht.weight_fn h ht.name).1 _ _
            (place-IsValid e ix taken.valid free)
            (λ j. find-place e ix taken.valid free j ∙ overwrite j (left j))
            (mark (ht.weight_fn h ht.name).1 h.public_key ht.blacklist c.distinct) refl,
      )
]
  where
    overwrite :
        (j : ℕ) {o : Option HostEntry}
        → o ≡ (if j == key h then none else find j ht.index)
        → (if j == key h then some (scored_entry ht h) else o)
          ≡ (if j == key h then some (scored_entry ht h) else find j ht.index)
    overwrite j e = elim (Bool-cases (j == key h)) [
      | inl its ↦ rw its
      | inr other ↦ rw other (rw other at e)
    ]

-- On a consistent tree Select gives the host at the key, or reports that there is none.
pub select_correct :
    (spk : SiaPublicKey) (ht : HostTree)
    → IsConsistent ht
    → select spk ht ≡ ok (Option.map (λ e. e.host) (find spk.key ht.index))
unfolding select
select_correct spk ht c = elim (Option-cases (lookup spk.key ht.index.hosts)) [
  | inl gone ↦ rw (gone, select)
  | inr (p, known) ↦
      let (e, at, _) = c.valid.indexed spk.key p known in
      rw (known, at, entry_of_active p e ht.root at, select)
]

-- ===== src/HostTree/Random/Selected.antt =====
-- hosttree.go, `SelectRandom` as a whole: which hosts it gives, and that the tree is as before.
use sia_hostdb_profiles.Prelude.{
  ℕ, ◌≤◌, ◌<◌, ◌≡◌, refl, sym, ◌∙◌, true, false, none, some, List, [], ◌∷◌, ◌++◌, All, length,
  arith,
}
use sia_hostdb_profiles.Prelude.Dict.{Dict, lookup}
use sia_hostdb_profiles.HostEntry.{SiaPublicKey, HostDbEntry}
use sia_hostdb_profiles.HostTree.Node.{HostEntry, NodePath}
use sia_hostdb_profiles.HostTree.Index.{Index}
use sia_hostdb_profiles.HostTree.Index.Invariant.{IsValid}
use sia_hostdb_profiles.HostTree.Index.Find.{find}
use sia_hostdb_profiles.HostTree.Tree.{HostTree, is_blacklisted}
use sia_hostdb_profiles.HostTree.Tree.Methods.{IsConsistent}
use sia_hostdb_profiles.HostTree.Random.{
  Draw, is_online, withhold, put_back, select_random, wants_more,
}
use sia_hostdb_profiles.HostTree.Random.Keys.{among, has_key, or_else, NoRepeats}
use sia_hostdb_profiles.HostTree.Random.Drawing.{IsPartition, put_back_restores}
use sia_hostdb_profiles.HostTree.Random.Withhold.{withhold-Withheld}
use sia_hostdb_profiles.HostTree.Random.Draws.{IsEligible, IsPositive, IsDrawing, draws-IsDrawing}

-- The keys that the call leaves out: those that it is given, and the blacklist.
abbrev pub ignored_keys : List SiaPublicKey → HostTree → List SiaPublicKey
ignored_keys ignore ht = ignore ++ ht.blacklist

-- What a call for `n` hosts gives, and the tree that it leaves.
pub record Selected (n : ℕ) (ignore : List SiaPublicKey) (ht : HostTree) (hosts : List HostDbEntry)
    (ht' : HostTree) : Type 0 where
  pub few : length hosts ≤ n
  pub no_repeats : NoRepeats hosts
  pub sound : All (IsEligible ht.index (ignored_keys ignore ht)) hosts
  pub complete :
      length hosts < n
      → (k : ℕ) (e : HostEntry) → find k ht.index ≡ some e
      → is_blacklisted k (ignored_keys ignore ht) ≡ false
      → is_online e.host ≡ true
      → has_key k hosts ≡ true
  pub consistent : IsConsistent ht'
  pub restored : (k : ℕ) → find k ht'.index ≡ find k ht.index

start-IsPartition : (ix : Index) → IsValid ix → IsPartition ix ix []
unfolding among
start-IsPartition ix v = record {
  valid = v;
  unique = tt;
  whole = λ k. elim (find k ix) as (λ o. or_else o none ≡ o) [ none ↦ refl | some e ↦ refl ];
  apart = λ k h. refl;
}

lookup-empty : (k : ℕ) (hosts : Dict NodePath) → length hosts ≡ 0 → lookup k hosts ≡ none
lookup-empty k [] h = refl
lookup-empty k ((j, p) ∷ hosts) h = absurd (omega arith)

-- A tree whose keys lead where they led before is as consistent as it was.
restored-IsConsistent :
    (ht : HostTree) (ix : Index)
    → IsConsistent ht
    → IsValid ix
    → ((k : ℕ) → find k ix ≡ find k ht.index)
    → IsConsistent (record ht { index = ix })
restored-IsConsistent ht ix c v same = record {
  valid = v;
  scored = λ k e h. c.scored k e (sym (same k) ∙ h);
  unlisted = λ k h. c.unlisted k (sym (same k) ∙ h);
  distinct = c.distinct;
}

module _ (rand : ℕ → ℕ → ℕ) (below : (i b : ℕ) → 0 < b → rand i b < b) (n : ℕ)
    (ignore : List SiaPublicKey) (ht : HostTree) (c : IsConsistent ht)
    (positive : IsPositive ht.index) where
  -- The state in which the drawing begins.
  begin :
      (d : Draw) × (withhold
          (ignored_keys ignore ht)
          (record { index = ht.index; hosts = []; removed = [] })
        ≡ some d)
      × IsDrawing ht.index (ignored_keys ignore ht) n d
  unfolding among has_key
  begin =
      let (d, ran, held) =
        withhold-Withheld ht.index (ignored_keys ignore ht) (ignored_keys ignore ht)
          (record { index = ht.index; hosts = []; removed = [] })
          (start-IsPartition ht.index c.valid) (λ k h. h) (λ k e h. cc) in
      (
        d,
        ran,
        record {
          part = held.part;
          withheld = held.gone;
          done = λ k e out free. absurd (cc (held.out k e out, free));
          fresh = λ k h. rw held.same_hosts;
          no_repeats = rw held.same_hosts tt;
          sound = rw held.same_hosts tt;
          few = rw held.same_hosts (omega arith);
        },
      )

  -- When the loop stops short of `n` hosts, none is left in the tree.
  all_done :
      (d : Draw)
      → IsDrawing ht.index (ignored_keys ignore ht) n d
      → wants_more n d ≡ false
      → length d.hosts < n
      → (k : ℕ) (e : HostEntry) → find k ht.index ≡ some e
      → is_blacklisted k (ignored_keys ignore ht) ≡ false
      → is_online e.host ≡ true
      → has_key k d.hosts ≡ true
  all_done d v stop short k e there free on =
      let empty : length d.index.hosts ≡ 0 = ground arith in
      let gone : find k d.index ≡ none = rw (lookup-empty k d.index.hosts empty) in
      v.done k e (ground (arith, v.part.whole k, gone, there)) free on

  -- On a consistent tree whose hosts all weigh something, SelectRandom runs through for every
  -- source of random numbers below their bounds. It gives at most `n` hosts, each once, all of
  -- them online, in the tree and neither ignored nor blacklisted; if it gives fewer than `n`, it
  -- gives all such hosts. The tree is consistent again, and every key leads to the host that it
  -- led to before.
  pub select_random_correct :
      (hosts : List HostDbEntry) × (ht' : HostTree) × (select_random rand n ignore ht
        ≡ some (hosts, ht'))
      × Selected n ignore ht hosts ht'
  unfolding select_random
  select_random_correct =
      let (d, ran, v) = begin in
      let (d', ran', v', stop) =
        draws-IsDrawing ht.index (ignored_keys ignore ht) n positive rand below
          (length d.index.hosts) 0 d (omega arith) v in
      let (valid, restored) = put_back_restores ht.index d'.index d'.removed v'.part in
      (
        d'.hosts,
        record ht { index = put_back d'.removed d'.index },
        rw (ran, ran'),
        record {
          few = v'.few;
          no_repeats = v'.no_repeats;
          sound = v'.sound;
          complete = all_done d' v' stop;
          consistent = restored-IsConsistent ht _ c valid restored;
          restored = restored;
        },
      )

-- ===== src/HostTree/Random/Draws.antt =====
-- hosttree.go, `SelectRandom`: the loop that draws hosts by weight.
use mathlib.Core.Path.{subst}
use sia_hostdb_profiles.Prelude.{
  ℕ, zero, suc, ◌≤◌, ◌<◌, ◌≡◌, refl, sym, ◌∙◌, ◌≢◌, inl, inr, true, false, none, some, List, [],
  ◌∷◌, ◌++◌, All, All-append, length, length-append, arith, ◌==◌, if◌then◌else◌, if_rule,
  Bool-cases, Option-cases,
}
use sia_hostdb_profiles.Prelude.Dict.{Dict, lookup}
use sia_hostdb_profiles.Prelude.Options.{some_inj}
use sia_hostdb_profiles.HostEntry.{SiaPublicKey, HostDbEntry}
use sia_hostdb_profiles.HostTree.Node.{HostEntry, NodePath, weight, node_at_weight, cell_at}
use sia_hostdb_profiles.HostTree.Node.Weights.{active_at, active-le-weight}
use sia_hostdb_profiles.HostTree.Node.Pick.{node_at_weight_total}
use sia_hostdb_profiles.HostTree.Index.{Index, key, take_out}
use sia_hostdb_profiles.HostTree.Index.Invariant.{TakenOut, take_out-TakenOut}
use sia_hostdb_profiles.HostTree.Index.Find.{find, find-take_out, find_of_active}
use sia_hostdb_profiles.HostTree.Tree.{is_blacklisted}
use sia_hostdb_profiles.HostTree.Random.{Draw, is_online, draw_one, draws, wants_more}
use sia_hostdb_profiles.HostTree.Random.Keys.{
  among, among-append, has_key, has_key-append, NoRepeats, append-NoRepeats,
}
use sia_hostdb_profiles.HostTree.Random.Drawing.{IsPartition, take_out-IsPartition}

-- A host that the call may give: online, not ignored, and in the tree at the start.
pub record IsEligible (start : Index) (ignored : List SiaPublicKey) (h : HostDbEntry) : Type 0 where
  pub online : is_online h ≡ true
  pub not_ignored : is_blacklisted (key h) ignored ≡ false
  pub known : (w : ℕ) × (find (key h) start ≡ some (record { host = h; weight = w }))

-- Every host in the index weighs something.
abbrev pub IsPositive : Index → Type 0
IsPositive ix = (k : ℕ) (e : HostEntry) → find k ix ≡ some e → 0 < e.weight

head_listed :
    (hosts : Dict NodePath)
    → 0 < length hosts
    → (k : ℕ) × (p : NodePath) × (lookup k hosts ≡ some p)
head_listed [] h = absurd (omega arith)
head_listed ((k, p) ∷ hosts) h = (k, p, ground arith)

-- The state after a round that took `e` out.
abbrev pub drawn : Draw → HostEntry → Index → Draw
drawn d e ix = record {
  index = ix;
  hosts = if is_online e.host then d.hosts ++ e.host ∷ [] else d.hosts;
  removed = d.removed ++ e ∷ [];
}

draw_one-eq :
    (rand : ℕ → ℕ) (d : Draw) (p : NodePath) (e e' : HostEntry) (ix : Index)
    → 0 < weight d.index.root
    → node_at_weight (rand (weight d.index.root)) d.index.root ≡ some p
    → active_at p d.index.root ≡ some e
    → take_out (key e.host) p d.index ≡ some (e', ix)
    → draw_one rand d ≡ some (drawn d e ix)
unfolding draw_one
draw_one-eq rand d p e e' ix heavy found at ran = elim (Option-cases (cell_at p d.index.root)) [
  | inl gone ↦ absurd (cc (at, gone))
  | inr (c, stands) ↦
      let its : c.entry ≡ some e = ground (arith, at, stands) in
      let test : (weight d.index.root == 0) ≡ false = ground arith in
      rw (test, found, stands, its, ran, draw_one)
]

module _ (start : Index) (ignored : List SiaPublicKey) (n : ℕ) where
  -- What holds between two rounds.
  pub record IsDrawing (d : Draw) : Type 0 where
    pub part : IsPartition start d.index d.removed
    pub withheld : (k : ℕ) → is_blacklisted k ignored ≡ true → find k d.index ≡ none
    pub done :
        (k : ℕ) (e : HostEntry)
        → among k d.removed ≡ some e
        → is_blacklisted k ignored ≡ false
        → is_online e.host ≡ true
        → has_key k d.hosts ≡ true
    pub fresh : (k : ℕ) → find k d.index ≢ none → has_key k d.hosts ≡ false
    pub no_repeats : NoRepeats d.hosts
    pub sound : All (IsEligible start ignored) d.hosts
    pub few : length d.hosts ≤ n

  module _ (d : Draw) (v : IsDrawing d) (e : HostEntry) (ix : Index)
      (taken : TakenOut (key e.host) d.index (e, ix)) where
    here : find (key e.host) d.index ≡ some e
    here = (find-take_out (key e.host) d.index (e, ix) taken).0

    left : (j : ℕ) → find j ix ≡ (if j == key e.host then none else find j d.index)
    left = (find-take_out (key e.host) d.index (e, ix) taken).1

    chosen-IsEligible : is_online e.host ≡ true → IsEligible start ignored e.host
    chosen-IsEligible on = record {
      online = on;
      not_ignored = ground (arith, v.withheld (key e.host), here);
      known = (e.weight, ground (arith, v.part.whole (key e.host), here));
    }

    has_key-drawn :
        (k : ℕ)
        → has_key k (drawn d e ix).hosts ≡ (
            if is_online e.host
            then (if k == key e.host then true else has_key k d.hosts)
            else has_key k d.hosts)
    has_key-drawn k = ground (arith, has_key-append k d.hosts e.host)

    drawn-IsDrawing : length d.hosts < n → IsDrawing (drawn d e ix)
    drawn-IsDrawing room =
        let new : has_key (key e.host) d.hosts ≡ false =
          v.fresh (key e.host) (λ gone. cc (gone, here)) in
        record {
          part = take_out-IsPartition start d.index d.removed (key e.host) e ix v.part taken;
          withheld = λ k h. ground (arith, left k, v.withheld k);
          done =
              λ k f h i o. ground (arith, has_key-drawn k, among-append k d.removed e, v.done k f);
          fresh = λ k h. ground (arith, has_key-drawn k, left k, v.fresh k);
          no_repeats =
              if_rule NoRepeats (is_online e.host)
                (λ _. append-NoRepeats d.hosts e.host v.no_repeats new) (λ _. v.no_repeats);
          sound =
              if_rule (All (IsEligible start ignored)) (is_online e.host)
                (λ on. All-append _ d.hosts (e.host ∷ []) v.sound (chosen-IsEligible on, tt))
                (λ _. v.sound);
          few =
              if_rule (λ (hs : List HostDbEntry). length hs ≤ n) (is_online e.host)
                (λ _. omega (arith, length-append d.hosts (e.host ∷ []))) (λ _. v.few);
        }

  module _ (positive : IsPositive start) (d : Draw) (v : IsDrawing d) where
    -- While a host is left the tree has a weight to draw from.
    weight_left : 0 < length d.index.hosts → 0 < weight d.index.root
    weight_left some_left =
        let (k, p, found) = head_listed d.index.hosts some_left in
        let (e, at, named) = v.part.valid.indexed k p found in
        let listed : find k d.index ≡ some e = rw found at in
        let known : find k start ≡ some e = ground (arith, v.part.whole k, listed) in
        omega
          (arith, positive k e known, active-le-weight p e d.index.root v.part.valid.well_formed at)

    -- A round with a number below the weight draws a host and takes it out.
    draw_one-drawn :
        (rand : ℕ → ℕ)
        → 0 < length d.index.hosts
        → (0 < weight d.index.root → rand (weight d.index.root) < weight d.index.root)
        → (e : HostEntry) × (ix : Index) × (draw_one rand d ≡ some (drawn d e ix))
          × TakenOut (key e.host) d.index (e, ix)
    draw_one-drawn rand some_left below =
        let w = weight d.index.root in
        let heavy : 0 < w = weight_left some_left in
        let valid = v.part.valid in
        let (p, e, found, at) =
          node_at_weight_total (rand w) d.index.root valid.well_formed (below heavy) in
        let ((e', ix), ran, taken) =
          take_out-TakenOut (key e.host) p d.index valid (valid.listed p e at) in
        let one : e' ≡ e = some_inj (
          sym (find-take_out (key e.host) d.index (e', ix) taken).0
          ∙ find_of_active (key e.host) p e d.index valid at refl) in
        (
          e,
          ix,
          draw_one-eq rand d p e e' ix heavy found at ran,
          subst (λ f. TakenOut (key e.host) d.index (f, ix)) one taken,
        )

module _ (start : Index) (ignored : List SiaPublicKey) (n : ℕ) (positive : IsPositive start)
    (rand : ℕ → ℕ → ℕ) (below : (i b : ℕ) → 0 < b → rand i b < b) where
  -- With enough fuel the loop ends, and it ends because it has enough hosts or none is left.
  pub draws-IsDrawing :
      (fuel i : ℕ) (d : Draw)
      → length d.index.hosts ≤ fuel
      → IsDrawing start ignored n d
      → (d' : Draw) × (draws rand n fuel i d ≡ some d')
        × IsDrawing start ignored n d'
        × (wants_more n d' ≡ false)
  unfolding draws
  draws-IsDrawing zero i d f v =
      let enough : wants_more n d ≡ false = ground arith in (d, rw (enough, draws), v, enough)
  draws-IsDrawing (suc fuel) i d f v = elim (Bool-cases (wants_more n d)) [
    | inr enough ↦ (d, rw (enough, draws), v, enough)
    | inl more ↦
        let (e, ix, ran, taken) =
          draw_one-drawn start ignored n positive d v (rand i) (ground arith)
            (below i (weight d.index.root)) in
        let (d', ran', v', enough) =
          draws-IsDrawing fuel (suc i) (drawn d e ix) (omega (arith, taken.shorter))
            (drawn-IsDrawing start ignored n d v e ix taken (ground arith)) in
        (d', rw (more, ran, draws) ran', v', enough)
  ]

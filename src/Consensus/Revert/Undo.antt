-- ===== src/Consensus/Revert/Undo.antt =====
-- diffs.go: the diffs of one kind, which are reverted in reverse, and a state of which they change
-- one part.
use sia_hostdb_profiles.Prelude.{◌≡◌, refl, ◌∙◌, List, [], ◌∷◌, ◌++◌, Option, none, some}
use sia_hostdb_profiles.Prelude.Options.{◌>>=◌, some_inj}
use sia_hostdb_profiles.Prelude.Monad.{after}
use sia_hostdb_profiles.Consensus.Diffs.{run, run_back}

module _ {A S : Type 0} where
  -- Each step can be done where it stands, and `g` undoes it.
  pub data Undoes (f g : A → S → Option S) : List A → S → S → Type 0 where
    nil : {s : S} → Undoes f g [] s s
    cons :
        {d : A} {ds : List A} {s t u : S}
        → f d s ≡ some t
        → g d t ≡ some s
        → Undoes f g ds t u
        → Undoes f g (d ∷ ds) s u

  module _ {f g : A → S → Option S} where
    pub Undoes-run : {ds : List A} {s u : S} → Undoes f g ds s u → run f ds s ≡ some u
    unfolding run
    Undoes-run Undoes.nil = refl
    Undoes-run (Undoes.cons {d} {ds} {s} {t} {u} p q h) = rw p (Undoes-run h)

    pub Undoes-run_back : {ds : List A} {s u : S} → Undoes f g ds s u → run_back g ds u ≡ some s
    unfolding run_back
    Undoes-run_back Undoes.nil = refl
    Undoes-run_back (Undoes.cons {d} {ds} {s} {t} {u} p q h) = rw (Undoes-run_back h) q

    pub Undoes-snoc :
        {ds : List A} {s t u : S} (a : A)
        → Undoes f g ds s t
        → f a t ≡ some u
        → g a u ≡ some t
        → Undoes f g (ds ++ (a ∷ [])) s u
    Undoes-snoc a Undoes.nil p q = Undoes.cons p q Undoes.nil
    Undoes-snoc a (Undoes.cons p' q' h) p q = Undoes.cons p' q' (Undoes-snoc a h p q)

-- A part of a state `V`, and a larger state that is seen as a `V`.
module _ {S V : Type 0} (see : S → V) {T : Type 0} (part : V → T) (with_part : T → V → V)
    (part-with_part : (t : T) (v : V) → part (with_part t v) ≡ t)
    (with_part-with_part : (t u : T) (v : V) → with_part t (with_part u v) ≡ with_part t v)
    (with_part-part : (v : V) → with_part (part v) v ≡ v) where
  -- `f` acts as `g` on the part and leaves the rest.
  abbrev pub Acts : (S → Option S) → (T → Option T) → Type 0
  Acts f g = (s : S) → after see (f s) ≡ after (λ t. with_part t (see s)) (g (part (see s)))

  with_twice :
      (s : S) (t : T) (n : Option T)
      → after (λ u. with_part u (with_part t (see s))) n ≡ after (λ u. with_part u (see s)) n
  with_twice s t none = refl
  with_twice s t (some u) = rw with_part-with_part

  bind_at :
      (f : S → Option S) (g : T → Option T) (s : S) (m : Option S) (n : Option T)
      → after see m ≡ after (λ t. with_part t (see s)) n
      → Acts f g
      → after see (m >>= f) ≡ after (λ t. with_part t (see s)) (n >>= g)
  bind_at f g s none none h acts = refl
  bind_at f g s none (some t) h acts = cc
  bind_at f g s (some s') none h acts = cc
  bind_at f g s (some s') (some t) h acts =
      acts s' ∙ rw (some_inj h, part-with_part t (see s)) (with_twice s t (g t))

  module _ {A : Type 0} (f : A → S → Option S) (g : A → T → Option T) where
    pub run-Acts : ((a : A) → Acts (f a) (g a)) → (ds : List A) → Acts (run f ds) (run g ds)
    unfolding run
    run-Acts acts [] s = rw with_part-part
    run-Acts acts (d ∷ ds) s =
        bind_at (run f ds) (run g ds) s (f d s) (g d (part (see s))) (acts d s) (run-Acts acts ds)

    pub run_back-Acts :
        ((a : A) → Acts (f a) (g a)) → (ds : List A) → Acts (run_back f ds) (run_back g ds)
    unfolding run_back
    run_back-Acts acts [] s = rw with_part-part
    run_back-Acts acts (d ∷ ds) s =
        bind_at (f d) (g d) s (run_back f ds s) (run_back g ds (part (see s)))
          (run_back-Acts acts ds s) (acts d)

-- ===== src/Machine/Triple.antt =====
-- Partial correctness with a precondition, on what a process has done so far: one rule for each
-- construct of the code.
use universe_native_linux_in.Common.{
  ◌≡◌, refl, Bool, true, false, Option, none, some, List, if◌then◌else◌,
}
use universe_native_linux_in.Machine.{
  State, M, Run, returns, exits, faults, diverges, Event, after, checked, diverge, ◌>>=◌,
}
use universe_native_linux_in.Machine.Ensures.{Ensures, returned}

-- From a trace with P, each run that returns leaves a trace with Q.
pub record Triple {S A : Type 0} (P : List Event → Type 0) (m : M S A) (Q : A → List Event → Type 0)
    : Type 0 where
  pub holds : (s : State S) (v : A) (t : State S) → P s.trace → m s ≡ returns v t → Q v t.trace

-- It keeps what is known of the trace.
abbrev pub Keeps : {S A : Type 0} → (List Event → Type 0) → M S A → Type 0
Keeps P m = Triple P m (λ _. P)

module _ {S A : Type 0} {P : List Event → Type 0} {Q : A → List Event → Type 0} where
  pub triple_step :
      {f : State S → A} {g : State S → State S}
      → ((s : State S) → P s.trace → Q (f s) (g s).trace)
      → Triple P (λ s. returns (f s) (g s)) Q
  triple_step {f} {g} h = record {
    holds = λ s v t p run. returned (λ u s. Q u s.trace) (f s) v (g s) t run (h s p);
  }

  pub triple_if :
      (b : Bool) {m k : M S A}
      → (b ≡ true → Triple P m Q)
      → (b ≡ false → Triple P k Q)
      → Triple P (if b then m else k) Q
  triple_if true x y = x refl
  triple_if false x y = y refl

  pub triple_pre :
      {P' : List Event → Type 0} {m : M S A}
      → ((trace : List Event) → P trace → P' trace)
      → Triple P' m Q
      → Triple P m Q
  triple_pre weaker h = record { holds = λ s v t p run. h.holds s v t (weaker s.trace p) run }

  -- What is known of the value whatever the trace is.
  pub triple_ensures :
      {m : M S A} {R : A → Type 0}
      → Ensures m (λ v _. R v)
      → Triple P m Q
      → Triple P m (λ v trace. Q v trace × R v)
  triple_ensures e h = record { holds = λ s v t p run. (h.holds s v t p run, e.holds s v t run) }

pub checked-Keeps :
    {S A : Type 0} {P : List Event → Type 0} (o : Option A) → Keeps P (checked {S = S} o)
checked-Keeps none = record { holds = λ s v t p run. absurd (cc) }
checked-Keeps (some u) = triple_step λ s p. p

pub diverge-Keeps : {S A : Type 0} {P : List Event → Type 0} → Keeps P (diverge {S = S} {A = A})
diverge-Keeps = record { holds = λ s v t p run. absurd (cc) }

module _ {S A B : Type 0} {P : List Event → Type 0} {Q : B → List Event → Type 0} where
  pub triple_bind :
      {R : A → List Event → Type 0} {m : M S A} {f : A → M S B}
      → Triple P m R
      → ((v : A) → Triple (R v) (f v) Q)
      → Triple P (m >>= f) Q
  unfolding ◌>>=◌
  triple_bind {R} {m} {f} first second = record {
    holds = λ s v t p run. follow (m s) (λ u w e. first.holds s u w p e) v t run;
  }
    where
      follow :
          (r : Run S A)
          → ((u : A) (w : State S) → r ≡ returns u w → R u w.trace)
          → (v : B) (t : State S) → after r f ≡ returns v t
          → Q v t.trace
      follow (returns u w) q v t run = (second u).holds w v t (q u w refl) run
      follow (exits c w) q v t run = absurd (cc)
      follow faults q v t run = absurd (cc)
      follow diverges q v t run = absurd (cc)

  -- A first step that changes nothing of what is known.
  pub triple_then :
      {m : M S A} {f : A → M S B} → Keeps P m → ((v : A) → Triple P (f v) Q) → Triple P (m >>= f) Q
  triple_then {m} {f} first second = triple_bind {m = m} {f = f} first second

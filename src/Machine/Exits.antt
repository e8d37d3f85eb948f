-- ===== src/Machine/Exits.antt =====
-- With which codes a program ends by exit: one rule for each construct of the code.
use mathlib.Core.Path.{subst}
use universe_native_linux_in.Common.{
  ◌≡◌, refl, Bool, true, false, Option, none, some, ℤ, if◌then◌else◌,
}
use universe_native_linux_in.Machine.{
  State, M, Run, returns, exits, faults, diverges, after, checked, exit, ◌>>=◌,
}
use universe_native_linux_in.Machine.Ensures.{Ensures}

-- Each code with which m ends the program is one of E.
pub record Exits {S A : Type 0} (m : M S A) (E : ℤ → Type 0) : Type 0 where
  pub holds : (s : State S) (c : ℤ) (t : State S) → m s ≡ exits c t → E c

module _ {S : Type 0} {E : ℤ → Type 0} where
  -- A step that returns.
  pub exits_step :
      {A : Type 0} (f : State S → A) (g : State S → State S)
      → Exits {S = S} {A = A} (λ s. returns (f s) (g s)) E
  exits_step f g = record { holds = λ s c t h. absurd (cc) }

  pub exits_checked : {A : Type 0} (o : Option A) → Exits {S = S} (checked o) E
  exits_checked none = record { holds = λ s c t h. absurd (cc) }
  exits_checked (some v) = record { holds = λ s c t h. absurd (cc) }

  pub exits_diverge : {A : Type 0} → Exits {S = S} {A = A} (λ s. diverges) E
  exits_diverge = record { holds = λ s c t h. absurd (cc) }

  pub exits_exit : {A : Type 0} (c : ℤ) → E c → Exits {S = S} {A = A} (exit c) E
  exits_exit c e = record { holds = λ s c' t h. let same : c ≡ c' = cc in subst E same e }

  pub exits_if :
      {A : Type 0} (b : Bool) {m k : M S A}
      → Exits m E
      → (b ≡ false → Exits k E)
      → Exits (if b then m else k) E
  exits_if true x y = x
  exits_if false x y = y refl

  -- The same, where the branch needs to know its test.
  pub exits_when :
      {A : Type 0} (b : Bool) {m k : M S A}
      → (b ≡ true → Exits m E)
      → (b ≡ false → Exits k E)
      → Exits (if b then m else k) E
  exits_when true x y = x refl
  exits_when false x y = y refl

  pub exits_bind :
      {A B : Type 0} {Q : A → Type 0} {m : M S A} {f : A → M S B}
      → Exits m E
      → Ensures m (λ v _. Q v)
      → ((v : A) → Q v → Exits (f v) E)
      → Exits (m >>= f) E
  unfolding ◌>>=◌
  exits_bind {A} {B} {Q} {m} {f} first value second = record {
    holds = λ s c t h. follow (m s) (first.holds s) (value.holds s) c t h;
  }
    where
      follow :
          (r : Run S A)
          → ((c : ℤ) (t : State S) → r ≡ exits c t → E c)
          → ((u : A) (s : State S) → r ≡ returns u s → Q u)
          → (c : ℤ) (t : State S) → after r f ≡ exits c t
          → E c
      follow (returns u s) one q c t h = (second u (q u s refl)).holds s c t h
      follow (exits d s) one q c t h = one c t (cc)
      follow faults one q c t h = absurd (cc)
      follow diverges one q c t h = absurd (cc)

  pub exits_then :
      {A B : Type 0} {m : M S A} {f : A → M S B}
      → Exits m E
      → ((v : A) → Exits (f v) E)
      → Exits (m >>= f) E
  exits_then {m} {f} first second =
      exits_bind {Q = λ _. Unit {0}} {m = m} {f = f} first (record { holds = λ s v t h. tt })
        (λ v _. second v)

pub ruleset exit_rules = (exits_step, exits_checked, exits_diverge, exits_if, exits_then)

-- ===== src/Machine/Ensures.antt =====
-- Partial correctness: what holds of the value and the last state of every run that returns, with
-- one rule for each construct of the code.
use universe_native_linux_in.Common.{
  ◌≡◌, refl, Bool, true, false, Option, none, some, if◌then◌else◌,
}
use mathlib.Core.Path.{subst}
use universe_native_linux_in.Machine.{
  State, M, Run, returns, exits, faults, diverges, after, pure, checked, ◌>>=◌,
}

pub record Ensures {S A : Type 0} (m : M S A) (P : A → State S → Type 0) : Type 0 where
  pub holds : (s : State S) (v : A) (t : State S) → m s ≡ returns v t → P v t

pub returned :
    {S A : Type 0} (P : A → State S → Type 0) (u v : A) (s t : State S)
    → returns u s ≡ returns v t
    → P u s
    → P v t
returned P u v s t h p =
    let e : u ≡ v = cc in let e' : s ≡ t = cc in subst (P v) e' (subst (λ x. P x s) e p)

module _ {S A : Type 0} {P : A → State S → Type 0} where
  pub ensures_pure : {v : A} → ((s : State S) → P v s) → Ensures (pure v) P
  ensures_pure {v} p = record { holds = λ s w t h. returned P v w s t h (p s) }

  pub ensures_if :
      (b : Bool) {m k : M S A}
      → (b ≡ true → Ensures m P)
      → (b ≡ false → Ensures k P)
      → Ensures (if b then m else k) P
  ensures_if true x y = x refl
  ensures_if false x y = y refl

module _ {S A B : Type 0} {P : B → State S → Type 0} where
  -- What the first step ensures of its value is known in the second.
  pub ensures_bind :
      {Q : A → Type 0} {m : M S A} {f : A → M S B}
      → Ensures m (λ v _. Q v)
      → ((v : A) → Q v → Ensures (f v) P)
      → Ensures (m >>= f) P
  unfolding ◌>>=◌
  ensures_bind {Q} {m} {f} first second = record {
    holds = λ s v t h. follow (m s) (first.holds s) v t h;
  }
    where
      follow :
          (r : Run S A)
          → ((u : A) (s : State S) → r ≡ returns u s → Q u)
          → (v : B) (t : State S) → after r f ≡ returns v t
          → P v t
      follow (returns u s) q v t h = (second u (q u s refl)).holds s v t h
      follow (exits c s) q v t h = absurd (cc)
      follow faults q v t h = absurd (cc)
      follow diverges q v t h = absurd (cc)

  pub ensures_then : (m : M S A) {f : A → M S B} → ((v : A) → Ensures (f v) P) → Ensures (m >>= f) P
  ensures_then m {f} second =
      ensures_bind {Q = λ _. Unit} {m = m} {f = f} (record { holds = λ s v t h. tt })
        (λ v _. second v)

-- Behind a read the value is known to be what was read.
pub ensures_read :
    {S A B : Type 0} {P : B → State S → Type 0} (o : Option A) {f : A → M S B}
    → ((v : A) → o ≡ some v → Ensures (f v) P)
    → Ensures (checked o >>= f) P
unfolding ◌>>=◌
ensures_read none second = record { holds = λ s v t h. absurd (cc) }
ensures_read (some u) second = record { holds = λ s v t h. (second u refl).holds s v t h }

-- A run of two steps that returns is a run of the first and then one of the second.
pub after_returns :
    {S A B : Type 0} (r : Run S A) (f : A → M S B) (v : B) (t : State S)
    → after r f ≡ returns v t
    → (u : A) × (s : State S) × (r ≡ returns u s) × (f u s ≡ returns v t)
after_returns (returns u s) f v t h = (u, s, refl, h)
after_returns (exits c s) f v t h = absurd (cc)
after_returns faults f v t h = absurd (cc)
after_returns diverges f v t h = absurd (cc)

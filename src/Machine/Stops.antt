-- ===== src/Machine/Stops.antt =====
-- Why a step may use up its fuel: one rule for each construct of the code.
use universe_native_linux_in.Common.{
  ◌≡◌, refl, Bool, true, false, Option, none, some, ℕ, List, ℤ, if◌then◌else◌,
}
use universe_native_linux_in.Machine.{
  Os, State, M, Run, local_object, call_recv, returns, exits, faults, diverges, after, checked,
  exit, ◌>>=◌,
}

-- If m is still in a loop when its fuel is used up, then Z.
pub record Stops {S A : Type 0} (m : M S A) (Z : Type 0) : Type 0 where
  pub holds : (s : State S) → m s ≡ diverges → Z

pub weaken : {S A Y Z : Type 0} {m : M S A} → (Y → Z) → Stops m Y → Stops m Z
weaken f h = record { holds = λ s d. f (h.holds s d) }

module _ {S : Type 0} {Z : Type 0} where
  -- A step that returns.
  pub stops_step :
      {A : Type 0} (f : State S → A) (g : State S → State S)
      → Stops {S = S} {A = A} (λ s. returns (f s) (g s)) Z
  stops_step f g = record { holds = λ s h. absurd (cc) }

  pub stops_exit : {A : Type 0} (c : ℤ) → Stops {S = S} {A = A} (exit c) Z
  stops_exit c = record { holds = λ s h. absurd (cc) }

  pub stops_checked : {A : Type 0} (o : Option A) → Stops {S = S} (checked o) Z
  stops_checked none = record { holds = λ s h. absurd (cc) }
  stops_checked (some v) = record { holds = λ s h. absurd (cc) }

  pub stops_if :
      {A : Type 0} (b : Bool) {m k : M S A}
      → (b ≡ true → Stops m Z)
      → (b ≡ false → Stops k Z)
      → Stops (if b then m else k) Z
  stops_if true x y = x refl
  stops_if false x y = y refl

  pub stops_then :
      {A B : Type 0} {m : M S A} {f : A → M S B}
      → Stops m Z
      → ((v : A) → Stops (f v) Z)
      → Stops (m >>= f) Z
  unfolding ◌>>=◌
  stops_then {A} {B} {m} {f} first second = record { holds = λ s h. follow (m s) (first.holds s) h }
    where
      follow : (r : Run S A) → (r ≡ diverges → Z) → after r f ≡ diverges → Z
      follow (returns u t) one h = (second u).holds t h
      follow (exits c t) one h = absurd (cc)
      follow faults one h = absurd (cc)
      follow diverges one h = one refl

  -- The same, where the second step may use how the first one went.
  pub stops_run :
      {A B : Type 0} {m : M S A} {f : A → M S B}
      → Stops m Z
      → ((v : A) (s t : State S) → m s ≡ returns v t → Stops (f v) Z)
      → Stops (m >>= f) Z
  unfolding ◌>>=◌
  stops_run {A} {B} {m} {f} first second = record { holds = λ s h. follow s (m s) refl h }
    where
      follow : (s : State S) (r : Run S A) → m s ≡ r → after r f ≡ diverges → Z
      follow s (returns u t) e h = (second u s t e).holds t h
      follow s (exits c t) e h = absurd (cc)
      follow s faults e h = absurd (cc)
      follow s diverges e h = first.holds s e

  -- Behind a read the value is known to be what was read.
  pub stops_read :
      {A B : Type 0} (o : Option A) {f : A → M S B}
      → ((v : A) → o ≡ some v → Stops (f v) Z)
      → Stops (checked o >>= f) Z
  unfolding ◌>>=◌
  stops_read none second = record { holds = λ s h. absurd (cc) }
  stops_read (some v) second = record { holds = λ s h. (second v refl).holds s h }

-- The steps that bring in bytes from outside.
module _ {S : Type 0} (os : Os S) {Z : Type 0} where
  pub stops_local :
      {B : Type 0} (n : ℕ) (f : List ℕ → M S B)
      → ((u : S) → Stops (f (os.stack n u)) Z)
      → Stops (local_object os n >>= f) Z
  unfolding ◌>>=◌
  stops_local n f next = record { holds = λ s h. (next s.os).holds s h }

  -- In the state s, recv gives what the system has there.
  pub stops_recv :
      {B : Type 0} (fd : ℤ) (n : ℕ) (f : ℤ × List ℕ → M S B) (s : State S)
      → Stops (f ((os.recv fd n s.os).0, (os.recv fd n s.os).1)) Z
      → (call_recv os fd n >>= f) s ≡ diverges
      → Z
  unfolding ◌>>=◌
  stops_recv fd n f s next h = next.holds _ h

pub ruleset stop_rules = (stops_step, stops_exit, stops_checked, stops_if, stops_then)

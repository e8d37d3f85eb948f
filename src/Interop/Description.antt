-- ===== src/Interop/Description.antt =====
-- The descriptions of the error numbers that `get_taskstats` returns.
use mathlib.Core.Logic.{◌↔◌}
use universe_native_linux_in.Common.{ℕ, ◌≡◌, ◌⊎◌, inl, inr, refl, Bool, none, List, ℤ, arith}
use universe_native_linux_in.Abi.{Abi}
use universe_native_linux_in.Machine.{Os, State, returns, Event}
use universe_native_linux_in.GetTaskstats.{get_taskstats}
use universe_native_linux_in.GetTaskstats.Outcome.{
  IsAnswer, copied, unchanged, IsOutcome, on_socket, no_socket, get_taskstats-IsOutcome,
}
use universe_native_linux_in.Interop.{get_error_description}

-- The numbers of IsOutcome
by_number :
    (code : ℕ)
    → (code ≡ 0) ⊎ (code ≡ 1) ⊎ (code ≡ 2) ⊎ (code ≡ 3) ⊎ (code ≡ 4) ⊎ (code ≡ 8)
    → (get_error_description code ≡ none) ↔ ((code ≡ 0) ⊎ (code ≡ 1))
unfolding get_error_description
by_number code (inl e) = (λ _. inl e, λ _. rw e refl)
by_number code (inr (inl e)) = (λ _. inr e, λ _. rw e refl)
by_number code (inr (inr other)) = (λ h. ground arith, λ h. ground arith)

answered :
    {a : Abi} {junk target : List ℕ} {nl_sd : ℤ} {code : ℕ} {target' : List ℕ} {trace : List Event}
    → IsAnswer a junk target nl_sd code target' trace
    → (get_error_description code ≡ none) ↔ ((code ≡ 0) ⊎ (code ≡ 1))
answered {code} (copied bytes success taken copy) = by_number code (inl success)
answered {code} (unchanged number same) = by_number code (omega arith)

described :
    {a : Abi} {junk target : List ℕ} {code : ℕ} {target' : List ℕ} {trace : List Event}
    → IsOutcome a junk target code target' trace
    → (get_error_description code ≡ none) ↔ ((code ≡ 0) ⊎ (code ≡ 1))
described (on_socket nl_sd rest answer live opened last) = answered answer
described {code} (no_socket rest number same last) = by_number code (omega arith)

module _ {S : Type 0} (os : Os S) (a : Abi) (debug : Bool) where
  -- Of the numbers that a run of `get_taskstats` returns, only 0 and 1 have no description: 0 is
  -- success, and 1 an error that the exception shows as a number alone.
  pub get_error_description-none :
      (fuel pid tgid : ℕ) (target : List ℕ) (target_length : ℤ) (s : State S) (code : ℕ)
      (target' : List ℕ) (t : State S)
      → get_taskstats os a debug fuel pid tgid target target_length s ≡ returns (code, target') t
      → (get_error_description code ≡ none) ↔ ((code ≡ 0) ⊎ (code ≡ 1))
  get_error_description-none fuel pid tgid target target_length s code target' t run =
      described
        (get_taskstats-IsOutcome os a debug fuel pid tgid target target_length s code target' t run)

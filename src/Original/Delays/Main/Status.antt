-- ===== src/Original/Delays/Main/Status.antt =====
-- The exit status of so-src/original/delays.c.
use universe_native_linux_in.Common.{ℕ, ◌≡◌, inl, refl, List, ℤ, pos}
use universe_native_linux_in.Abi.{Abi}
use universe_native_linux_in.Machine.{
  Os, State, M, Run, returns, exits, faults, diverges, Message, ◌>>=◌,
}
use universe_native_linux_in.Machine.Ensures.{Ensures, ensures_pure, ensures_if, ensures_then}
use universe_native_linux_in.Machine.Exits.{Exits, exits_step, exits_then, exit_rules}
use universe_native_linux_in.Taskstats.Layout.{Placed}
use universe_native_linux_in.Original.Delays.Options.{Locals, err}
use universe_native_linux_in.Original.Delays.Ending.{
  IsStatus, err-Exits, create_nl_socket-Exits, get_family_id-Exits, options-Exits, receive-Exits,
}
use universe_native_linux_in.Original.Delays.Main.Codes.{
  deregister-Exits, finish-Exits, requests-Exits,
}
use universe_native_linux_in.Original.Delays.Main.{
  Next, proceed, to_done, to_err, finish, served, serve, run, main,
}

err-Ensures :
    {S A : Type 0} (c : ℤ) (m : Message) {P : A → State S → Type 0}
    → Ensures {S = S} {A = A} (err c m) P
unfolding ◌>>=◌
err-Ensures c m = record { holds = λ s v t h. absurd (cc) }

-- What a run of `main` can end with.
abbrev pub HasStatus : {S : Type 0} → Run S ℤ → Type 0
HasStatus (returns v t) = v ≡ pos 0
HasStatus (exits c t) = IsStatus c
HasStatus faults = Unit {0}
HasStatus diverges = Unit {0}

run-HasStatus :
    {S : Type 0} (m : M S ℤ)
    → Exits m IsStatus
    → Ensures m (λ v _. v ≡ pos 0)
    → (s : State S) → HasStatus (m s)
run-HasStatus {S} m codes values s = status (m s) (codes.holds s) (values.holds s)
  where
    status :
        (r : Run S ℤ)
        → ((c : ℤ) (t : State S) → r ≡ exits c t → IsStatus c)
        → ((v : ℤ) (t : State S) → r ≡ returns v t → v ≡ pos 0)
        → HasStatus r
    status (returns v t) c h = h v t refl
    status (exits d t) c h = c d t refl
    status faults c h = tt
    status diverges c h = tt

module _ {S : Type 0} (os : Os S) (a : Abi) where
  finish-IsZero : (nl_sd fd cfd : ℤ) → Ensures (finish os a nl_sd fd cfd) (λ v _. v ≡ pos 0)
  unfolding finish
  finish-IsZero nl_sd fd cfd =
      ensures_then _ λ u. ensures_then _ λ u'. ensures_then _ λ u''. ensures_pure λ s. refl

  module _ (taskstats : List Placed) (fuel : ℕ) where
    served-Exits :
        (fd nl_sd : ℤ) (id mypid : ℕ) (l : Locals) (n : Next)
        → Exits (served os a taskstats fuel fd nl_sd id mypid l n) IsStatus
    unfolding served
    served-Exits fd nl_sd id mypid l (to_err cfd) = finish-Exits os a nl_sd fd cfd
    served-Exits fd nl_sd id mypid l to_done =
        exits_then (deregister-Exits os a fuel nl_sd id mypid l.maskset)
          λ u. finish-Exits os a nl_sd fd (pos 0)
    served-Exits fd nl_sd id mypid l (proceed cfd) = exits_then (exits_step _ _) λ msg.
        exits_then (receive-Exits os a taskstats l.loop fd fuel nl_sd msg) λ u.
          exits_then (deregister-Exits os a fuel nl_sd id mypid l.maskset)
            λ u'. finish-Exits os a nl_sd fd cfd

    served-IsZero :
        (fd nl_sd : ℤ) (id mypid : ℕ) (l : Locals) (n : Next)
        → Ensures (served os a taskstats fuel fd nl_sd id mypid l n) (λ v _. v ≡ pos 0)
    unfolding served
    served-IsZero fd nl_sd id mypid l (to_err cfd) = finish-IsZero nl_sd fd cfd
    served-IsZero fd nl_sd id mypid l to_done = ensures_then _ λ u. finish-IsZero nl_sd fd (pos 0)
    served-IsZero fd nl_sd id mypid l (proceed cfd) =
        ensures_then _ λ msg. ensures_then _ λ u. ensures_then _ λ u'. finish-IsZero nl_sd fd cfd

    serve-Exits :
        (fd nl_sd : ℤ) (id mypid : ℕ) (l : Locals)
        → Exits (serve os a taskstats fuel fd nl_sd id mypid l) IsStatus
    unfolding serve
    serve-Exits fd nl_sd id mypid l =
        exits_then (requests-Exits os a fuel nl_sd id mypid l) (served-Exits fd nl_sd id mypid l)

    serve-IsZero :
        (fd nl_sd : ℤ) (id mypid : ℕ) (l : Locals)
        → Ensures (serve os a taskstats fuel fd nl_sd id mypid l) (λ v _. v ≡ pos 0)
    unfolding serve
    serve-IsZero fd nl_sd id mypid l = ensures_then _ (served-IsZero fd nl_sd id mypid l)

    run-Exits : (l : Locals) → Exits (run os a taskstats fuel l) IsStatus
    unfolding run
    run-Exits l =
        search
          (
            exit_rules,
            err-Exits,
            create_nl_socket-Exits os a IsStatus,
            get_family_id-Exits os a IsStatus,
            finish-Exits os a,
            serve-Exits,
            inl,
          )
          depth 40 fits 8000

    run-IsZero : (l : Locals) → Ensures (run os a taskstats fuel l) (λ v _. v ≡ pos 0)
    unfolding run
    run-IsZero l =
        search (ensures_then, ensures_if, err-Ensures, finish-IsZero, serve-IsZero) depth 30 fits
          8000

    main-Exits :
        (atoi : List ℕ → ℤ) (opts : List (ℕ × List ℕ))
        → Exits (main os a taskstats atoi fuel opts) IsStatus
    unfolding main
    main-Exits atoi opts =
        exits_then (exits_step _ _) λ junk. exits_then (options-Exits atoi opts _) run-Exits

    main-IsZero :
        (atoi : List ℕ → ℤ) (opts : List (ℕ × List ℕ))
        → Ensures (main os a taskstats atoi fuel opts) (λ v _. v ≡ pos 0)
    unfolding main
    main-IsZero atoi opts = ensures_then _ λ junk. ensures_then _ run-IsZero

    -- `main` of delays.c, on every simulated system, command line and environment: a run that returns
    -- returns 0, and a run that ends by exit ends with the code 1 or −1.
    pub main_status :
        (atoi : List ℕ → ℤ) (opts : List (ℕ × List ℕ)) (s : State S)
        → HasStatus (main os a taskstats atoi fuel opts s)
    main_status atoi opts s =
        run-HasStatus (main os a taskstats atoi fuel opts) (main-Exits atoi opts)
          (main-IsZero atoi opts) s

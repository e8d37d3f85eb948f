-- ===== src/Machine.antt =====
-- The machine that the C code runs on: the calls of the operating system, which are parameters,
-- the globals of so-src/get_taskstats.c and of the tools it comes from, and the outcomes of a call.
-- A C object is the list of its bytes, a pointer into it is an offset, and an access outside of it
-- is a fault.
mod Output
pub mod Memory
pub mod Ensures
pub mod Exits
pub mod Stops
pub mod Triple
pub use Output.*
use universe_native_linux_in.Common.{
  ℕ, ◌+◌, ◌≤◌, ◌≡◌, Bool, true, false, Option, none, some, List, [], ◌∷◌, ◌++◌, ℤ, pos_part, length,
  not, if◌then◌else◌,
}

-- The system and C library calls. `S` is the state of everything outside of the process.
pub record Os (S : Type 0) : Type 0 where
  -- socket(AF_NETLINK, SOCK_RAW, protocol); setsockopt(fd, SOL_SOCKET, SO_RCVBUF, &n, 4);
  -- bind(fd, address of AF_NETLINK, size); close(fd)
  pub socket : ℕ → S → ℤ × S
  pub setsockopt : ℤ → ℤ → S → ℤ × S
  pub bind : ℤ → S → ℤ × S
  pub close : ℤ → S → S
  -- sendto with the bytes offered; recv with the size of the buffer, and the bytes written to it
  pub sendto : ℤ → List ℕ → S → ℤ × S
  pub recv : ℤ → ℕ → S → ℤ × List ℕ × S
  -- open(path, flags), with true for the flags that write, and write(fd, bytes, their number)
  pub open_file : List ℕ → Bool → S → ℤ × S
  pub write_file : ℤ → List ℕ → S → ℤ × S
  pub errno : S → ℕ
  pub getpid : S → ℕ
  pub gettid : S → ℕ
  -- The bytes in an uninitialised local object of n bytes
  pub stack : ℕ → S → List ℕ
  -- The bytes of the object that malloc returns, none at all for NULL
  pub malloc : ℕ → S → List ℕ × S
  pub free : S → S

-- What their manual pages document.
pub record IsOs {S : Type 0} (os : Os S) : Type 0 where
  pub length-stack : (n : ℕ) (s : S) → length (os.stack n s) ≡ n
  pub recv_fits : (fd : ℤ) (n : ℕ) (s : S) → length (os.recv fd n s).1 ≤ n
  pub recv_count :
      (fd : ℤ) (n : ℕ) (s : S) → length (os.recv fd n s).1 ≡ pos_part (os.recv fd n s).0

-- The globals of the program, with the outside state and the events so far, the latest first.
pub record State (S : Type 0) : Type 0 where
  pub os : S
  pub trace : List Event
  pub dbg : Bool
  pub rcvbufsz : ℤ
  pub name : List ℕ
  pub done : ℕ
  pub cpumask : List ℕ
  pub print_delays : Bool
  pub print_io_accounting : Bool
  pub print_task_context_switch_counts : Bool

-- A call returns, ends the process by exit(code), accesses memory outside of an object, or is still
-- in a loop when the fuel of the model is used up.
pub data Run (S : Type 0) (A : Type 0) : Type 0 where
  returns : A → State S → Run S A
  exits : ℤ → State S → Run S A
  faults : Run S A
  diverges : Run S A

abbrev pub M : Type 0 → Type 0 → Type 0
M S A = State S → Run S A

abbrev pub pure : {S A : Type 0} → A → M S A
pure a s = returns a s

-- What is done after a call, by its outcome.
abbrev pub after : {S A B : Type 0} → Run S A → (A → M S B) → Run S B
after (returns a s) f = f a s
after (exits c s) f = exits c s
after faults f = faults
after diverges f = diverges

infixl 5 ◌>>=◌ ◌>>◌
unfoldable pub ◌>>=◌ : {S A B : Type 0} → M S A → (A → M S B) → M S B
◌>>=◌ m f s = after (m s) f

abbrev pub ◌>>◌ : {S B : Type 0} → M S (Unit {0}) → M S B → M S B
m >> k = m >>= λ _. k

abbrev pub exit : {S A : Type 0} → ℤ → M S A
exit c s = exits c s

abbrev pub fault : {S A : Type 0} → M S A
fault s = faults

abbrev pub diverge : {S A : Type 0} → M S A
diverge s = diverges

-- Adds an event.
abbrev pub note : {S : Type 0} → Event → State S → State S
note e s = record s { trace = e ∷ s.trace }

abbrev pub skip : {S : Type 0} → M S (Unit {0})
skip = pure tt

abbrev pub print : {S : Type 0} → Message → M S (Unit {0})
print m s = returns tt (note (printed m) s)

-- `if (b) printf(...)`
abbrev pub print_if : {S : Type 0} → Bool → Message → M S (Unit {0})
print_if b m = if b then print m else skip

-- Reads of the globals.
abbrev pub gets : {S A : Type 0} → (State S → A) → M S A
gets f s = returns (f s) s

abbrev pub modify : {S : Type 0} → (State S → State S) → M S (Unit {0})
modify f s = returns tt (f s)

-- A step that can access memory outside of an object.
abbrev pub checked : {S A : Type 0} → Option A → M S A
checked none = fault
checked (some v) = pure v

-- The calls as steps of a run.
module _ {S : Type 0} (os : Os S) where
  abbrev pub call_socket : ℕ → M S ℤ
  call_socket protocol s =
      let (r, t) = os.socket protocol s.os in returns r (note (opened r) (record s { os = t }))

  abbrev pub call_setsockopt : ℤ → ℤ → M S ℤ
  call_setsockopt fd n s =
      let (r, t) = os.setsockopt fd n s.os in
      returns r (note (configured fd r) (record s { os = t }))

  abbrev pub call_bind : ℤ → M S ℤ
  call_bind fd s =
      let (r, t) = os.bind fd s.os in returns r (note (bound fd r) (record s { os = t }))

  abbrev pub call_close : ℤ → M S (Unit {0})
  call_close fd s = returns tt (note (closed fd) (record s { os = os.close fd s.os }))

  abbrev pub call_sendto : ℤ → List ℕ → M S ℤ
  call_sendto fd bytes s =
      let (r, t) = os.sendto fd bytes s.os in
      returns r (note (sent fd bytes r) (record s { os = t }))

  abbrev pub call_recv : ℤ → ℕ → M S (ℤ × List ℕ)
  call_recv fd n s =
      let (r, bytes, t) = os.recv fd n s.os in
      returns (r, bytes) (note (received fd r bytes) (record s { os = t }))

  abbrev pub call_open : List ℕ → Bool → M S ℤ
  call_open path writes s =
      let (r, t) = os.open_file path writes s.os in
      returns r (note (opened_file path r) (record s { os = t }))

  abbrev pub call_write : ℤ → List ℕ → M S ℤ
  call_write fd bytes s =
      let (r, t) = os.write_file fd bytes s.os in
      returns r (note (wrote fd bytes r) (record s { os = t }))

  abbrev pub get_errno : M S ℕ
  get_errno s = returns (os.errno s.os) s

  abbrev pub call_getpid : M S ℕ
  call_getpid s = returns (os.getpid s.os) s

  abbrev pub call_gettid : M S ℕ
  call_gettid s = returns (os.gettid s.os) s

  abbrev pub local_object : ℕ → M S (List ℕ)
  local_object n s = returns (os.stack n s.os) s

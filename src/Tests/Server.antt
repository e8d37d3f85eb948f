-- ===== src/Tests/Server.antt =====
-- Simulated kernels: one that answers each request, one on which recv fails for the statistics, and
-- one that has no task.
use native.Mathlib.Nat.{zero-add}
use universe_native_linux_in.Common.{
  ℕ, ◌+◌, ◌≤◌, ◌≡◌, refl, ap, ◌∙◌, inl, inr, true, false, some, List, [], ◌∷◌, ◌++◌, ℤ, pos, negsuc,
  pos_part, is_negative, slice, length, take, replicate, slice-slice, length-take, arith, ◌==◌,
  if◌then◌else◌, length-replicate,
}
use universe_native_linux_in.Abi.{IsByteOrder}
use universe_native_linux_in.Abi.Linux.{get_le, put_le, little_endian-IsByteOrder}
use universe_native_linux_in.Machine.{Os, IsOs, State}
use universe_native_linux_in.Machine.Memory.{read}
use universe_native_linux_in.Taskstats.{get_ts_size_bv}
use universe_native_linux_in.Netlink.Family.{ans_size}
use universe_native_linux_in.GetTaskstats.Kernel.{
  IsStatsAnswer, Phase, idle, family_asked, stats_asked, Listener, Kernel,
}
use universe_native_linux_in.GetTaskstats.Refused.{Refuses}
use universe_native_linux_in.Tests.Mock.{x64}

-- What a request asks for.
abbrev heard : List ℕ → Phase
heard bytes =
    if get_le (slice 4 2 bytes) == 16
    then family_asked
    else stats_asked (get_le (slice 22 2 bytes)) (get_le (slice 24 4 bytes))

-- The statistics of a task: version 7, its id, and 322 bytes.
abbrev pub task_stats : ℕ → ℕ → List ℕ
task_stats id_type id = 7 ∷ 0 ∷ (put_le 4 id ++ replicate 322 id_type)

abbrev pub family_message : List ℕ
family_message =
    44 ∷ 0 ∷ 0 ∷ 0 ∷ 16 ∷ 0 ∷ 0 ∷ 0 ∷ 0 ∷ 0 ∷ 0 ∷ 0 ∷ 0 ∷ 0 ∷ 0 ∷ 0 ∷ 1 ∷ 2 ∷ 0 ∷ 0 ∷ 14 ∷ 0 ∷ 2 ∷ 0
    ∷ 84 ∷ 65 ∷ 83 ∷ 75 ∷ 83 ∷ 84 ∷ 65 ∷ 84 ∷ 83 ∷ 0 ∷ 0 ∷ 0 ∷ 6 ∷ 0 ∷ 1 ∷ 0 ∷ 24 ∷ 0 ∷ 0 ∷ 0 ∷ []

abbrev stats_message : ℕ → ℕ → List ℕ
stats_message id_type id =
    108
    ∷ 1
    ∷ 0
    ∷ 0
    ∷ 24
    ∷ 0
    ∷ 0
    ∷ 0
    ∷ 0
    ∷ 0
    ∷ 0
    ∷ 0
    ∷ 100
    ∷ 0
    ∷ 0
    ∷ 0
    ∷ 2
    ∷ 1
    ∷ 0
    ∷ 0
    ∷ 88
    ∷ 1
    ∷ 4
    ∷ 0
    ∷ 8
    ∷ 0
    ∷ 1
    ∷ 0
    ∷ 100
    ∷ 0
    ∷ 0
    ∷ 0
    ∷ 76
    ∷ 1
    ∷ 3
    ∷ 0
    ∷ task_stats id_type id

abbrev reply_to : Phase → List ℕ
reply_to idle = []
reply_to family_asked = family_message
reply_to (stats_asked id_type id) = stats_message id_type id

abbrev pub server : Os Phase
server = record {
  socket = λ protocol s. (pos 3, idle);
  setsockopt = λ fd n s. (pos 0, s);
  bind = λ fd s. (pos 0, s);
  close = λ fd s. s;
  sendto = λ fd bytes s. (pos (length bytes), heard bytes);
  recv = λ fd n s. (pos (length (take n (reply_to s))), take n (reply_to s), idle);
  open_file = λ path writes s. (pos 4, s);
  write_file = λ fd bytes s. (pos (length bytes), s);
  errno = λ s. 0;
  getpid = λ s. 100;
  gettid = λ s. 101;
  stack = λ n s. replicate n 0;
  malloc = λ n s. (replicate n 0, s);
  free = λ s. s;
}

pub server-IsOs : IsOs server
server-IsOs = record {
  length-stack = λ n s. length-replicate n 0;
  recv_fits = λ fd n s. omega (arith, length-take n (reply_to s));
  recv_count = λ fd n s. refl;
}

read_value :
    (mem : List ℕ) (i w : ℕ) {v : ℕ} → read x64 mem i w ≡ some v → get_le (slice i w mem) ≡ v
unfolding read
read_value mem i w h = ground arith

sent_value :
    (mem : List ℕ) (n i w : ℕ) {v : ℕ}
    → i + w ≤ n
    → read x64 mem i w ≡ some v
    → get_le (slice i w (slice 0 n mem)) ≡ v
sent_value mem n i w h e =
    ap get_le (slice-slice i w 0 n mem h ∙ ap (λ t. slice t w mem) (zero-add i))
    ∙ read_value mem i w e

stats_message-IsStatsAnswer :
    (id_type id : ℕ) → IsStatsAnswer x64 (task_stats id_type id) (stats_message id_type id)
unfolding read get_ts_size_bv
stats_message-IsStatsAnswer id_type id = record {
  nlmsg_type = 24;
  nlmsg_len = 364;
  aggr_type = 4;
  aggr_len = 344;
  id_type = 1;
  id_len = 8;
  version = 7;
  type_is = refl;
  no_error = λ e. omega (arith, e);
  len_is = refl;
  ok = refl;
  has_attributes = refl;
  reply = record {
    aggr_len_is = refl;
    aggr_type_is = refl;
    aggregate = inr refl;
    id_len_is = refl;
    id_type_is = refl;
    names_task = inl refl;
    room = omega arith;
    stats_type_is = refl;
    version_is = refl;
    whole = omega arith;
  };
  stats_are = refl;
}

-- A system that sends like the server, and receives by a function of its own.
abbrev pub served_by : (ℕ → Phase → ℤ × List ℕ × Phase) → Os Phase
served_by receiving = record server { recv = λ fd n s. receiving n s }

served_by-Listener :
    (receiving : ℕ → Phase → ℤ × List ℕ × Phase)
    → ((n : ℕ)
        → receiving n family_asked
          ≡ (pos (length (take n family_message)), take n family_message, idle))
    → Listener (served_by receiving) x64 (pos 3) 24 (λ s. s)
unfolding read
served_by-Listener receiving answers = record {
  sd_valid = refl;
  family_known = λ e. omega (arith, e);
  family_small = omega arith;
  pid_small = λ s. omega arith;
  opens = λ s. refl;
  binds = λ s. refl;
  opens_idle = λ s. refl;
  takes_family = λ pid msg s ready request.
      (refl, rw (sent_value msg 36 4 2 (omega arith) request.nlmsg_type_is) refl);
  answers_family = λ s asked.
      rw (asked, answers (ans_size (served_by receiving) x64))
        (
          refl,
          record {
            nlmsg_type = 16;
            nlmsg_len = 44;
            first_len = 14;
            type_is = refl;
            no_error = λ e. omega (arith, e);
            len_is = refl;
            ok = refl;
            first = refl;
            second = refl;
            family_is = refl;
          },
          refl,
        );
  takes_stats = λ pid id_type id msg s ready small request. (
    refl,
    rw
        (
          sent_value msg 32 4 2 (omega arith) request.nlmsg_type_is,
          sent_value msg 32 22 2 (omega arith) request.nla_type_is,
        )
        (ap (stats_asked id_type) (
          ap get_le (slice-slice 24 4 0 32 msg (omega arith) ∙ request.payload)
          ∙ IsByteOrder.get-put little_endian-IsByteOrder 4 id small)),
  );
}

pub server-Kernel : Kernel server x64 (pos 3) 24 task_stats (λ s. s)
server-Kernel = record {
  listener =
      served_by-Listener (λ n s. (pos (length (take n (reply_to s))), take n (reply_to s), idle))
        (λ n. refl);
  answers_stats = λ id_type id s asked. rw asked (refl, stats_message-IsStatsAnswer id_type id);
}

-- What a system receives on which recv fails for the answer about a task.
abbrev unanswered : ℕ → Phase → ℤ × List ℕ × Phase
unanswered n idle = (pos 0, [], idle)
unanswered n family_asked = (pos (length (take n family_message)), take n family_message, idle)
unanswered n (stats_asked id_type id) = (negsuc 0, [], idle)

abbrev pub silent : Os Phase
silent = served_by unanswered

length-unanswered : (n : ℕ) (s : Phase) → length (unanswered n s).1 ≤ n
length-unanswered n idle = omega arith
length-unanswered n family_asked = omega (arith, length-take n family_message)
length-unanswered n (stats_asked id_type id) = omega arith

unanswered_count : (n : ℕ) (s : Phase) → length (unanswered n s).1 ≡ pos_part (unanswered n s).0
unanswered_count n idle = refl
unanswered_count n family_asked = refl
unanswered_count n (stats_asked id_type id) = refl

pub silent-IsOs : IsOs silent
silent-IsOs = record {
  length-stack = λ n s. length-replicate n 0;
  recv_fits = λ fd n s. length-unanswered n s;
  recv_count = λ fd n s. unanswered_count n s;
}

pub silent_fails :
    (n id_type id : ℕ) (s : Phase)
    → s ≡ stats_asked id_type id
    → is_negative (silent.recv (pos 3) n s).0 ≡ true
silent_fails n id_type id s asked = rw asked refl

pub silent-Listener : Listener silent x64 (pos 3) 24 (λ s. s)
silent-Listener = served_by-Listener unanswered (λ n. refl)

-- An error message, with the error -3.
abbrev refusal : List ℕ
refusal =
    36 ∷ 0 ∷ 0 ∷ 0 ∷ 2 ∷ 0 ∷ 0 ∷ 0 ∷ 0 ∷ 0 ∷ 0 ∷ 0 ∷ 100 ∷ 0 ∷ 0 ∷ 0 ∷ 253 ∷ 255 ∷ 255 ∷ 255 ∷ []

-- What a system receives that has no such task.
abbrev refused : ℕ → Phase → ℤ × List ℕ × Phase
refused n idle = (pos 0, [], idle)
refused n family_asked = (pos (length (take n family_message)), take n family_message, idle)
refused n (stats_asked id_type id) = (pos (length (take n refusal)), take n refusal, idle)

abbrev pub strict : Os Phase
strict = served_by refused

length-refused : (n : ℕ) (s : Phase) → length (refused n s).1 ≤ n
length-refused n idle = omega arith
length-refused n family_asked = omega (arith, length-take n family_message)
length-refused n (stats_asked id_type id) = omega (arith, length-take n refusal)

refused_count : (n : ℕ) (s : Phase) → length (refused n s).1 ≡ pos_part (refused n s).0
refused_count n idle = refl
refused_count n family_asked = refl
refused_count n (stats_asked id_type id) = refl

pub strict-IsOs : IsOs strict
strict-IsOs = record {
  length-stack = λ n s. length-replicate n 0;
  recv_fits = λ fd n s. length-refused n s;
  recv_count = λ fd n s. refused_count n s;
}

pub strict-Refuses : Refuses strict x64 (pos 3) (λ s. s)
unfolding read
strict-Refuses id_type id s asked = rw asked (
  refl,
  record { nlmsg_len = 36; error = 4294967293; type_is = refl; len_is = refl; error_is = refl },
)

pub strict-Listener : Listener strict x64 (pos 3) 24 (λ s. s)
strict-Listener = served_by-Listener refused (λ n. refl)

abbrev pub booted : State Phase
booted = record {
  os = idle;
  trace = [];
  dbg = false;
  rcvbufsz = pos 0;
  name = replicate 100 0;
  done = 0;
  cpumask = replicate 292 0;
  print_delays = true;
  print_io_accounting = true;
  print_task_context_switch_counts = true;
}

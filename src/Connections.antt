-- ===== src/Connections.antt =====
-- `RequestIO` of sources/request/io.cpp and include/vermell/request/io.h: the life of a connection from
-- its acceptance to its close. What the kernel returns is an argument of each operation; the calls
-- that it gets are written down, the last one first. A duration is a number of nanoseconds, and one
-- that is not positive is 0.
pub mod Requests
pub mod Loop
pub mod Slots
pub mod Accounting
pub mod Histories
pub mod Fuel
pub mod Pipelining
use vermell.Prelude.{
  ℕ, zero, suc, ◌+◌, ◌-◌, ◌*◌, ◌/◌, ◌%◌, ◌^◌, ◌≤◌, ◌<◌, min, max, String, ◌≡◌, refl, sym, ap, ◌∙◌,
  subst, ◌≡⟨◌⟩◌, ◌∎, ◌≢◌, ◌↔◌, ◌⊎◌, inl, inr, Bool, true, false, not, ◌&&◌, ◌||◌, Option, none,
  some, List, [], ◌∷◌, ◌++◌, map, append-nil, append_assoc, arith, ltb, leb, ◌==◌, within,
  if◌then◌else◌, ltb→lt, lt→ltb, leb→le, le→leb, ==_iff, tests, Bool-cases, Option-cases, if-true,
  if-false, same_iff, same_refl, strip_prefix-append, strip_prefix-eq_some, Lacks, cut-eq_some,
  cut-append, cut-eq_none, split_on-eq_singleton, split_on-append, split_on-Lacks, join_with-cons,
  join_with-split_on, Bytes, IsBytes, codes, same, is_empty, strip_prefix, is_some, has_byte,
  push_front, cut, cut_seq, cons_head, split_on, lines_of, drop_while, drop_while_end, join_with,
  ◌>>=◌, ◌>>◌, guard, >>=-eq-some, guard-eq-some, some-injective, length, take, drop, all, any,
  drop_last, get_last?, length-append, take-length_append, drop-length_append, length-drop,
  length-take_le, take-append-drop, All, All-append, All-append_left, All-append_right,
  take-append_of_length, drop-append_of_length, strip_prefix-none_local, cut_seq-eq_some,
  length-cut_seq,
}
use vermell.Dispatch.{error_response}
use vermell.Http.Message.{Framing, Inspection, inspect}
use vermell.Http.Response.{WireResponse}
use vermell.Pool.{ThreadPool, try_add_task}

pub record Config : Type 0 where
  pub read_timeout : ℕ
  pub request_timeout : ℕ
  pub max_request_size : ℕ
  pub read_chunk : ℕ
  pub max_connections : ℕ

pub record ConnState : Type 0 where
  pub buffer : Bytes
  pub start : ℕ
  pub last_activity : ℕ
  pub expected : ℕ
  pub head_known : Bool
  pub dispatching : Bool

abbrev pub new_conn : ConnState
new_conn = record {
  buffer = [];
  start = 0;
  last_activity = 0;
  expected = 0;
  head_known = false;
  dispatching = false;
}

-- The table of connections, by descriptor.
abbrev pub Slots : Type 0
Slots = List (Option ConnState)

unfoldable pub find_slot : ℕ → Slots → Option ConnState
find_slot fd [] = none
find_slot zero (slot ∷ slots) = slot
find_slot (suc fd) (slot ∷ slots) = find_slot fd slots

abbrev pub has_pending : ℕ → Slots → Bool
has_pending fd slots = is_some (find_slot fd slots)

abbrev pub or_new : Option ConnState → ConnState
or_new none = new_conn
or_new (some st) = st

-- What `pending_slot` refers to.
abbrev pub pending_slot : ℕ → Slots → ConnState
pending_slot fd slots = or_new (find_slot fd slots)

-- Its update; the table grows as far as needed.
unfoldable pub put_slot : ℕ → ConnState → Slots → Slots
put_slot zero st [] = some st ∷ []
put_slot zero st (slot ∷ slots) = some st ∷ slots
put_slot (suc fd) st [] = none ∷ put_slot fd st []
put_slot (suc fd) st (slot ∷ slots) = slot ∷ put_slot fd st slots

unfoldable pub drop_slot : ℕ → Slots → Slots
drop_slot fd [] = []
drop_slot zero (slot ∷ slots) = none ∷ slots
drop_slot (suc fd) (slot ∷ slots) = slot ∷ drop_slot fd slots

-- The calls on a descriptor.
pub data Call : Type 0 where
  accepted : ℕ → Call
  closed : ℕ → Call
  sent : ℕ → WireResponse → Call
  armed : ℕ → Call

abbrev pub Task : Type 0
Task = ℕ × Bytes

pub record Completion : Type 0 where
  pub fd : ℕ
  pub keep_alive : Bool

-- `S` is all that `ExecuteRoute` reads and writes.
pub record RequestIo {ℓ} (S : Type ℓ) : Type ℓ where
  pub pool : Option (ThreadPool Task)
  pub pending : Slots
  pub scratch : ℕ
  pub active : ℕ
  pub handled : ℕ
  pub completed : List Completion
  pub calls : List Call
  pub state : S

-- What `accept4` returns, when, and whether epoll takes it.
pub record Client : Type 0 where
  pub fd : ℕ
  pub now : ℕ
  pub added : Bool

-- One more and one less in 64 bits.
abbrev pub fetch_add : ℕ → ℕ
fetch_add n = (n + 1) % 2 ^ 64

abbrev pub fetch_sub : ℕ → ℕ
fetch_sub n = (n + (2 ^ 64 - 1)) % 2 ^ 64

module _ {ℓ} {S : Type ℓ} where
  abbrev pub new_io : Option (ThreadPool Task) → S → RequestIo S
  new_io pool state = record {
    pool = pool;
    pending = [];
    scratch = 0;
    active = 0;
    handled = 0;
    completed = [];
    calls = [];
    state = state;
  }

  abbrev pub put : ℕ → ConnState → RequestIo S → RequestIo S
  put fd st io = record io { pending = put_slot fd st io.pending }

  -- `close`, `drop_pending` and the count.
  abbrev pub close_connection : ℕ → RequestIo S → RequestIo S
  close_connection fd io = record io {
    pending = drop_slot fd io.pending;
    active = fetch_sub io.active;
    calls = closed fd ∷ io.calls;
  }

  abbrev pub send_best_effort : ℕ → WireResponse → RequestIo S → RequestIo S
  send_best_effort fd response io = record io { calls = sent fd response ∷ io.calls }

  abbrev pub count_handled : RequestIo S → RequestIo S
  count_handled io = record io { handled = fetch_add io.handled }

  abbrev pub reject : ℕ → ℕ → Bytes → RequestIo S → RequestIo S
  reject fd code error io =
      count_handled (close_connection fd (send_best_effort fd (error_response code error) io))

  abbrev pub rearm_wait : ℕ → RequestIo S → RequestIo S
  rearm_wait fd io = if is_some io.pool then record io { calls = armed fd ∷ io.calls } else io

  -- A descriptor that is closed as soon as it is accepted.
  abbrev pub turn_away : ℕ → RequestIo S → RequestIo S
  turn_away fd io = record io { calls = closed fd ∷ accepted fd ∷ io.calls }

  unfoldable pub accept_one : Config → Client → RequestIo S → RequestIo S
  unfolding put_slot
  accept_one cfg client io =
      if not (cfg.max_connections == 0) && leb cfg.max_connections io.active
      then turn_away client.fd io
      else if not client.added
      then turn_away client.fd io
      else record io {
        pending =
            put_slot client.fd (record new_conn { start = client.now; last_activity = client.now })
              io.pending;
        active = fetch_add io.active;
        calls = accepted client.fd ∷ io.calls;
      }

  unfoldable pub accept_pending : Config → List Client → RequestIo S → RequestIo S
  accept_pending cfg [] io = io
  accept_pending cfg (client ∷ clients) io = accept_pending cfg clients (accept_one cfg client io)

-- ===== src/Connections/Loop.antt =====
-- The event loop: `Dispatch`, `SweepStale`, `DrainCompletions`, `RearmConnection` and `shutdown` of
-- sources/request/io.cpp.
use vermell.Prelude.{
  ℕ, suc, Bool, not, ◌&&◌, ◌||◌, none, some, List, [], ◌∷◌, ◌==◌, if◌then◌else◌, Bytes, is_empty,
}
use vermell.Connections.{
  Config, ConnState, new_conn, Slots, find_slot, has_pending, pending_slot, put_slot, armed,
  Completion, RequestIo, Client, put, close_connection, count_handled, reject, accept_pending,
}
use vermell.Connections.Requests.{Received, is_over, timed_out, handle_readable}
use vermell.Http.Response.{WireResponse}
use vermell.Pool.{kill}

abbrev pub is_stale : Config → ℕ → ConnState → Bool
is_stale cfg now st =
    not st.dispatching
    && (is_over cfg.request_timeout now st.start || is_over cfg.read_timeout now st.last_activity)

-- What the kernel returns while a connection is handled.
pub record Readings : Type 0 where
  pub now : ℕ
  pub finish : ℕ
  pub results : List Received

unfoldable pub pair_readings : List Completion → List Readings → List (Completion × Readings)
pair_readings [] rs = []
pair_readings (c ∷ done) [] =
    (c, record { now = 0; finish = 0; results = [] }) ∷ pair_readings done []
pair_readings (c ∷ done) (r ∷ rs) = (c, r) ∷ pair_readings done rs

-- An event of epoll, with what the calls return that it leads to.
pub data Event : Type 0 where
  notified : List Readings → Event
  listening : List Client → Event
  connection : (fd : ℕ) (readable hung_up : Bool) → Readings → Event

module _ {ℓ} {S : Type ℓ} where
  -- The loop of `SweepStale` from a descriptor on.
  unfoldable pub sweep_from : Config → ℕ → ℕ → Slots → RequestIo S → RequestIo S
  sweep_from cfg now fd [] io = io
  sweep_from cfg now fd (none ∷ slots) io = sweep_from cfg now (suc fd) slots io
  sweep_from cfg now fd (some st ∷ slots) io =
      sweep_from cfg now (suc fd) slots
        (if is_stale cfg now st then reject fd 408 timed_out io else io)

  -- A round finds only timeouts that are set, so without any there is nothing to do.
  unfoldable pub sweep_stale : Config → ℕ → RequestIo S → RequestIo S
  sweep_stale cfg now io =
      let swept = sweep_from cfg now 0 io.pending io in
      if cfg.request_timeout == 0 && cfg.read_timeout == 0 then io else swept

  -- `EPOLLERR`, `EPOLLHUP` or `EPOLLRDHUP`: what is left of the connection is closed.
  abbrev pub hang_up : ℕ → RequestIo S → RequestIo S
  hang_up fd io = if has_pending fd io.pending then count_handled (close_connection fd io) else io

  unfoldable pub close_completed : List Completion → RequestIo S → RequestIo S
  close_completed [] io = io
  close_completed (c ∷ done) io = close_completed done (close_connection c.fd io)

  unfoldable pub close_slots : ℕ → Slots → RequestIo S → RequestIo S
  close_slots fd [] io = io
  close_slots fd (none ∷ slots) io = close_slots (suc fd) slots io
  close_slots fd (some st ∷ slots) io = close_slots (suc fd) slots (close_connection fd io)

  abbrev pub kill_pool : RequestIo S → RequestIo S
  kill_pool io = elim io.pool [ none ↦ io | some pool ↦ record io { pool = some (kill pool) } ]

  -- The workers that `kill` joins have run the queued tasks before.
  unfoldable pub shutdown : RequestIo S → RequestIo S
  shutdown io =
      let killed = kill_pool io in
      let done = close_completed killed.completed (record killed { completed = [] }) in
      let swept = close_slots 0 done.pending done in record swept { pending = [] }

module _ {ℓ} {S : Type ℓ} (serve : S → Bytes → (WireResponse × Bool) × S) where
  unfoldable pub rearm_connection : Config → Readings → ℕ → RequestIo S → RequestIo S
  unfolding put_slot
  rearm_connection cfg r fd io =
      let buffer = (pending_slot fd io.pending).buffer in
      let st = record new_conn { buffer = buffer; start = r.now; last_activity = r.now } in
      let put_back = put fd st io in
      let io' = record put_back { calls = armed fd ∷ io.calls } in
      let more = handle_readable serve cfg r.now r.finish r.results fd io' in
      if is_empty buffer then io' else more

  unfoldable pub finish_completions :
      Config → List (Completion × Readings) → RequestIo S → RequestIo S
  finish_completions cfg [] io = io
  finish_completions cfg ((c, r) ∷ done) io =
      let rearmed = rearm_connection cfg r c.fd io in
      finish_completions cfg done (if c.keep_alive then rearmed else close_connection c.fd io)

  unfoldable pub drain_completions : Config → List Readings → RequestIo S → RequestIo S
  drain_completions cfg rs io =
      finish_completions cfg (pair_readings io.completed rs) (record io { completed = [] })

  abbrev pub handle_event : Config → ℕ → Readings → RequestIo S → RequestIo S
  handle_event cfg fd r io = handle_readable serve cfg r.now r.finish r.results fd io

  unfoldable pub dispatch_event : Config → Event → RequestIo S → RequestIo S
  unfolding find_slot
  dispatch_event cfg (notified rs) io = drain_completions cfg rs io
  dispatch_event cfg (listening clients) io = accept_pending cfg clients io
  dispatch_event cfg (connection fd readable hung_up r) io =
      let io' = if readable then handle_event cfg fd r io else io in
      if hung_up then hang_up fd io' else io'

  unfoldable pub dispatch_events : Config → List Event → RequestIo S → RequestIo S
  dispatch_events cfg [] io = io
  dispatch_events cfg (e ∷ es) io = dispatch_events cfg es (dispatch_event cfg e io)

  -- A batch of events, and then the sweep.
  unfoldable pub dispatch : Config → ℕ → List Event → RequestIo S → RequestIo S
  dispatch cfg now es io = sweep_stale cfg now (dispatch_events cfg es io)

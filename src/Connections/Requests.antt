-- ===== src/Connections/Requests.antt =====
-- Reading a connection and serving its requests: `HandleReadable`, `DispatchTask`, `serve_inline` and
-- `ServeRequest` of sources/request/io.cpp. `now` is the clock when `HandleReadable` begins and
-- `finish` when it ends.
use vermell.Prelude.{
  ℕ, zero, suc, ◌+◌, ◌-◌, ◌^◌, min, max, Bool, true, false, ◌&&◌, ◌||◌, Option, none, some, List,
  [], ◌∷◌, ◌++◌, ltb, ◌==◌, if◌then◌else◌, Bytes, codes, is_empty, length, take, drop,
}
use vermell.Connections.{
  Config, ConnState, pending_slot, put_slot, drop_slot, sent, Task, RequestIo, fetch_add, put,
  close_connection, reject, rearm_wait,
}
use vermell.Dispatch.{Clock, Router, execute_route}
use vermell.Rendering.{FileSystem}
use vermell.Http.Message.{Framing, Inspection, inspect}
use vermell.Http.Response.{WireResponse}
use vermell.Pool.{ThreadPool, try_add_task}

-- What `ExecuteRoute` works on: the readings of the clock to come, the routes, and all else.
pub record Server {ℓ} (W : Type ℓ) : Type ℓ where
  pub clocks : ℕ → Clock
  pub router : Router W
  pub world : W

abbrev pub serve_routes {ℓ} :
    {W : Type ℓ} → FileSystem → Server W → Bytes → (WireResponse × Bool) × Server W
serve_routes fs server raw =
    let (reply, router, world) =
      execute_route fs server.router raw (server.clocks 0) server.world in
    (reply, record { clocks = λ n. server.clocks (n + 1); router = router; world = world })

-- What `recv` returns: bytes and the clock behind them, where no bytes are the end of the stream;
-- `EINTR`; an error. Behind the last one it would block.
pub data Received : Type 0 where
  received : ℕ → Bytes → Received
  interrupted : Received
  failed : Received

-- How the reading ends: with an error reply, or at a state and whether the peer has closed.
pub data ReadEnd : Type 0 where
  refused : ℕ → Bytes → ReadEnd
  arrived : ConnState → Bool → ReadEnd

abbrev pub too_large : Bytes
too_large = codes "payload too large"

abbrev pub malformed : Bytes
malformed = codes "malformed request"

abbrev pub timed_out : Bytes
timed_out = codes "request timeout"

abbrev pub append_buffer : ℕ → Bytes → ConnState → ConnState
append_buffer now bytes st = record st { buffer = st.buffer ++ bytes; last_activity = now }

-- The loop around `recv`, with a buffer of that size.
unfoldable pub read_loop : Config → ℕ → ConnState → List Received → ReadEnd
read_loop cfg size st [] = arrived st false
read_loop cfg size st (received now bytes ∷ more) =
    let st' = append_buffer now bytes st in
    let rest = read_loop cfg size st' more in
    if is_empty bytes
    then arrived st true
    else if ltb cfg.max_request_size (length st'.buffer)
    then refused 413 too_large
    else if ltb (length bytes) size
    then arrived st' false
    else rest
read_loop cfg size st (interrupted ∷ more) = read_loop cfg size st more
read_loop cfg size st (failed ∷ more) = refused 400 malformed

-- The buffer for `recv` is not shrunk.
abbrev pub scratch_size : Config → ℕ → ℕ
scratch_size cfg size =
    max size (min (if ltb 0 cfg.read_chunk then cfg.read_chunk else 16384) (2 ^ 20))

abbrev pub is_over : ℕ → ℕ → ℕ → Bool
is_over timeout now since = ltb 0 timeout && ltb timeout (now - since)

abbrev pub deadline_over : Config → ℕ → ConnState → Bool
deadline_over cfg now st =
    is_over cfg.request_timeout now st.start || is_over cfg.read_timeout now st.last_activity

-- What the buffer asks for: an error reply, to wait, or a request of that many bytes.
pub data Next : Type 0 where
  refuse_with : ℕ → Bytes → Next
  wait : ConnState → Next
  ready : ℕ → Next

-- A request that has not fully arrived.
abbrev pub await : Bool → Bool → ConnState → Next
await peer_closed late st =
    if peer_closed
    then refuse_with 400 malformed
    else if late
    then refuse_with 408 timed_out
    else wait st

abbrev pub learn_expected : ℕ → ConnState → ConnState
learn_expected expected st = record st { expected = expected; head_known = ltb 0 expected }

abbrev pub next_inspected : Config → Bool → Bool → ConnState → Inspection → Next
next_inspected cfg peer_closed late st i = elim i.framing [
  | Framing.incomplete ↦
      if ltb cfg.max_request_size i.expected
      then refuse_with 413 too_large
      else await peer_closed late (learn_expected i.expected st)
  | Framing.complete ↦ ready i.expected
  | Framing.bad_request ↦ refuse_with 400 malformed
  | Framing.too_many_headers ↦ refuse_with 431 (codes "too many headers")
  | Framing.not_implemented ↦ refuse_with 501 (codes "transfer encoding not supported")
]

unfoldable pub next_request : Config → Bool → Bool → ConnState → Next
next_request cfg peer_closed late st =
    if st.head_known
    then if ltb (length st.buffer) st.expected then await peer_closed late st else ready st.expected
    else next_inspected cfg peer_closed late st (inspect st.buffer)

-- The state behind a request of that many bytes.
abbrev pub take_request : ℕ → ConnState → ConnState
take_request n st = record st { buffer = drop n st.buffer; expected = 0; head_known = false }

abbrev pub start_at : ℕ → ConnState → ConnState
start_at now st = if st.start == 0 then record st { start = now } else st

module _ {ℓ} {S : Type ℓ} where
  abbrev pub grow_scratch : Config → RequestIo S → RequestIo S
  grow_scratch cfg io = record io { scratch = scratch_size cfg io.scratch }

  abbrev pub give_task : ThreadPool Task → RequestIo S → RequestIo S
  give_task pool io = record io { pool = some pool }

  -- A task for the pool; one that it refuses is answered with 503.
  abbrev pub dispatch_task : ℕ → Bytes → ThreadPool Task → RequestIo S → RequestIo S
  dispatch_task fd raw pool io =
      let (taken, pool') = try_add_task (fd, raw) pool in
      if taken then give_task pool' io else reject fd 503 (codes "server busy") (give_task pool' io)

  -- The connection of a request that a worker gets.
  abbrev pub hand_over : ℕ → ConnState → RequestIo S → RequestIo S
  hand_over fd st io =
      if is_empty st.buffer
      then record io { pending = drop_slot fd io.pending }
      else put fd (record st { dispatching = true }) io

  -- The times of a connection whose requests are all served.
  abbrev pub finish_requests : ℕ → ℕ → ConnState → RequestIo S → RequestIo S
  finish_requests finish fd st io =
      rearm_wait fd (put fd (record st { start = finish; last_activity = finish }) io)

  -- A request without a pool: the connection goes on with the rest of its buffer, or is closed.
  abbrev pub serve_inline :
      ℕ → ConnState → (ConnState → RequestIo S → RequestIo S) → RequestIo S × Bool → RequestIo S
  serve_inline fd st more (io, keep_alive) =
      let kept = more st io in if keep_alive then kept else close_connection fd io

module _ {ℓ} {S : Type ℓ} (serve : S → Bytes → (WireResponse × Bool) × S) where
  -- A request is executed, and its response sent.
  abbrev pub serve_on : ℕ → Bytes → RequestIo S → RequestIo S × Bool
  serve_on fd raw io =
      let ((response, keep_alive), state) = serve io.state raw in
      (
        record io {
          state = state;
          handled = fetch_add io.handled;
          calls = sent fd response ∷ io.calls;
        },
        keep_alive,
      )

  abbrev pub serve_ready :
      ℕ
      → Bytes
      → ConnState
      → RequestIo S
      → (ConnState → RequestIo S → RequestIo S)
      → Option (ThreadPool Task)
      → RequestIo S
  serve_ready fd raw st io more (some pool) = dispatch_task fd raw pool (hand_over fd st io)
  serve_ready fd raw st io more none = serve_inline fd st more (serve_on fd raw io)

  -- One round at what the buffer asks for.
  abbrev pub serve_next :
      ℕ → ConnState → RequestIo S → (ConnState → RequestIo S → RequestIo S) → Next → RequestIo S
  serve_next fd st io more (refuse_with code error) = reject fd code error io
  serve_next fd st io more (wait st') = rearm_wait fd (put fd st' io)
  serve_next fd st io more (ready n) =
      serve_ready fd (take n st.buffer) (take_request n st) io more io.pool

  -- The loop over the requests of the buffer.
  unfoldable pub serve_loop :
      Config → Bool → Bool → ℕ → ℕ → ℕ → ConnState → RequestIo S → RequestIo S
  serve_loop cfg peer_closed late finish zero fd st io = finish_requests finish fd st io
  serve_loop cfg peer_closed late finish (suc fuel) fd st io =
      let rest = serve_loop cfg peer_closed late finish fuel fd in
      let next = serve_next fd st io rest (next_request cfg peer_closed late st) in
      if is_empty st.buffer then finish_requests finish fd st io else next

  -- The rest of `HandleReadable` once the reading has ended.
  abbrev pub handle_arrived : Config → ℕ → ℕ → ℕ → RequestIo S → ReadEnd → RequestIo S
  handle_arrived cfg now finish fd io (refused code error) = reject fd code error io
  handle_arrived cfg now finish fd io (arrived st peer_closed) =
      if is_empty st.buffer
      then rearm_wait fd (put fd st io)
      else serve_loop cfg peer_closed (deadline_over cfg now st) finish (length st.buffer) fd st io

  unfoldable pub handle_readable : Config → ℕ → ℕ → List Received → ℕ → RequestIo S → RequestIo S
  unfolding put_slot
  handle_readable cfg now finish results fd io =
      let st = start_at now (pending_slot fd io.pending) in
      let io' = put fd st (grow_scratch cfg io) in
      handle_arrived cfg now finish fd io' (read_loop cfg io'.scratch st results)

  -- A worker runs a task, and tells the loop of it.
  unfoldable pub serve_request : Task → RequestIo S → RequestIo S
  serve_request (fd, raw) io =
      let (io', keep_alive) = serve_on fd raw io in
      record io' { completed = io'.completed ++ (record { fd = fd; keep_alive = keep_alive }) ∷ [] }

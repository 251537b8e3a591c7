-- ===== src/Connections/Accounting.antt =====
-- The accounting of connections in sources/request/io.cpp without a pool: entries, counts and calls.
use vermell.Connections.Requests.{
  grow_scratch, start_at, Received, ReadEnd, refused, arrived, read_loop, Next, refuse_with, wait,
  ready, next_request, take_request, serve_on, serve_ready, serve_next, serve_loop, finish_requests,
  handle_arrived, handle_readable, deadline_over,
}
use vermell.Connections.{
  error_response, Config, ConnState, pending_slot, put_slot, drop_slot, armed, RequestIo, put,
  close_connection, send_best_effort, count_handled, reject, rearm_wait,
}
use vermell.Prelude.{
  ℕ, zero, suc, ◌%◌, ◌^◌, ◌≤◌, ◌≡◌, sym, ap, ◌∙◌, subst, ◌≢◌, Bool, true, false, none, List, [],
  ◌∷◌, arith, if◌then◌else◌, Bytes, is_empty, is_some, length, take,
}
use vermell.Connections.Slots.{
  count_slots, held, count_slots-put, count_slots-drop, held-put, IsBalanced, put-IsBalanced,
  close-IsBalanced, opens, closes,
}
use vermell.Http.Response.{WireResponse}

-- What holds of both branches of a test holds of the test.
pub if-either {ℓ ℓ'} :
    {A : Type ℓ} (P : A → Type ℓ') (b : Bool) {x y : A} → P x → P y → P (if b then x else y)
if-either P true p q = p
if-either P false p q = q

module _ {ℓ} {S : Type ℓ} (serve : S → Bytes → (WireResponse × Bool) × S) (cfg : Config) where
  -- No task is with a pool; the count is that of the entries, and keeps to its bound; and each
  -- descriptor was closed as often as accepted, but once while it has an entry.
  pub record IsAccounted (io : RequestIo S) : Type ℓ where
    pub alone : io.pool ≡ none
    pub settled : io.completed ≡ []
    pub counted : io.active ≡ count_slots io.pending % 2 ^ 64
    pub balanced : IsBalanced io.pending io.calls
    pub capped : cfg.max_connections ≢ 0 → count_slots io.pending ≤ cfg.max_connections

  abbrev pub Holds : ℕ → RequestIo S → Type 0
  Holds fd io = held fd io.pending ≡ 1

  pub put-IsAccounted :
      (fd : ℕ) (st : ConnState) (io : RequestIo S)
      → Holds fd io
      → IsAccounted io
      → IsAccounted (put fd st io)
  put-IsAccounted fd st io here ok =
      let same_count : count_slots (put_slot fd st io.pending) ≡ count_slots io.pending =
        omega (arith, count_slots-put fd st io.pending) in
      record {
        alone = ok.alone;
        settled = ok.settled;
        counted = ok.counted ∙ ap (λ n. n % 2 ^ 64) (sym same_count);
        balanced = put-IsBalanced fd st io.pending io.calls here ok.balanced;
        capped = λ h. rw same_count (ok.capped h);
      }

  pub close-IsAccounted :
      (fd : ℕ) (io : RequestIo S)
      → Holds fd io
      → IsAccounted io
      → IsAccounted (close_connection fd io)
  close-IsAccounted fd io here ok =
      let one_less : suc (count_slots (drop_slot fd io.pending)) ≡ count_slots io.pending =
        omega (arith, count_slots-drop fd io.pending) in
      record {
        alone = ok.alone;
        settled = ok.settled;
        counted = omega (arith, ok.counted);
        balanced = close-IsBalanced fd io.pending io.calls here ok.balanced;
        capped = λ h. omega (arith, ok.capped h);
      }

  sent-IsAccounted :
      (fd : ℕ) (response : WireResponse) (io : RequestIo S)
      → IsAccounted io
      → IsAccounted (send_best_effort fd response io)
  unfolding opens closes
  sent-IsAccounted fd response io ok = record {
    alone = ok.alone;
    settled = ok.settled;
    counted = ok.counted;
    balanced = ok.balanced;
    capped = ok.capped;
  }

  pub handled-IsAccounted : (io : RequestIo S) → IsAccounted io → IsAccounted (count_handled io)
  handled-IsAccounted io ok = record {
    alone = ok.alone;
    settled = ok.settled;
    counted = ok.counted;
    balanced = ok.balanced;
    capped = ok.capped;
  }

  pub reject-IsAccounted :
      (fd code : ℕ) (error : Bytes) (io : RequestIo S)
      → Holds fd io
      → IsAccounted io
      → IsAccounted (reject fd code error io)
  reject-IsAccounted fd code error io here ok =
      let told = send_best_effort fd (error_response code error) io in
      handled-IsAccounted (close_connection fd told)
        (close-IsAccounted fd told here (sent-IsAccounted fd (error_response code error) io ok))

  rearm_wait-IsAccounted :
      (fd : ℕ) (io : RequestIo S) → IsAccounted io → IsAccounted (rearm_wait fd io)
  rearm_wait-IsAccounted fd io ok =
      let armed_io = record io { calls = armed fd ∷ io.calls } in
      subst (λ pool. IsAccounted (if is_some pool then armed_io else io)) (sym ok.alone) ok

  finish-IsAccounted :
      (finish fd : ℕ) (st : ConnState) (io : RequestIo S)
      → Holds fd io
      → IsAccounted io
      → IsAccounted (finish_requests finish fd st io)
  finish-IsAccounted finish fd st io here ok =
      let done = record st { start = finish; last_activity = finish } in
      rearm_wait-IsAccounted fd (put fd done io) (put-IsAccounted fd done io here ok)

  serve_on-IsAccounted :
      (fd : ℕ) (raw : Bytes) (io : RequestIo S)
      → IsAccounted io
      → IsAccounted (serve_on serve fd raw io).0
  unfolding opens closes
  serve_on-IsAccounted fd raw io ok = record {
    alone = ok.alone;
    settled = ok.settled;
    counted = ok.counted;
    balanced = ok.balanced;
    capped = ok.capped;
  }

  -- What a continuation keeps, a round of the loop keeps.
  serve_next-IsAccounted :
      (fd : ℕ) (st : ConnState) (io : RequestIo S) (more : ConnState → RequestIo S → RequestIo S)
      → ((st : ConnState) (io : RequestIo S)
          → Holds fd io
          → IsAccounted io
          → IsAccounted (more st io))
      → (next : Next) → Holds fd io
      → IsAccounted io
      → IsAccounted (serve_next serve fd st io more next)
  serve_next-IsAccounted fd st io more keeps (refuse_with code error) here ok =
      reject-IsAccounted fd code error io here ok
  serve_next-IsAccounted fd st io more keeps (wait st') here ok =
      rearm_wait-IsAccounted fd (put fd st' io) (put-IsAccounted fd st' io here ok)
  serve_next-IsAccounted fd st io more keeps (ready n) here ok =
      let raw = take n st.buffer in
      let st' = take_request n st in
      let (io', keep_alive) = serve_on serve fd raw io in
      let ok' = serve_on-IsAccounted fd raw io ok in
      subst (λ pool. IsAccounted (serve_ready serve fd raw st' io more pool)) (sym ok.alone)
        (if-either IsAccounted keep_alive (keeps st' io' here ok')
          (close-IsAccounted fd io' here ok'))

  serve_loop-IsAccounted :
      (peer_closed late : Bool) (finish fuel fd : ℕ) (st : ConnState) (io : RequestIo S)
      → Holds fd io
      → IsAccounted io
      → IsAccounted (serve_loop serve cfg peer_closed late finish fuel fd st io)
  unfolding serve_loop
  serve_loop-IsAccounted peer_closed late finish zero fd st io here ok =
      finish-IsAccounted finish fd st io here ok
  serve_loop-IsAccounted peer_closed late finish (suc fuel) fd st io here ok =
      if-either IsAccounted (is_empty st.buffer) (finish-IsAccounted finish fd st io here ok) (
        serve_next-IsAccounted fd st io (serve_loop serve cfg peer_closed late finish fuel fd)
          (serve_loop-IsAccounted peer_closed late finish fuel fd)
          (next_request cfg peer_closed late st) here ok)

  handle_arrived-IsAccounted :
      (now finish fd : ℕ) (io : RequestIo S) (end : ReadEnd)
      → Holds fd io
      → IsAccounted io
      → IsAccounted (handle_arrived serve cfg now finish fd io end)
  handle_arrived-IsAccounted now finish fd io (refused code error) here ok =
      reject-IsAccounted fd code error io here ok
  handle_arrived-IsAccounted now finish fd io (arrived st peer_closed) here ok =
      if-either IsAccounted (is_empty st.buffer)
        (rearm_wait-IsAccounted fd (put fd st io) (put-IsAccounted fd st io here ok))
        (serve_loop-IsAccounted peer_closed (deadline_over cfg now st) finish (length st.buffer) fd
          st io here ok)

  pub handle_readable-IsAccounted :
      (now finish : ℕ) (results : List Received) (fd : ℕ) (io : RequestIo S)
      → Holds fd io
      → IsAccounted io
      → IsAccounted (handle_readable serve cfg now finish results fd io)
  unfolding handle_readable
  handle_readable-IsAccounted now finish results fd io here ok =
      let st = start_at now (pending_slot fd io.pending) in
      let grown = grow_scratch cfg io in
      let grown_ok : IsAccounted grown = record {
        alone = ok.alone;
        settled = ok.settled;
        counted = ok.counted;
        balanced = ok.balanced;
        capped = ok.capped;
      } in
      handle_arrived-IsAccounted now finish fd (put fd st grown)
        (read_loop cfg grown.scratch st results) (held-put fd st io.pending)
        (put-IsAccounted fd st grown here grown_ok)

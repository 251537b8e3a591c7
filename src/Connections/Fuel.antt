-- ===== src/Connections/Fuel.antt =====
-- The loop over the requests of a buffer in `HandleReadable` (sources/request/io.cpp) ends.
use vermell.Connections.Requests.{
  finish_requests, Next, refuse_with, wait, ready, next_request, next_inspected, await,
  take_request, serve_on, serve_ready, serve_next, serve_loop,
}
use vermell.Prelude.{
  ℕ, zero, suc, ◌+◌, ◌≤◌, ◌<◌, ◌≡◌, refl, sym, ap, ◌∙◌, ◌≢◌, inl, inr, Bool, true, false, Option,
  none, some, List, [], ◌∷◌, arith, ltb, if◌then◌else◌, Bool-cases, Option-cases, if-true, if-false,
  Bytes, is_empty, split_on, length, take, length-drop,
}
use vermell.Connections.{close_connection, Config, ConnState, RequestIo}
use vermell.Http.Head.{Bounds, head_bounds, scan_head, HeadScan}
use vermell.Http.Head.Terminator.{head_bounds-IsBounded}
use vermell.Http.Message.{Framing, Inspection, inspect, inspect_partial, inspect_head, inspect_body}
use vermell.Http.Response.{WireResponse}
use vermell.Pool.{ThreadPool}

abbrev IsPositive : Inspection → Type 0
IsPositive i = i.framing ≡ Framing.complete → 0 < i.expected

inspect_partial-IsPositive : (lines : ℕ) (s : List Bytes) → IsPositive (inspect_partial lines s)
unfolding inspect_partial
inspect_partial-IsPositive lines [] = λ h. ground arith
inspect_partial-IsPositive lines (line ∷ []) = λ h. ground arith
inspect_partial-IsPositive lines (line ∷ more ∷ rest) =
    let later = inspect_partial-IsPositive (lines + 1) (more ∷ rest) in λ h. ground arith

inspect_head-IsPositive :
    (raw : Bytes) (b : Bounds) (scan : HeadScan)
    → 0 < length b.head + b.separator
    → IsPositive (inspect_head raw b scan)
unfolding inspect_head inspect_body
inspect_head-IsPositive raw b scan positive = λ h. ground arith

bounds-positive :
    (raw : Bytes) {b : Bounds} → head_bounds raw ≡ some b → 0 < length b.head + b.separator
bounds-positive raw h =
    let e = head_bounds-IsBounded raw h in
    elim e.ending [
      | inl long ↦ omega (arith, e.prefix_size)
      | inr short ↦ omega (arith, e.prefix_size, ap length short)
    ]

-- A complete request has bytes.
pub inspect-IsPositive : (raw : Bytes) → IsPositive (inspect raw)
unfolding inspect
inspect-IsPositive raw = elim (Option-cases (head_bounds raw)) [
  | inl missing ↦ rw (missing, inspect) (inspect_partial-IsPositive 0 (split_on b'\n' raw))
  | inr (b, found) ↦
      rw (found, inspect)
        (inspect_head-IsPositive raw b (scan_head b.head) (bounds-positive raw found))
]

await-ready :
    (peer_closed late : Bool) (st : ConnState) {n : ℕ} → await peer_closed late st ≢ ready n
await-ready true late st = λ e. cc
await-ready false true st = λ e. cc
await-ready false false st = λ e. cc

ready-injective : {n k : ℕ} → ready n ≡ ready k → n ≡ k
ready-injective e = cc

-- What the buffer asks for at a head that has arrived.
known-ready :
    (peer_closed late : Bool) (st : ConnState) (b : Bool) {n : ℕ}
    → (if b then await peer_closed late st else ready st.expected) ≡ ready n
    → st.expected ≡ n
known-ready peer_closed late st true e = absurd (await-ready peer_closed late st e)
known-ready peer_closed late st false e = ready-injective e

inspected-ready :
    (cfg : Config) (peer_closed late : Bool) (st : ConnState) (framing : Framing) (expected : ℕ)
    {n : ℕ}
    → next_inspected cfg peer_closed late st (record { framing = framing; expected = expected })
      ≡ ready n
    → (framing ≡ Framing.complete) × (expected ≡ n)
inspected-ready cfg peer_closed late st Framing.complete expected e = (refl, ready-injective e)
inspected-ready cfg peer_closed late st Framing.incomplete expected e =
    elim (Bool-cases (ltb cfg.max_request_size expected)) [
      | inl large ↦ absurd (cc (sym (if-true _ _ _ large) ∙ e))
      | inr fits ↦ absurd (await-ready peer_closed late _ (sym (if-false _ _ _ fits) ∙ e))
    ]
inspected-ready cfg peer_closed late st Framing.bad_request expected e = absurd (cc e)
inspected-ready cfg peer_closed late st Framing.too_many_headers expected e = absurd (cc e)
inspected-ready cfg peer_closed late st Framing.not_implemented expected e = absurd (cc e)

-- A size that is known is not zero.
abbrev pub IsKnown : ConnState → Type 0
IsKnown st = st.head_known ≡ true → 0 < st.expected

next_request-ready :
    (cfg : Config) (peer_closed late : Bool) (st : ConnState) {n : ℕ}
    → IsKnown st
    → next_request cfg peer_closed late st ≡ ready n
    → 0 < n
unfolding next_request
next_request-ready cfg peer_closed late st {n} known e = elim (Bool-cases st.head_known) [
  | inl has ↦
      let same_size : st.expected ≡ n =
        known-ready peer_closed late st (ltb (length st.buffer) st.expected)
          (sym (if-true st.head_known _ _ has) ∙ e) in
      omega (arith, known has)
  | inr lacks ↦
      let i = inspect st.buffer in
      let (complete, same_size) =
        inspected-ready cfg peer_closed late st i.framing i.expected
          (sym (if-false st.head_known _ _ lacks) ∙ e) in
      let positive = inspect-IsPositive st.buffer complete in omega arith
]

module _ {ℓ} {S : Type ℓ} (serve : S → Bytes → (WireResponse × Bool) × S) where
  serve_ready-agree :
      (fd : ℕ) (raw : Bytes) (st : ConnState) (io : RequestIo S)
      (more more' : ConnState → RequestIo S → RequestIo S)
      → ((io : RequestIo S) → more st io ≡ more' st io)
      → (pool : Option (ThreadPool (ℕ × Bytes)))
      → serve_ready serve fd raw st io more pool ≡ serve_ready serve fd raw st io more' pool
  serve_ready-agree fd raw st io more more' agree (some pool) = refl
  serve_ready-agree fd raw st io more more' agree none =
      ap
        (λ kept.
          if (serve_on serve fd raw io).1
          then kept
          else close_connection fd (serve_on serve fd raw io).0)
        (agree (serve_on serve fd raw io).0)

  -- A round uses what comes after it only behind a request.
  serve_next-agree :
      (fd : ℕ) (st : ConnState) (io : RequestIo S)
      (more more' : ConnState → RequestIo S → RequestIo S) (next : Next)
      → ((n : ℕ) (io : RequestIo S)
          → next ≡ ready n
          → more (take_request n st) io ≡ more' (take_request n st) io)
      → serve_next serve fd st io more next ≡ serve_next serve fd st io more' next
  serve_next-agree fd st io more more' (refuse_with code error) agree = refl
  serve_next-agree fd st io more more' (wait st') agree = refl
  serve_next-agree fd st io more more' (ready n) agree =
      serve_ready-agree fd (take n st.buffer) (take_request n st) io more more'
        (λ io. agree n io refl) io.pool

  empty_buffer : (s : Bytes) → length s ≤ 0 → is_empty s ≡ true
  empty_buffer [] h = refl
  empty_buffer (c ∷ s) h = absurd (omega arith)

  -- More fuel than there are bytes in the buffer changes nothing: every round takes a request, and a
  -- request has bytes.
  pub serve_loop_fuel :
      (cfg : Config) (peer_closed late : Bool) (finish fuel fuel' fd : ℕ) (st : ConnState)
      (io : RequestIo S)
      → IsKnown st
      → length st.buffer ≤ fuel
      → length st.buffer ≤ fuel'
      → serve_loop serve cfg peer_closed late finish fuel fd st io
        ≡ serve_loop serve cfg peer_closed late finish fuel' fd st io
  unfolding serve_loop
  serve_loop_fuel cfg peer_closed late finish zero zero fd st io known h h' = refl
  serve_loop_fuel cfg peer_closed late finish zero (suc fuel') fd st io known h h' =
      sym (if-true (is_empty st.buffer) _ _ (empty_buffer st.buffer h))
  serve_loop_fuel cfg peer_closed late finish (suc fuel) zero fd st io known h h' =
      if-true (is_empty st.buffer) _ _ (empty_buffer st.buffer h')
  serve_loop_fuel cfg peer_closed late finish (suc fuel) (suc fuel') fd st io known h h' =
      ap (λ next. if is_empty st.buffer then finish_requests finish fd st io else next)
        (serve_next-agree fd st io (serve_loop serve cfg peer_closed late finish fuel fd)
          (serve_loop serve cfg peer_closed late finish fuel' fd)
          (next_request cfg peer_closed late st)
          (λ n io e.
            let positive = next_request-ready cfg peer_closed late st known e in
            let size = length-drop n st.buffer in
            serve_loop_fuel cfg peer_closed late finish fuel fuel' fd (take_request n st) io
              (λ impossible. absurd (cc impossible)) (omega arith) (omega arith)))

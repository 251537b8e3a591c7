-- ===== src/Connections/Pipelining.antt =====
-- Requests that arrive in one buffer (`HandleReadable` of sources/request/io.cpp).
use vermell.Prelude.{
  ℕ, suc, ◌≤◌, ◌≡◌, refl, sym, ap, ◌∙◌, subst, Bool, false, none, some, List, [], ◌∷◌, ◌++◌,
  append-nil, append_assoc, arith, if◌then◌else◌, if-false, Bytes, is_empty, length, take,
  length-append, take-length_append, drop-length_append,
}
use vermell.Connections.{Config, ConnState, RequestIo, close_connection}
use vermell.Connections.Requests.{
  next_request, next_inspected, take_request, serve_on, serve_inline, serve_ready, serve_next,
  serve_loop,
}
use vermell.Http.Message.Agreement.{parse-IsFramed}
use vermell.Connections.Fuel.{inspect-IsPositive, serve_loop_fuel, IsKnown}
use vermell.Http.Chunked.{npos}
use vermell.Http.Message.{Message, Framing, inspect, parse}
use vermell.Http.Message.Locality.{parse-IsSelfDelimited}
use vermell.Http.Response.{WireResponse}

-- The bytes of one request, no more: `parse` accepts them, and `inspect` counts them all.
pub record IsRequest (raw : Bytes) : Type 0 where
  pub message : Message
  pub parses : parse raw ≡ some message
  pub whole : (inspect raw).expected ≡ length raw
  pub small : length raw ≤ npos

empty_of_length : {A : Type 0} (s : List A) → length s ≡ 0 → s ≡ []
empty_of_length [] h = refl
empty_of_length (c ∷ s) h = absurd (omega arith)

-- With any bytes behind it, it is still seen as what it is.
IsRequest-inspect :
    (raw t : Bytes)
    → IsRequest raw
    → inspect (raw ++ t) ≡ record { framing = Framing.complete; expected = length raw }
IsRequest-inspect raw t h =
    let d = parse-IsSelfDelimited raw h.small h.parses in
    let seen = d.inspected d.rest in
    let same_size : length raw ≡ length d.request =
      sym h.whole ∙ ap (λ s. (inspect s).expected) d.splits ∙ ap (λ i. i.expected) seen in
    let nothing : d.rest ≡ [] =
      empty_of_length d.rest (omega (arith, ap length d.splits, length-append d.request d.rest)) in
    let same_bytes : d.request ≡ raw =
      sym (d.splits ∙ ap (λ s. d.request ++ s) nothing ∙ append-nil d.request) in
    subst (λ s. inspect (s ++ t) ≡ record { framing = Framing.complete; expected = length s })
      same_bytes (d.inspected t)

-- No bytes are no request.
IsRequest-nonempty : (raw : Bytes) → IsRequest raw → is_empty raw ≡ false
IsRequest-nonempty [] h =
    let framed = parse-IsFramed [] h.small h.parses in
    let positive = inspect-IsPositive [] framed.is_complete in
    absurd (omega (arith, framed.available))
IsRequest-nonempty (c ∷ raw) h = refl

is_empty-append : (raw rest : Bytes) → is_empty raw ≡ false → is_empty (raw ++ rest) ≡ false
is_empty-append [] rest h = absurd (cc h)
is_empty-append (c ∷ raw) rest h = refl

-- A connection at the begin of a request.
abbrev pub at_request : ConnState → Bytes → ConnState
at_request st bytes = record st { buffer = bytes; expected = 0; head_known = false }

unfoldable pub concat : List Bytes → Bytes
concat [] = []
concat (raw ∷ raws) = raw ++ concat raws

abbrev pub AreRequests : List Bytes → Type 0
AreRequests [] = Unit
AreRequests (raw ∷ raws) = IsRequest raw × AreRequests raws

module _ {ℓ} {S : Type ℓ} (serve : S → Bytes → (WireResponse × Bool) × S) where
  -- The requests one after the other, up to the first whose response closes the connection, and then
  -- what comes behind them all.
  unfoldable pub serve_each :
      ℕ → List Bytes → (RequestIo S → RequestIo S) → RequestIo S → RequestIo S
  serve_each fd [] behind io = behind io
  serve_each fd (raw ∷ raws) behind io =
      let (io', keep_alive) = serve_on serve fd raw io in
      let rest = serve_each fd raws behind io' in
      if keep_alive then rest else close_connection fd io'

  abbrev pub round : Config → Bool → Bool → ℕ → ℕ → ConnState → RequestIo S → RequestIo S
  round cfg peer_closed late finish fd st io =
      serve_loop serve cfg peer_closed late finish (length st.buffer) fd st io

  serve_loop-request :
      (cfg : Config) (peer_closed late : Bool) (finish fuel fd : ℕ) (st : ConnState)
      (raw rest : Bytes) (io : RequestIo S)
      → io.pool ≡ none
      → IsRequest raw
      → serve_loop serve cfg peer_closed late finish (suc fuel) fd (at_request st (raw ++ rest)) io
        ≡ (if (serve_on serve fd raw io).1
            then serve_loop serve cfg peer_closed late finish fuel fd
                (at_request st rest)
                (serve_on serve fd raw io).0
            else close_connection fd (serve_on serve fd raw io).0)
  unfolding serve_loop next_request
  serve_loop-request cfg peer_closed late finish fuel fd st raw rest io alone h =
      let b = raw ++ rest in
      let more = serve_loop serve cfg peer_closed late finish fuel fd in
      let st' = at_request st b in
      if-false (is_empty b) _ _ (is_empty-append raw rest (IsRequest-nonempty raw h))
      ∙ ap (λ i. serve_next serve fd st' io more (next_inspected cfg peer_closed late st' i))
          (IsRequest-inspect raw rest h)
      ∙ ap (serve_ready serve fd (take (length raw) b) (take_request (length raw) st') io more)
          alone
      ∙ ap (λ r. serve_inline fd (take_request (length raw) st') more (serve_on serve fd r io))
          (take-length_append raw rest)
      ∙ ap (λ r. serve_inline fd (at_request st r) more (serve_on serve fd raw io))
          (drop-length_append raw rest)

  at_request-IsKnown : (st : ConnState) (bytes : Bytes) → IsKnown (at_request st bytes)
  at_request-IsKnown st bytes = λ impossible. absurd (cc impossible)

  -- Without a pool, requests that stand in one buffer, with any bytes behind them, are executed in
  -- their order, each on its own bytes and on the state that the one before left; the responses are
  -- sent in that order; the first that closes the connection is the last; and if none does, the loop
  -- goes on with the bytes behind.
  pub serve_loop-serve_each :
      (cfg : Config) (peer_closed late : Bool) (finish fd : ℕ) (st : ConnState) (raws : List Bytes)
      (rest : Bytes) (io : RequestIo S)
      → io.pool ≡ none
      → AreRequests raws
      → round cfg peer_closed late finish fd (at_request st (concat raws ++ rest)) io
        ≡ serve_each fd raws (round cfg peer_closed late finish fd (at_request st rest)) io
  unfolding concat serve_each
  serve_loop-serve_each cfg peer_closed late finish fd st [] rest io alone _ = refl
  serve_loop-serve_each cfg peer_closed late finish fd st (raw ∷ raws) rest io alone (h, more) =
      let behind = concat raws ++ rest in
      let b = raw ++ behind in
      let size = length-append raw behind in
      let io' = (serve_on serve fd raw io).0 in
      let known = at_request-IsKnown st in
      ap (λ s. round cfg peer_closed late finish fd (at_request st s) io)
        (append_assoc raw (concat raws) rest)
      ∙ serve_loop_fuel serve cfg peer_closed late finish (length b) (suc (length b)) fd
          (at_request st b) io (known b) (omega arith) (omega arith)
      ∙ serve_loop-request cfg peer_closed late finish (length b) fd st raw behind io alone h
      ∙ ap (λ kept. if (serve_on serve fd raw io).1 then kept else close_connection fd io')
          (serve_loop_fuel serve cfg peer_closed late finish (length b) (length behind) fd
              (at_request st behind) io' (known behind) (omega arith) (omega arith)
            ∙ serve_loop-serve_each cfg peer_closed late finish fd st raws rest io' alone more)

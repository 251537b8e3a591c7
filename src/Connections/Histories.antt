-- ===== src/Connections/Histories.antt =====
-- The accounting of connections over the batches of the event loop (sources/request/io.cpp).
use vermell.Connections.Requests.{timed_out, handle_readable}
use vermell.Connections.{
  Config, ConnState, new_conn, Slots, has_pending, put_slot, Client, accept_one, accept_pending,
  turn_away, RequestIo, close_connection, reject, new_io,
}
use vermell.Prelude.{
  ℕ, suc, ◌+◌, ◌^◌, ◌<◌, ◌≡◌, refl, sym, ap, ◌∙◌, subst, inl, inr, Bool, not, ◌&&◌, Option, none,
  some, List, [], ◌∷◌, arith, leb, ◌==◌, if◌then◌else◌, Bool-cases, if-true, if-false, Bytes,
}
use vermell.Connections.Slots.{
  count_slots, held, count_slots-put, accept-IsBalanced, turn_away-IsBalanced, opens, closes,
}
use vermell.Connections.Loop.{
  is_stale, sweep_from, sweep_stale, hang_up, Event, notified, listening, connection,
  drain_completions, finish_completions, pair_readings, dispatch_event, dispatch_events, dispatch,
  Readings,
}
use vermell.Http.Response.{WireResponse}
use vermell.Connections.Accounting.{
  if-either, IsAccounted, close-IsAccounted, handled-IsAccounted, reject-IsAccounted,
  handle_readable-IsAccounted,
}
use vermell.Connections.Slots.{held-drop_other}

module _ {ℓ} {S : Type ℓ} (serve : S → Bytes → (WireResponse × Bool) × S) (cfg : Config) where
  -- A new descriptor has no entry.
  accept_one-IsAccounted :
      (client : Client) (io : RequestIo S)
      → cfg.max_connections < 2 ^ 64
      → held client.fd io.pending ≡ 0
      → IsAccounted serve cfg io
      → IsAccounted serve cfg (accept_one cfg client io)
  unfolding accept_one
  accept_one-IsAccounted client io word fresh ok =
      let st = record new_conn { start = client.now; last_activity = client.now } in
      let away : IsAccounted serve cfg (turn_away client.fd io) = record {
        alone = ok.alone;
        settled = ok.settled;
        counted = ok.counted;
        balanced = turn_away-IsBalanced client.fd io.pending io.calls ok.balanced;
        capped = ok.capped;
      } in
      let one_more : count_slots (put_slot client.fd st io.pending) ≡ suc (count_slots io.pending) =
        omega (arith, count_slots-put client.fd st io.pending, fresh) in
      elim (Bool-cases (not (cfg.max_connections == 0) && leb cfg.max_connections io.active)) [
        | inl full ↦ subst (IsAccounted serve cfg) (sym (if-true _ _ _ full)) away
        | inr room ↦ subst (IsAccounted serve cfg) (sym (if-false _ _ _ room)) (
            if-either (IsAccounted serve cfg) (not client.added) away (record {
              alone = ok.alone;
              settled = ok.settled;
              counted = omega (arith, ok.counted, one_more);
              balanced = accept-IsBalanced client.fd st io.pending io.calls fresh ok.balanced;
              capped =
                  λ h. let bounded = ok.capped h in ground (arith, ok.counted, one_more, bounded);
            }))
      ]

  -- `accept4` returns descriptors that are not open.
  abbrev AreFresh : List Client → RequestIo S → Type 0
  AreFresh [] io = Unit
  AreFresh (client ∷ clients) io =
      (held client.fd io.pending ≡ 0) × AreFresh clients (accept_one cfg client io)

  accept_pending-IsAccounted :
      (clients : List Client) (io : RequestIo S)
      → cfg.max_connections < 2 ^ 64
      → AreFresh clients io
      → IsAccounted serve cfg io
      → IsAccounted serve cfg (accept_pending cfg clients io)
  unfolding accept_pending
  accept_pending-IsAccounted [] io word fresh ok = ok
  accept_pending-IsAccounted (client ∷ clients) io word (fresh, more) ok =
      accept_pending-IsAccounted clients (accept_one cfg client io) word more
        (accept_one-IsAccounted client io word fresh ok)

  -- The entries from a descriptor on.
  abbrev AreFrom : ℕ → Slots → RequestIo S → Type 0
  AreFrom fd slots io = (k : ℕ) → held k slots ≡ held (fd + k) io.pending

  held-suc :
      (k : ℕ) (slot : Option ConnState) (slots : Slots) → held (suc k) (slot ∷ slots) ≡ held k slots
  unfolding held
  held-suc k slot slots = refl

  -- The rest of the entries are those from the next descriptor on.
  AreFrom-rest :
      (fd : ℕ) (slot : Option ConnState) (slots : Slots) (io : RequestIo S)
      → AreFrom fd (slot ∷ slots) io
      → AreFrom (suc fd) slots io
  AreFrom-rest fd slot slots io from k =
      let next : fd + suc k ≡ suc fd + k = omega arith in
      sym (held-suc k slot slots) ∙ from (suc k) ∙ ap (λ n. held n io.pending) next

  reject-AreFrom :
      (fd code : ℕ) (error : Bytes) (slots : Slots) (io : RequestIo S)
      → AreFrom (suc fd) slots io
      → AreFrom (suc fd) slots (reject fd code error io)
  reject-AreFrom fd code error slots io from k =
      from k ∙ sym (held-drop_other fd (suc fd + k) io.pending (λ e. absurd (omega arith)))

  held-here : (st : ConnState) (slots : Slots) → held 0 (some st ∷ slots) ≡ 1
  unfolding held
  held-here st slots = refl

  sweep_from-IsAccounted :
      (now fd : ℕ) (slots : Slots) (io : RequestIo S)
      → AreFrom fd slots io
      → IsAccounted serve cfg io
      → IsAccounted serve cfg (sweep_from cfg now fd slots io)
  unfolding sweep_from
  sweep_from-IsAccounted now fd [] io from ok = ok
  sweep_from-IsAccounted now fd (none ∷ slots) io from ok =
      sweep_from-IsAccounted now (suc fd) slots io (AreFrom-rest fd none slots io from) ok
  sweep_from-IsAccounted now fd (some st ∷ slots) io from ok =
      let rest = AreFrom-rest fd (some st) slots io from in
      let here : held fd io.pending ≡ 1 =
        ap (λ n. held n io.pending) (omega arith) ∙ sym (from 0) ∙ held-here st slots in
      if-either (λ io. IsAccounted serve cfg (sweep_from cfg now (suc fd) slots io))
        (is_stale cfg now st)
        (sweep_from-IsAccounted now (suc fd) slots (reject fd 408 timed_out io)
          (reject-AreFrom fd 408 timed_out slots io rest)
          (reject-IsAccounted serve cfg fd 408 timed_out io here ok))
        (sweep_from-IsAccounted now (suc fd) slots io rest ok)

  sweep_stale-IsAccounted :
      (now : ℕ) (io : RequestIo S)
      → IsAccounted serve cfg io
      → IsAccounted serve cfg (sweep_stale cfg now io)
  unfolding sweep_stale
  sweep_stale-IsAccounted now io ok =
      if-either (IsAccounted serve cfg) (cfg.request_timeout == 0 && cfg.read_timeout == 0) ok (
        sweep_from-IsAccounted now 0 io.pending io (λ k. ap (λ n. held n io.pending) (omega arith))
          ok)

  hang_up-IsAccounted :
      (fd : ℕ) (io : RequestIo S) → IsAccounted serve cfg io → IsAccounted serve cfg (hang_up fd io)
  unfolding held
  hang_up-IsAccounted fd io ok = elim (Bool-cases (has_pending fd io.pending)) [
    | inl here ↦ subst (IsAccounted serve cfg) (sym (if-true _ _ _ here)) (
        handled-IsAccounted serve cfg (close_connection fd io)
          (close-IsAccounted serve cfg fd io (if-true _ _ _ here) ok))
    | inr gone ↦ subst (IsAccounted serve cfg) (sym (if-false _ _ _ gone)) ok
  ]

  -- epoll reports the descriptors that were added to it, which have an entry.
  abbrev IsDelivered : Event → RequestIo S → Type 0
  IsDelivered (notified rs) io = Unit
  IsDelivered (listening clients) io = AreFresh clients io
  IsDelivered (connection fd readable hung_up r) io = held fd io.pending ≡ 1

  abbrev pub AreDelivered : List Event → RequestIo S → Type 0
  AreDelivered [] io = Unit
  AreDelivered (e ∷ es) io = IsDelivered e io × AreDelivered es (dispatch_event serve cfg e io)

  -- Without a pool there is no completion.
  drain_completions-IsAccounted :
      (rs : List Readings) (io : RequestIo S)
      → IsAccounted serve cfg io
      → IsAccounted serve cfg (drain_completions serve cfg rs io)
  unfolding drain_completions finish_completions pair_readings
  drain_completions-IsAccounted rs io ok =
      let emptied = record io { completed = [] } in
      let same_calls : IsAccounted serve cfg emptied = record {
        alone = ok.alone;
        settled = refl;
        counted = ok.counted;
        balanced = ok.balanced;
        capped = ok.capped;
      } in
      subst
        (λ done.
          IsAccounted serve cfg (finish_completions serve cfg (pair_readings done rs) emptied))
        (sym ok.settled) same_calls

  dispatch_event-IsAccounted :
      (e : Event) (io : RequestIo S)
      → cfg.max_connections < 2 ^ 64
      → IsDelivered e io
      → IsAccounted serve cfg io
      → IsAccounted serve cfg (dispatch_event serve cfg e io)
  unfolding dispatch_event
  dispatch_event-IsAccounted (notified rs) io word delivered ok =
      drain_completions-IsAccounted rs io ok
  dispatch_event-IsAccounted (listening clients) io word fresh ok =
      accept_pending-IsAccounted clients io word fresh ok
  dispatch_event-IsAccounted (connection fd readable hung_up r) io word here ok =
      let io' = if readable then handle_readable serve cfg r.now r.finish r.results fd io else io in
      let ok' : IsAccounted serve cfg io' =
        if-either (IsAccounted serve cfg) readable
          (handle_readable-IsAccounted serve cfg r.now r.finish r.results fd io here ok) ok in
      if-either (IsAccounted serve cfg) hung_up (hang_up-IsAccounted fd io' ok') ok'

  dispatch_events-IsAccounted :
      (es : List Event) (io : RequestIo S)
      → cfg.max_connections < 2 ^ 64
      → AreDelivered es io
      → IsAccounted serve cfg io
      → IsAccounted serve cfg (dispatch_events serve cfg es io)
  unfolding dispatch_events
  dispatch_events-IsAccounted [] io word _ ok = ok
  dispatch_events-IsAccounted (e ∷ es) io word (delivered, more) ok =
      dispatch_events-IsAccounted es (dispatch_event serve cfg e io) word more
        (dispatch_event-IsAccounted e io word delivered ok)

  -- What a loop without a pool can become, batch by batch.
  pub data History : RequestIo S → Type ℓ where
    begun : {io : RequestIo S} (state : S) → new_io none state ≡ io → History io
    batch :
        {io io' : RequestIo S} (now : ℕ) (es : List Event)
        → History io
        → AreDelivered es io
        → dispatch serve cfg now es io ≡ io'
        → History io'

  new_io-IsAccounted : (state : S) → IsAccounted serve cfg (new_io none state)
  unfolding held opens closes count_slots
  new_io-IsAccounted state = record {
    alone = refl;
    settled = refl;
    counted = refl;
    balanced = λ fd. refl;
    capped = λ h. omega arith;
  }

  -- Without a pool, whatever clients connect, send and hang up, in whatever batches: the count of
  -- active connections is that of the entries, each descriptor was closed as often as it was
  -- accepted, but for one time less while it has an entry, and no more connections are open than
  -- `max_connections`, where that is set.
  pub History-IsAccounted :
      {io : RequestIo S} → cfg.max_connections < 2 ^ 64 → History io → IsAccounted serve cfg io
  unfolding dispatch
  History-IsAccounted word (begun state e) =
      subst (IsAccounted serve cfg) e (new_io-IsAccounted state)
  History-IsAccounted word (batch {io = io} now es before delivered e) =
      subst (IsAccounted serve cfg) e (
        sweep_stale-IsAccounted now (dispatch_events serve cfg es io)
          (dispatch_events-IsAccounted es io word delivered (History-IsAccounted word before)))

-- ===== src/Dispatch/Replies.antt =====
-- `RequestIO::ExecuteRoute` of sources/request/io.cpp: the replies.
use vermell.Http.Message.{Message, parse, header}
use vermell.Http.Text.{iequals}
use vermell.Http.Response.{WireResponse, head, set}
use vermell.Dispatch.{
  close_header, settle, unrouted, execute_route, Router, Clock, keep_alive_requested, asks_close,
  answer_message,
}
use vermell.Params.{or_else}
use vermell.Rendering.{FileSystem}
use vermell.Prelude.{
  String, ◌≡◌, refl, sym, ◌∙◌, ◌⊎◌, inl, inr, Bool, true, false, none, some, [], ◌++◌,
  if◌then◌else◌, Bool-cases, Option-cases, Bytes, codes, same, strip_prefix, cut_seq,
  some-injective,
}

settle-keeps :
    (head_only keep_alive allowed : Bool) (response : WireResponse)
    → (settle head_only keep_alive allowed response).1 ≡ true
    → (keep_alive ≡ true)
      × (allowed ≡ true)
      × (asks_close (settle head_only keep_alive allowed response).0.head ≡ false)
unfolding settle
settle-keeps head_only false allowed response h = cc
settle-keeps head_only true false response h = cc
settle-keeps head_only true true response h = elim (Bool-cases (asks_close response.head)) [
  | inl closing ↦ absurd (cc (rw closing at h))
  | inr staying ↦ (refl, refl, rw staying staying)
]

settle-head_only :
    (keep_alive allowed : Bool) (response : WireResponse)
    → (settle true keep_alive allowed response).0.body ≡ []
unfolding settle
settle-head_only keep_alive allowed response = refl

keep_alive_requested-asks :
    (message : Message)
    → keep_alive_requested message ≡ true
    → (iequals (header message (codes "Connection")) (codes "close") ≡ false)
      × ((iequals (header message (codes "Connection")) (codes "keep-alive") ≡ true)
          ⊎ (strip_prefix (codes "HTTP/1.0") message.version ≡ none))
unfolding keep_alive_requested
keep_alive_requested-asks message h =
    let conn = header message (codes "Connection") in
    elim (Bool-cases (iequals conn (codes "close"))) [
      | inl closes ↦ absurd (cc (rw closes at h))
      | inr stays ↦ elim (Bool-cases (iequals conn (codes "keep-alive"))) [
        | inl asks ↦ (stays, inl asks)
        | inr silent ↦ elim (Option-cases (strip_prefix (codes "HTTP/1.0") message.version)) [
          | inl newer ↦ (stays, inr newer)
          | inr (rest, older) ↦ absurd (cc (rw (stays, silent, older) at h))
        ]
      ]
    ]

asks_close-cut :
    (head : Bytes) → asks_close head ≡ false → cut_seq (codes "Connection: close") head ≡ none
asks_close-cut head h = elim (Option-cases (cut_seq (codes "Connection: close") head)) [
  | inl staying ↦ staying
  | inr (found, e) ↦ absurd (cc (rw e at h))
]

-- The head of an error of the dispatch: its status line, its length, and whether the connection stays.
abbrev pub error_head : String → String → String → Bytes
error_head reason size connection =
    codes "HTTP/1.1 "
    ++ (codes reason
        ++ (codes "\r\nServer: Vermell\r\nContent-Type: application/json\r\nContent-Length: "
            ++ (codes size
                ++ (codes
                      "\r\nAccept-Ranges: bytes\r\nX-Content-Type-Options: nosniff\r\nConnection: "
                    ++ (codes connection ++ codes "\r\n\r\n")))))

abbrev pub connection_of : Bool → String
connection_of keep = if keep then "keep-alive" else "close"

settle-malformed :
    (allowed : Bool)
    → settle false false allowed (unrouted false) ≡ (
      record {
        head = error_head "400 Bad Request" "29" "close";
        body = codes "{\"error\":\"malformed request\"}";
      },
      false,
    )
unfolding settle close_header cut_seq strip_prefix head set
settle-malformed allowed = refl

settle-unrouted :
    (head_only keep_alive allowed : Bool)
    → ((settle head_only keep_alive allowed (unrouted true)).0.head
        ≡ error_head "404 Not Found" "37"
            (connection_of (settle head_only keep_alive allowed (unrouted true)).1))
      × ((settle head_only keep_alive allowed (unrouted true)).0.body
          ≡ (if head_only then [] else codes "{\"error\":\"this route is not defined\"}"))
unfolding settle close_header cut_seq strip_prefix head set
settle-unrouted head_only false allowed = (refl, refl)
settle-unrouted head_only true false = (refl, refl)
settle-unrouted head_only true true = (refl, refl)

module _ {ℓ} {W : Type ℓ} (fs : FileSystem) (router : Router W) (raw : Bytes) (clock : Clock)
    (w : W) where
  -- The connection stays only after a request that parses, whose Connection header is not `close` and
  -- is `keep-alive` where its version is HTTP/1.0, on a server that allows it, and with a head
  -- without `Connection: close`; the reply to a HEAD request has no body; one that no route answers
  -- gets 404; and bytes that do not parse get 400 and a closed connection, with no route touched.
  pub record IsSettled : Type ℓ where
    pub keeps :
        (execute_route fs router raw clock w).0.1 ≡ true
        → (message : Message) × (parse raw ≡ some message)
          × (iequals (header message (codes "Connection")) (codes "close") ≡ false)
          × ((iequals (header message (codes "Connection")) (codes "keep-alive") ≡ true)
              ⊎ (strip_prefix (codes "HTTP/1.0") message.version ≡ none))
          × (router.allow_keep_alive ≡ true)
          × (cut_seq (codes "Connection: close") (execute_route fs router raw clock w).0.0.head
              ≡ none)
    pub head_only :
        (message : Message)
        → parse raw ≡ some message
        → same message.method (codes "HEAD") ≡ true
        → (execute_route fs router raw clock w).0.0.body ≡ []
    pub unanswered :
        (message : Message)
        → parse raw ≡ some message
        → (answer_message fs router message clock w).0 ≡ none
        → ((execute_route fs router raw clock w).0.0.head
            ≡ error_head "404 Not Found" "37"
                (connection_of (execute_route fs router raw clock w).0.1))
          × ((execute_route fs router raw clock w).0.0.body ≡ (
              if same message.method (codes "HEAD")
              then []
              else codes "{\"error\":\"this route is not defined\"}"))
    pub malformed :
        parse raw ≡ none
        → execute_route fs router raw clock w ≡ (
          (
            record {
              head = error_head "400 Bad Request" "29" "close";
              body = codes "{\"error\":\"malformed request\"}";
            },
            false,
          ),
          router,
          w,
        )

  -- Whatever the routes, the middlewares and the bytes are: the connection stays only after a request
  -- that parses, whose Connection header is not `close` and is `keep-alive` where its version is
  -- HTTP/1.0, on a server that allows it, and with a head without `Connection: close`; the reply to a
  -- HEAD request has no body; a request that the tables do not answer gets 404 with a Connection
  -- header that says whether the connection stays; and bytes that do not parse get 400 and a closed
  -- connection, with no route touched.
  pub execute_route-IsSettled : IsSettled
  unfolding execute_route
  execute_route-IsSettled = elim (Option-cases (parse raw)) [
    | inl bad ↦ record {
      keeps = λ h. absurd (
          cc (
            (settle-keeps false false router.allow_keep_alive (unrouted false)
              (rw (execute_route, bad) at h)).0));
      head_only = λ message parsed _. absurd (cc (bad, parsed));
      unanswered = λ message parsed _. absurd (cc (bad, parsed));
      malformed = λ _. rw (execute_route, bad, settle-malformed router.allow_keep_alive) refl;
    }
    | inr (m, parsed) ↦ record {
      keeps = λ h.
          let k =
            settle-keeps (same m.method (codes "HEAD")) (keep_alive_requested m)
              router.allow_keep_alive
              (or_else (answer_message fs router m clock w).0 (unrouted true))
              (rw (execute_route, parsed) at h) in
          let asks = keep_alive_requested-asks m (k.0) in
          (m, parsed, asks.0, asks.1, k.1, rw (execute_route, parsed) (asks_close-cut _ (k.2)));
      head_only = λ message parsed' is_head.
          let e : m ≡ message = some-injective (sym parsed ∙ parsed') in
          rw (execute_route, parsed, e, is_head) (settle-head_only _ _ _);
      unanswered = λ message parsed' missed.
          let e : m ≡ message = some-injective (sym parsed ∙ parsed') in
          rw (execute_route, parsed, e, missed)
            (settle-unrouted (same message.method (codes "HEAD")) (keep_alive_requested message)
              router.allow_keep_alive);
      malformed = λ bad. absurd (cc (bad, parsed));
    }
  ]

-- ===== src/Dispatch.antt =====
-- `RequestIO::ExecuteRoute` of sources/request/io.cpp: a request's bytes to the reply, and the route
-- tables behind it. The clock is two readings, one before the middlewares and one after them, in
-- nanoseconds; a cooldown is a whole number of seconds, which the source keeps as a double and
-- compares with an elapsed time that it rounds to one. A middleware that throws is not modelled, and a table keyed by strings is a list of
-- pairs.
pub mod Replies
pub mod Mounts
pub mod Cooldown
use vermell.Http.Message.{Message, parse, header}
use vermell.Http.Response.{
  Response, WireResponse, new_response, status, content_type, set, set_body, to_wire,
}
use vermell.Http.Text.{iequals}
use vermell.Params.{ℤ, pos, negsuc, guard_route, or_else}
use vermell.Query.{Query, Executed, execute, is_positive}
use vermell.Rendering.{FileSystem}
use vermell.Routing.{route_key, split_path, match_pattern}
use vermell.Static.{StaticMount, covers, serve}
use vermell.Prelude.{
  ℕ, zero, suc, ◌+◌, ◌-◌, ◌*◌, ◌/◌, ◌%◌, ◌^◌, ◌≤◌, ◌<◌, min, max, String, ◌≡◌, refl, sym, ap, ◌∙◌,
  subst, ◌≡⟨◌⟩◌, ◌∎, ◌≢◌, ◌↔◌, ◌⊎◌, inl, inr, Bool, true, false, not, ◌&&◌, ◌||◌, Option, none,
  some, List, [], ◌∷◌, ◌++◌, map, append-nil, append_assoc, arith, ltb, leb, ◌==◌, within,
  if◌then◌else◌, ltb→lt, lt→ltb, leb→le, le→leb, ==_iff, tests, Bool-cases, Option-cases, same_iff,
  same_refl, strip_prefix-append, strip_prefix-eq_some, Lacks, cut-eq_some, cut-append, cut-eq_none,
  split_on-eq_singleton, split_on-append, split_on-Lacks, join_with-cons, join_with-split_on, Bytes,
  IsBytes, codes, same, is_empty, strip_prefix, is_some, has_byte, push_front, cut, cut_seq,
  cons_head, split_on, lines_of, drop_while, drop_while_end, join_with, ◌>>=◌, ◌>>◌, guard,
  >>=-eq-some, guard-eq-some, some-injective, length, take, drop, all, any, drop_last, get_last?,
  length-append, take-length_append, drop-length_append, length-drop, length-take_le,
  take-append-drop, All, All-append, All-append_left, All-append_right, take-append_of_length,
  drop-append_of_length, strip_prefix-none_local, cut_seq-eq_some, length-cut_seq,
}

-- `error_response`
abbrev pub error_response : ℕ → Bytes → WireResponse
error_response code error = to_wire (
    set_body (codes "{\"error\":\"" ++ (error ++ codes "\"}")) (
      set (codes "Connection") (codes "close")
        (content_type (codes "application/json") (status code new_response))))

unfoldable pub keep_alive_requested : Message → Bool
keep_alive_requested message =
    let conn = header message (codes "Connection") in
    if iequals conn (codes "close")
    then false
    else if iequals conn (codes "keep-alive")
    then true
    else not (is_some (strip_prefix (codes "HTTP/1.0") message.version))

-- Two readings of the clock.
pub record Clock : Type 0 where
  pub before : ℕ
  pub after : ℕ

-- The reply of a request without a route, or that does not parse.
abbrev pub unrouted : Bool → WireResponse
unrouted parsed = to_wire (
    set_body
      (if parsed
        then codes "{\"error\":\"this route is not defined\"}"
        else codes "{\"error\":\"malformed request\"}")
      (content_type (codes "application/json") (status (if parsed then 404 else 400) new_response)))

abbrev pub keep_header : Bytes
keep_header = codes "Connection: keep-alive"

-- `head.replace(pos + 12, 10, "close")` at the first such header
unfoldable pub close_header : Bytes → Bytes
close_header head = elim (cut_seq keep_header head) [
  | none ↦ head
  | some (before, after) ↦ before ++ (codes "Connection: close" ++ after)
]

abbrev pub asks_close : Bytes → Bool
asks_close head = is_some (cut_seq (codes "Connection: close") head)

-- What is sent, and whether the connection stays.
unfoldable pub settle : Bool → Bool → Bool → WireResponse → WireResponse × Bool
settle head_only keep_alive allowed response =
    let body = if head_only then [] else response.body in
    let keep = keep_alive && allowed && not (asks_close response.head) in
    (
      record { head = if keep then response.head else close_header response.head; body = body },
      keep,
    )

-- The first mount of those whose prefix is the longest among those that cover the path.
unfoldable pub best_mount : Bytes → Option StaticMount → ℕ → List StaticMount → Option StaticMount
best_mount path best best_len [] = best
best_mount path best best_len (mount ∷ mounts) =
    let better = best_mount path (some mount) (length mount.mount) mounts in
    let rest = best_mount path best best_len mounts in
    if covers mount path && ltb best_len (length mount.mount) then better else rest

abbrev pub serve_static : FileSystem → List StaticMount → Message → Option WireResponse
serve_static fs mounts message = elim (best_mount message.path none 0 mounts) [
  | none ↦ none
  | some mount ↦ serve fs mount message.path message.method (header message (codes "If-None-Match"))
]

module _ {ℓ} (W : Type ℓ) where
  pub record ListenRoute : Type ℓ where
    pub method : Bytes
    pub functions : List (Query × W → Query × W)
    pub time_key : ℤ
    pub time_point : ℕ
    pub guard_msg : Option Bytes

  pub record PatternRoute : Type ℓ where
    pub segments : List Bytes
    pub impl : ListenRoute

  pub record Router : Type ℓ where
    pub routes : List (Bytes × ListenRoute)
    pub patterns : List PatternRoute
    pub mounts : List StaticMount
    pub allow_keep_alive : Bool

module _ {ℓ} {W : Type ℓ} where
  -- The cooldown that still runs, in seconds.
  unfoldable pub time_guard : ListenRoute W → ℕ → Option ℕ
  time_guard lr now = elim lr.time_key [
    | negsuc n ↦ none
    | pos n ↦
        if n == 0 || lr.time_point == 0
        then none
        else if ltb now (lr.time_point + n * 10 ^ 9)
        then some n
        else none
  ]

  -- A route that was found: its cooldown's reply, or its middlewares.
  unfoldable pub run_route :
      ListenRoute W → Message → List (Bytes × Bytes) → Clock → W → WireResponse × ListenRoute W × W
  run_route lr message params clock w = elim (time_guard lr clock.before) [
    | some seconds ↦ (guard_route seconds (or_else lr.guard_msg []), lr, w)
    | none ↦
        let (done, w') = execute lr.functions message params w in
        (
          done.response,
          if is_positive done.time_key
              then record lr {
                time_key = done.time_key;
                time_point = clock.after;
                guard_msg = done.guard_msg;
              }
              else lr,
          w',
        )
  ]

  unfoldable pub find_route : Bytes → List (Bytes × ListenRoute W) → Option (ListenRoute W)
  find_route key [] = none
  find_route key ((k, lr) ∷ routes) = if same k key then some lr else find_route key routes

  unfoldable pub put_route :
      Bytes → ListenRoute W → List (Bytes × ListenRoute W) → List (Bytes × ListenRoute W)
  put_route key lr [] = []
  put_route key lr ((k, old) ∷ routes) =
      if same k key then (k, lr) ∷ routes else (k, old) ∷ put_route key lr routes

  unfoldable pub captures : Message → PatternRoute W → Option (List (Bytes × Bytes))
  captures message pr =
      if same pr.impl.method message.method
      then match_pattern pr.segments (split_path message.path)
      else none

  -- The loop over the pattern routes: the first that matches answers.
  unfoldable pub run_patterns :
      Message
      → Clock
      → List (PatternRoute W)
      → W
      → Option (WireResponse × List (PatternRoute W) × W)
  run_patterns message clock [] w = none
  run_patterns message clock (pr ∷ patterns) w = elim (captures message pr) [
    | some params ↦
        let (response, lr, w') = run_route pr.impl message params clock w in
        some (response, record pr { impl = lr } ∷ patterns, w')
    | none ↦ elim (run_patterns message clock patterns w) [
      | none ↦ none
      | some (response, patterns', w') ↦ some (response, pr ∷ patterns', w')
    ]
  ]

  abbrev pub has_patterns : List (PatternRoute W) → Bool
  has_patterns [] = false
  has_patterns (_ ∷ _) = true

  -- The three layers: exact routes, pattern routes if there is any, else static mounts.
  unfoldable pub answer_message :
      FileSystem → Router W → Message → Clock → W → Option WireResponse × Router W × W
  answer_message fs router message clock w =
      let key = route_key message.path message.method in
      elim (find_route key router.routes) [
        | some lr ↦
            let (response, lr', w') = run_route lr message [] clock w in
            (some response, record router { routes = put_route key lr' router.routes }, w')
        | none ↦
            if has_patterns router.patterns
            then elim (run_patterns message clock router.patterns w) [
              | none ↦ (none, router, w)
              | some (response, patterns, w') ↦
                  (some response, record router { patterns = patterns }, w')
            ]
            else (serve_static fs router.mounts message, router, w)
      ]

  -- The reply, whether the connection stays, and the new tables.
  unfoldable pub execute_route :
      FileSystem → Router W → Bytes → Clock → W → (WireResponse × Bool) × Router W × W
  execute_route fs router raw clock w = elim (parse raw) [
    | none ↦ (settle false false router.allow_keep_alive (unrouted false), router, w)
    | some message ↦
        let (response, router', w') = answer_message fs router message clock w in
        (
          settle (same message.method (codes "HEAD")) (keep_alive_requested message)
              router.allow_keep_alive (or_else response (unrouted true)),
          router',
          w',
        )
  ]

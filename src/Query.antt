-- ===== src/Query.antt =====
-- `Query` and the middleware chain of include/vermell/routes.hpp and sources/request/routes.cpp. A
-- middleware is a function on the query and on whatever else it changes; a callback is one on the
-- query, which it captures. The responders that read a file stand in Query.Pages; the text `response`
-- that nothing reads is not modelled.
pub mod Chain
pub mod Pages
use vermell.Http.Response.{WireResponse}
use vermell.Http.Message.{Message}
use vermell.Params.{ParamBox, prepare, ℤ, pos, negsuc}
use vermell.Request.{Request, new_request, consume}
use vermell.Prelude.{
  ℕ, zero, suc, ◌+◌, ◌-◌, ◌*◌, ◌/◌, ◌%◌, ◌^◌, ◌≤◌, ◌<◌, min, max, String, ◌≡◌, refl, sym, ap, ◌∙◌,
  subst, ◌≡⟨◌⟩◌, ◌∎, ◌≢◌, ◌↔◌, ◌⊎◌, inl, inr, Bool, true, false, not, ◌&&◌, ◌||◌, Option, none,
  some, List, [], ◌∷◌, ◌++◌, map, append-nil, append_assoc, arith, ltb, leb, ◌==◌, within,
  if◌then◌else◌, ltb→lt, lt→ltb, leb→le, le→leb, ==_iff, tests, Bool-cases, Option-cases, same_iff,
  same_refl, strip_prefix-append, strip_prefix-eq_some, Lacks, cut-eq_some, cut-append, cut-eq_none,
  split_on-eq_singleton, split_on-append, split_on-Lacks, join_with-cons, join_with-split_on, Bytes,
  IsBytes, codes, same, is_empty, strip_prefix, is_some, has_byte, push_front, cut, cut_seq,
  cons_head, split_on, lines_of, drop_while, drop_while_end, join_with, ◌>>=◌, ◌>>◌, guard,
  >>=-eq-some, guard-eq-some, some-injective, length, take, drop, all, any, drop_last, get_last?,
  length-append, take-length_append, drop-length_append, length-drop, length-take_le,
  take-append-drop, All, All-append, All-append_left, All-append_right, take-append_of_length,
  drop-append_of_length, strip_prefix-none_local, cut_seq-eq_some, length-cut_seq,
}

pub record Query : Type 0 where
  pub next_enable : Bool
  pub time_key : ℤ
  pub headers : Bytes
  pub guard_msg : Bytes
  pub last : WireResponse
  pub route_params : List (Bytes × Bytes)
  pub body : Request
  pub query : Request

abbrev pub new_query : Query
new_query = record {
  next_enable = false;
  time_key = pos 0;
  headers = [];
  guard_msg = [];
  last = record { head = []; body = [] };
  route_params = [];
  body = new_request;
  query = new_request;
}

abbrev pub next : Query → Query
next q = record q { next_enable = true }

abbrev pub lock : Query → Query
lock q = record q { next_enable = false }

abbrev pub set_route_params : List (Bytes × Bytes) → Query → Query
set_route_params params q = record q { route_params = params }

unfoldable pub param_of : List (Bytes × Bytes) → Bytes → ParamBox
unfolding same
param_of [] name = record { name = name; value = [] }
param_of ((k, v) ∷ params) name =
    if same k name then record { name = k; value = v } else param_of params name

abbrev pub param : Query → Bytes → ParamBox
param q name = param_of q.route_params name

-- `json`, `html` and `send`, with a status and a callback.
abbrev pub respond_as : Bytes → Bytes → ℕ → (Query → Query) → Query → Query
respond_as mime text status callback q =
    callback (record q { last = prepare text mime q.headers status })

abbrev pub json : Bytes → ℕ → (Query → Query) → Query → Query
json = respond_as (codes "application/json")

abbrev pub html : Bytes → ℕ → (Query → Query) → Query → Query
html = respond_as (codes "text/html")

abbrev pub send : Bytes → ℕ → (Query → Query) → Query → Query
send = respond_as (codes "text/plain")

abbrev pub add_header : Bytes → Query → Query
add_header text q = record q { headers = q.headers ++ (text ++ b'\n' ∷ []) }

-- `Headers_t::generate`
unfoldable pub generate : List Bytes → Bytes
generate [] = []
generate (it ∷ box) = (it ++ b'\n' ∷ []) ++ generate box

abbrev pub set_headers : List Bytes → Query → Query
set_headers box q = record q { headers = q.headers ++ generate box }

abbrev pub guard_with : ℤ → Bytes → Query → Query
guard_with key custom_msg q = record q {
  guard_msg = if is_empty custom_msg then q.guard_msg else custom_msg;
  time_key = key;
}

abbrev pub is_positive : ℤ → Bool
is_positive (pos n) = ltb 0 n
is_positive (negsuc n) = false

-- What `execute` returns: the response, the time key, and the guard's message where it sets one.
pub record Executed : Type 0 where
  pub response : WireResponse
  pub time_key : ℤ
  pub guard_msg : Option Bytes

abbrev pub finish : Query → Executed
finish q = record {
  response = q.last;
  time_key = q.time_key;
  guard_msg = if is_positive q.time_key then some q.guard_msg else none;
}

-- The query as the first middleware finds it.
abbrev pub start : Message → List (Bytes × Bytes) → Query
start message route_params =
    let q = set_route_params route_params new_query in record q { body = consume message q.body }

module _ {ℓ} {W : Type ℓ} where
  abbrev pub lock_in : Query × W → Query × W
  lock_in (q, w) = (lock q, w)

  -- The loop of `execute`: the flag is cleared before each middleware, and a middleware that leaves
  -- it cleared is the last.
  unfoldable pub run_chain : List (Query × W → Query × W) → Query × W → Query × W
  run_chain [] s = s
  run_chain (f ∷ functions) s =
      let s' = f (lock_in s) in
      let rest = run_chain functions s' in if s'.0.next_enable then rest else s'

  unfoldable pub execute :
      List (Query × W → Query × W) → Message → List (Bytes × Bytes) → W → Executed × W
  unfolding run_chain
  execute functions message route_params w =
      let s = run_chain functions (start message route_params, w) in (finish s.0, s.1)

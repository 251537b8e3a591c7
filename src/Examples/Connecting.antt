-- ===== src/Examples/Connecting.antt =====
-- The life of a connection: sources/request/io.cpp.
use vermell.Prelude.{
  ℕ, ◌+◌, ◌*◌, ◌^◌, ◌≡◌, refl, true, false, none, some, List, [], ◌∷◌, ◌++◌, ltb→lt, leb→le, Bytes,
  codes, same, strip_prefix, has_byte, cut, cut_seq, split_on, lines_of, drop_while, drop_while_end,
  length,
}
use vermell.Connections.{
  Config, new_conn, RequestIo, new_io, accept_one, accept_pending, put_slot, find_slot, accepted,
  closed,
}
use vermell.Connections.Slots.{held}
use vermell.Connections.Requests.{Server, serve_routes, received}
use vermell.Connections.Loop.{
  Event, listening, connection, dispatch, dispatch_event, dispatch_events, sweep_stale, sweep_from,
}
use vermell.Connections.Accounting.{IsAccounted}
use vermell.Connections.Histories.{begun, batch, History-IsAccounted}
use vermell.Connections.Pipelining.{
  IsRequest, concat, at_request, round, serve_each, serve_loop-serve_each,
}
use vermell.Dispatch.{ListenRoute}
use vermell.Rendering.{FileSystem}
use vermell.Routing.{route_key}
use vermell.Params.{pos}
use vermell.Query.{Query, send}
use vermell.Http.Chunked.{npos}
use vermell.Http.Message.{
  Message, inspect, inspect_head, inspect_body, parse, parse_head, parse_request_line, parse_fields,
  parse_field, count_hosts, parse_body, split_target, strip_slash, parse_content_type, header_in,
  type_params,
}
use vermell.Http.Head.{
  head_bounds, scan_head, scan_lines, scan_line, strip_cr, scan_content, scan_field, scan_length,
  scan_encoding, line_endings_ok, first_line, version_at_least_11, endings_ok, is_token,
  is_valid_target, is_valid_version,
}
use vermell.Http.Text.{lower, iequals, trim}
use vermell.Prelude.Decimal.{read_digits, parse_decimal}

abbrev cfg : Config
cfg = record {
  read_timeout = 5 * 10 ^ 9;
  request_timeout = 60 * 10 ^ 9;
  max_request_size = 100;
  read_chunk = 64;
  max_connections = 1;
}

abbrev empty_disk : FileSystem
empty_disk = record {
  stat = λ path. none;
  open_nofollow = λ path. none;
  absolute = λ path. none;
  weakly_canonical = λ path. none;
}

abbrev hello : Query × ℕ → Query × ℕ
hello (q, n) = (send (codes "hi") 200 (λ x. x) q, n + 1)

abbrev hello_route : ListenRoute ℕ
hello_route = record {
  method = codes "GET";
  functions = hello ∷ [];
  time_key = pos 0;
  time_point = 0;
  guard_msg = none;
}

abbrev server : Server ℕ
server = record {
  clocks = λ n. record { before = n; after = n };
  router = record {
    routes = (route_key (codes "/a") (codes "GET"), hello_route) ∷ [];
    patterns = [];
    mounts = [];
    allow_keep_alive = true;
  };
  world = 0;
}

abbrev get_a : Bytes
get_a = codes "GET /a HTTP/1.1\r\nHost: h\r\n\r\n"

abbrev idle : RequestIo (Server ℕ)
idle = new_io none server

-- A client connects, and one more that is turned away; then the first sends a request, and hangs up.
abbrev first_batch : List Event
first_batch =
    listening
      ((record { fd = 5; now = 1; added = true }) ∷ (record { fd = 6; now = 2; added = true }) ∷ [])
    ∷ []

abbrev second_batch : List Event
second_batch =
    connection 5 true true (record { now = 3; finish = 4; results = received 3 get_a ∷ [] }) ∷ []

abbrev connected : RequestIo (Server ℕ)
connected = dispatch (serve_routes empty_disk) cfg 2 first_batch idle

accepted_once : connected.calls ≡ closed 6 ∷ accepted 6 ∷ accepted 5 ∷ []
unfolding dispatch dispatch_events dispatch_event accept_pending accept_one put_slot sweep_stale
    sweep_from
accepted_once = refl

fd-IsFresh :
    (held 5 idle.pending ≡ 0)
    × ((held 6 (accept_one cfg (record { fd = 5; now = 1; added = true }) idle).pending ≡ 0)
        × Unit {0})
unfolding held find_slot accept_one put_slot
fd-IsFresh = (refl, (refl, tt))

fd-IsHeld : held 5 connected.pending ≡ 1
unfolding held find_slot dispatch dispatch_events dispatch_event accept_pending accept_one put_slot
    sweep_stale sweep_from
fd-IsHeld = refl

History-IsAccounted_example :
    IsAccounted
      (serve_routes empty_disk)
      cfg
      (dispatch (serve_routes empty_disk) cfg 5 second_batch connected)
History-IsAccounted_example =
    History-IsAccounted (serve_routes empty_disk) cfg (ltb→lt 1 (2 ^ 64) refl) (
      batch 5 second_batch
        (batch 2 first_batch (begun {io = idle} server refl) (fd-IsFresh, tt) refl) (fd-IsHeld, tt)
        refl)

abbrev message_a : Message
message_a = record {
  method = codes "GET";
  target = codes "/a";
  path = codes "/a";
  query = [];
  version = codes "HTTP/1.1";
  body = [];
  headers = (codes "Host", codes "h") ∷ [];
  content_length = 0;
  content_type = [];
  content_type_params = [];
}

parse_a : parse get_a ≡ some message_a
unfolding parse parse_head head_bounds cut_seq strip_prefix scan_head cut lines_of scan_lines
    scan_line strip_cr scan_content trim drop_while drop_while_end scan_field iequals same lower
    scan_length scan_encoding parse_decimal read_digits line_endings_ok first_line
    version_at_least_11 endings_ok split_on parse_request_line has_byte is_token is_valid_target
    is_valid_version parse_fields parse_field count_hosts parse_body split_target strip_slash
    parse_content_type header_in type_params
parse_a = refl

inspect_a : (inspect get_a).expected ≡ length get_a
unfolding inspect inspect_head inspect_body head_bounds cut_seq strip_prefix scan_head cut lines_of
    scan_lines scan_line strip_cr scan_content trim drop_while drop_while_end scan_field iequals
    same lower scan_length scan_encoding parse_decimal read_digits line_endings_ok first_line
    version_at_least_11 endings_ok split_on
inspect_a = refl

abbrev a-IsRequest : IsRequest get_a
a-IsRequest = record {
  message = message_a;
  parses = parse_a;
  whole = inspect_a;
  small = leb→le (length get_a) npos refl;
}

serve_loop-serve_each_example :
    round
      (serve_routes empty_disk)
      cfg
      false
      false
      9
      5
      (at_request new_conn (concat (get_a ∷ get_a ∷ []) ++ codes "GET /b"))
      idle
    ≡ serve_each
        (serve_routes empty_disk)
        5
        (get_a ∷ get_a ∷ [])
        (round (serve_routes empty_disk) cfg false false 9 5 (at_request new_conn (codes "GET /b")))
        idle
serve_loop-serve_each_example =
    serve_loop-serve_each (serve_routes empty_disk) cfg false false 9 5 new_conn
      (get_a ∷ get_a ∷ []) (codes "GET /b") idle refl (a-IsRequest, (a-IsRequest, tt))

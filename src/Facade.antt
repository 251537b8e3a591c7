-- ===== src/Facade.antt =====
-- The public class `Vermell` of include/vermell/vermell.h: its configuration and its routes, with the
-- socket settings of sources/sockets.cpp that it passes on. An `int` and a count of milliseconds are
-- integers; `SOMAXCONN` of the system is a parameter.
pub mod Settings
pub mod Registration
use vermell.Connections
use vermell.Dispatch.{ListenRoute, PatternRoute, Router}
use vermell.Params.{ℤ, pos, negsuc}
use vermell.Prelude.{
  ℕ, zero, suc, ◌+◌, ◌-◌, ◌*◌, ◌/◌, ◌%◌, ◌^◌, ◌≤◌, ◌<◌, min, max, String, ◌≡◌, refl, sym, ap, ◌∙◌,
  subst, ◌≡⟨◌⟩◌, ◌∎, ◌≢◌, ◌↔◌, ◌⊎◌, inl, inr, Bool, true, false, not, ◌&&◌, ◌||◌, Option, none,
  some, List, [], ◌∷◌, ◌++◌, map, append-nil, append_assoc, arith, ltb, leb, ◌==◌, within,
  if◌then◌else◌, ltb→lt, lt→ltb, leb→le, le→leb, ==_iff, tests, Bool-cases, Option-cases, if-true,
  if-false, same_iff, same_refl, strip_prefix-append, strip_prefix-eq_some, Lacks, cut-eq_some,
  cut-append, cut-eq_none, split_on-eq_singleton, split_on-append, split_on-Lacks, join_with-cons,
  join_with-split_on, Bytes, IsBytes, codes, same, is_empty, strip_prefix, is_some, has_byte,
  push_front, cut, cut_seq, cons_head, split_on, lines_of, drop_while, drop_while_end, join_with,
  ◌>>=◌, ◌>>◌, guard, >>=-eq-some, guard-eq-some, some-injective, length, take, drop, all, any,
  drop_last, get_last?, length-append, take-length_append, drop-length_append, length-drop,
  length-take_le, take-append-drop, All, All-append, All-append_left, All-append_right,
  take-append_of_length, drop-append_of_length, strip_prefix-none_local, cut_seq-eq_some,
  length-cut_seq,
}
use vermell.Query.{Query}
use vermell.Routing.{route_key, is_pattern_route, split_path}
use vermell.Static.{StaticMount, StaticOptions, new_mount}
use vermell.Templates.{RenderSecurity}

pub record Config : Type 0 where
  pub port : ℕ
  pub backlog : ℤ
  pub buffer_size : ℤ
  pub read_timeout : ℤ
  pub request_timeout : ℤ
  pub write_timeout : ℤ
  pub max_request_size : ℕ
  pub read_chunk : ℕ
  pub threads : ℕ
  pub accept_threads : ℕ
  pub max_events : ℤ
  pub max_queue_size : ℕ
  pub max_connections : ℕ
  pub reuse_port : Bool
  pub epoll_timeout : ℤ
  pub render : RenderSecurity

abbrev pub default_config : ℕ → Config
default_config somaxconn = record {
  port = 0;
  backlog = pos somaxconn;
  buffer_size = pos 0x800;
  read_timeout = pos 5000;
  request_timeout = pos 60000;
  write_timeout = pos 5000;
  max_request_size = 4 * 1024 * 1024;
  read_chunk = 16 * 1024;
  threads = 0;
  accept_threads = 1;
  max_events = pos 1024;
  max_queue_size = 0;
  max_connections = 1024;
  reuse_port = false;
  epoll_timeout = pos 1000;
  render = record { root = []; max_file_bytes = 32 * 1024 * 1024 };
}

abbrev pub min_port : ℕ
min_port = 0x3e8

abbrev pub def_port : ℕ
def_port = 0xbb8

abbrev pub max_sessions : ℕ
max_sessions = 65535

abbrev pub max_read_chunk : ℕ
max_read_chunk = 2 ^ 20

abbrev pub max_max_events : ℕ
max_max_events = 65536

abbrev pub max_threads : ℕ
max_threads = 256

-- The settings of the listening socket: `Engine` and `Server`.
pub record Engine : Type 0 where
  pub port : ℕ
  pub buffer_size : ℤ
  pub sessions : ℤ
  pub reuse_port : Bool

abbrev pub is_in : ℕ → ℤ → Bool
is_in limit (pos n) = within 1 limit n
is_in limit (negsuc n) = false

-- `Engine::setPort`, `setBuffer` and `Server::setSessions`: a value that is refused changes nothing.
abbrev pub engine_port : ℕ → Engine → Engine
engine_port port e = if port == 0 then e else record e { port = port }

abbrev pub max_buffer_size : ℕ
max_buffer_size = 16 * 1024 * 1024

abbrev pub engine_buffer : ℤ → Engine → Engine
engine_buffer size e = if is_in max_buffer_size size then record e { buffer_size = size } else e

abbrev pub engine_sessions : ℤ → Engine → Engine
engine_sessions max e = if is_in max_sessions max then record e { sessions = max } else e

-- One that is not positive, or beyond the limit, becomes the limit.
abbrev pub limit_int : ℕ → ℤ → ℤ
limit_int limit n = if is_in limit n then n else pos limit

-- A chunk of no bytes, or beyond the limit, is one of the limit.
abbrev pub limit_chunk : ℕ → ℕ
limit_chunk bytes = if bytes == 0 || ltb max_read_chunk bytes then max_read_chunk else bytes

abbrev pub limit_threads : ℕ → ℕ
limit_threads threads = if ltb max_threads threads then max_threads else threads

-- `clamp_ms`: 1 to the largest `int`.
abbrev pub clamp_ms : ℤ → ℤ
clamp_ms (pos n) = if ltb n 1 then pos 1 else if ltb (2 ^ 31 - 1) n then pos (2 ^ 31 - 1) else pos n
clamp_ms (negsuc n) = pos 1

abbrev pub limit_config : Config → Config
limit_config c = record c {
  backlog = limit_int max_sessions c.backlog;
  read_timeout = clamp_ms c.read_timeout;
  request_timeout = clamp_ms c.request_timeout;
  write_timeout = clamp_ms c.write_timeout;
  read_chunk = limit_chunk c.read_chunk;
  threads = limit_threads c.threads;
  accept_threads = limit_threads c.accept_threads;
  max_events = limit_int max_max_events c.max_events;
  epoll_timeout = clamp_ms c.epoll_timeout;
}

-- What `RequestIO` reads of it, in nanoseconds.
abbrev pub to_ns : ℤ → ℕ
to_ns (pos n) = n * 10 ^ 6
to_ns (negsuc n) = 0

abbrev pub request_config : Config → Connections.Config
request_config c = record {
  read_timeout = to_ns c.read_timeout;
  request_timeout = to_ns c.request_timeout;
  max_request_size = c.max_request_size;
  read_chunk = c.read_chunk;
  max_connections = c.max_connections;
}

-- A setting, by its setter.
pub data Setting : Type 0 where
  read_timeout : ℤ → Setting
  write_timeout : ℤ → Setting
  request_timeout : ℤ → Setting
  max_request_size : ℕ → Setting
  read_chunk_size : ℕ → Setting
  threads : ℕ → Setting
  accept_threads : ℕ → Setting
  max_events : ℤ → Setting
  max_queue_size : ℕ → Setting
  max_connections : ℕ → Setting
  backlog : ℤ → Setting
  buffer_size : ℤ → Setting
  reuse_port : Bool → Setting

pub data Method : Type 0 where
  get post put delete patch head options link unlink purge : Method

abbrev pub set_config : Setting → Config → Config
set_config (read_timeout t) c = record c { read_timeout = clamp_ms t }
set_config (write_timeout t) c = record c { write_timeout = clamp_ms t }
set_config (request_timeout t) c = record c { request_timeout = clamp_ms t }
set_config (max_request_size n) c = record c { max_request_size = n }
set_config (read_chunk_size n) c = record c { read_chunk = limit_chunk n }
set_config (threads n) c = record c { threads = limit_threads n }
set_config (accept_threads n) c = record c { accept_threads = limit_threads n }
set_config (max_events n) c = record c { max_events = limit_int max_max_events n }
set_config (max_queue_size n) c = record c { max_queue_size = n }
set_config (max_connections n) c = record c { max_connections = n }
set_config (backlog n) c = record c { backlog = limit_int max_sessions n }
set_config (buffer_size n) c = record c { buffer_size = n }
set_config (reuse_port b) c = record c { reuse_port = b }

-- The settings of the socket are passed on.
abbrev pub set_engine : Setting → Engine → Engine
set_engine (backlog n) e = engine_sessions (limit_int max_sessions n) e
set_engine (buffer_size n) e = engine_buffer n e
set_engine (reuse_port b) e = record e { reuse_port = b }
set_engine _ e = e

abbrev pub method_type : Method → Bytes
method_type get = codes "GET"
method_type post = codes "POST"
method_type put = codes "PUT"
method_type delete = codes "DELETE"
method_type patch = codes "PATCH"
method_type head = codes "HEAD"
method_type options = codes "OPTIONS"
method_type link = codes "LINK"
method_type unlink = codes "UNLINK"
method_type purge = codes "PURGE"

-- The configuration of `Vermell(port)`: a port below 1000 is left out.
abbrev pub new_config : ℕ → ℕ → Config
new_config somaxconn port =
    let c = default_config somaxconn in if leb min_port port then record c { port = port } else c

module _ {ℓ} (W : Type ℓ) where
  pub record Vermell : Type ℓ where
    pub config : Config
    pub control : Engine
    pub routes : List (Bytes × ListenRoute W)
    pub patterns : List (PatternRoute W)
    pub mounts : List StaticMount

module _ {ℓ} {W : Type ℓ} where
  abbrev pub get_port : Vermell W → ℕ
  get_port v = if leb min_port v.config.port then v.config.port else def_port

  -- `applyNetworkConfig`
  abbrev pub apply_network_config : Vermell W → Vermell W
  apply_network_config v = record v {
    control =
        record (engine_sessions v.config.backlog
          (engine_port (get_port v) (engine_buffer v.config.buffer_size v.control))) {
            reuse_port = v.config.reuse_port;
          };
  }

  -- `Vermell(port)`, over the settings of a new socket.
  unfoldable pub new_vermell : ℕ → Engine → ℕ → Vermell W
  new_vermell somaxconn control port = apply_network_config (record {
    config = new_config somaxconn port;
    control = control;
    routes = [];
    patterns = [];
    mounts = [];
  })

  unfoldable pub configure : Config → Vermell W → Vermell W
  configure config v =
      let port = if ltb config.port min_port then v.config.port else config.port in
      apply_network_config (record v { config = limit_config (record config { port = port }) })

  unfoldable pub set_port : ℕ → Vermell W → Bool × Vermell W
  set_port port v =
      if leb min_port port
      then (
        true,
        record v { config = record v.config { port = port }; control = engine_port port v.control },
      )
      else (false, v)

  unfoldable pub set : Setting → Vermell W → Vermell W
  set setting v = record v {
    config = set_config setting v.config;
    control = set_engine setting v.control;
  }

  -- `listen_routes`
  abbrev pub new_route : List (Query × W → Query × W) → Bytes → ListenRoute W
  new_route functions type = record {
    method = type;
    functions = functions;
    time_key = pos 0;
    time_point = 0;
    guard_msg = none;
  }

  -- `routes->operator[](key) = ...`
  unfoldable pub insert_route :
      Bytes → ListenRoute W → List (Bytes × ListenRoute W) → List (Bytes × ListenRoute W)
  unfolding same
  insert_route key lr [] = (key, lr) ∷ []
  insert_route key lr ((k, old) ∷ routes) =
      if same k key then (k, lr) ∷ routes else (k, old) ∷ insert_route key lr routes

  unfoldable pub http_response :
      Bytes → List (Query × W → Query × W) → Bytes → Vermell W → Vermell W
  unfolding split_path is_pattern_route
  http_response endpoint middlewares type v =
      let lr = new_route middlewares type in
      if is_pattern_route endpoint
      then record v {
        patterns = v.patterns ++ (record { segments = split_path endpoint; impl = lr }) ∷ [];
      }
      else record v { routes = insert_route (route_key endpoint type) lr v.routes }

  -- `get`, `post` and their like.
  abbrev pub register : Method → Bytes → List (Query × W → Query × W) → Vermell W → Vermell W
  register method route middlewares v = http_response route middlewares (method_type method) v

  unfoldable pub static_x : Bytes → Bytes → StaticOptions → Vermell W → Vermell W
  static_x mount dir opts v = record v { mounts = v.mounts ++ new_mount mount dir opts ∷ [] }

  -- What `listen` hands to the event loops.
  abbrev pub router_of : Bool → Vermell W → Router W
  router_of allow_keep_alive v = record {
    routes = v.routes;
    patterns = v.patterns;
    mounts = v.mounts;
    allow_keep_alive = allow_keep_alive;
  }

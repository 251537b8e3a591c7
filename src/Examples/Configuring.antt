-- ===== src/Examples/Configuring.antt =====
-- The public class: include/vermell/vermell.h.
use vermell.Prelude.{ℕ, ◌+◌, ◌≡◌, refl, ◌⊎◌, true, false, none, some, [], ◌∷◌, arith, Lacks, codes}
use vermell.Dispatch.{Clock, answer_message, find_route, run_route, time_guard}
use vermell.Http.Message.{Message}
use vermell.Rendering.{FileSystem}
use vermell.Facade.{
  insert_route, Config, default_config, Engine, Vermell, new_vermell, configure, set, threads,
  http_response, router_of,
}
use vermell.Facade.Registration.{answer_message-http_response}
use vermell.Facade.Settings.{IsLimited, created, configured, adjusted, routed, Configured-IsLimited}
use vermell.Params.{pos, negsuc}
use vermell.Query.{Query, send, execute}
use vermell.Routing.{is_pattern_route, split_path, route_key}

abbrev socket : Engine
socket = record { port = 0; buffer_size = pos 2048; sessions = pos 10; reuse_port = false }

abbrev greet : Query × ℕ → Query × ℕ
greet (q, n) = (send (codes "hi") 200 (λ x. x) q, n + 1)

abbrev wild : Config
wild = record (default_config 4096) { read_timeout = negsuc 4; threads = 1000; max_events = pos 0 }

abbrev started : Vermell ℕ
started = new_vermell 4096 socket 8080

wild_limited : (configure wild started).config.read_timeout ≡ pos 1
unfolding configure
wild_limited = refl

port_kept : (configure wild started).config.port ≡ 8080
unfolding configure new_vermell
port_kept = refl

Configured-IsLimited_example :
    IsLimited
      (http_response
        (codes "/a")
        (greet ∷ [])
        (codes "GET")
        (set (threads 300) (configure wild started))).config
Configured-IsLimited_example =
    Configured-IsLimited 4096 (omega arith, omega arith)
      (routed (codes "/a") (greet ∷ []) (codes "GET")
        (adjusted (threads 300) (configured wild (created socket 8080))))

abbrev greeted : Message
greeted = record {
  method = codes "GET";
  target = codes "/a";
  path = codes "/a";
  query = [];
  version = codes "HTTP/1.1";
  body = [];
  headers = (codes "Host", codes "h") ∷ [];
  content_length = 0;
  content_type = [];
  content_type_params = [];
}

abbrev no_files : FileSystem
no_files = record {
  stat = λ path. none;
  open_nofollow = λ path. none;
  absolute = λ path. none;
  weakly_canonical = λ path. none;
}

abbrev with_route : Vermell ℕ
with_route = http_response (codes "/a") (greet ∷ []) (codes "GET") started

abbrev at_five : Clock
at_five = record { before = 5; after = 6 }

a-is_exact : is_pattern_route (codes "/a") ≡ false
unfolding is_pattern_route split_path
a-is_exact = refl

a-Lacks : Lacks 0x1f (codes "/a")
a-Lacks = (omega arith, (omega arith, tt))

greeting_runs : (answer_message no_files (router_of true with_route) greeted at_five 0).2 ≡ 1
unfolding answer_message http_response new_vermell find_route insert_route route_key run_route
    time_guard execute
greeting_runs = refl

answer_message-http_response_example :
    ((codes "/a" ≡ greeted.path)
      × (codes "GET" ≡ greeted.method)
      × ((answer_message no_files (router_of true with_route) greeted at_five 0).0
          ≡ some (execute (greet ∷ []) greeted [] 0).0.response)
      × ((answer_message no_files (router_of true with_route) greeted at_five 0).2
          ≡ (execute (greet ∷ []) greeted [] 0).1))
    ⊎ ((¬ ((codes "/a" ≡ greeted.path) × (codes "GET" ≡ greeted.method)))
        × ((answer_message no_files (router_of true with_route) greeted at_five 0).0
            ≡ (answer_message no_files (router_of true started) greeted at_five 0).0)
        × ((answer_message no_files (router_of true with_route) greeted at_five 0).2
            ≡ (answer_message no_files (router_of true started) greeted at_five 0).2))
answer_message-http_response_example =
    answer_message-http_response (codes "/a") (greet ∷ []) (codes "GET") started no_files true
      greeted at_five 0 a-is_exact a-Lacks a-Lacks

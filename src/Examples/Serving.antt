-- ===== src/Examples/Serving.antt =====
-- The dispatch of a request: sources/request/io.cpp.
use vermell.Dispatch.{
  Router, ListenRoute, PatternRoute, Clock, run_route, answer_message, best_mount, time_guard,
  captures, find_route, run_patterns,
}
use vermell.Dispatch.Cooldown.{run_route-cooldown}
use vermell.Dispatch.Mounts.{IsMostSpecific, IsShorter, best_mount-IsMostSpecific}
use vermell.Dispatch.Replies.{IsSettled, execute_route-IsSettled}
use vermell.Http.Message.{Message}
use vermell.Params.{pos, guard_route, or_else}
use vermell.Query.{Query, send, guard_with, execute}
use vermell.Rendering.{FileSystem}
use vermell.Routing.{route_key, match_pattern, split_path}
use vermell.Http.Decode.{percent_decode}
use vermell.Static.{StaticMount, new_mount, under_mount, normalize_mount}
use vermell.Prelude.{
  ℕ, ◌+◌, ◌<◌, ◌≡◌, refl, ◌⊎◌, true, false, none, some, [], ◌∷◌, arith, Bytes, codes, same,
  strip_prefix, length, All,
}

abbrev no_disk : FileSystem
no_disk = record {
  stat = λ path. none;
  open_nofollow = λ path. none;
  absolute = λ path. none;
  weakly_canonical = λ path. none;
}

-- Answers, and closes the route for two seconds; the state counts the runs.
abbrev slow : Query × ℕ → Query × ℕ
slow (q, n) = (guard_with (pos 2) [] (send (codes "ok") 200 (λ x. x) q), n + 1)

abbrev slow_route : ListenRoute ℕ
slow_route = record {
  method = codes "GET";
  functions = slow ∷ [];
  time_key = pos 0;
  time_point = 0;
  guard_msg = none;
}

abbrev user_route : PatternRoute ℕ
user_route = record { segments = codes "users" ∷ codes ":id" ∷ []; impl = slow_route }

abbrev mount_at : Bytes → StaticMount
mount_at path =
    new_mount path (codes "d")
      (record { index = codes "i"; spa = false; cache = true; max_age = pos 0; max_file_bytes = 9 })

abbrev router : Router ℕ
router = record {
  routes = (route_key (codes "/a") (codes "GET"), slow_route) ∷ [];
  patterns = user_route ∷ [];
  mounts = mount_at (codes "/") ∷ mount_at (codes "/css/") ∷ [];
  allow_keep_alive = true;
}

abbrev first_clock : Clock
first_clock = record { before = 5; after = 6 }

abbrev raw_request : Bytes
raw_request = codes "GET /a HTTP/1.1\r\nHost: h\r\n\r\n"

execute_route-IsSettled_example : IsSettled no_disk router raw_request first_clock 0
execute_route-IsSettled_example = execute_route-IsSettled no_disk router raw_request first_clock 0

abbrev css_request : Message
css_request = record {
  method = codes "GET";
  target = codes "/css/x";
  path = codes "/css/x";
  query = [];
  version = codes "HTTP/1.1";
  body = [];
  headers = (codes "Host", codes "h") ∷ [];
  content_length = 0;
  content_type = [];
  content_type_params = [];
}

-- A file under a mount is out of reach once there is a pattern route.
unmatched : (answer_message no_disk router css_request first_clock 0).0 ≡ none
unfolding answer_message find_route same route_key captures match_pattern split_path run_patterns
unmatched = refl

best_mount-IsMostSpecific_example :
    ((best_mount (codes "/css/x") none 0 router.mounts ≡ none)
      × All (IsShorter (codes "/css/x") 1) router.mounts)
    ⊎ ((m : StaticMount) × (best_mount (codes "/css/x") none 0 router.mounts ≡ some m)
        × (0 < length m.mount)
        × IsMostSpecific (codes "/css/x") router.mounts m)
best_mount-IsMostSpecific_example = best_mount-IsMostSpecific (codes "/css/x") router.mounts

css_mount_wins : best_mount (codes "/css/x") none 0 router.mounts ≡ some (mount_at (codes "/css/"))
unfolding best_mount under_mount same normalize_mount strip_prefix percent_decode
css_mount_wins = refl

not_guarded : time_guard slow_route 5 ≡ none
unfolding time_guard
not_guarded = refl

cooldown_set : (execute slow_route.functions css_request [] 0).0.time_key ≡ pos 2
unfolding execute
cooldown_set = refl

run_route-cooldown_example :
    run_route
      (run_route slow_route css_request [] first_clock 0).1
      css_request
      []
      (record { before = 9; after = 10 })
      1
    ≡ (
      guard_route 2 (or_else (run_route slow_route css_request [] first_clock 0).1.guard_msg []),
      (run_route slow_route css_request [] first_clock 0).1,
      1,
    )
run_route-cooldown_example =
    run_route-cooldown slow_route css_request [] first_clock 0 1 not_guarded cooldown_set
      (omega arith) css_request [] (record { before = 9; after = 10 }) 1 (omega arith)

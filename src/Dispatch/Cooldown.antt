-- ===== src/Dispatch/Cooldown.antt =====
-- `TimeGuard` of sources/request/io.cpp: the cooldown that a middleware sets on its route.
use vermell.Http.Message.{Message}
use vermell.Dispatch.{ListenRoute, Clock, time_guard, run_route}
use vermell.Params.{pos, guard_route, or_else}
use vermell.Query.{execute}
use vermell.Prelude.{ℕ, suc, ◌+◌, ◌*◌, ◌^◌, ◌<◌, ◌≡◌, refl, none, some, List, [], arith, Bytes}

module _ {ℓ} {W : Type ℓ} where
  time_guard-eq_some :
      (lr : ListenRoute W) (n now : ℕ)
      → lr.time_key ≡ pos (suc n)
      → 0 < lr.time_point
      → now < lr.time_point + suc n * 10 ^ 9
      → time_guard lr now ≡ some (suc n)
  unfolding time_guard
  time_guard-eq_some lr n now key set_at early = rw key (ground arith)

  run_route-guarded :
      (lr : ListenRoute W) (message : Message) (params : List (Bytes × Bytes)) (clock : Clock)
      (w : W) {n : ℕ}
      → time_guard lr clock.before ≡ some n
      → run_route lr message params clock w ≡ (guard_route n (or_else lr.guard_msg []), lr, w)
  unfolding run_route
  run_route-guarded lr message params clock w h = rw (run_route, h) refl

  -- The route after a run whose middlewares set a cooldown.
  run_route-sets :
      (lr : ListenRoute W) (message : Message) (params : List (Bytes × Bytes)) (clock : Clock)
      (w : W) (n : ℕ)
      → time_guard lr clock.before ≡ none
      → (execute lr.functions message params w).0.time_key ≡ pos (suc n)
      → ((run_route lr message params clock w).1.time_key ≡ pos (suc n))
        × ((run_route lr message params clock w).1.time_point ≡ clock.after)
  unfolding run_route
  run_route-sets lr message params clock w n free key =
      (rw (run_route, free, key) (ground arith), rw (run_route, free, key) (ground arith))

  -- Where the middlewares of a route ran and set a cooldown of some seconds, every request that the
  -- route gets before they have passed is answered with the cooldown, runs no middleware and leaves
  -- the route as it is. The clock has left its epoch.
  pub run_route-cooldown :
      (lr : ListenRoute W) (message : Message) (params : List (Bytes × Bytes)) (clock : Clock)
      (w : W) (n : ℕ)
      → time_guard lr clock.before ≡ none
      → (execute lr.functions message params w).0.time_key ≡ pos (suc n)
      → 0 < clock.after
      → (message' : Message) (params' : List (Bytes × Bytes)) (clock' : Clock) (w' : W)
      → clock'.before < clock.after + suc n * 10 ^ 9
      → run_route (run_route lr message params clock w).1 message' params' clock' w' ≡ (
        guard_route (suc n) (or_else (run_route lr message params clock w).1.guard_msg []),
        (run_route lr message params clock w).1,
        w',
      )
  run_route-cooldown lr message params clock w n free key running message' params' clock' w' early =
      let (set_key, set_at) = run_route-sets lr message params clock w n free key in
      let lr' = (run_route lr message params clock w).1 in
      run_route-guarded lr' message' params' clock' w'
        (time_guard-eq_some lr' n clock'.before set_key (rw set_at running) (rw set_at early))

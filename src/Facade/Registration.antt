-- ===== src/Facade/Registration.antt =====
-- The routes of include/vermell/vermell.h.
use vermell.Prelude.{
  ◌≡◌, refl, sym, ap, ◌∙◌, ◌⊎◌, inl, inr, Bool, false, some, List, [], ◌∷◌, if◌then◌else◌,
  Bool-cases, Option-cases, if-true, if-false, same_iff, Lacks, Bytes, same,
}
use vermell.Dispatch.{
  ListenRoute, find_route, Router, Clock, answer_message, run_route, time_guard, has_patterns,
  run_patterns,
}
use vermell.Http.Message.{Message}
use vermell.Rendering.{FileSystem}
use vermell.Routing.Keys.{route_key_injective}
use vermell.Facade.{Vermell, insert_route, http_response, new_route, router_of}
use vermell.Query.{Query, execute}
use vermell.Routing.{route_key, is_pattern_route}

module _ {ℓ} {W : Type ℓ} where
  find_route-insert_route :
      (key k : Bytes) (lr : ListenRoute W) (routes : List (Bytes × ListenRoute W))
      → find_route k (insert_route key lr routes)
        ≡ (if same key k then some lr else find_route k routes)
  unfolding find_route insert_route
  find_route-insert_route key k lr [] = refl
  find_route-insert_route key k lr ((k', old) ∷ routes) = elim (Bool-cases (same k' key)) [
    | inl here ↦
        let same_key : same k' k ≡ same key k = ap (λ t. same t k) ((same_iff k' key).0 here) in
        elim (Bool-cases (same key k)) [
          | inl found ↦ rw (here, same_key, found) refl
          | inr apart ↦ rw (here, same_key, apart) refl
        ]
    | inr other ↦
        let rest = find_route-insert_route key k lr routes in
        elim (Bool-cases (same key k)) [
          | inl found ↦
              let apart : same k' k ≡ false =
                ap (λ t. same k' t) (sym ((same_iff key k).0 found)) ∙ other in
              rw (other, apart, rest, found) refl
          | inr apart ↦ rw (other, rest, apart) refl
        ]
  ]

  -- A route that is in the table under the key of the message answers it.
  answer_message-found :
      (fs : FileSystem) (router : Router W) (message : Message) (clock : Clock) (w : W)
      (middlewares : List (Query × W → Query × W)) (type : Bytes)
      → find_route (route_key message.path message.method) router.routes
        ≡ some (new_route middlewares type)
      → ((answer_message fs router message clock w).0
          ≡ some (execute middlewares message [] w).0.response)
        × ((answer_message fs router message clock w).2 ≡ (execute middlewares message [] w).1)
  unfolding answer_message run_route time_guard
  answer_message-found fs router message clock w middlewares type found =
      (rw (answer_message, found, run_route) refl, rw (answer_message, found, run_route) refl)

  -- The answer to a message rests on no exact route but its own.
  answer_message-same_route :
      (fs : FileSystem) (router router' : Router W) (message : Message) (clock : Clock) (w : W)
      → find_route (route_key message.path message.method) router'.routes
        ≡ find_route (route_key message.path message.method) router.routes
      → router'.patterns ≡ router.patterns
      → router'.mounts ≡ router.mounts
      → ((answer_message fs router' message clock w).0
          ≡ (answer_message fs router message clock w).0)
        × ((answer_message fs router' message clock w).2
            ≡ (answer_message fs router message clock w).2)
  unfolding answer_message
  answer_message-same_route fs router router' message clock w e patterns mounts =
      elim (Option-cases (find_route (route_key message.path message.method) router.routes)) [
        | inr (lr, found) ↦
            let found' = e ∙ found in
            (rw (answer_message, found, found') refl, rw (answer_message, found, found') refl)
        | inl missing ↦
            let missing' = e ∙ missing in
            elim (Bool-cases (has_patterns router.patterns)) [
              | inr empty ↦ (
                rw (answer_message, missing, missing', patterns, mounts, empty) refl,
                rw (answer_message, missing, missing', patterns, mounts, empty) refl,
              )
              | inl some_pattern ↦
                  elim (Option-cases (run_patterns message clock router.patterns w)) [
                    | inl unmatched ↦ (
                      rw (answer_message, missing, missing', patterns, some_pattern, unmatched)
                          refl,
                      rw (answer_message, missing, missing', patterns, some_pattern, unmatched)
                          refl,
                    )
                    | inr (out, matched) ↦ (
                      rw (answer_message, missing, missing', patterns, some_pattern, matched) refl,
                      rw (answer_message, missing, missing', patterns, some_pattern, matched) refl,
                    )
                  ]
            ]
      ]

  http_response-exact :
      (endpoint : Bytes) (middlewares : List (Query × W → Query × W)) (type : Bytes) (v : Vermell W)
      → is_pattern_route endpoint ≡ false
      → http_response endpoint middlewares type v ≡ record v {
        routes = insert_route (route_key endpoint type) (new_route middlewares type) v.routes;
      }
  unfolding http_response
  http_response-exact endpoint middlewares type v exact = rw exact refl

  -- Once a route without a pattern is registered, a message with its path and its method is answered
  -- by its middlewares, run on the message with no captures and not held back by a cooldown; any
  -- other message is answered as before, and the rest of the program is left as before. Neither path
  -- holds a 0x1f byte.
  pub answer_message-http_response :
      (endpoint : Bytes) (middlewares : List (Query × W → Query × W)) (type : Bytes) (v : Vermell W)
      (fs : FileSystem) (allow_keep_alive : Bool) (message : Message) (clock : Clock) (w : W)
      → is_pattern_route endpoint ≡ false
      → Lacks 0x1f endpoint
      → Lacks 0x1f message.path
      → (let router = router_of allow_keep_alive (http_response endpoint middlewares type v) in
          ((endpoint ≡ message.path)
            × (type ≡ message.method)
            × ((answer_message fs router message clock w).0
                ≡ some (execute middlewares message [] w).0.response)
            × ((answer_message fs router message clock w).2 ≡ (execute middlewares message [] w).1))
          ⊎ ((¬ ((endpoint ≡ message.path) × (type ≡ message.method)))
              × ((answer_message fs router message clock w).0
                  ≡ (answer_message fs (router_of allow_keep_alive v) message clock w).0)
              × ((answer_message fs router message clock w).2
                  ≡ (answer_message fs (router_of allow_keep_alive v) message clock w).2)))
  answer_message-http_response endpoint middlewares type v fs allow_keep_alive message clock w exact
        h h' =
      let key = route_key endpoint type in
      let asked = route_key message.path message.method in
      let lr = new_route middlewares type in
      let looked = find_route-insert_route key asked lr v.routes in
      rw (http_response-exact endpoint middlewares type v exact)
        (elim (Bool-cases (same key asked)) [
          | inl hit ↦
              let (same_path, same_method) =
                route_key_injective endpoint message.path type message.method h h'
                  ((same_iff key asked).0 hit) in
              let answered =
                answer_message-found fs _ message clock w middlewares type
                  (looked ∙ if-true _ _ _ hit) in
              inl (same_path, same_method, answered.0, answered.1)
          | inr apart ↦
              let differ : ¬ ((endpoint ≡ message.path) × (type ≡ message.method)) = λ (p, m).
                let e : key ≡ asked =
                  ap (λ x. route_key x type) p ∙ ap (route_key message.path) m in
                absurd (cc (apart, (same_iff key asked).1 e)) in
              let before =
                answer_message-same_route fs (router_of allow_keep_alive v) _ message clock w
                  (looked ∙ if-false _ _ _ apart) refl refl in
              inr (differ, before.0, before.1)
        ])

-- ===== src/Facade/Settings.antt =====
-- The configuration of include/vermell/vermell.h stays within its limits.
use vermell.Prelude.{
  ℕ, ◌-◌, ◌^◌, ◌≤◌, ◌≡◌, refl, sym, subst, ◌⊎◌, inl, inr, List, arith, ltb, leb, within, Bool-cases,
  Bytes,
}
use vermell.Facade.{
  Config, Engine, Vermell, new_vermell, new_config, configure, set_port, Setting, set, read_timeout,
  write_timeout, request_timeout, max_request_size, read_chunk_size, threads, accept_threads,
  max_events, max_queue_size, max_connections, backlog, buffer_size, reuse_port, min_port,
  max_sessions, max_read_chunk, max_max_events, max_threads, limit_int, limit_chunk, limit_threads,
  clamp_ms, http_response, static_x,
}
use vermell.Params.{ℤ, pos, negsuc}
use vermell.Query.{Query}
use vermell.Routing.{is_pattern_route}
use vermell.Static.{StaticOptions}

-- From 1 to the limit.
abbrev pub IsIn : ℕ → ℤ → Type 0
IsIn limit (pos n) = (1 ≤ n) × (n ≤ limit)
IsIn limit (negsuc n) = ⊥

abbrev pub max_int : ℕ
max_int = 2 ^ 31 - 1

-- No time is none or beyond an `int`, a read is of 1 byte to 1 MiB, and no configured count is
-- beyond its limit; a count of 0 loops stands for one per core.
abbrev pub IsLimited : Config → Type 0
IsLimited c =
    ((c.port ≡ 0) ⊎ (min_port ≤ c.port))
    × IsIn max_sessions c.backlog
    × IsIn max_max_events c.max_events
    × ((1 ≤ c.read_chunk) × (c.read_chunk ≤ max_read_chunk))
    × (c.threads ≤ max_threads)
    × (c.accept_threads ≤ max_threads)
    × IsIn max_int c.read_timeout
    × IsIn max_int c.request_timeout
    × IsIn max_int c.write_timeout
    × IsIn max_int c.epoll_timeout

limit_int-IsIn : (limit : ℕ) (n : ℤ) → 1 ≤ limit → IsIn limit (limit_int limit n)
limit_int-IsIn limit (pos n) some_limit = elim (Bool-cases (within 1 limit n)) [
  | inl fits ↦ rw fits (ground arith)
  | inr beyond ↦ rw beyond (some_limit, omega arith)
]
limit_int-IsIn limit (negsuc n) some_limit = (some_limit, omega arith)

clamp_ms-IsIn : (n : ℤ) → IsIn max_int (clamp_ms n)
clamp_ms-IsIn (pos n) = elim (Bool-cases (ltb n 1)) [
  | inl small ↦ rw small (omega arith, omega arith)
  | inr positive ↦ elim (Bool-cases (ltb (2 ^ 31 - 1) n)) [
    | inl large ↦ rw (positive, large) (omega arith, omega arith)
    | inr fits ↦ rw (positive, fits) (ground arith)
  ]
]
clamp_ms-IsIn (negsuc n) = (omega arith, omega arith)

limit_chunk-bounds : (n : ℕ) → (1 ≤ limit_chunk n) × (limit_chunk n ≤ max_read_chunk)
limit_chunk-bounds n = (ground arith, ground arith)

limit_threads-bound : (n : ℕ) → limit_threads n ≤ max_threads
limit_threads-bound n = ground arith

new_config-IsLimited :
    (somaxconn port : ℕ) → IsIn max_sessions (pos somaxconn) → IsLimited (new_config somaxconn port)
new_config-IsLimited somaxconn port system = elim (Bool-cases (leb min_port port)) [
  | inl free ↦ rw free (
    inr (ground arith),
    system,
    (omega arith, omega arith),
    (omega arith, omega arith),
    omega arith,
    omega arith,
    (omega arith, omega arith),
    (omega arith, omega arith),
    (omega arith, omega arith),
    (omega arith, omega arith),
  )
  | inr low ↦ rw low (
    inl refl,
    system,
    (omega arith, omega arith),
    (omega arith, omega arith),
    omega arith,
    omega arith,
    (omega arith, omega arith),
    (omega arith, omega arith),
    (omega arith, omega arith),
    (omega arith, omega arith),
  )
]

module _ {ℓ} {W : Type ℓ} where
  -- What a program can make of a new server: settings, whole configurations, ports, routes and mounts.
  pub data Configured (somaxconn : ℕ) : Vermell W → Type ℓ where
    created :
        (control : Engine) (port : ℕ) → Configured somaxconn (new_vermell somaxconn control port)
    configured :
        {v : Vermell W} (c : Config) → Configured somaxconn v → Configured somaxconn (configure c v)
    adjusted :
        {v : Vermell W} (setting : Setting)
        → Configured somaxconn v
        → Configured somaxconn (set setting v)
    moved :
        {v : Vermell W} (port : ℕ)
        → Configured somaxconn v
        → Configured somaxconn (set_port port v).1
    routed :
        {v : Vermell W} (endpoint : Bytes) (middlewares : List (Query × W → Query × W))
        (type : Bytes)
        → Configured somaxconn v
        → Configured somaxconn (http_response endpoint middlewares type v)
    mounted :
        {v : Vermell W} (mount dir : Bytes) (opts : StaticOptions)
        → Configured somaxconn v
        → Configured somaxconn (static_x mount dir opts v)

  configured-port :
      (c : Config) (v : Vermell W)
      → IsLimited v.config
      → ((configure c v).config.port ≡ 0) ⊎ (min_port ≤ (configure c v).config.port)
  unfolding configure
  configured-port c v ok = elim (Bool-cases (ltb c.port min_port)) [
    | inl low ↦ rw low ok.0
    | inr free ↦ rw free (inr (ground arith))
  ]

  configure-IsLimited :
      (c : Config) (v : Vermell W) → IsLimited v.config → IsLimited (configure c v).config
  unfolding configure
  configure-IsLimited c v ok = (
    configured-port c v ok,
    limit_int-IsIn max_sessions c.backlog (omega arith),
    limit_int-IsIn max_max_events c.max_events (omega arith),
    limit_chunk-bounds c.read_chunk,
    limit_threads-bound c.threads,
    limit_threads-bound c.accept_threads,
    clamp_ms-IsIn c.read_timeout,
    clamp_ms-IsIn c.request_timeout,
    clamp_ms-IsIn c.write_timeout,
    clamp_ms-IsIn c.epoll_timeout,
  )

  set-IsLimited :
      (setting : Setting) (v : Vermell W) → IsLimited v.config → IsLimited (set setting v).config
  unfolding set
  set-IsLimited (read_timeout n) v (p, b, e, k, t, l, r, q, w, o) =
      (p, b, e, k, t, l, clamp_ms-IsIn n, q, w, o)
  set-IsLimited (write_timeout n) v (p, b, e, k, t, l, r, q, w, o) =
      (p, b, e, k, t, l, r, q, clamp_ms-IsIn n, o)
  set-IsLimited (request_timeout n) v (p, b, e, k, t, l, r, q, w, o) =
      (p, b, e, k, t, l, r, clamp_ms-IsIn n, w, o)
  set-IsLimited (read_chunk_size n) v (p, b, e, k, t, l, r, q, w, o) =
      (p, b, e, limit_chunk-bounds n, t, l, r, q, w, o)
  set-IsLimited (threads n) v (p, b, e, k, t, l, r, q, w, o) =
      (p, b, e, k, limit_threads-bound n, l, r, q, w, o)
  set-IsLimited (accept_threads n) v (p, b, e, k, t, l, r, q, w, o) =
      (p, b, e, k, t, limit_threads-bound n, r, q, w, o)
  set-IsLimited (max_events n) v (p, b, e, k, t, l, r, q, w, o) =
      (p, b, limit_int-IsIn max_max_events n (omega arith), k, t, l, r, q, w, o)
  set-IsLimited (backlog n) v (p, b, e, k, t, l, r, q, w, o) =
      (p, limit_int-IsIn max_sessions n (omega arith), e, k, t, l, r, q, w, o)
  set-IsLimited (max_request_size n) v ok = ok
  set-IsLimited (max_queue_size n) v ok = ok
  set-IsLimited (max_connections n) v ok = ok
  set-IsLimited (buffer_size n) v ok = ok
  set-IsLimited (reuse_port b) v ok = ok

  set_port-IsLimited :
      (port : ℕ) (v : Vermell W) → IsLimited v.config → IsLimited (set_port port v).1.config
  unfolding set_port
  set_port-IsLimited port v ok = elim (Bool-cases (leb min_port port)) [
    | inl free ↦
        let (p, b, e, k, t, l, r, q, w, o) = ok in
        rw free (inr (ground arith), b, e, k, t, l, r, q, w, o)
    | inr low ↦ rw low ok
  ]

  http_response-config :
      (endpoint : Bytes) (middlewares : List (Query × W → Query × W)) (type : Bytes) (v : Vermell W)
      → (http_response endpoint middlewares type v).config ≡ v.config
  unfolding http_response
  http_response-config endpoint middlewares type v = elim (Bool-cases (is_pattern_route endpoint)) [
    | inl pattern_one ↦ rw pattern_one refl
    | inr exact ↦ rw exact refl
  ]

  -- Whatever a program sets, in whatever order, and whatever routes and mounts it adds: a server that
  -- is made where SOMAXCONN is between 1 and 65535 has the default port or one from 1000 on, a
  -- backlog of 1 to 65535, batches of 1 to 65536 events, reads of 1 byte to 1 MiB, configured
  -- numbers of workers and of loops of at most 256 (0 loops stand for one per core, which the run
  -- resolves without a limit), and timeouts of 1 millisecond to the largest int, so none is without
  -- end.
  pub Configured-IsLimited :
      (somaxconn : ℕ) {v : Vermell W}
      → IsIn max_sessions (pos somaxconn)
      → Configured somaxconn v
      → IsLimited v.config
  unfolding new_vermell static_x
  Configured-IsLimited somaxconn system (created control port) =
      new_config-IsLimited somaxconn port system
  Configured-IsLimited somaxconn system (configured {v = v} c before) =
      configure-IsLimited c v (Configured-IsLimited somaxconn system before)
  Configured-IsLimited somaxconn system (adjusted {v = v} setting before) =
      set-IsLimited setting v (Configured-IsLimited somaxconn system before)
  Configured-IsLimited somaxconn system (moved {v = v} port before) =
      set_port-IsLimited port v (Configured-IsLimited somaxconn system before)
  Configured-IsLimited somaxconn system (routed {v = v} endpoint middlewares type before) =
      subst IsLimited (sym (http_response-config endpoint middlewares type v))
        (Configured-IsLimited somaxconn system before)
  Configured-IsLimited somaxconn system (mounted mount dir opts before) =
      Configured-IsLimited somaxconn system before

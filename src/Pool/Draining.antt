-- ===== src/Pool/Draining.antt =====
-- How a stopped pool comes to its end (sources/threading/thread_pool.cpp).
use vermell.Prelude.{
  ℕ, suc, ◌+◌, ◌*◌, ◌≤◌, ◌<◌, max, ◌≡◌, refl, sym, ap, ◌∙◌, subst, inl, inr, true, List, [], ◌∷◌,
  ◌++◌, append-nil, arith, ltb, ltb→lt, Bool-cases, if-true, if-false, length,
}
use vermell.Pool.{
  ThreadPool, Taken, take_from, start_task, leave, finish_task, queued, returns, runs, new_pool,
  try_add_task, add_task, take_task, Step, Reachable, tried, added, took, left, finished, killed,
  start, step,
}
use vermell.Pool.Histories.{Reachable-IsSound}

module _ {ℓ} {A : Type ℓ} where
  take_from-eq_runs :
      (p : ThreadPool A) {p' : ThreadPool A} {task : A} (queue : List A)
      → take_from queue p ≡ runs task p'
      → (rest : List A) × (queue ≡ task ∷ rest) × (start_task task rest p ≡ p')
  take_from-eq_runs p [] h = elim (Bool-cases p.stop) [
    | inl stopped ↦ absurd (cc (sym (if-true {A = Taken A} p.stop _ _ stopped) ∙ h))
    | inr going ↦ absurd (cc (sym (if-false {A = Taken A} p.stop _ _ going) ∙ h))
  ]
  take_from-eq_runs p {p'} {task} (first ∷ rest) h =
      let same_task : first ≡ task = cc in
      let same_pool : start_task first rest p ≡ p' = cc in
      (
        rest,
        ap (λ t. t ∷ rest) same_task,
        subst (λ t. start_task t rest p ≡ p') same_task same_pool,
      )

  take_from-eq_returns :
      (p : ThreadPool A) {p' : ThreadPool A} (queue : List A)
      → take_from queue p ≡ returns p'
      → (queue ≡ []) × (p.stop ≡ true) × (leave p ≡ p')
  take_from-eq_returns p (first ∷ queue) h = absurd (cc h)
  take_from-eq_returns p {p'} [] h = elim (Bool-cases p.stop) [
    | inl stopped ↦
        let r = sym (if-true {A = Taken A} p.stop _ _ stopped) ∙ h in
        (refl, stopped, returns-injective r)
    | inr going ↦ absurd (cc (sym (if-false {A = Taken A} p.stop _ _ going) ∙ h))
  ]
    where
      returns-injective : {q q' : ThreadPool A} → returns q ≡ returns q' → q ≡ q'
      returns-injective e = cc

  -- The threads of a pool.
  abbrev crew : ThreadPool A → ℕ
  crew p = p.idle + p.busy + p.exited

  new_pool-crew :
      {p : ThreadPool A} (threads max_queue_size : ℕ)
      → new_pool threads max_queue_size ≡ p
      → crew p ≡ max threads 1
  unfolding new_pool
  new_pool-crew {p} threads max_queue_size e =
      let counted : crew (new_pool {A = A} threads max_queue_size) ≡ max threads 1 = ground arith in
      subst (λ q. crew q ≡ max threads 1) e counted

  try_add_task-crew : (task : A) (p : ThreadPool A) → crew (try_add_task task p).1 ≡ crew p
  unfolding try_add_task
  try_add_task-crew task p = ground arith

  add_task-crew :
      (task : A) (p : ThreadPool A) {p' : ThreadPool A}
      → add_task task p ≡ queued p'
      → crew p' ≡ crew p
  unfolding add_task
  add_task-crew task p h = ground arith

  Step-crew : {p p' : ThreadPool A} → Step p p' → crew p' ≡ crew p
  unfolding take_task
  Step-crew {p = p} (tried task e) = ap (λ x. crew x.1) (sym e) ∙ try_add_task-crew task p
  Step-crew {p = p} (added task e) = add_task-crew task p e
  Step-crew {p = p} (took task idle e) =
      let (rest, _, same_pool) = take_from-eq_runs p p.queue e in
      ap crew (sym same_pool) ∙ omega arith
  Step-crew {p = p} (left idle e) =
      let (_, _, same_pool) = take_from-eq_returns p p.queue e in
      ap crew (sym same_pool) ∙ omega arith
  Step-crew {p = p} (finished busy e) = ap crew (sym e) ∙ omega arith
  Step-crew {p = p} (killed e) = ap crew (sym e)

  Reachable-crew :
      (threads max_queue_size : ℕ) {p : ThreadPool A}
      → Reachable threads max_queue_size p
      → crew p ≡ max threads 1
  Reachable-crew threads max_queue_size (start e) = new_pool-crew threads max_queue_size e
  Reachable-crew threads max_queue_size (step before s) =
      Step-crew s ∙ Reachable-crew threads max_queue_size before

  -- One step of a worker.
  pub data WorkerStep : ThreadPool A → ThreadPool A → Type ℓ where
    takes :
        {p p' : ThreadPool A} (task : A) → 0 < p.idle → take_task p ≡ runs task p' → WorkerStep p p'
    leaves : {p p' : ThreadPool A} → 0 < p.idle → take_task p ≡ returns p' → WorkerStep p p'
    finishes : {p p' : ThreadPool A} → 0 < p.busy → finish_task p ≡ p' → WorkerStep p p'

  -- That many steps of workers, in any order.
  pub data WorkerRun : ℕ → ThreadPool A → ThreadPool A → Type ℓ where
    rest : {p : ThreadPool A} → WorkerRun 0 p p
    further :
        {n : ℕ} {p p' p'' : ThreadPool A}
        → WorkerRun n p p'
        → WorkerStep p' p''
        → WorkerRun (suc n) p p''

  Step-worker : {p p' : ThreadPool A} → WorkerStep p p' → Step p p'
  Step-worker (takes task idle e) = took task idle e
  Step-worker (leaves idle e) = left idle e
  Step-worker (finishes busy e) = finished busy e

  -- The steps that the workers of a stopped pool have left: two for a queued task, one for a worker to return.
  abbrev pub work : ThreadPool A → ℕ
  work p = 2 * length p.queue + 2 * p.busy + p.idle

  -- A step of a worker is one of those that are left, and leaves the pool stopped.
  WorkerStep-work :
      {p p' : ThreadPool A} → WorkerStep p p' → (work p ≡ suc (work p')) × (p'.stop ≡ p.stop)
  unfolding take_task
  WorkerStep-work {p = p} (takes task idle e) =
      let (queue, first, same_pool) = take_from-eq_runs p p.queue e in
      let counted : work p ≡ suc (work (start_task task queue p)) =
        omega (arith, ap length first) in
      (subst (λ q. work p ≡ suc (work q)) same_pool counted, sym (ap (λ q. q.stop) same_pool))
  WorkerStep-work {p = p} (leaves idle e) =
      let (_, _, same_pool) = take_from-eq_returns p p.queue e in
      let counted : work p ≡ suc (work (leave p)) = omega arith in
      (subst (λ q. work p ≡ suc (work q)) same_pool counted, sym (ap (λ q. q.stop) same_pool))
  WorkerStep-work {p = p} (finishes busy e) =
      let counted : work p ≡ suc (work (finish_task p)) = omega arith in
      (subst (λ q. work p ≡ suc (work q)) e counted, sym (ap (λ q. q.stop) e))

  -- An idle worker of a stopped pool takes a task or returns.
  idle-step :
      (p : ThreadPool A) (queue : List A)
      → p.queue ≡ queue
      → p.stop ≡ true
      → 0 < p.idle
      → (p' : ThreadPool A) × WorkerStep p p'
  unfolding take_task
  idle-step p [] e stopped idle =
      (leave p, leaves idle (ap (λ q. take_from q p) e ∙ if-true {A = Taken A} p.stop _ _ stopped))
  idle-step p (task ∷ queue) e stopped idle =
      (start_task task queue p, takes task idle (ap (λ q. take_from q p) e))

  -- A stopped pool with work left has a worker that can go on.
  has_step :
      (threads max_queue_size : ℕ) {p : ThreadPool A}
      → Reachable threads max_queue_size p
      → p.stop ≡ true
      → 0 < work p
      → (p' : ThreadPool A) × WorkerStep p p'
  has_step threads max_queue_size {p} reachable stopped more = elim (Bool-cases (ltb 0 p.busy)) [
    | inl busy ↦ (finish_task p, finishes (ltb→lt 0 p.busy busy) refl)
    | inr none_busy ↦ elim (Bool-cases (ltb 0 p.idle)) [
      | inl idle ↦ idle-step p p.queue refl stopped (ltb→lt 0 p.idle idle)
      | inr none_idle ↦
          let counted = Reachable-crew threads max_queue_size reachable in
          let sound = Reachable-IsSound threads max_queue_size reachable in
          let gone : 0 < p.exited = ground arith in
          let drained = ap length (sound.drained gone).1 in absurd (ground arith)
    ]
  ]

  -- Every accepted task was taken, and all of that many threads have returned.
  pub record IsDrained (threads : ℕ) (p : ThreadPool A) : Type ℓ where
    pub returned : p.exited ≡ max threads 1
    pub emptied : p.queue ≡ []
    pub served : p.taken ≡ p.accepted

  done-IsDrained :
      (threads max_queue_size : ℕ) {p : ThreadPool A}
      → Reachable threads max_queue_size p
      → work p ≡ 0
      → IsDrained threads p
  done-IsDrained threads max_queue_size {p} reachable done =
      let counted = Reachable-crew threads max_queue_size reachable in
      let gone : 0 < p.exited = omega arith in
      let sound = Reachable-IsSound threads max_queue_size reachable in
      let emptied = (sound.drained gone).1 in
      record {
        returned = omega arith;
        emptied = emptied;
        served = sym (sound.order ∙ ap (λ q. p.taken ++ q) emptied ∙ append-nil p.taken);
      }

  WorkerRun-Reachable :
      (threads max_queue_size : ℕ) {n : ℕ} {p p' : ThreadPool A}
      → WorkerRun n p p'
      → Reachable threads max_queue_size p
      → Reachable threads max_queue_size p'
  WorkerRun-Reachable threads max_queue_size rest reachable = reachable
  WorkerRun-Reachable threads max_queue_size (further run s) reachable =
      step (WorkerRun-Reachable threads max_queue_size run reachable) (Step-worker s)

  WorkerRun-work :
      {n : ℕ} {p p' : ThreadPool A} → WorkerRun n p p' → (work p ≡ n + work p') × (p'.stop ≡ p.stop)
  WorkerRun-work rest = (omega arith, refl)
  WorkerRun-work (further run s) =
      let (counted, kept) = WorkerRun-work run in
      let (one, kept') = WorkerStep-work s in (omega arith, kept' ∙ kept)

  -- The workers of a stopped pool, in whatever order they run, have a number of steps left that its
  -- queue and its threads tell: a run of theirs is not longer, one that is shorter can go on, and
  -- one of that many steps ends with every accepted task taken and every worker returned.
  pub WorkerRun-drains :
      (threads max_queue_size : ℕ) {n : ℕ} {p p' : ThreadPool A}
      → Reachable threads max_queue_size p
      → p.stop ≡ true
      → WorkerRun n p p'
      → (n ≤ work p)
        × (n < work p → (p'' : ThreadPool A) × WorkerRun (suc n) p p'')
        × (n ≡ work p → IsDrained threads p')
  WorkerRun-drains threads max_queue_size {n} {p} {p'} reachable stopped run =
      let (counted, kept) = WorkerRun-work run in
      let reached = WorkerRun-Reachable threads max_queue_size run reachable in
      (
        omega arith,
        λ h.
            let (q, s) = has_step threads max_queue_size reached (kept ∙ stopped) (omega arith) in
            (q, further run s),
        λ h. done-IsDrained threads max_queue_size reached (omega arith),
      )

-- ===== src/Pool/Histories.antt =====
-- Invariants of the pool of sources/threading/thread_pool.cpp.
use vermell.Prelude.{
  if-false, if-true, ℕ, ◌≤◌, ◌<◌, ◌≡◌, refl, sym, ap, ◌∙◌, subst, inl, inr, true, false, List, [],
  ◌∷◌, ◌++◌, append_assoc, arith, ltb, leb, Bool-cases, length, length-append,
}
use vermell.Pool.{
  ThreadPool, Added, Taken, take_from, start_task, leave, queued, returns, runs, new_pool,
  push_task, try_add_task, add_task, take_task, Step, Reachable, tried, added, took, left, finished,
  killed, start, step,
}

module _ {ℓ} {A : Type ℓ} where
  -- No task is lost, doubled or reordered; the queue keeps to its bound; and a worker returns only
  -- from a stopped pool with nothing queued.
  pub record IsSound (p : ThreadPool A) : Type ℓ where
    pub order : p.accepted ≡ p.taken ++ p.queue
    pub bounded : length p.queue ≤ p.max_queue_size
    pub drained : 0 < p.exited → (p.stop ≡ true) × (p.queue ≡ [])

  push_task-IsSound :
      (task : A) (p : ThreadPool A)
      → p.stop ≡ false
      → length p.queue < p.max_queue_size
      → IsSound p
      → IsSound (push_task task p)
  push_task-IsSound task p going room sound = record {
    order = ap (λ x. x ++ task ∷ []) sound.order ∙ append_assoc p.taken p.queue (task ∷ []);
    bounded = omega (arith, length-append p.queue (task ∷ []), (refl {a = length (task ∷ [])}));
    drained = λ h. absurd (cc ((sound.drained h).0, going));
  }

  new_pool-IsSound : (threads max_queue_size : ℕ) → IsSound (new_pool threads max_queue_size)
  unfolding new_pool
  new_pool-IsSound threads max_queue_size = record {
    order = refl;
    bounded = omega arith;
    drained = λ h. absurd (omega arith);
  }

  try_add_task-IsSound : (task : A) (p : ThreadPool A) → IsSound p → IsSound (try_add_task task p).1
  unfolding try_add_task
  try_add_task-IsSound task p sound = elim (Bool-cases p.stop) [
    | inl stopped ↦ subst IsSound (sym (ap (λ x. x.1) (stopped_lem stopped))) sound
    | inr going ↦ elim (Bool-cases (leb p.max_queue_size (length p.queue))) [
      | inl full ↦ subst IsSound (sym (ap (λ x. x.1) (full_lem going full))) sound
      | inr room ↦
          subst IsSound (sym (ap (λ x. x.1) (room_lem going room)))
            (push_task-IsSound task p going (ground arith) sound)
    ]
  ]
    where
      stopped_lem : p.stop ≡ true → try_add_task task p ≡ (false, p)
      stopped_lem h = if-true p.stop _ _ h

      full_lem :
          p.stop ≡ false
          → leb p.max_queue_size (length p.queue) ≡ true
          → try_add_task task p ≡ (false, p)
      full_lem h k = if-false p.stop _ _ h ∙ if-true (leb p.max_queue_size (length p.queue)) _ _ k

      room_lem :
          p.stop ≡ false
          → leb p.max_queue_size (length p.queue) ≡ false
          → try_add_task task p ≡ (true, push_task task p)
      room_lem h k = if-false p.stop _ _ h ∙ if-false (leb p.max_queue_size (length p.queue)) _ _ k

  add_task-IsSound :
      (task : A) (p : ThreadPool A) {p' : ThreadPool A}
      → IsSound p
      → add_task task p ≡ queued p'
      → IsSound p'
  unfolding add_task
  add_task-IsSound task p {p'} sound h = elim (Bool-cases p.stop) [
    | inl stopped ↦ absurd (cc (sym (if-true {A = Added A} p.stop _ _ stopped) ∙ h))
    | inr going ↦
        let h' = sym (if-false {A = Added A} p.stop _ _ going) ∙ h in
        elim (Bool-cases (ltb (length p.queue) p.max_queue_size)) [
          | inr full ↦ absurd (
              cc (
                sym (if-false {A = Added A} (ltb (length p.queue) p.max_queue_size) _ _ full) ∙ h'))
          | inl room ↦
              let e =
                sym (if-true {A = Added A} (ltb (length p.queue) p.max_queue_size) _ _ room) ∙ h' in
              subst IsSound (queued-injective e)
                (push_task-IsSound task p going (ground arith) sound)
        ]
  ]
    where
      queued-injective : {q : ThreadPool A} {q' : ThreadPool A} → queued q ≡ queued q' → q ≡ q'
      queued-injective e = cc

  start_task-IsSound :
      (p : ThreadPool A) (task : A) (queue : List A)
      → p.queue ≡ task ∷ queue
      → IsSound p
      → IsSound (start_task task queue p)
  start_task-IsSound p task queue e sound = record {
    order = sound.order ∙ ap (λ q. p.taken ++ q) e ∙ sym (append_assoc p.taken (task ∷ []) queue);
    bounded = omega (arith, sound.bounded, ap length e);
    drained = λ h. absurd (cc ((sound.drained h).1, e));
  }

  take_from-runs :
      (p : ThreadPool A) {p' : ThreadPool A} {task : A} (queue : List A)
      → p.queue ≡ queue
      → take_from queue p ≡ runs task p'
      → IsSound p
      → IsSound p'
  take_from-runs p [] e h sound = elim (Bool-cases p.stop) [
    | inl stopped ↦ absurd (cc (sym (if-true {A = Taken A} p.stop _ _ stopped) ∙ h))
    | inr going ↦ absurd (cc (sym (if-false {A = Taken A} p.stop _ _ going) ∙ h))
  ]
  take_from-runs p {p'} (first ∷ queue) e h sound =
      let same_pool : start_task first queue p ≡ p' = cc in
      subst IsSound same_pool (start_task-IsSound p first queue e sound)

  take_from-returns :
      (p : ThreadPool A) {p' : ThreadPool A} (queue : List A)
      → p.queue ≡ queue
      → take_from queue p ≡ returns p'
      → IsSound p
      → IsSound p'
  take_from-returns p (first ∷ queue) e h sound = absurd (cc h)
  take_from-returns p {p'} [] e h sound = elim (Bool-cases p.stop) [
    | inl stopped ↦
        let r = sym (if-true {A = Taken A} p.stop _ _ stopped) ∙ h in
        let same_pool : leave p ≡ p' = returns-injective r in
        subst IsSound same_pool
          (record { order = sound.order; bounded = sound.bounded; drained = λ _. (stopped, e) })
    | inr going ↦ absurd (cc (sym (if-false {A = Taken A} p.stop _ _ going) ∙ h))
  ]
    where
      returns-injective : {q q' : ThreadPool A} → returns q ≡ returns q' → q ≡ q'
      returns-injective e = cc

  Step-IsSound : {p p' : ThreadPool A} → Step p p' → IsSound p → IsSound p'
  unfolding take_task
  Step-IsSound {p = p} (tried task e) sound =
      subst IsSound (ap (λ x. x.1) e) (try_add_task-IsSound task p sound)
  Step-IsSound {p = p} (added task e) sound = add_task-IsSound task p sound e
  Step-IsSound {p = p} (took task _ e) sound = take_from-runs p p.queue refl e sound
  Step-IsSound {p = p} (left _ e) sound = take_from-returns p p.queue refl e sound
  Step-IsSound {p = p} (finished _ e) sound =
      subst IsSound e
        (record { order = sound.order; bounded = sound.bounded; drained = sound.drained })
  Step-IsSound {p = p} (killed e) sound = subst IsSound e (record {
    order = sound.order;
    bounded = sound.bounded;
    drained = λ h. (refl, (sound.drained h).1);
  })

  -- Whatever the threads do, in whatever order: the tasks that were accepted are those that workers
  -- took and then those that are queued, in the order of their acceptance; the queue keeps to its
  -- bound; and once a worker has returned, the pool is stopped and no accepted task is left behind.
  pub Reachable-IsSound :
      (threads max_queue_size : ℕ) {p : ThreadPool A}
      → Reachable threads max_queue_size p
      → IsSound p
  Reachable-IsSound threads max_queue_size (start e) =
      subst IsSound e (new_pool-IsSound threads max_queue_size)
  Reachable-IsSound threads max_queue_size (step before s) =
      Step-IsSound s (Reachable-IsSound threads max_queue_size before)

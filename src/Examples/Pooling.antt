-- ===== src/Examples/Pooling.antt =====
-- The thread pool: sources/threading/thread_pool.cpp.
use vermell.Prelude.{◌<◌, arith, ◌≤◌, ℕ, ◌≡◌, refl, true, false, [], ◌∷◌}
use vermell.Pool.{
  ThreadPool, Reachable, start, step, tried, killed, kill, take_task, start_task, new_pool,
  try_add_task, queue_capacity,
}
use vermell.Pool.Draining.{work, WorkerRun, rest, further, IsDrained, takes, WorkerRun-drains}
use vermell.Pool.Histories.{IsSound, Reachable-IsSound}

-- A pool of two threads and a queue of one task, with the task queued.
abbrev one_queued : ThreadPool ℕ
one_queued = record {
  max_queue_size = 1;
  queue = 7 ∷ [];
  stop = false;
  idle = 2;
  busy = 0;
  exited = 0;
  accepted = 7 ∷ [];
  taken = [];
}

first_accepted : try_add_task 7 (new_pool 2 1) ≡ (true, one_queued)
unfolding try_add_task new_pool queue_capacity
first_accepted = refl

second_refused : try_add_task 8 one_queued ≡ (false, one_queued)
unfolding try_add_task
second_refused = refl

Reachable-IsSound_example : IsSound one_queued
Reachable-IsSound_example = Reachable-IsSound 2 1 (step (start refl) (tried 7 first_accepted))

one_stopped-Reachable : Reachable 2 1 (kill one_queued)
one_stopped-Reachable = step (step (start refl) (tried 7 first_accepted)) (killed refl)

one_taken : WorkerRun 1 (kill one_queued) (start_task 7 [] (kill one_queued))
unfolding take_task
one_taken = further rest (takes 7 (omega arith) refl)

WorkerRun-drains_example :
    (1 ≤ work (kill one_queued))
    × (1 < work (kill one_queued) → (p : ThreadPool ℕ) × WorkerRun 2 (kill one_queued) p)
    × (1 ≡ work (kill one_queued) → IsDrained 2 (start_task 7 [] (kill one_queued)))
WorkerRun-drains_example = WorkerRun-drains 2 1 one_stopped-Reachable refl one_taken

-- ===== src/Pool.antt =====
-- The thread pool of sources/threading/thread_pool.cpp. What a thread does under the pool's mutex is
-- one step; the condition variables are the steps that are possible. Two lists that only the model
-- keeps record the tasks that were accepted and those that a worker took.
pub mod Histories
pub mod Draining
use vermell.Prelude.{
  ℕ, zero, suc, ◌+◌, ◌-◌, ◌*◌, ◌/◌, ◌%◌, ◌^◌, ◌≤◌, ◌<◌, min, max, String, ◌≡◌, refl, sym, ap, ◌∙◌,
  subst, ◌≡⟨◌⟩◌, ◌∎, ◌≢◌, ◌↔◌, ◌⊎◌, inl, inr, Bool, true, false, not, ◌&&◌, ◌||◌, Option, none,
  some, List, [], ◌∷◌, ◌++◌, map, append-nil, append_assoc, arith, ltb, leb, ◌==◌, within,
  if◌then◌else◌, ltb→lt, lt→ltb, leb→le, le→leb, ==_iff, tests, Bool-cases, Option-cases, same_iff,
  same_refl, strip_prefix-append, strip_prefix-eq_some, Lacks, cut-eq_some, cut-append, cut-eq_none,
  split_on-eq_singleton, split_on-append, split_on-Lacks, join_with-cons, join_with-split_on, Bytes,
  IsBytes, codes, same, is_empty, strip_prefix, is_some, has_byte, push_front, cut, cut_seq,
  cons_head, split_on, lines_of, drop_while, drop_while_end, join_with, ◌>>=◌, ◌>>◌, guard,
  >>=-eq-some, guard-eq-some, some-injective, length, take, drop, all, any, drop_last, get_last?,
  length-append, take-length_append, drop-length_append, length-drop, length-take_le,
  take-append-drop, All, All-append, All-append_left, All-append_right, take-append_of_length,
  drop-append_of_length, strip_prefix-none_local, cut_seq-eq_some, length-cut_seq,
}

abbrev min_queue_capacity : ℕ
min_queue_capacity = 1024

abbrev queue_capacity_per_thread : ℕ
queue_capacity_per_thread = 256

-- `threads * QUEUE_CAPACITY_PER_THREAD` in 64 bits
unfoldable pub queue_capacity : ℕ → ℕ → ℕ
queue_capacity threads configured =
    if not (configured == 0)
    then configured
    else max (threads * queue_capacity_per_thread % 2 ^ 64) min_queue_capacity

module _ {ℓ} (A : Type ℓ) where
  -- `idle` workers wait or look at the queue, `busy` ones run a task, `exited` ones have returned.
  pub record ThreadPool : Type ℓ where
    pub max_queue_size : ℕ
    pub queue : List A
    pub stop : Bool
    pub idle : ℕ
    pub busy : ℕ
    pub exited : ℕ
    pub accepted : List A
    pub taken : List A

  -- What `addTask` does at one wake-up.
  pub data Added : Type ℓ where
    waits : Added
    throws : Added
    queued : ThreadPool → Added

  -- What a worker does at one wake-up.
  pub data Taken : Type ℓ where
    sleeps : Taken
    returns : ThreadPool → Taken
    runs : A → ThreadPool → Taken

module _ {ℓ} {A : Type ℓ} where
  unfoldable pub new_pool : ℕ → ℕ → ThreadPool A
  unfolding queue_capacity
  new_pool threads max_queue_size =
      let size = if threads == 0 then 1 else threads in
      record {
        max_queue_size = queue_capacity size max_queue_size;
        queue = [];
        stop = false;
        idle = size;
        busy = 0;
        exited = 0;
        accepted = [];
        taken = [];
      }

  abbrev pub push_task : A → ThreadPool A → ThreadPool A
  push_task task p = record p { queue = p.queue ++ task ∷ []; accepted = p.accepted ++ task ∷ [] }

  unfoldable pub try_add_task : A → ThreadPool A → Bool × ThreadPool A
  try_add_task task p =
      if p.stop
      then (false, p)
      else if leb p.max_queue_size (length p.queue)
      then (false, p)
      else (true, push_task task p)

  unfoldable pub add_task : A → ThreadPool A → Added A
  add_task task p =
      if p.stop
      then throws
      else if ltb (length p.queue) p.max_queue_size
      then queued (push_task task p)
      else waits

  abbrev pub leave : ThreadPool A → ThreadPool A
  leave p = record p { idle = p.idle - 1; exited = p.exited + 1 }

  abbrev pub start_task : A → List A → ThreadPool A → ThreadPool A
  start_task task queue p = record p {
    queue = queue;
    taken = p.taken ++ task ∷ [];
    idle = p.idle - 1;
    busy = p.busy + 1;
  }

  -- A worker under the mutex, at a queue: it takes the first task, returns from a stopped pool, or
  -- waits.
  abbrev pub take_from : List A → ThreadPool A → Taken A
  take_from [] p = if p.stop then returns (leave p) else sleeps
  take_from (task ∷ queue) p = runs task (start_task task queue p)

  unfoldable pub take_task : ThreadPool A → Taken A
  take_task p = take_from p.queue p

  abbrev pub finish_task : ThreadPool A → ThreadPool A
  finish_task p = record p { busy = p.busy - 1; idle = p.idle + 1 }

  -- The part of `kill` before it joins the workers.
  abbrev pub kill : ThreadPool A → ThreadPool A
  kill p = record p { stop = true }

  -- One step of a thread.
  pub data Step : ThreadPool A → ThreadPool A → Type ℓ where
    tried :
        {p p' : ThreadPool A} {accepted : Bool} (task : A)
        → try_add_task task p ≡ (accepted, p')
        → Step p p'
    added : {p p' : ThreadPool A} (task : A) → add_task task p ≡ queued p' → Step p p'
    took : {p p' : ThreadPool A} (task : A) → 0 < p.idle → take_task p ≡ runs task p' → Step p p'
    left : {p p' : ThreadPool A} → 0 < p.idle → take_task p ≡ returns p' → Step p p'
    finished : {p p' : ThreadPool A} → 0 < p.busy → finish_task p ≡ p' → Step p p'
    killed : {p p' : ThreadPool A} → kill p ≡ p' → Step p p'

  -- The pools that a new one of that many threads can become.
  pub data Reachable (threads max_queue_size : ℕ) : ThreadPool A → Type ℓ where
    start :
        {p : ThreadPool A}
        → new_pool threads max_queue_size ≡ p
        → Reachable threads max_queue_size p
    step :
        {p p' : ThreadPool A}
        → Reachable threads max_queue_size p
        → Step p p'
        → Reachable threads max_queue_size p'

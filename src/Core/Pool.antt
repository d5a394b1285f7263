-- ===== src/Core/Pool.antt =====
-- src/core/global_thread_pool.hpp and global_thread_pool.cpp: the shared pool of threads. Tasks are
-- numbers. Beside the fields of the class the state keeps two things that the code has in its threads:
-- how many are in `worker_loop`, and the tasks that they took, newest first. A method is one step, apart
-- from `target_workers`: its load of the counter is a step and what follows is another, so that checks
-- come between; `growing` has what it loaded. Threads can be started.
pub mod Workers
pub mod Fifo
mod Tests
use ayafileio.Base.{
  ℕ, zero, suc, ◌+◌, ◌-◌, Bool, true, false, List, [], ◌∷◌, ◌++◌, Option, none, some, ltb, ◌==◌,
  if◌then◌else◌,
}

pub record Pool : Type 0 where
  pub threads : ℕ  -- m_workers.size()
  pub running : ℕ
  pub target : ℕ
  pub stop : Bool
  pub tasks : List ℕ
  pub live : ℕ
  pub taken : List ℕ
  pub growing : Option (ℕ × ℕ)  -- of a `target_workers`: the number, and the counter that was loaded

abbrev pub new_pool : Pool
new_pool = record {
  threads = 0;
  running = 0;
  target = 0;
  stop = false;
  tasks = [];
  live = 0;
  taken = [];
  growing = none;
}

unfoldable pub ensure_started : Pool → ℕ → Pool
ensure_started p num_workers =
    if ltb 0 p.running then p else if ltb 0 p.threads then p else record p {
      stop = false;
      threads = num_workers;
      live = p.live + num_workers;
      target = num_workers;
      running = num_workers;
    }

-- `if (num_workers == 0) num_workers = 1;`
abbrev pub at_least_one : ℕ → ℕ
at_least_one n = if n == 0 then 1 else n

-- `target_workers` up to the load of the counter, for a pool that has threads.
unfoldable pub target_begin : Pool → ℕ → Pool
target_begin p num_workers = record p { target = at_least_one num_workers }

-- The rest of it, with the counter that was loaded.
unfoldable pub target_end : Pool → ℕ → ℕ → Pool
target_end p num_workers cur =
    let n = at_least_one num_workers in
    if ltb cur n
    then record p {
      stop = false;
      threads = p.threads + (n - cur);
      live = p.live + (n - cur);
      running = n;
    }
    else p

unfoldable pub target_workers : Pool → ℕ → Pool
unfolding target_begin target_end
target_workers p num_workers =
    if p.threads == 0 then p else target_end (target_begin p num_workers) num_workers p.running

unfoldable pub enqueue : Pool → ℕ → Pool
enqueue p task = record p { tasks = p.tasks ++ task ∷ [] }

-- A worker's check, with the target that it loaded: the compare-and-swap is tried until it succeeds
-- or the counter is not above that target. A worker that is told to retire leaves its loop.
unfoldable pub worker_retire_due : Pool → ℕ → Bool × Pool
worker_retire_due p want =
    if ltb want p.running
    then (true, record p { running = p.running - 1; live = p.live - 1 })
    else (false, p)

-- The next task of the queue, or on with waiting.
unfoldable pub worker_take : Pool → Pool
worker_take p = elim p.tasks [
  | [] ↦ p
  | task ∷ rest ↦ record p { tasks = rest; taken = task ∷ p.taken }
]

abbrev pub take_tasks : ℕ → Pool → Pool
take_tasks zero p = p
take_tasks (suc n) p = take_tasks n (worker_take p)

unfoldable pub worker_mark_exit : Pool → Pool
worker_mark_exit p = record p { running = p.running - 1; live = p.live - 1 }

abbrev pub exit_all : ℕ → Pool → Pool
exit_all zero p = p
exit_all (suc n) p = exit_all n (worker_mark_exit p)

-- `late` are the tasks that the workers take between the reset of the counter and their next look at
-- the stop request; then each of them exits, and the threads are joined.
unfoldable pub shutdown : Pool → ℕ → Pool
unfolding worker_take worker_mark_exit
shutdown p late =
    let stopped = take_tasks late (record p { running = 0; stop = true }) in
    if p.running == 0 then p else record (exit_all p.live stopped) { threads = 0 }

-- The two halves of `target_workers`: one that would begin while another holds the mutex is a later
-- step.
unfoldable pub target_load : Pool → ℕ → Pool
unfolding target_begin
target_load p num_workers = elim p.growing [
  | some g ↦ p
  | none ↦
      if p.threads == 0
      then p
      else record (target_begin p num_workers) { growing = some (num_workers, p.running) }
]

unfoldable pub target_store : Pool → Pool
unfolding target_end
target_store p = elim p.growing [
  | none ↦ p
  | some (n, cur) ↦ record (target_end p n cur) { growing = none }
]

-- What happens to a pool; a task is taken while there is a worker. A worker checks with the target in
-- force or, late, with one that it loaded before. A start waits for the mutex. A shutdown is one step. A
-- check is not kept to pools with a worker left, so that there are histories beside the real ones.
pub data Step : Type 0 where
  starts : ℕ → Step
  targets : ℕ → Step
  stores : Step
  enqueues : ℕ → Step
  checks : Step
  checks_late : (want : ℕ) → Step
  takes : Step
  shuts_down : ℕ → Step

unfoldable pub step : Pool → Step → Pool
unfolding ensure_started target_load target_store enqueue worker_retire_due worker_take shutdown
step p (starts n) = elim p.growing [ none ↦ ensure_started p n | some g ↦ p ]
step p (targets n) = target_load p n
step p stores = target_store p
step p (enqueues task) = enqueue p task
step p checks = (worker_retire_due p p.target).1
step p (checks_late want) = (worker_retire_due p want).1
step p takes = if p.live == 0 then p else worker_take p
step p (shuts_down late) = shutdown p late

unfoldable pub run_steps : Pool → List Step → Pool
run_steps p [] = p
run_steps p (s ∷ ss) = run_steps (step p s) ss

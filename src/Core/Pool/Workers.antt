-- ===== src/Core/Pool/Workers.antt =====
-- How many workers the pool of src/core/global_thread_pool.cpp has.
use ayafileio.Base.{ℕ, zero, suc, ◌+◌, ◌≤◌, ◌<◌, ◌≡◌, List, [], ◌∷◌, arith, some}
use ayafileio.Core.Pool.{
  Pool, target_begin, target_end, worker_retire_due, Step, starts, checks_late, checks,
}

-- The counter is the number of workers in their loops; a pool that has threads has a worker, and its
-- target is not 0.
pub record IsCounted (p : Pool) : Type 0 where
  pub counted : p.running ≡ p.live
  pub staffed : (0 < p.threads) → (1 ≤ p.running) × (1 ≤ p.target)
  pub empty : p.threads ≡ 0 → p.running ≡ 0

-- What is left of that when checks come between the load and the store of the counter: it is not below
-- the number of workers, and not above what a growth has loaded.
pub record IsCovered (p : Pool) : Type 0 where
  pub covered : p.live ≤ p.running
  pub staffed : (0 < p.threads) → (1 ≤ p.running) × (1 ≤ p.target)
  pub empty : p.threads ≡ 0 → p.running ≡ 0
  pub loaded : (n cur : ℕ) → p.growing ≡ some (n, cur) → (p.running ≤ cur) × (1 ≤ p.target)

-- A start has at least one worker, and a target that was loaded is at least one.
abbrev pub IsStart : Step → Type 0
IsStart (starts n) = 1 ≤ n
IsStart (checks_late want) = 1 ≤ want
IsStart _ = Unit

-- Two states that differ in the queue and the tasks taken at most.
record SameWorkers (p q : Pool) : Type 0 where
  live_kept : q.live ≡ p.live
  running_kept : q.running ≡ p.running
  threads_kept : q.threads ≡ p.threads
  target_kept : q.target ≡ p.target
  growing_kept : q.growing ≡ p.growing

-- so many checks
abbrev pub checks_of : ℕ → List Step
checks_of zero = []
checks_of (suc n) = checks ∷ checks_of n

-- While a pool shrinks, a worker may have loaded the old target before a growth sets a new one, and
-- pass its check between the load and the store of the counter in that growth: the counter then
-- stays one above the number of workers.
pub target_workers-overcounts :
    (p : Pool) (want n : ℕ)
    → IsCounted p
    → want < p.running
    → p.running < n
    → let q = target_end ((worker_retire_due (target_begin p n) want).1) n p.running in
      q.running ≡ q.live + 1
unfolding target_begin target_end worker_retire_due
target_workers-overcounts p want n v h g = ground (arith, v.counted, h, g)

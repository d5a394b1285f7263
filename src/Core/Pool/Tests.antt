-- ===== src/Core/Pool/Tests.antt =====
-- A pool of four threads that is shrunk, grown and stopped.
use ayafileio.Base.{◌+◌, ◌≡◌, refl, List, [], ◌∷◌, ◌++◌, arith}
use ayafileio.Core.Pool.{
  Pool, new_pool, target_begin, target_end, worker_retire_due, Step, starts, targets, stores,
  checks_late, enqueues, checks, takes, shuts_down, run_steps,
}
use ayafileio.Core.Pool.Workers.{IsCounted, target_workers-overcounts}
use ayafileio.Core.Pool.Fifo.{in_order, enqueued, run_steps-in_order}

abbrev history : List Step
history =
    starts 4
    ∷ enqueues 10
    ∷ enqueues 11
    ∷ targets 2
    ∷ stores
    ∷ checks
    ∷ takes
    ∷ checks
    ∷ checks
    ∷ enqueues 12
    ∷ targets 0
    ∷ stores
    ∷ checks
    ∷ targets 5
    ∷ checks_late 1
    ∷ stores
    ∷ shuts_down 1
    ∷ []

run_steps-in_order_example :
    in_order (run_steps new_pool history) ≡ in_order new_pool ++ enqueued history
run_steps-in_order_example = run_steps-in_order new_pool history

abbrev four : Pool
four = record new_pool { threads = 4; running = 4; target = 4; live = 4 }

four-IsCounted : IsCounted four
four-IsCounted = record {
  counted = refl;
  staffed = λ h. (omega arith, omega arith);
  empty = λ h. omega (arith, h);
}

target_workers-overcounts_example :
    (target_end (worker_retire_due (target_begin four 6) 2).1 6 4).running
    ≡ (target_end (worker_retire_due (target_begin four 6) 2).1 6 4).live + 1
target_workers-overcounts_example =
    target_workers-overcounts four 2 6 four-IsCounted (omega arith) (omega arith)

-- ===== src/Backend/Thread/Finish.antt =====
-- What one task of src/backend/thread/thread_io_backend.cpp leaves behind: the queue without it, one
-- request less in flight, and one completion.
use ayafileio.Base.{
  ℕ, zero, suc, ◌+◌, ◌≡◌, ◌≤◌, refl, List, [], ◌∷◌, some, ltb, ◌==◌, if◌then◌else◌, length, ℤ, pos,
  negsuc, ◌-ℤ◌, arith, inl, inr, Option-cases, Bool-cases,
}
use ayafileio.Core.Request.{IoRequest}
use ayafileio.Core.Completion.{Completion, completes}
use ayafileio.Core.Backend.{complete_ok, complete_error}
use ayafileio.Platform.NativeFile.{Kernel, file_pread, file_pwrite}
use ayafileio.Backend.Thread.{Thread, Task, pread_task, pwrite_task, refresh_after_short_read}
use ayafileio.Backend.Thread.Tasks.{pick, pread_done, pwrite_done, run_task}
use ayafileio.Backend.Thread.Settled.{operation_of, queued}

-- A task that is picked leaves the queue, and nothing else does.
pub pick_lem :
    (i : ℕ) (xs : List Task) (y : Task) (ys : List Task)
    → pick i xs ≡ some (y, ys)
    → (length xs ≡ suc (length ys))
      × ((op : ℕ) → queued op xs ≡ (if operation_of y == op then 1 else 0) + queued op ys)
pick_lem i [] y ys h = ground arith
pick_lem zero (x ∷ xs) y ys h = (ground arith, λ op. ground arith)
pick_lem (suc i) (x ∷ xs) y ys h = elim (Option-cases (pick i xs)) [
  | inl e ↦ ground arith
  | inr ((z, zs), e) ↦
      (ground (arith, pick_lem i xs z zs e), λ op. ground (arith, (pick_lem i xs z zs e).1 op))
]

-- A place of the queue has a task.
pub pick_inside :
    (i : ℕ) (xs : List Task) (n : ℕ)
    → length xs ≡ suc n
    → i ≤ n
    → (p : Task × List Task) × (pick i xs ≡ some p) × (length p.1 ≡ n)
pick_inside i [] n h g = ground arith
pick_inside zero (x ∷ xs) n h g = ((x, xs), refl, omega (arith, h))
pick_inside (suc i) (x ∷ xs) zero h g = absurd (omega (arith, g))
pick_inside (suc i) (x ∷ xs) (suc n) h g =
    let ((y, ys), e, m) = pick_inside i xs n (omega (arith, h)) (omega (arith, g)) in
    ((y, x ∷ ys), rw e refl, omega (arith, m))

-- What a task leaves: the queue acts it is, one request less, and one completion.
pub record Settles {W : Type 0} (t : Thread W) (op : ℕ) (u : Thread W) : Type 0 where
  pub tasks_kept : u.tasks ≡ t.tasks
  pub running_kept : u.running ≡ t.running
  pub owner_kept : u.owns_fd ≡ t.owns_fd
  pub fd_kept : u.fd ≡ t.fd
  pub one_less : u.ledger.pending ≡ t.ledger.pending -ℤ pos 1
  pub completion : (c : Completion) × (u.ledger.events ≡ completes op c ∷ t.ledger.events)

module _ {W : Type 0} (k : Kernel W) where
  pread_done-Settles :
      (t : Thread W) (r : IoRequest) (size : ℕ) (got : ℤ)
      → Settles t r.operation (pread_done k t r size got)
  unfolding pread_done complete_ok complete_error refresh_after_short_read
  pread_done-Settles t r size (pos got) = elim (Bool-cases (ltb got size)) [
    | inl e ↦ rw e (record {
      tasks_kept = refl;
      running_kept = refl;
      owner_kept = refl;
      fd_kept = refl;
      one_less = refl;
      completion = (_, refl);
    })
    | inr e ↦ rw e (record {
      tasks_kept = refl;
      running_kept = refl;
      owner_kept = refl;
      fd_kept = refl;
      one_less = refl;
      completion = (_, refl);
    })
  ]
  pread_done-Settles t r size (negsuc n) = record {
    tasks_kept = refl;
    running_kept = refl;
    owner_kept = refl;
    fd_kept = refl;
    one_less = refl;
    completion = (_, refl);
  }

  pwrite_done-Settles :
      (t : Thread W) (r : IoRequest) (wrote : ℤ) → Settles t r.operation (pwrite_done k t r wrote)
  unfolding pwrite_done complete_ok complete_error refresh_after_short_read
  pwrite_done-Settles t r (pos wrote) = record {
    tasks_kept = refl;
    running_kept = refl;
    owner_kept = refl;
    fd_kept = refl;
    one_less = refl;
    completion = (_, refl);
  }
  pwrite_done-Settles t r (negsuc n) = record {
    tasks_kept = refl;
    running_kept = refl;
    owner_kept = refl;
    fd_kept = refl;
    one_less = refl;
    completion = (_, refl);
  }

  pub run_task-Settles : (t : Thread W) (x : Task) → Settles t (operation_of x) (run_task k t x)
  unfolding run_task
  run_task-Settles t (pread_task r offset size) =
      let (got, os) = file_pread k t.os t.fd size offset in
      let v = pread_done-Settles (record t { os = os }) r size got in
      record {
        tasks_kept = v.tasks_kept;
        running_kept = v.running_kept;
        owner_kept = v.owner_kept;
        fd_kept = v.fd_kept;
        one_less = v.one_less;
        completion = v.completion;
      }
  run_task-Settles t (pwrite_task r offset size) =
      let (wrote, os) = file_pwrite k t.os t.fd size offset in
      let v = pwrite_done-Settles (record t { os = os }) r wrote in
      record {
        tasks_kept = v.tasks_kept;
        running_kept = v.running_kept;
        owner_kept = v.owner_kept;
        fd_kept = v.fd_kept;
        one_less = v.one_less;
        completion = v.completion;
      }

-- ===== src/Backend/Thread/Closing.antt =====
-- What is left when the file is closed: the tasks of src/backend/thread/thread_io_backend.cpp finish
-- in any order, and each settles the operation that it was made for.
use ayafileio.Base.{
  ℕ, zero, suc, ◌+◌, ◌≡◌, ◌≤◌, refl, ap, ◌∙◌, Bool, true, false, not, ◌&&◌, List, [], ◌∷◌,
  if◌then◌else◌, length, ℤ, pos, negsuc, ◌-ℤ◌, arith, inl, inr, Option-cases, Bool-cases,
}
use ayafileio.Platform.NativeFile.{Kernel, file_invalid}
use ayafileio.Backend.Thread.{Thread, Task, is_invalid}
use ayafileio.Backend.Thread.Tasks.{pick, finish_task, finish_all, close_fd, close_impl}
use ayafileio.Backend.Thread.Settled.{submits, settles, queued, Settled, Call, call, call-Settled}
use ayafileio.Backend.Thread.Finish.{pick_lem, pick_inside, run_task-Settles}

-- A schedule in which each entry is the place of a task, in a queue of so many at first, and after
-- which none is left.
abbrev pub Empties : List ℕ → ℕ → Type 0
Empties [] zero = Unit {0}
Empties [] (suc n) = ⊥
Empties (i ∷ is) zero = ⊥
Empties (i ∷ is) (suc n) = (i ≤ n) × Empties is n

-- The history of an open file: calls, and tasks that finish, one at a time.
pub data Action : Type 0 where
  calls : (op fresh : ℕ) → Call → Action
  finishes : ℕ → Action

module _ {W : Type 0} (k : Kernel W) where
  abbrev pub run_actions : Thread W → List Action → Thread W
  run_actions t [] = t
  run_actions t (calls op fresh c ∷ acts) = run_actions (call k t op fresh c).1 acts
  run_actions t (finishes i ∷ acts) = run_actions (finish_task k t i) acts

  -- A worker that finishes a task keeps the accounts.
  finish_task-Settled : (t : Thread W) (i : ℕ) → Settled t → Settled (finish_task k t i)
  unfolding finish_task ◌-ℤ◌
  finish_task-Settled t i v = elim (Option-cases (pick i t.tasks)) [
    | inl e ↦ rw (e, finish_task) v
    | inr ((x, rest), e) ↦
        let (n, q) = pick_lem i t.tasks x rest e in
        let w = run_task-Settles k (record t { tasks = rest }) x in
        rw (e, finish_task)
          (record {
            in_flight = rw (w.one_less, w.tasks_kept, v.in_flight, n) (ground arith);
            balance = λ op. rw (w.tasks_kept, w.completion.1) (ground (arith, v.balance op, q op));
          })
  ]

  finish_all-Settled : (t : Thread W) (is : List ℕ) → Settled t → Settled (finish_all k t is)
  unfolding finish_all
  finish_all-Settled t [] v = v
  finish_all-Settled t (i ∷ is) v =
      finish_all-Settled (finish_task k t i) is (finish_task-Settled t i v)

  finish_task-Kept :
      (t : Thread W) (i : ℕ)
      → ((finish_task k t i).running ≡ t.running)
        × ((finish_task k t i).owns_fd ≡ t.owns_fd)
        × ((finish_task k t i).fd ≡ t.fd)
  unfolding finish_task
  finish_task-Kept t i = elim (Option-cases (pick i t.tasks)) [
    | inl e ↦ (rw (e, finish_task), rw (e, finish_task), rw (e, finish_task))
    | inr ((x, rest), e) ↦
        let w = run_task-Settles k (record t { tasks = rest }) x in
        (
          rw (e, finish_task) (w.running_kept),
          rw (e, finish_task) (w.owner_kept),
          rw (e, finish_task) (w.fd_kept),
        )
  ]

  finish_all-Kept :
      (t : Thread W) (is : List ℕ)
      → ((finish_all k t is).running ≡ t.running)
        × ((finish_all k t is).owns_fd ≡ t.owns_fd)
        × ((finish_all k t is).fd ≡ t.fd)
  unfolding finish_all
  finish_all-Kept t [] = (refl, refl, refl)
  finish_all-Kept t (i ∷ is) =
      let (a, b, a') = finish_all-Kept (finish_task k t i) is in
      let (c, d, c') = finish_task-Kept t i in (a ∙ c, b ∙ d, a' ∙ c')

  close_fd_lem :
      (u : Thread W)
      → ((close_fd k u).ledger ≡ u.ledger)
        × ((close_fd k u).tasks ≡ u.tasks)
        × ((close_fd k u).running ≡ u.running)
        × ((close_fd k u).fd ≡ (if u.owns_fd then file_invalid else u.fd))
  unfolding close_fd
  close_fd_lem u = elim (Bool-cases (u.owns_fd && not (is_invalid u.fd))) [
    | inl e ↦ (
      rw (e, close_fd),
      rw (e, close_fd),
      rw (e, close_fd),
      rw (e, close_fd) (owned u.owns_fd u.fd e),
    )
    | inr e ↦ (
      rw (e, close_fd),
      rw (e, close_fd),
      rw (e, close_fd),
      rw (e, close_fd) (left u.owns_fd u.fd e),
    )
  ]
    where
      owned :
          (o : Bool) (h : ℤ)
          → (o && not (is_invalid h)) ≡ true
          → file_invalid ≡ (if o then file_invalid else h)
      owned true h e = refl
      owned false h e = ground arith

      left :
          (o : Bool) (h : ℤ)
          → (o && not (is_invalid h)) ≡ false
          → h ≡ (if o then file_invalid else h)
      left false h e = refl
      left true (pos n) e = ground arith
      left true (negsuc zero) e = refl
      left true (negsuc (suc n)) e = ground arith

  finish_task-length :
      (t : Thread W) (i n : ℕ)
      → length t.tasks ≡ suc n
      → i ≤ n
      → length (finish_task k t i).tasks ≡ n
  unfolding finish_task
  finish_task-length t i n h g =
      let ((x, rest), e, m) = pick_inside i t.tasks n h g in
      rw (e, finish_task, (run_task-Settles k (record t { tasks = rest }) x).tasks_kept) m

  finish_all-length :
      (t : Thread W) (waited : List ℕ) (n : ℕ)
      → length t.tasks ≡ n
      → Empties waited n
      → length (finish_all k t waited).tasks ≡ 0
  unfolding finish_all
  finish_all-length t [] zero h g = h
  finish_all-length t [] (suc n) h g = absurd g
  finish_all-length t (i ∷ is) zero h g = absurd g
  finish_all-length t (i ∷ is) (suc n) h g =
      finish_all-length (finish_task k t i) is n (finish_task-length t i n h g.0) g.1

  -- From settled accounts, over any history of calls and of tasks that finish: the counter of requests
  -- in flight is the number of queued tasks, and every operation was submitted as often as it was
  -- completed from a task or still waits in the queue.
  pub run_actions-Settled :
      (t : Thread W) (acts : List Action) → Settled t → Settled (run_actions t acts)
  run_actions-Settled t [] v = v
  run_actions-Settled t (calls op fresh c ∷ acts) v =
      run_actions-Settled (call k t op fresh c).1 acts (call-Settled k t op fresh c v)
  run_actions-Settled t (finishes i ∷ acts) v =
      run_actions-Settled (finish_task k t i) acts (finish_task-Settled t i v)

  stopped-Settled : (t : Thread W) → Settled t → Settled (record t { running = false })
  stopped-Settled t v = record { in_flight = v.in_flight; balance = λ op. v.balance op }

  emptied :
      (t : Thread W)
      → Settled t
      → length t.tasks ≡ 0
      → (op : ℕ) → submits op t.ledger.events ≡ settles op t.ledger.events
  emptied t v h op = no_tasks t.tasks h (v.balance op)
    where
      no_tasks : {a b : ℕ} (xs : List Task) → length xs ≡ 0 → a ≡ b + queued op xs → a ≡ b
      no_tasks [] h e = omega (arith, e)
      no_tasks (x ∷ xs) h e = omega (arith, h)

  -- Closing a running file with settled accounts, whatever tasks finish before the wait ends: the
  -- accounts are settled after it, the file runs no more, and its descriptor is the invalid one if
  -- the file owned it and unchanged if not.
  pub close_impl-Settled :
      (t : Thread W) (waited : List ℕ)
      → Settled t
      → t.running ≡ true
      → Settled (close_impl k t waited)
        × ((close_impl k t waited).running ≡ false)
        × ((close_impl k t waited).fd ≡ (if t.owns_fd then file_invalid else t.fd))
  unfolding close_impl
  close_impl-Settled t waited v r =
      let w = finish_all-Settled (record t { running = false }) waited (stopped-Settled t v) in
      let (same_ledger, same_tasks, same_running, shut) =
        close_fd_lem (finish_all k (record t { running = false }) waited) in
      let (still, owner, open_fd) = finish_all-Kept (record t { running = false }) waited in
      rw r (
        record {
          in_flight = rw (same_ledger, same_tasks) (w.in_flight);
          balance = λ op. rw (same_ledger, same_tasks) (w.balance op);
        },
        same_running ∙ still,
        rw (shut, owner, open_fd),
      )

  -- Closing a running file with settled accounts, when all tasks of the queue finish before the wait
  -- ends, in whatever order: no request is in flight, no task waits, and every operation that was
  -- submitted was completed from its task, as often.
  pub close_impl-emptied :
      (t : Thread W) (waited : List ℕ)
      → Settled t
      → t.running ≡ true
      → Empties waited (length t.tasks)
      → let u = close_impl k t waited in
        (u.ledger.pending ≡ pos 0)
        × (length u.tasks ≡ 0)
        × ((op : ℕ) → submits op u.ledger.events ≡ settles op u.ledger.events)
  unfolding close_impl
  close_impl-emptied t waited v r g =
      let u = finish_all k (record t { running = false }) waited in
      let w = finish_all-Settled (record t { running = false }) waited (stopped-Settled t v) in
      let (same_ledger, same_tasks, same_running, shut) = close_fd_lem u in
      let none_left =
        finish_all-length (record t { running = false }) waited (length t.tasks) refl g in
      rw r (
        rw same_ledger (w.in_flight ∙ ap pos none_left),
        rw same_tasks none_left,
        λ op. rw same_ledger (emptied u w none_left op),
      )

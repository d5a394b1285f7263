-- ===== src/Core/Pool/Fifo.antt =====
-- In which order the pool of src/core/global_thread_pool.cpp runs its tasks.
use ayafileio.Base.{
  ℕ, zero, suc, ◌≡◌, ◌∙◌, sym, refl, ap, Bool, true, List, [], ◌∷◌, ◌++◌, append-nil, append_assoc,
  ltb, ◌==◌, if◌then◌else◌, if-elim, Option-cases, none, inl, inr,
}
use ayafileio.Core.Pool.{
  Pool, target_load, target_store, ensure_started, target_begin, target_end, enqueue,
  worker_retire_due, worker_take, take_tasks, worker_mark_exit, exit_all, shutdown, Step, starts,
  targets, enqueues, stores, checks_late, checks, takes, shuts_down, step, run_steps,
}

-- The tasks taken, the oldest first.
abbrev pub oldest_first : List ℕ → List ℕ
oldest_first [] = []
oldest_first (x ∷ xs) = oldest_first xs ++ x ∷ []

abbrev pub in_order : Pool → List ℕ
in_order p = oldest_first p.taken ++ p.tasks

abbrev pub enqueued : List Step → List ℕ
enqueued [] = []
enqueued (enqueues task ∷ ss) = task ∷ enqueued ss
enqueued (_ ∷ ss) = enqueued ss

worker_take-in_order : (p : Pool) → in_order (worker_take p) ≡ in_order p
unfolding worker_take
worker_take-in_order p = go p.tasks
  where
    go :
        (ts : List ℕ)
        → in_order (worker_take (record p { tasks = ts })) ≡ oldest_first p.taken ++ ts
    go [] = refl
    go (t ∷ ts) = append_assoc (oldest_first p.taken) (t ∷ []) ts

take_tasks-in_order : (n : ℕ) (p : Pool) → in_order (take_tasks n p) ≡ in_order p
take_tasks-in_order zero p = refl
take_tasks-in_order (suc n) p = take_tasks-in_order n (worker_take p) ∙ worker_take-in_order p

exit_all-in_order : (n : ℕ) (p : Pool) → in_order (exit_all n p) ≡ in_order p
unfolding worker_mark_exit
exit_all-in_order zero p = refl
exit_all-in_order (suc n) p = exit_all-in_order n (worker_mark_exit p)

abbrev pub added : Step → List ℕ
added (enqueues task) = task ∷ []
added _ = []

enqueued-cons : (s : Step) (ss : List Step) → added s ++ enqueued ss ≡ enqueued (s ∷ ss)
enqueued-cons (starts n) ss = refl
enqueued-cons (targets n) ss = refl
enqueued-cons (enqueues task) ss = refl
enqueued-cons checks ss = refl
enqueued-cons stores ss = refl
enqueued-cons (checks_late want) ss = refl
enqueued-cons takes ss = refl
enqueued-cons (shuts_down late) ss = refl

nothing_added : (p q : Pool) → in_order q ≡ in_order p → in_order q ≡ in_order p ++ []
nothing_added p q e = e ∙ sym (append-nil (in_order p))

started-in_order : (p : Pool) (n : ℕ) → in_order (ensure_started p n) ≡ in_order p
unfolding ensure_started
started-in_order p n =
    if-elim {A = Pool} (λ q. in_order q ≡ in_order p) (ltb 0 p.running) refl
      (if-elim {A = Pool} (λ q. in_order q ≡ in_order p) (ltb 0 p.threads) refl refl)

loaded-in_order : (p : Pool) (n : ℕ) → in_order (target_load p n) ≡ in_order p
unfolding target_load target_begin
loaded-in_order p n = elim (Option-cases p.growing) [
  | inr (g, e) ↦ rw (e, target_load) refl
  | inl e ↦
      rw (e, target_load)
        (if-elim {A = Pool} (λ q. in_order q ≡ in_order p) (p.threads == 0) refl refl)
]

stored-in_order : (p : Pool) → in_order (target_store p) ≡ in_order p
unfolding target_store target_end
stored-in_order p = elim (Option-cases p.growing) [
  | inl e ↦ rw (e, target_store) refl
  | inr ((n, cur), e) ↦
      rw (e, target_store)
        (if-elim {A = Pool} (λ q. in_order (record q { growing = none }) ≡ in_order p)
          (ltb cur (if n == 0 then 1 else n)) refl refl)
]

retired-in_order : (p : Pool) (want : ℕ) → in_order (worker_retire_due p want).1 ≡ in_order p
unfolding worker_retire_due
retired-in_order p want =
    if-elim {A = Bool × Pool} (λ r. in_order r.1 ≡ in_order p) (ltb want p.running) refl refl

step-in_order : (p : Pool) (s : Step) → in_order (step p s) ≡ in_order p ++ added s
unfolding step enqueue shutdown
step-in_order p (starts n) = nothing_added p (step p (starts n)) (elim (Option-cases p.growing) [
  | inl e ↦ rw (e, step) (started-in_order p n)
  | inr (g, e) ↦ rw (e, step) refl
])
step-in_order p (targets n) = nothing_added p (target_load p n) (loaded-in_order p n)
step-in_order p stores = nothing_added p (target_store p) (stored-in_order p)
step-in_order p checks =
    nothing_added p (worker_retire_due p p.target).1 (retired-in_order p p.target)
step-in_order p (checks_late want) =
    nothing_added p (worker_retire_due p want).1 (retired-in_order p want)
step-in_order p (enqueues task) = sym (append_assoc (oldest_first p.taken) p.tasks (task ∷ []))
step-in_order p takes =
    nothing_added p (step p takes) (
      if-elim {A = Pool} (λ q. in_order q ≡ in_order p) (p.live == 0) refl (worker_take-in_order p))
step-in_order p (shuts_down late) = nothing_added p (shutdown p late) (
    if-elim {A = Pool} (λ q. in_order q ≡ in_order p) (p.running == 0) refl
      (exit_all-in_order p.live (take_tasks late (record p { running = 0; stop = true }))
        ∙ take_tasks-in_order late (record p { running = 0; stop = true })))

-- Whatever happens to a pool, in any order, its workers take the tasks in the order in which they were
-- enqueued, each once: those taken, followed by those in the queue, are those at the start followed by
-- those enqueued since. A shutdown loses none, but leaves in the queue what no worker took.
pub run_steps-in_order :
    (p : Pool) (ss : List Step) → in_order (run_steps p ss) ≡ in_order p ++ enqueued ss
unfolding run_steps
run_steps-in_order p [] = sym (append-nil (in_order p))
run_steps-in_order p (s ∷ ss) =
    run_steps-in_order (step p s) ss
    ∙ rw (step-in_order p s) (
        append_assoc (in_order p) (added s) (enqueued ss)
        ∙ ap (λ xs. in_order p ++ xs) (enqueued-cons s ss))

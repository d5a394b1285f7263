-- ===== src/Backend/Gcd/Completed.antt =====
-- Each call on a file of src/backend/macos/macos_gcd_backend.cpp is answered once, however its tasks,
-- its chunks and its transfers end.
use ayafileio.Base.{
  ℕ, zero, suc, ◌+◌, ◌≡◌, refl, not, List, [], ◌∷◌, ◌++◌, Option, none, some, ◌==◌, if◌then◌else◌,
  if-elim, Option-cases, inl, inr, length, count, arith, pos, ◌-ℤ◌,
}
use ayafileio.Core.Result.{IoError}
use ayafileio.Core.Completion.{Completion, completions}
use ayafileio.Core.Request.{IoRequest}
use ayafileio.Core.Backend.{Ledger, complete_ok, complete_error}
use ayafileio.Platform.NativeFile.{Kernel, Sys, returned, failed}
use ayafileio.Backend.Gcd.{
  GcdFile, Flight, Group, Block, fast, parallel, channel_read, channel_write, Happening, task_ends,
  chunk_ends, handler_runs, happen, end_chunk, finish_group, finish_task, group_step, read_block,
  write_block, take_chunk,
}
use ayafileio.Backend.Gcd.Methods.{pick, left, step, steps, inline}

abbrev pub operation_of : Flight → ℕ
operation_of (fast r) = r.operation
operation_of (parallel g) = g.request.operation
operation_of (channel_read r total) = r.operation
operation_of (channel_write r size) = r.operation

abbrev pub flying : ℕ → List Flight → ℕ
flying op [] = 0
flying op (x ∷ xs) = (if operation_of x == op then 1 else 0) + flying op xs

pub flying_append :
    (op : ℕ) (xs : List Flight) (f : Flight)
    → flying op (xs ++ f ∷ []) ≡ (if operation_of f == op then 1 else 0) + flying op xs
flying_append op [] f = omega arith
flying_append op (x ∷ xs) f = omega (arith, flying_append op xs f)

-- For the operations of the calls that returned: each was completed or is in flight, as often as it
-- was passed to a call; and the counter is the number of entries in flight.
pub record Settled {W : Type 0} (t : GcdFile W) (accepted : List ℕ) : Type 0 where
  pub counted : t.ledger.pending ≡ pos (length t.in_flight)
  pub balance :
      (op : ℕ) → completions op t.ledger.events + flying op t.in_flight ≡ count op accepted

-- What an entry turns into: it stays as it is, for the same operation, or is completed once.
data Turns (l : Ledger) (op : ℕ) : Option Flight × Ledger → Type 0 where
  stays : (f : Flight) → operation_of f ≡ op → Turns l op (some f, l)
  ends :
      (l' : Ledger)
      → l'.pending ≡ l.pending -ℤ pos 1
      → ((x : ℕ) → completions x l'.events ≡ (if op == x then 1 else 0) + completions x l.events)
      → Turns l op (none, l')

ok-Turns : (l : Ledger) (r : IoRequest) (n : ℕ) → Turns l r.operation (none, complete_ok l r n)
unfolding complete_ok
ok-Turns l r n = ends (complete_ok l r n) refl (λ x. refl)

error-Turns :
    (l : Ledger) (r : IoRequest) (e : IoError) → Turns l r.operation (none, complete_error l r e)
unfolding complete_error
error-Turns l r e = ends (complete_error l r e) refl (λ x. refl)

task-Turns : (l : Ledger) (r : IoRequest) (s : Sys) → Turns l r.operation (none, finish_task l r s)
task-Turns l r (returned n) = ok-Turns l r n
task-Turns l r (failed e) = error-Turns l r _

finish_group-Turns : (l : Ledger) (g : Group) → Turns l g.request.operation (none, finish_group l g)
finish_group-Turns l g =
    if-elim {A = Ledger} (λ x. Turns l g.request.operation (none, x)) (g.first_errno == 0)
      (ok-Turns l g.request g.copied) (error-Turns l g.request _)

group-Turns :
    (l : Ledger) (g : Group) (s : Sys) (o : Option ((ℕ × ℕ) × List (ℕ × ℕ)))
    → Turns l g.request.operation (group_step l g s o)
unfolding end_chunk
group-Turns l g s none = stays (parallel g) refl
group-Turns l g (returned n) (some (c, rest)) =
    if-elim {A = Option Flight × Ledger} (Turns l g.request.operation) (g.remaining == 1)
      (finish_group-Turns l (end_chunk g rest (returned n)).1) (stays _ refl)
group-Turns l g (failed e) (some (c, rest)) =
    if-elim {A = Option Flight × Ledger} (Turns l g.request.operation) (g.remaining == 1)
      (finish_group-Turns l (end_chunk g rest (failed e)).1) (stays _ refl)

read_block-Turns :
    (l : Ledger) (r : IoRequest) (total : ℕ) (b : Block)
    → Turns l r.operation (read_block l r total b)
read_block-Turns l r total b =
    if-elim {A = Option Flight × Ledger} (Turns l r.operation) (not (b.error == 0))
      (error-Turns l r _)
      (if-elim {A = Option Flight × Ledger} (Turns l r.operation) b.done (ok-Turns l r _)
        (stays _ refl))

write_block-Turns :
    (l : Ledger) (r : IoRequest) (size : ℕ) (b : Block)
    → Turns l r.operation (write_block l r size b)
write_block-Turns l r size b =
    if-elim {A = Option Flight × Ledger} (Turns l r.operation) (not (b.error == 0))
      (error-Turns l r _)
      (if-elim {A = Option Flight × Ledger} (Turns l r.operation) b.done (ok-Turns l r size)
        (stays _ refl))

happen-Turns : (l : Ledger) (f : Flight) (h : Happening) → Turns l (operation_of f) (happen l f h)
unfolding happen
happen-Turns l (fast r) (task_ends s) = task-Turns l r s
happen-Turns l (fast r) (chunk_ends i s) = stays (fast r) refl
happen-Turns l (fast r) (handler_runs b) = stays (fast r) refl
happen-Turns l (parallel g) (task_ends s) = stays (parallel g) refl
happen-Turns l (parallel g) (chunk_ends i s) = group-Turns l g s (take_chunk i g.chunks)
happen-Turns l (parallel g) (handler_runs b) = stays (parallel g) refl
happen-Turns l (channel_read r total) (task_ends s) = stays (channel_read r total) refl
happen-Turns l (channel_read r total) (chunk_ends i s) = stays (channel_read r total) refl
happen-Turns l (channel_read r total) (handler_runs b) = read_block-Turns l r total b
happen-Turns l (channel_write r size) (task_ends s) = stays (channel_write r size) refl
happen-Turns l (channel_write r size) (chunk_ends i s) = stays (channel_write r size) refl
happen-Turns l (channel_write r size) (handler_runs b) = write_block-Turns l r size b

module _ {W : Type 0} (k : Kernel W) where
  picked :
      (i : ℕ) (xs : List Flight) (y : Flight) (ys : List Flight)
      → pick k i xs ≡ some (y, ys)
      → (length xs ≡ suc (length ys))
        × ((op : ℕ) → flying op xs ≡ (if operation_of y == op then 1 else 0) + flying op ys)
  picked i [] y ys h = ground arith
  picked zero (x ∷ xs) y ys h = (ground arith, λ op. ground arith)
  picked (suc i) (x ∷ xs) y ys h = elim (Option-cases (pick k i xs)) [
    | inl e ↦ ground arith
    | inr ((z, zs), e) ↦
        (ground (arith, (picked i xs z zs e).0), λ op. ground (arith, (picked i xs z zs e).1 op))
  ]

  pub inline-Settled :
      (t : GcdFile W) (op : ℕ) (c : Completion) (acc : List ℕ)
      → Settled t acc
      → Settled (inline k t op c) (op ∷ acc)
  inline-Settled t op c acc v = record {
    counted = v.counted;
    balance = λ x. omega (arith, v.balance x);
  }

  turned-Settled :
      (t : GcdFile W) (i : ℕ) (f : Flight) (rest : List Flight) (r : Option Flight × Ledger)
      (acc : List ℕ)
      → pick k i t.in_flight ≡ some (f, rest)
      → Turns t.ledger (operation_of f) r
      → Settled t acc
      → Settled (record t { in_flight = left k r.0 rest; ledger = r.1 }) acc
  unfolding ◌-ℤ◌
  turned-Settled t i f rest r acc e (stays g same) v =
      let p = picked i t.in_flight f rest e in
      record {
        counted = rw (v.counted, p.0) refl;
        balance = λ op. rw same (omega (arith, v.balance op, p.1 op));
      }
  turned-Settled t i f rest r acc e (ends l less once) v =
      let p = picked i t.in_flight f rest e in
      record {
        counted = rw (less, v.counted, p.0) (ground arith);
        balance = λ op. omega (arith, once op, v.balance op, p.1 op);
      }

  pub step-Settled :
      (t : GcdFile W) (i : ℕ) (h : Happening) (acc : List ℕ)
      → Settled t acc
      → Settled (step k t i h) acc
  unfolding step
  step-Settled t i h acc v = elim (Option-cases (pick k i t.in_flight)) [
    | inl e ↦ rw (e, step) v
    | inr ((f, rest), e) ↦
        rw (e, step)
          (turned-Settled t i f rest (happen t.ledger f h) acc e (happen-Turns t.ledger f h) v)
  ]

  pub steps-Settled :
      (t : GcdFile W) (hs : List (ℕ × Happening)) (acc : List ℕ)
      → Settled t acc
      → Settled (steps k t hs) acc
  unfolding steps
  steps-Settled t [] acc v = v
  steps-Settled t ((i, h) ∷ hs) acc v =
      steps-Settled (step k t i h) hs acc (step-Settled t i h acc v)

-- ===== src/Backend/Uring/File/Settled.antt =====
-- Each call on a file of src/backend/linux/io_uring_backend.cpp is answered once, however its requests
-- finish: while a later call submits, on the reaper's thread, or while the file is closed.
use ayafileio.Base.{
  ℕ, zero, suc, ◌+◌, ◌≡◌, refl, not, ◌||◌, List, [], ◌∷◌, ◌++◌, some, ◌==◌, if◌then◌else◌, if-elim,
  Option-cases, inl, inr, length, length-append, count, arith, ℤ, pos, negsuc, ◌+ℤ◌, ◌-ℤ◌,
}
use ayafileio.Core.Result.{IoError, native_error}
use ayafileio.Core.FileState.{FileState}
use ayafileio.Core.Completion.{Completion, completions}
use ayafileio.Core.Request.{IoRequest}
use ayafileio.Core.Backend.{Ledger, complete_ok, complete_error, complete_inline}
use ayafileio.Platform.NativeFile.{Kernel}
use ayafileio.Backend.Uring.File.{
  Flight, UringFile, Env, pick, valid_op, inline, harvest_one, try_harvest_inline, reaped, reap,
  submit_io, start,
}

-- How many requests of an operation are in flight.
abbrev pub flying : ℕ → List Flight → ℕ
flying op [] = 0
flying op (x ∷ xs) = (if x.request.operation == op then 1 else 0) + flying op xs

flying-append : (op : ℕ) (xs ys : List Flight) → flying op (xs ++ ys) ≡ flying op xs + flying op ys
flying-append op [] ys = omega arith
flying-append op (x ∷ xs) ys = omega (arith, flying-append op xs ys)

-- For the operations of the calls that returned: each was completed or has a request in flight, as
-- often as it was passed to a call; and the counter is the number of requests in flight.
pub record Settled {W : Type 0} (t : UringFile W) (accepted : List ℕ) : Type 0 where
  pub counted : t.ledger.pending ≡ pos (length t.in_flight)
  pub balance :
      (op : ℕ) → completions op t.ledger.events + flying op t.in_flight ≡ count op accepted

-- A request that left the ring and was completed.
record Completes (l : Ledger) (op : ℕ) (l' : Ledger) : Type 0 where
  one_less : l'.pending ≡ l.pending -ℤ pos 1
  once : (x : ℕ) → completions x l'.events ≡ (if op == x then 1 else 0) + completions x l.events

complete_inline-Completes :
    (l : Ledger) (r : IoRequest) (result : ℤ) → Completes l r.operation (complete_inline l r result)
unfolding complete_inline
complete_inline-Completes l r result = record { one_less = refl; once = λ x. refl }

complete_error-Completes :
    (l : Ledger) (r : IoRequest) (e : IoError) → Completes l r.operation (complete_error l r e)
unfolding complete_error
complete_error-Completes l r e = record { one_less = refl; once = λ x. refl }

reaped-Completes :
    {W : Type 0} (k : Kernel W) (l : Ledger) (r : IoRequest) (result : ℤ)
    → Completes l r.operation (reaped k l r result)
unfolding complete_ok complete_error
reaped-Completes k l r (pos n) = record { one_less = refl; once = λ x. refl }
reaped-Completes k l r (negsuc n) = record { one_less = refl; once = λ x. refl }

pick_lem :
    (i : ℕ) (xs : List Flight) (y : Flight) (ys : List Flight)
    → pick i xs ≡ some (y, ys)
    → (length xs ≡ suc (length ys))
      × ((op : ℕ) → flying op xs ≡ (if y.request.operation == op then 1 else 0) + flying op ys)
pick_lem i [] y ys h = ground arith
pick_lem zero (x ∷ xs) y ys h = (ground arith, λ op. ground arith)
pick_lem (suc i) (x ∷ xs) y ys h = elim (Option-cases (pick i xs)) [
  | inl e ↦ ground arith
  | inr ((z, zs), e) ↦
      (ground (arith, pick_lem i xs z zs e), λ op. ground (arith, (pick_lem i xs z zs e).1 op))
]

module _ {W : Type 0} (k : Kernel W) where
  pub inline-Settled :
      (t : UringFile W) (op : ℕ) (c : Completion) (acc : List ℕ)
      → Settled t acc
      → Settled (inline k t op c) (op ∷ acc)
  inline-Settled t op c acc v = record {
    counted = v.counted;
    balance = λ x. omega (arith, v.balance x);
  }

  -- A request that is picked from those in flight and completed.
  landed-Settled :
      (t : UringFile W) (i : ℕ) (x : Flight) (rest : List Flight) (l : Ledger) (acc : List ℕ)
      → pick i t.in_flight ≡ some (x, rest)
      → Completes t.ledger x.request.operation l
      → Settled t acc
      → Settled (record t { in_flight = rest; ledger = l }) acc
  unfolding ◌-ℤ◌
  landed-Settled t i x rest l acc e c v =
      let (n, q) = pick_lem i t.in_flight x rest e in
      record {
        counted = rw (c.one_less, v.counted, n) (ground arith);
        balance = λ op. omega (arith, c.once op, v.balance op, q op);
      }

  harvest_one-Settled :
      (t : UringFile W) (i : ℕ) (result : ℤ) (acc : List ℕ)
      → Settled t acc
      → Settled (harvest_one k t i result) acc
  unfolding harvest_one
  harvest_one-Settled t i result acc v = elim (Option-cases (pick i t.in_flight)) [
    | inl e ↦ rw (e, harvest_one) v
    | inr ((x, rest), e) ↦
        rw (e, harvest_one)
          (landed-Settled t i x rest _ acc e (complete_inline-Completes t.ledger x.request result)
            v)
  ]

  pub reap-Settled :
      (t : UringFile W) (i : ℕ) (result : ℤ) (acc : List ℕ)
      → Settled t acc
      → Settled (reap k t i result) acc
  unfolding reap
  reap-Settled t i result acc v = elim (Option-cases (pick i t.in_flight)) [
    | inl e ↦ rw (e, reap) v
    | inr ((x, rest), e) ↦
        rw (e, reap)
          (landed-Settled t i x rest _ acc e (reaped-Completes k t.ledger x.request result) v)
  ]

  try_harvest-Settled :
      (t : UringFile W) (hs : List (ℕ × ℤ)) (acc : List ℕ)
      → Settled t acc
      → Settled (try_harvest_inline k t hs) acc
  unfolding try_harvest_inline
  try_harvest-Settled t [] acc v = v
  try_harvest-Settled t ((i, result) ∷ hs) acc v =
      try_harvest-Settled (harvest_one k t i result) hs acc (harvest_one-Settled t i result acc v)

  -- A request made on a ledger with no completion, and submitted.
  pub start-Settled :
      (t : UringFile W) (l : Ledger) (state : FileState) (x : Flight) (env : Env) (acc : List ℕ)
      → l.pending ≡ t.ledger.pending
      → ((op : ℕ) → completions op l.events ≡ completions op t.ledger.events)
      → Settled t acc
      → Settled (start k t l state x env) (x.request.operation ∷ acc)
  unfolding submit_io ◌+ℤ◌ ◌-ℤ◌
  start-Settled t l state x env acc e f v =
      let l' = record l { pending = l.pending +ℤ pos 1 } in
      if-elim {A = UringFile W} (λ u. Settled u (x.request.operation ∷ acc))
        (not t.has_ring || not (valid_op x.op))
        (let c =
            complete_error-Completes l' x.request (native_error 22 "Invalid io_uring operation") in
          record {
            counted = rw (c.one_less, e, v.counted) (ground arith);
            balance = λ op. omega (arith, c.once op, f op, v.balance op);
          })
        (try_harvest-Settled
          (record t { state = state; ledger = l'; in_flight = t.in_flight ++ x ∷ [] }) env.harvest
          (x.request.operation ∷ acc)
          (record {
            counted = rw (e, v.counted, length-append t.in_flight (x ∷ [])) (ground arith);
            balance =
                λ op. omega (arith, f op, v.balance op, flying-append op t.in_flight (x ∷ []));
          }))

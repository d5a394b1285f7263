-- ===== src/Backend/Iocp/Quarantine/Laws.antt =====
-- What the quarantine of src/backend/windows/iocp_worker.cpp gives back and when, and that memory is
-- given back once.
use ayafileio.Base.{
  ◌%◌, ◌^◌, ℕ, ◌+◌, ◌-◌, ◌*◌, ◌≤◌, ◌≡◌, refl, Bool, true, false, not, List, [], ◌∷◌, ◌==◌,
  Bool-cases, inl, inr, length, keep_if, All, arith,
}
use ayafileio.Core.Request.{Memory}
use ayafileio.Backend.Iocp.{QuarantineEntry, Thread, QuarantineStats, iocp_req_free_impl}
use ayafileio.Backend.Iocp.Quarantine.{
  ms, expired, drain_loop, quarantine_drain, quarantine_timeout,
}

-- Pushed at times that do not decrease, as a steady clock gives them.
abbrev pub InOrder : List QuarantineEntry → Type 0
InOrder [] = Unit
InOrder (e ∷ es) = All (λ x. e.when ≤ x.when) es × InOrder es

abbrev pub free_all : List QuarantineEntry → Memory → Memory
free_all [] m = m
free_all (e ∷ es) m = free_all es (iocp_req_free_impl m e.request)

abbrev pub waiting : ℕ → QuarantineEntry → Bool
waiting now e = not (expired now e)

-- Behind an entry that is not due, none is.
not-due :
    (now : ℕ) (e : QuarantineEntry) (es : List QuarantineEntry)
    → expired now e ≡ false
    → All (λ x. e.when ≤ x.when) es
    → (keep_if (expired now) es ≡ []) × (keep_if (waiting now) es ≡ es)
not-due now e [] h a = (refl, refl)
not-due now e (x ∷ xs) h a =
    let rest = not-due now e xs h a.1 in
    let young : expired now x ≡ false = ground (arith, a.0) in
    (rw (young, rest.0) refl, rw (young, rest.1) refl)

drain_loop_lem :
    (now : ℕ) (es : List QuarantineEntry) (t : Thread) (count : ℕ)
    → InOrder es
    → drain_loop now es t count ≡ (
      record {
        memory = free_all (keep_if (expired now) es) t.memory;
        quarantine = keep_if (waiting now) es;
      },
      count + length (keep_if (expired now) es),
    )
unfolding drain_loop
drain_loop_lem now [] t count o = ground arith
drain_loop_lem now (e ∷ es) t count o = elim (Bool-cases (expired now e)) [
  | inl h ↦
      rw
        (
          h,
          drain_loop_lem now es (record t { memory = iocp_req_free_impl t.memory e.request })
              (count + 1) o.1,
        )
        (ground arith)
  | inr h ↦ ground (arith, (not-due now e es h o.0).0, (not-due now e es h o.0).1)
]

-- For a queue in the order of its times, a drain gives back the memory of exactly the entries that
-- are a second old, the oldest first, keeps exactly the others, in their order, and counts what it
-- gave back, modulo 2^64.
pub quarantine_drain_lem :
    (now : ℕ) (t : Thread) (s : QuarantineStats)
    → InOrder t.quarantine
    → let due = keep_if (expired now) t.quarantine in
      quarantine_drain now (t, s) ≡ (
        record { memory = free_all due t.memory; quarantine = keep_if (waiting now) t.quarantine },
        record s {
          live = (s.live + 2 ^ 64 - length due % 2 ^ 64) % 2 ^ 64;
          scanned = (s.scanned + length due) % 2 ^ 64;
          drains = (s.drains + 1) % 2 ^ 64;
        },
      )
unfolding quarantine_drain
quarantine_drain_lem now t s o = rw (drain_loop_lem now t.quarantine t 0 o) (ground arith)

-- For an entry at the front of the queue that was pushed at or before `now`, the time to wait is 0
-- exactly where the entry is due, it is never more than 1001 ms, and after it the entry is due.
pub quarantine_timeout_lem :
    (now : ℕ) (e : QuarantineEntry) (es : List QuarantineEntry)
    → e.when ≤ now
    → let wait = quarantine_timeout now (e ∷ es) in
      ((wait == 0) ≡ expired now e) × (wait ≤ 1001) × (expired (now + wait * ms) e ≡ true)
unfolding quarantine_timeout
quarantine_timeout_lem now e es h = (ground arith, ground arith, ground arith)

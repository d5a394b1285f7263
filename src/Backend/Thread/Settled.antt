-- ===== src/Backend/Thread/Settled.antt =====
-- Every operation that a call submits is completed once: the accounts of a file at any time.
use ayafileio.Base.{
  ℕ, ◌+◌, ◌-◌, ◌^◌, ◌≡◌, refl, Bool, not, ◌&&◌, ◌||◌, List, [], ◌∷◌, ◌++◌, ltb, ◌==◌, if◌then◌else◌,
  length, length-append, ℤ, pos, ltb_ℤ, ◌+ℤ◌, arith, inl, inr, Option-cases, Bool-cases, if-elim,
  to_u64, to_i64,
}
use ayafileio.Core.Result.{Result, ok, throws}
use ayafileio.Core.FileState.{FileState, ReadPlan, plan_read, reserve_write}
use ayafileio.Core.Buffer.{Buffer, is_set}
use ayafileio.Core.Completion.{Completion, Event, submitted, completes, completes_inline}
use ayafileio.Core.Lifecycle.{truncate_guard}
use ayafileio.Core.Backend.{
  Ledger, make_shell, make_req_read_bytes, make_req_held_write, make_req_readinto,
}
use ayafileio.Platform.NativeFile.{Kernel, Os, file_is_append, file_fsync, file_truncate}
use ayafileio.Backend.Thread.{
  refresh_size, Thread, Task, inline, enqueue, pread_task, pwrite_task, closed, start_read,
  read_file, read_at, write_file, seek_file, flush_file, tell_file, truncate_file, readinto_file,
}

-- How often an operation was submitted and settled later, and how often it is in the queue.
abbrev pub submits : ℕ → List Event → ℕ
submits op [] = 0
submits op (submitted x ∷ es) = (if x == op then 1 else 0) + submits op es
submits op (completes x c ∷ es) = submits op es
submits op (completes_inline x c ∷ es) = submits op es

abbrev pub settles : ℕ → List Event → ℕ
settles op [] = 0
settles op (submitted x ∷ es) = settles op es
settles op (completes x c ∷ es) = (if x == op then 1 else 0) + settles op es
settles op (completes_inline x c ∷ es) = settles op es

abbrev pub operation_of : Task → ℕ
operation_of (pread_task r offset size) = r.operation
operation_of (pwrite_task r offset size) = r.operation

abbrev pub queued : ℕ → List Task → ℕ
queued op [] = 0
queued op (x ∷ xs) = (if operation_of x == op then 1 else 0) + queued op xs

queued-append : (op : ℕ) (xs ys : List Task) → queued op (xs ++ ys) ≡ queued op xs + queued op ys
queued-append op [] ys = omega arith
queued-append op (x ∷ xs) ys = omega (arith, queued-append op xs ys)

-- The counter of requests in flight is the length of the queue, and each operation was submitted as
-- often as it was settled or still waits.
pub record Settled {W : Type 0} (t : Thread W) : Type 0 where
  pub in_flight : t.ledger.pending ≡ pos (length t.tasks)
  pub balance :
      (op : ℕ) → submits op t.ledger.events ≡ settles op t.ledger.events + queued op t.tasks

pub data Call : Type 0 where
  reads : ℤ → Result Buffer → Call
  reads_at : (offset size : ℤ) → Result Buffer → Call
  writes : Buffer → ℤ → Call
  seeks : (offset whence : ℤ) → Call
  flushes tells : Call
  truncates : ℤ → Call
  reads_into : Buffer → Call

module _ {W : Type 0} (k : Kernel W) where
  inline-Settled : (t : Thread W) (op : ℕ) (c : Completion) → Settled t → Settled (inline k t op c)
  inline-Settled t op c v = record { in_flight = v.in_flight; balance = λ x. v.balance x }

  -- The system's answer and the position do not enter the accounts.
  moved-Settled :
      (t : Thread W) (os : Os W) (state : FileState)
      → Settled t
      → Settled (record t { os = os; state = state })
  moved-Settled t os state v = record { in_flight = v.in_flight; balance = λ x. v.balance x }

  -- A ledger on which one operation was submitted, put in place with the task for it.
  enqueue-Settled :
      (t : Thread W) (l : Ledger) (state : FileState) (task : Task)
      → l.pending ≡ t.ledger.pending
      → l.events ≡ submitted (operation_of task) ∷ t.ledger.events
      → Settled t
      → Settled (enqueue k t l state task)
  unfolding ◌+ℤ◌
  enqueue-Settled t l state task e f v = record {
    in_flight = rw (e, v.in_flight, length-append t.tasks (task ∷ [])) (ground arith);
    balance = λ x. rw f (ground (arith, v.balance x, queued-append x t.tasks (task ∷ [])));
  }

  -- A call for an operation, with the address that a new request would get.
  unfoldable pub call : Thread W → ℕ → ℕ → Call → Result (Unit {0}) × Thread W
  call t op fresh (reads size buffer) = read_file k t size op buffer fresh
  call t op fresh (reads_at offset size buffer) = read_at k t offset size op buffer fresh
  call t op fresh (writes view position) = write_file k t view position op fresh
  call t op fresh (seeks offset whence) = (ok tt, seek_file k t offset whence op)
  call t op fresh flushes = (ok tt, flush_file k t op)
  call t op fresh tells = (ok tt, tell_file k t op)
  call t op fresh (truncates size) = (ok tt, truncate_file k t size op)
  call t op fresh (reads_into buffer) = (ok tt, readinto_file k t buffer op fresh)

  both-Settled :
      (b : Bool) (x y : Result (Unit {0}) × Thread W)
      → Settled x.1
      → Settled y.1
      → Settled (if b then x else y).1
  both-Settled b x y p q = if-elim {A = Result (Unit {0}) × Thread W} (λ r. Settled r.1) b p q

  start_read-Settled :
      (t : Thread W) (p : ReadPlan × FileState) (offset op : ℕ) (b : Result Buffer) (fresh : ℕ)
      → Settled t
      → Settled (start_read k t p offset op b fresh).1
  unfolding start_read make_req_read_bytes make_shell
  start_read-Settled t (plan, state) offset op (throws e) fresh v =
      both-Settled plan.eof _ _ (record { in_flight = v.in_flight; balance = λ x. v.balance x })
        (record { in_flight = v.in_flight; balance = λ x. v.balance x })
  start_read-Settled t (plan, state) offset op (ok b) fresh v =
      both-Settled plan.eof _ _ (record { in_flight = v.in_flight; balance = λ x. v.balance x })
        (elim (Bool-cases (is_set b)) [
          | inl e ↦ rw e (
              enqueue-Settled t (make_req_read_bytes t.ledger plan.size op (ok b) fresh).1 state
                (pread_task _ offset plan.size) (rw e) (rw e) v)
          | inr e ↦
              rw e (record { in_flight = rw e (v.in_flight); balance = λ x. rw e (v.balance x) })
        ])

  pub call-Settled :
      (t : Thread W) (op fresh : ℕ) (c : Call) → Settled t → Settled (call t op fresh c).1
  unfolding call read_file read_at write_file seek_file flush_file tell_file truncate_file
      readinto_file make_req_held_write make_req_readinto make_shell
  call-Settled t op fresh (reads size b) v =
      both-Settled (closed k t) _ _ (inline-Settled t op _ v)
        (start_read-Settled t _ _ op b fresh v)
  call-Settled t op fresh (reads_at offset size b) v =
      both-Settled (closed k t) _ _ (inline-Settled t op _ v) (
        both-Settled (ltb_ℤ offset (pos 0)) _ _ (inline-Settled t op _ v)
          (start_read-Settled t _ _ op b fresh v))
  call-Settled t op fresh (writes view position) v =
      both-Settled
        (not (ltb_ℤ position (pos 0)) && (t.state.append_mode || file_is_append k t.os t.fd)) _ _ v
        (both-Settled (ltb (2 ^ 32 - 1) view.size) _ _ v (
          both-Settled (closed k t) _ _ (inline-Settled t op _ v) (
            both-Settled (view.size == 0) _ _ (inline-Settled t op _ v) (
              enqueue-Settled t (make_req_held_write t.ledger view op fresh).1
                (reserve_write t.state position view.size).1
                (pwrite_task (make_req_held_write t.ledger view op fresh).0 _ _) refl refl v))))
  call-Settled t op fresh (seeks offset whence) v = inline-Settled _ op _ (moved-Settled t t.os _ v)
  call-Settled t op fresh flushes v = if-elim Settled (closed k t) (inline-Settled t op _ v) (
      if-elim Settled (not (file_fsync k t.os t.fd).0)
        (inline-Settled _ op _ (moved-Settled t _ t.state v))
        (inline-Settled _ op _ (moved-Settled t _ t.state v)))
  call-Settled t op fresh tells v = inline-Settled t op _ v
  call-Settled t op fresh (truncates size) v = elim (Option-cases (truncate_guard size)) [
    | inr (rejected, e) ↦ rw (e, truncate_file) (inline-Settled t op rejected v)
    | inl e ↦
        rw (e, truncate_file)
          (if-elim Settled (not (file_truncate k t.os t.fd (to_u64 size)).0)
            (inline-Settled _ op _ (moved-Settled t _ t.state v))
            (inline-Settled _ op _ (moved-Settled t _ _ v)))
  ]
  call-Settled t op fresh (reads_into buffer) v =
      let planned = plan_read t.state (to_i64 buffer.size) (refresh_size k t) in
      if-elim Settled (closed k t) (inline-Settled t op _ v) (
        if-elim Settled (buffer.size == 0) (inline-Settled t op _ v) (
          if-elim Settled (planned.0).eof (inline-Settled _ op _ (moved-Settled t t.os planned.1 v))
            (enqueue-Settled t (make_req_readinto t.ledger buffer (planned.0).size op fresh).1
              planned.1
              (pread_task (make_req_readinto t.ledger buffer (planned.0).size op fresh).0 _ _) refl
              refl v)))

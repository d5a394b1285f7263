-- ===== src/Backend/Thread/Answers.antt =====
-- Each call on a file of src/backend/thread/thread_io_backend.cpp is answered once: what it does to
-- the operation before it returns.
use ayafileio.Base.{
  arith, ℕ, ◌+◌, ◌-◌, ◌^◌, ◌≡◌, refl, not, ◌&&◌, ◌||◌, List, [], ◌∷◌, ltb, ◌==◌, if◌then◌else◌, pos,
  ltb_ℤ, to_u64, to_i64, inl, inr, Option-cases, Bool-cases, if-elim,
}
use ayafileio.Core.Result.{Result, ok, throws}
use ayafileio.Core.FileState.{FileState, ReadPlan, plan_read}
use ayafileio.Core.Buffer.{Buffer, is_set}
use ayafileio.Core.Completion.{Event, submitted, completes, completes_inline}
use ayafileio.Core.Lifecycle.{truncate_guard}
use ayafileio.Core.Backend.{make_shell, make_req_read_bytes, make_req_held_write, make_req_readinto}
use ayafileio.Platform.NativeFile.{Kernel, file_is_append, file_fsync, file_truncate}
use ayafileio.Backend.Thread.{
  refresh_size, Thread, closed, start_read, read_file, read_at, write_file, seek_file, flush_file,
  tell_file, truncate_file, readinto_file,
}
use ayafileio.Backend.Thread.Settled.{
  Call, reads, reads_at, writes, seeks, flushes, tells, truncates, reads_into, call,
}

-- How often an operation was submitted or completed inline.
abbrev pub starts : ℕ → List Event → ℕ
starts op [] = 0
starts op (submitted x ∷ es) = (if x == op then 1 else 0) + starts op es
starts op (completes x c ∷ es) = starts op es
starts op (completes_inline x c ∷ es) = (if x == op then 1 else 0) + starts op es

abbrev pub answers : Result (Unit {0}) → ℕ → ℕ → ℕ
answers (ok u) x op = if x == op then 1 else 0
answers (throws e) x op = 0

-- The call for `x`, as `op` sees it.
abbrev pub AnsweredOnce : {W : Type 0} → Thread W → ℕ → ℕ → Result (Unit {0}) × Thread W → Type 0
AnsweredOnce t x op r = starts op r.1.ledger.events ≡ answers r.0 x op + starts op t.ledger.events

module _ {W : Type 0} (k : Kernel W) where
  start_read-AnsweredOnce :
      (t : Thread W) (p : ReadPlan × FileState) (offset x op : ℕ) (b : Result Buffer) (fresh : ℕ)
      → AnsweredOnce t x op (start_read k t p offset x b fresh)
  unfolding start_read make_req_read_bytes make_shell
  start_read-AnsweredOnce t (plan, state) offset x op (throws e) fresh =
      if-elim (AnsweredOnce t x op) plan.eof refl (omega arith)
  start_read-AnsweredOnce t (plan, state) offset x op (ok b) fresh =
      if-elim (AnsweredOnce t x op) plan.eof refl
        (elim (Bool-cases (is_set b)) [ inl e ↦ rw e (rw e) | inr e ↦ rw e (rw e (omega arith)) ])

  -- A call that returns submits its operation or completes it inline, once in all, and does neither
  -- for another operation; a call that throws does neither for any operation.
  pub call-AnsweredOnce :
      (t : Thread W) (x op fresh : ℕ) (c : Call) → AnsweredOnce t x op (call k t x fresh c)
  unfolding call read_file read_at write_file seek_file flush_file tell_file truncate_file
      readinto_file make_req_held_write make_req_readinto make_shell
  call-AnsweredOnce t x op fresh (reads size b) =
      if-elim (AnsweredOnce t x op) (closed k t) refl (start_read-AnsweredOnce t _ _ x op b fresh)
  call-AnsweredOnce t x op fresh (reads_at offset size b) =
      if-elim (AnsweredOnce t x op) (closed k t) refl (
        if-elim (AnsweredOnce t x op) (ltb_ℤ offset (pos 0)) refl
          (start_read-AnsweredOnce t _ _ x op b fresh))
  call-AnsweredOnce t x op fresh (writes view position) =
      if-elim (AnsweredOnce t x op)
        (not (ltb_ℤ position (pos 0)) && (t.state.append_mode || file_is_append k t.os t.fd))
        (omega arith)
        (if-elim (AnsweredOnce t x op) (ltb (2 ^ 32 - 1) view.size) (omega arith) (
          if-elim (AnsweredOnce t x op) (closed k t) refl
            (if-elim (AnsweredOnce t x op) (view.size == 0) refl refl)))
  call-AnsweredOnce t x op fresh (seeks offset whence) = refl
  call-AnsweredOnce t x op fresh flushes =
      if-elim (λ u. AnsweredOnce t x op (ok tt, u)) (closed k t) refl
        (if-elim (λ u. AnsweredOnce t x op (ok tt, u)) (not (file_fsync k t.os t.fd).0) refl refl)
  call-AnsweredOnce t x op fresh tells = refl
  call-AnsweredOnce t x op fresh (truncates size) = elim (Option-cases (truncate_guard size)) [
    | inr (rejected, e) ↦ rw (e, truncate_file)
    | inl e ↦
        rw (e, truncate_file)
          (if-elim (λ u. AnsweredOnce t x op (ok tt, u))
            (not (file_truncate k t.os t.fd (to_u64 size)).0) refl refl)
  ]
  call-AnsweredOnce t x op fresh (reads_into buffer) =
      if-elim (λ u. AnsweredOnce t x op (ok tt, u)) (closed k t) refl
        (if-elim (λ u. AnsweredOnce t x op (ok tt, u)) (buffer.size == 0) refl
          (if-elim (λ u. AnsweredOnce t x op (ok tt, u))
            ((plan_read t.state (to_i64 buffer.size) (refresh_size k t)).0).eof refl refl))

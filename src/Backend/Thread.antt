-- ===== src/Backend/Thread.antt =====
-- src/backend/thread/thread_io_backend.cpp, the POSIX branch: a file whose reads and writes run as
-- tasks of the thread pool. A method is one step on the backend; a task is one step too, and any
-- queued task may be the next to finish. The queue is the part of the pool's queue that belongs to
-- this file. What the code allocates is an argument, and so is what the host gives for a read.
pub mod Tasks
pub mod Settled
pub mod Answers
pub mod Errors
pub mod Finish
pub mod Closing
mod Tests
use ayafileio.Base.{
  ℕ, zero, suc, ◌^◌, ◌+◌, ◌-◌, Bool, true, false, not, ◌&&◌, ◌||◌, List, [], ◌∷◌, ◌++◌, Option,
  none, some, ltb, ◌==◌, if◌then◌else◌, ℤ, pos, negsuc, ltb_ℤ, ◌+ℤ◌, to_u64, to_i64,
}
use ayafileio.Core.Result.{
  ReqType, read, write, other, IoError, native_error, value_error, overflow_error, Result, ok,
  throws, io_exception,
}
use ayafileio.Core.FileState.{
  FileState, ReadPlan, plan_read, plan_read_at, reserve_write, set_cached_size,
}
use ayafileio.Core.Buffer.{Buffer, no_buffer}
use ayafileio.Core.Completion.{Completion, success, counted, read_done, failure, completes_inline}
use ayafileio.Core.Lifecycle.{
  seek_completion, tell_completion, truncate_guard, truncate_failed, truncate_done,
}
use ayafileio.Core.Request.{IoRequest}
use ayafileio.Core.Backend.{
  Ledger, complete_ok, complete_error, make_req_read_bytes, make_req_held_write, make_req_readinto,
}
use ayafileio.Platform.NativeFile.{
  Kernel, Os, file_invalid, file_pread, file_pwrite, file_size, file_fsync, file_truncate,
  file_close, file_is_append,
}

-- The closures that go to the pool.
pub data Task : Type 0 where
  pread_task : IoRequest → (offset size : ℕ) → Task
  pwrite_task : IoRequest → (offset size : ℕ) → Task

pub record Thread (W : Type 0) : Type 0 where
  pub os : Os W
  pub fd : ℤ
  pub running : Bool
  pub owns_fd : Bool
  pub state : FileState
  pub ledger : Ledger
  pub tasks : List Task

abbrev pub is_invalid : ℤ → Bool
is_invalid (negsuc zero) = true
is_invalid _ = false

module _ {W : Type 0} (k : Kernel W) where
  unfoldable pub closed : Thread W → Bool
  closed t = not t.running || is_invalid t.fd

  -- `operation->complete_inline(…)`
  abbrev pub inline : Thread W → ℕ → Completion → Thread W
  inline t operation c = record t {
    ledger = record (t.ledger) { events = completes_inline operation c ∷ t.ledger.events };
  }

  abbrev pub closed_failure : ReqType → Completion
  closed_failure type_ = failure type_ (value_error "I/O operation on closed file.")

  unfoldable pub refresh_size : Thread W → Option ℕ
  refresh_size t = (file_size k t.os t.fd).0

  -- `if (auto size = refresh_size()) state_.set_cached_size(*size)`
  unfoldable pub refresh_after_short_read : Thread W → Thread W
  refresh_after_short_read t =
      let (size, os) = file_size k t.os t.fd in
      record t {
        os = os;
        state = elim size [ none ↦ t.state | some n ↦ set_cached_size t.state n ];
      }

  -- One more request in flight, and its task at the end of the queue.
  abbrev pub enqueue : Thread W → Ledger → FileState → Task → Thread W
  enqueue t ledger state task = record t {
    state = state;
    ledger = record ledger { pending = ledger.pending +ℤ pos 1 };
    tasks = t.tasks ++ task ∷ [];
  }

  -- What `read` and `read_at` do with a plan. The state has moved before the buffer is asked for.
  unfoldable pub start_read :
      Thread W → ReadPlan × FileState → ℕ → ℕ → Result Buffer → ℕ → Result (Unit {0}) × Thread W
  start_read t (plan, state) offset operation read_buffer fresh =
      if plan.eof
      then (ok tt, inline (record t { state = state }) operation (read_done no_buffer 0))
      else (let (made, ledger) =
            make_req_read_bytes t.ledger plan.size operation read_buffer fresh in
          elim made [
            | throws e ↦ (throws e, record t { state = state; ledger = ledger })
            | ok request ↦ (ok tt, enqueue t ledger state (pread_task request offset plan.size))
          ])

  unfoldable pub read_file : Thread W → ℤ → ℕ → Result Buffer → ℕ → Result (Unit {0}) × Thread W
  read_file t size operation read_buffer fresh =
      let planned = plan_read t.state size (refresh_size t) in
      if closed t
      then (ok tt, inline t operation (closed_failure read))
      else start_read t planned (planned.0).offset operation read_buffer fresh

  unfoldable pub read_at : Thread W → ℤ → ℤ → ℕ → Result Buffer → ℕ → Result (Unit {0}) × Thread W
  read_at t offset size operation read_buffer fresh =
      if closed t
      then (ok tt, inline t operation (closed_failure read))
      else if ltb_ℤ offset (pos 0)
      then (ok tt, inline t operation (failure read (value_error "negative offset not allowed")))
      else start_read t (plan_read_at t.state offset size (refresh_size t)) (to_u64 offset)
          operation read_buffer fresh

  unfoldable pub write_file : Thread W → Buffer → ℤ → ℕ → ℕ → Result (Unit {0}) × Thread W
  write_file t view position operation fresh =
      let (offset, state) = reserve_write t.state position view.size in
      let (request, ledger) = make_req_held_write t.ledger view operation fresh in
      if not (ltb_ℤ position (pos 0)) && (t.state.append_mode || file_is_append k t.os t.fd)
      then (throws (io_exception (value_error "write_at() does not support append mode")), t)
      else if ltb (2 ^ 32 - 1) view.size
      then (throws (io_exception (overflow_error "write buffer exceeds 4 GiB - 1")), t)
      else if closed t
      then (ok tt, inline t operation (closed_failure write))
      else if view.size == 0
      then (ok tt, inline t operation (success write 0))
      else (ok tt, enqueue t ledger state (pwrite_task request offset view.size))

  unfoldable pub seek_file : Thread W → ℤ → ℤ → ℕ → Thread W
  seek_file t offset whence operation =
      let (c, state) = seek_completion t.state offset whence (refresh_size t) in
      inline (record t { state = state }) operation c

  unfoldable pub flush_file : Thread W → ℕ → Thread W
  flush_file t operation =
      let (synced, os) = file_fsync k t.os t.fd in
      if closed t
      then inline t operation (failure other (native_error 0 "flush on closed file"))
      else if not synced
      then inline (record t { os = os }) operation
          (failure other (native_error os.last_error "fsync failed"))
      else inline (record t { os = os }) operation (success other 0)

  unfoldable pub tell_file : Thread W → ℕ → Thread W
  tell_file t operation = inline t operation (tell_completion t.state)

  unfoldable pub truncate_file : Thread W → ℤ → ℕ → Thread W
  truncate_file t size operation = elim (truncate_guard size) [
    | some rejected ↦ inline t operation rejected
    | none ↦
        let (cut, os) = file_truncate k t.os t.fd (to_u64 size) in
        let (c, state) = truncate_done t.state size in
        if not cut
        then inline (record t { os = os }) operation (truncate_failed os.last_error)
        else inline (record t { os = os; state = state }) operation c
  ]

  unfoldable pub readinto_file : Thread W → Buffer → ℕ → ℕ → Thread W
  readinto_file t buffer operation fresh =
      let (plan, state) = plan_read t.state (to_i64 buffer.size) (refresh_size t) in
      let (request, ledger) = make_req_readinto t.ledger buffer plan.size operation fresh in
      if closed t
      then inline t operation (closed_failure read)
      else if buffer.size == 0
      then inline t operation (counted read 0)
      else if plan.eof
      then inline (record t { state = state }) operation (counted read 0)
      else enqueue t ledger state (pread_task request plan.offset plan.size)

  unfoldable pub fileno : Thread W → ℤ
  fileno t = if closed t then negsuc 0 else t.fd

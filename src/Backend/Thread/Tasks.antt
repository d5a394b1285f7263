-- ===== src/Backend/Thread/Tasks.antt =====
-- The bodies of the tasks of src/backend/thread/thread_io_backend.cpp, the order in which they may
-- finish, and `close_impl`, which waits for them.
use ayafileio.Base.{
  ℕ, zero, suc, false, not, ◌&&◌, List, [], ◌∷◌, Option, none, some, ltb, if◌then◌else◌, ℤ, pos,
  negsuc,
}
use ayafileio.Core.Result.{native_error, other}
use ayafileio.Core.Completion.{success}
use ayafileio.Core.Request.{IoRequest}
use ayafileio.Core.Backend.{complete_ok, complete_error}
use ayafileio.Platform.NativeFile.{Kernel, file_invalid, file_pread, file_pwrite, file_close}
use ayafileio.Backend.Thread.{
  Thread, Task, pread_task, pwrite_task, refresh_after_short_read, is_invalid, inline,
}

-- The task at a place of the queue, and the others.
abbrev pub pick : ℕ → List Task → Option (Task × List Task)
pick i [] = none
pick zero (x ∷ xs) = some (x, xs)
pick (suc i) (x ∷ xs) = elim (pick i xs) [ none ↦ none | some (y, ys) ↦ some (y, x ∷ ys) ]

module _ {W : Type 0} (k : Kernel W) where
  -- Each error code is what the thread's error variable holds when the completion is made.
  unfoldable pub pread_done : Thread W → IoRequest → ℕ → ℤ → Thread W
  pread_done t request size (pos got) =
      let t' = if ltb got size then refresh_after_short_read k t else t in
      record t' { ledger = complete_ok t'.ledger request got }
  pread_done t request size (negsuc _) = record t {
    ledger = complete_error t.ledger request (native_error t.os.last_error "I/O operation failed");
  }

  unfoldable pub pwrite_done : Thread W → IoRequest → ℤ → Thread W
  pwrite_done t request (pos wrote) = record t { ledger = complete_ok t.ledger request wrote }
  pwrite_done t request (negsuc _) =
      let t' = refresh_after_short_read k t in
      record t' {
        ledger =
            complete_error t'.ledger request (native_error t'.os.last_error "I/O operation failed");
      }

  unfoldable pub run_task : Thread W → Task → Thread W
  run_task t (pread_task request offset size) =
      let (got, os) = file_pread k t.os t.fd size offset in
      pread_done (record t { os = os }) request size got
  run_task t (pwrite_task request offset size) =
      let (wrote, os) = file_pwrite k t.os t.fd size offset in
      pwrite_done (record t { os = os }) request wrote

  -- A worker finishes the task at a place of the queue; with no task there it goes on waiting.
  unfoldable pub finish_task : Thread W → ℕ → Thread W
  finish_task t i = elim (pick i t.tasks) [
    | none ↦ t
    | some (task, rest) ↦ run_task (record t { tasks = rest }) task
  ]

  -- Tasks that finish one after the other while the file is waited for.
  unfoldable pub finish_all : Thread W → List ℕ → Thread W
  finish_all t [] = t
  finish_all t (i ∷ is) = finish_all (finish_task t i) is

  unfoldable pub close_fd : Thread W → Thread W
  close_fd u =
      if u.owns_fd && not (is_invalid u.fd)
      then record u { os = file_close k u.os u.fd; fd = file_invalid }
      else u

  -- `waited` are the tasks that finish before the wait ends, by the count or by the deadline.
  unfoldable pub close_impl : Thread W → List ℕ → Thread W
  close_impl t waited =
      if not t.running then t else close_fd (finish_all (record t { running = false }) waited)

  unfoldable pub close_file : Thread W → List ℕ → ℕ → Thread W
  close_file t waited operation = inline k (close_impl t waited) operation (success other 0)

-- ===== src/Backend/Thread/Errors.antt =====
-- The error codes that tasks of src/backend/thread/thread_io_backend.cpp report, through the error
-- variable of src/platform/native_file.hpp.
use ayafileio.Base.{ℕ, ◌≡◌, refl, ◌∷◌}
use ayafileio.Core.Result.{native_error}
use ayafileio.Core.Completion.{failure, completes}
use ayafileio.Core.Request.{IoRequest}
use ayafileio.Core.Backend.{complete_error}
use ayafileio.Platform.NativeFile.{
  Kernel, returned, failed, retry, file_pread, file_pwrite, file_size,
}
use ayafileio.Backend.Thread.{Thread, pread_task, pwrite_task, refresh_after_short_read}
use ayafileio.Backend.Thread.Tasks.{pread_done, pwrite_done, run_task}

module _ {W : Type 0} (k : Kernel W) where
  -- A read that the system fails, interruptions aside, with an errno: the operation completes with
  -- that errno.
  pub pread_task-errno :
      (t : Thread W) (r : IoRequest) (offset size e : ℕ)
      → retry (k.pread t.os.world t.fd size offset).0 ≡ failed e
      → (run_task k t (pread_task r offset size)).ledger.events
        ≡ completes r.operation (failure r.type_ (native_error e "I/O operation failed"))
          ∷ t.ledger.events
  unfolding run_task file_pread pread_done complete_error
  pread_task-errno t r offset size e h = rw (h, run_task, file_pread)

  -- A write that the system fails with an errno, on a file whose size the system can give: the
  -- operation completes with the error code 0, whatever the errno was.
  pub pwrite_task-errno :
      (t : Thread W) (r : IoRequest) (offset size e n : ℕ)
      → retry (k.pwrite t.os.world t.fd size offset).0 ≡ failed e
      → k.fstat_size (k.pwrite t.os.world t.fd size offset).1 t.fd ≡ returned n
      → (run_task k t (pwrite_task r offset size)).ledger.events
        ≡ completes r.operation (failure r.type_ (native_error 0 "I/O operation failed"))
          ∷ t.ledger.events
  unfolding run_task file_pwrite pwrite_done complete_error refresh_after_short_read file_size
  pwrite_task-errno t r offset size e n h g =
      rw (h, run_task, file_pwrite) (rw (g, pwrite_done) refl)

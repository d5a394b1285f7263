-- ===== src/Backend/Thread/Tests.antt =====
-- A file over a small kernel: reads give 5 bytes, writes fail with ENOSPC, the file has 100 bytes.
use ayafileio.Base.{
  arith, ℕ, ◌≡◌, refl, true, false, List, [], ◌∷◌, none, some, if◌then◌else◌, length, pos, negsuc,
  ◌==◌,
}
use ayafileio.Core.Result.{ok, native_error}
use ayafileio.Core.Buffer.{Buffer}
use ayafileio.Core.Completion.{failure, submitted, completes}
use ayafileio.Core.Request.{new_request}
use ayafileio.Platform.NativeFile.{Kernel, returned, failed, done, eintr, retry}
use ayafileio.Backend.Thread.{Thread, pread_task, pwrite_task}
use ayafileio.Backend.Thread.Tasks.{run_task, close_impl}
use ayafileio.Backend.Thread.Settled.{Settled, reads, reads_at, writes, submits, settles}
use ayafileio.Backend.Thread.Closing.{
  Action, calls, finishes, run_actions, run_actions-Settled, close_impl-emptied,
}
use ayafileio.Backend.Thread.Errors.{pwrite_task-errno}

abbrev kernel : Kernel ℕ
kernel = record {
  pread = λ w h n offset. (eintr (done (if w == 9 then failed 5 else returned 5)), w);
  pwrite = λ w h n offset. (done (failed 28), w);
  fstat_size = λ w h. returned 100;
  fsync = λ w h. (returned 0, w);
  ftruncate = λ w h n. (returned 0, w);
  close_fd = λ w h. w;
  is_append = λ w h. false;
}

abbrev thread_of : ℕ → Thread ℕ
thread_of w = record {
  os = record { world = w; last_error = 0 };
  fd = pos 3;
  running = true;
  owns_fd = true;
  state = record { file_pos = 0; cached_size = 100; append_mode = false };
  ledger = record {
    pending = pos 0;
    close_wake = 0;
    events = [];
    memory = record { freelist = []; live = []; deleted = []; release_hook = none };
    caches = record { local_ = []; shared = record { pools = []; total = 0; cached_max = 512 } };
    cached_buffer_size = 65536;
  };
  tasks = [];
}

abbrev memory_at : ℕ → Buffer
memory_at a = record {
  address = some a;
  size = 8;
  pooled = none;
  heap_owned = false;
  owner = none;
  result_handle = none;
}

thread_of-Settled : (w : ℕ) → Settled (thread_of w)
thread_of-Settled w = record { in_flight = refl; balance = λ op. refl }

-- Two reads and a write; the second read finishes first.
abbrev history : List Action
history =
    calls 1 64 (reads (pos 10) (ok (memory_at 7)))
    ∷ calls 2 128 (reads_at (pos 50) (pos 20) (ok (memory_at 8)))
    ∷ finishes 1
    ∷ calls 3 192 (writes (memory_at 9) (negsuc 0))
    ∷ []

run_actions-Settled_example : Settled (run_actions kernel (thread_of 0) history)
run_actions-Settled_example = run_actions-Settled kernel (thread_of 0) history (thread_of-Settled 0)

-- A read in the queue.
abbrev busy : Thread ℕ
busy = record (thread_of 0) {
  ledger = record ((thread_of 0).ledger) { pending = pos 1; events = submitted 0 ∷ [] };
  tasks = pread_task (new_request 64) 0 10 ∷ [];
}

busy-Settled : Settled busy
busy-Settled = record { in_flight = refl; balance = λ op. omega arith }

close_impl-emptied_example :
    ((close_impl kernel busy (0 ∷ [])).ledger.pending ≡ pos 0)
    × (length (close_impl kernel busy (0 ∷ [])).tasks ≡ 0)
    × ((op : ℕ)
        → submits op (close_impl kernel busy (0 ∷ [])).ledger.events
          ≡ settles op (close_impl kernel busy (0 ∷ [])).ledger.events)
close_impl-emptied_example =
    close_impl-emptied kernel busy (0 ∷ []) busy-Settled refl (omega arith, tt)

pwrite_task-errno_example :
    (run_task kernel (thread_of 0) (pwrite_task (new_request 64) 0 10)).ledger.events
    ≡ completes 0 (failure (new_request 64).type_ (native_error 0 "I/O operation failed")) ∷ []
unfolding retry
pwrite_task-errno_example =
    pwrite_task-errno kernel (thread_of 0) (new_request 64) 0 10 28 100 refl refl

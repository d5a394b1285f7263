-- ===== src/Backend/Uring/File/Tests.antt =====
-- A file of 100 bytes: a read that a later call finds finished, a sync that the reaper handles with an
-- error, and a close.
use ayafileio.Base.{ℕ, refl, false, true, List, [], ◌∷◌, some, none, ℤ, pos, negsuc}
use ayafileio.Core.Result.{ok}
use ayafileio.Core.Buffer.{Buffer}
use ayafileio.Platform.NativeFile.{Kernel, returned, done}
use ayafileio.Backend.Uring.File.{UringFile, Env}
use ayafileio.Backend.Uring.File.Settled.{Settled}
use ayafileio.Backend.Uring.File.Calls.{
  Action, calls, reaps, reads, flushes, tells, closes, run_actions,
}
use ayafileio.Backend.Uring.File.Answers.{run_actions-Answered}

abbrev kernel : Kernel ℕ
kernel = record {
  pread = λ w h n offset. (done (returned 5), w);
  pwrite = λ w h n offset. (done (returned n), w);
  fstat_size = λ w h. returned 100;
  fsync = λ w h. (returned 0, w);
  ftruncate = λ w h n. (returned 0, w);
  close_fd = λ w h. w;
  is_append = λ w h. false;
}

abbrev opened : UringFile ℕ
opened = record {
  world = 0;
  fd = pos 3;
  running = true;
  owns_fd = true;
  state = record { file_pos = 0; cached_size = 100; append_mode = false };
  ledger = record {
    pending = pos 0;
    close_wake = 0;
    events = [];
    memory = record { freelist = []; live = []; deleted = []; release_hook = none };
    caches = record { local_ = []; shared = record { pools = []; total = 0; cached_max = 512 } };
    cached_buffer_size = 65536;
  };
  has_ring = false;
  in_flight = [];
}

opened-Settled : Settled opened []
opened-Settled = record { counted = refl; balance = λ op. refl }

abbrev result_memory : Buffer
result_memory = record {
  address = some 4096;
  size = 10;
  pooled = none;
  heap_owned = false;
  owner = none;
  result_handle = none;
}

abbrev env_with : List (ℕ × ℤ) → Env
env_with harvest = record {
  ring_available = true;
  harvest = harvest;
  read_buffer = ok result_memory;
  malloc = some 64;
  fresh = 128;
}

abbrev history : List Action
history =
    calls 1 (env_with []) (reads (pos 10))
    ∷ calls 2 (env_with ((0, pos 10) ∷ [])) flushes
    ∷ calls 3 (env_with []) tells
    ∷ reaps 0 (negsuc 4)
    ∷ calls 4 (env_with []) (closes [])
    ∷ []

run_actions-Answered_example :
    Settled (run_actions kernel opened [] history).0 (run_actions kernel opened [] history).1
run_actions-Answered_example = run_actions-Answered kernel opened [] history opened-Settled

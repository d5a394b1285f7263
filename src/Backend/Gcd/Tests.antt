-- ===== src/Backend/Gcd/Tests.antt =====
-- A file of 3 MiB: a read on the channel, a parallel read of two chunks of which one fails, a sync and
-- a close.
use ayafileio.Base.{
  ℕ, ◌*◌, ◌≤◌, ◌≡◌, refl, false, true, List, [], ◌∷◌, some, none, pos, length, arith,
}
use ayafileio.Core.Result.{ok, read}
use ayafileio.Core.Buffer.{Buffer, no_buffer}
use ayafileio.Core.Request.{IoRequest, pending}
use ayafileio.Platform.NativeFile.{Kernel, returned, failed, done}
use ayafileio.Backend.Gcd.{GcdFile, make_group, chunk_ends, handler_runs}
use ayafileio.Backend.Gcd.Methods.{Env}
use ayafileio.Backend.Gcd.Completed.{Settled}
use ayafileio.Backend.Gcd.Histories.{
  Action, calls, happens, reads, flushes, closes, run_actions, run_actions-Completed,
}
use ayafileio.Backend.Gcd.Chunks.{Tiles, make_group-Tiles}

abbrev kernel : Kernel ℕ
kernel = record {
  pread = λ w h n offset. (done (returned n), w);
  pwrite = λ w h n offset. (done (returned n), w);
  fstat_size = λ w h. returned (3 * 1024 * 1024);
  fsync = λ w h. (returned 0, w);
  ftruncate = λ w h n. (returned 0, w);
  close_fd = λ w h. w;
  is_append = λ w h. false;
}

abbrev opened : GcdFile ℕ
opened = record {
  world = 0;
  fd = pos 3;
  running = true;
  owns_fd = true;
  state = record { file_pos = 0; cached_size = 3 * 1024 * 1024; append_mode = false };
  ledger = record {
    pending = pos 0;
    close_wake = 0;
    events = [];
    memory = record { freelist = []; live = []; deleted = []; release_hook = none };
    caches = record { local_ = []; shared = record { pools = []; total = 0; cached_max = 512 } };
    cached_buffer_size = 65536;
  };
  map_size = 0;
  in_flight = [];
}

opened-Settled : Settled opened []
opened-Settled = record { counted = refl; balance = λ op. refl }

abbrev result_memory : Buffer
result_memory = record {
  address = some 4096;
  size = 1024 * 1024;
  pooled = none;
  heap_owned = false;
  owner = none;
  result_handle = none;
}

abbrev env : Env
env = record {
  page_size = 16384;
  in_memory = λ page. true;
  mincore_fails = false;
  read_buffer = ok result_memory;
  malloc = some 64;
  fresh = 128;
}

abbrev history : List Action
history =
    calls 1 env (reads (pos 10))
    ∷ calls 2 env (reads (pos (1024 * 1024)))
    ∷ happens 0 (handler_runs (record { done = true; length = 10; error = 0 }))
    ∷ happens 0 (chunk_ends 1 (failed 5))
    ∷ calls 3 env flushes
    ∷ happens 0 (chunk_ends 0 (returned 100))
    ∷ calls 4 env (closes [])
    ∷ []

run_actions-Completed_example :
    Settled (run_actions kernel opened [] history).0 (run_actions kernel opened [] history).1
run_actions-Completed_example = run_actions-Completed kernel opened [] history opened-Settled

abbrev request : IoRequest
request = record {
  address = 64;
  operation = 5;
  buffer = no_buffer;
  req_size = 1500000;
  type_ = read;
  state = pending;
  reaped = false;
  is_readinto = false;
  holds_write_buf = false;
}

make_group-Tiles_example :
    let g = make_group request 1500000 in
    Tiles g.chunks 0 1500000 × (length g.chunks ≡ g.remaining) × (g.remaining ≤ 256)
make_group-Tiles_example = make_group-Tiles request 1500000 (omega arith) (omega arith)

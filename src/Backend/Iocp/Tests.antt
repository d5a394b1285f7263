-- ===== src/Backend/Iocp/Tests.antt =====
-- A session that posts no packet for what is done at once, and one with a read that pends.
use ayafileio.Base.{
  ◌%◌, ◌^◌, ◌*◌, ℕ, refl, false, true, List, [], ◌∷◌, some, none, inl, inr, pos, ◌≡◌, arith, ◌+◌,
  ◌-◌, length, keep_if,
}
use ayafileio.Core.Result.{ok, read}
use ayafileio.Core.Buffer.{Buffer}
use ayafileio.Platform.NativeFile.{returned, failed}
use ayafileio.Backend.Iocp.{
  Session, Thread, Iocp, QuarantineEntry, new_iocp_request, iocp_req_alloc_impl,
}
use ayafileio.Backend.Iocp.Quarantine.{expired, quarantine_drain}
use ayafileio.Backend.Iocp.Quarantine.Laws.{InOrder, quarantine_drain_lem, free_all, waiting}
use ayafileio.Backend.Iocp.Worker.{Packet, worker_turn, process_one}
use ayafileio.Backend.Iocp.Submit.{Windows, Env, make_shell}
use ayafileio.Backend.Iocp.Submit.Closing.{handles, flushes}
use ayafileio.Backend.Iocp.Context.{close_all_sessions}
use ayafileio.Backend.Iocp.Context.Waiting.{Emptied, close_all_sessions-Emptied}
use ayafileio.Backend.Iocp.Answers.{Accounted}
use ayafileio.Backend.Iocp.Histories.{
  Action, calls, steps, reads, flushes_file, closes, run_actions, run_actions-Accounted,
  UndisturbedRun,
}
use ayafileio.Backend.Iocp.Sharing.{IsSound}
use ayafileio.Backend.Iocp.Sharing.Packets.{IsUnused, worker_turn-IsSound, make_shell-IsSound}
use ayafileio.Backend.Iocp.Duplicates.{turns, process_one_twice}
use ayafileio.Backend.Iocp.Quarantine.Kept.{InQueue, IsYoung}

-- A read is pending, a write is done at once.
abbrev windows : Windows ℕ
windows = record {
  read_file = λ w h n offset. (failed 997, w);
  write_file = λ w h n offset. (returned n, w);
  get_file_size = λ w h. some (pos 100);
  set_file_pointer = λ w h target. (returned 0, w);
  set_end_of_file = λ w h. (returned 0, w);
  flush_file_buffers = λ w h. (returned 0, w);
  cancel_io = λ w h. w;
  close_handle = λ w h. w;
  create_port = λ w. (some 1, w);
  associate = λ w h port key. (returned 0, w);
  skip_completion_port = λ w h. true;
}

abbrev session : Session
session = record {
  id = 1;
  handle = some 7;
  running = true;
  state = record { file_pos = 0; cached_size = 100; append_mode = false };
  append_mode = false;
  pending = pos 0;
  close_wake = 0;
  owns_fd = true;
  generic_read = true;
  generic_write = false;
  skip_cp_on_success = true;
  cached_buffer_size = 65536;
  cached_buffer_pool_max = 512;
  cached_close_timeout_ms = 4000;
}

abbrev thread : Thread
thread = record {
  memory = record { freelist = []; live = []; deleted = []; release_hook = none };
  quarantine = [];
}

abbrev opened : Iocp ℕ
opened = record {
  world = 0;
  read_iocp = some 1;
  write_iocp = some 2;
  running = true;
  next_session_id = 2;
  ctrlc = false;
  objects = λ id. session;
  table = 1 ∷ [];
  requests = [];
  here = thread;
  others = thread ∷ [];
  stats = record { live = 0; pushes = 0; scanned = 0; drains = 0; peak = 0 };
  packets_stale_session = 0;
  check_hook = none;
  flushes = [];
  events = [];
  touched_freed = false;
}

opened-Accounted : Accounted opened []
opened-Accounted op = omega arith

opened-IsSound : IsSound opened
opened-IsSound = record { once = λ a. omega arith; marked = λ a. inr refl; counted = refl }

abbrev result_memory : Buffer
result_memory = record {
  address = some 4096;
  size = 10;
  pooled = none;
  heap_owned = false;
  owner = none;
  result_handle = none;
}

-- A packet of another request, which comes in the middle of a submission.
abbrev other_packet : Packet
other_packet = record { key = 1; overlapped = some 512; bytes = 3; internal = 0 }

abbrev env : Env
env = record {
  read_buffer = ok result_memory;
  fresh = 128;
  now = 5;
  early = (0, 4, other_packet) ∷ [];
}

abbrev alone : Env
alone = record env { early = [] }

abbrev packet : Packet
packet = record { key = 1; overlapped = some 128; bytes = 10; internal = 0 }

-- A read, its packet twice, a flush that the pool runs, and a close.
abbrev history : List Action
history =
    calls 1 1 env (reads (pos 10))
    ∷ steps (handles 0 10 packet)
    ∷ steps (handles 0 11 packet)
    ∷ calls 1 2 alone flushes_file
    ∷ steps flushes
    ∷ calls 1 3 alone (closes [])
    ∷ []

history-quiet : UndisturbedRun windows opened [] history
unfolding iocp_req_alloc_impl
history-quiet = (((λ h. ground (arith, h)), tt), (tt, (tt, tt)))

history-untouched : (run_actions windows opened [] history).0.touched_freed ≡ false
unfolding run_actions ayafileio.Backend.Iocp.Histories.call
    ayafileio.Backend.Iocp.Submit.Closing.submit_close ayafileio.Backend.Iocp.Submit.Closing.step
    ayafileio.Backend.Iocp.Submit.Closing.submit_flush ayafileio.Backend.Iocp.Submit.unavailable
    process_one ayafileio.Backend.Iocp.Submit.Methods.submit_read ayafileio.Core.FileState.plan_read
    ayafileio.Core.FileState.plan_read_locked ayafileio.Core.FileState.remaining_unlocked
    ayafileio.Base.sub_i64 ayafileio.Core.FileState.refresh_at ayafileio.Core.FileState.plan_size
    ayafileio.Backend.Iocp.Submit.Methods.start_read ayafileio.Backend.Iocp.Submit.make_read_request
    ayafileio.Backend.Iocp.Worker.handled ayafileio.Backend.Iocp.Quarantine.drain_loop
    ayafileio.Backend.Iocp.Quarantine.note_push quarantine_drain
    ayafileio.Backend.Iocp.Quarantine.quarantine_push
    ayafileio.Backend.Iocp.Quarantine.release_request
    ayafileio.Backend.Iocp.Submit.Closing.run_steps
    ayafileio.Backend.Iocp.Submit.Closing.submit_truncate
    ayafileio.Backend.Iocp.Submit.Methods.refresh_session_size
    ayafileio.Backend.Iocp.Submit.Methods.refresh_session_size_after_short_io
    ayafileio.Backend.Iocp.Submit.Methods.start_readinto
    ayafileio.Backend.Iocp.Submit.Methods.start_write
    ayafileio.Backend.Iocp.Submit.Methods.submit_read_at
    ayafileio.Backend.Iocp.Submit.Methods.submit_readinto
    ayafileio.Backend.Iocp.Submit.Methods.submit_seek
    ayafileio.Backend.Iocp.Submit.Methods.submit_tell
    ayafileio.Backend.Iocp.Submit.Methods.submit_write ayafileio.Backend.Iocp.Submit.finish_inline
    ayafileio.Backend.Iocp.Submit.make_readinto_request make_shell
    ayafileio.Backend.Iocp.Submit.make_write_request ayafileio.Backend.Iocp.Worker.deliver
    ayafileio.Backend.Iocp.Worker.process_found iocp_req_alloc_impl
    ayafileio.Backend.Iocp.iocp_req_free_impl ayafileio.Base.◌+ℤ◌ ayafileio.Base.◌-ℤ◌
    ayafileio.Base.add_i64 ayafileio.Base.add_u64 ayafileio.Base.to_i64 ayafileio.Base.to_u64
    ayafileio.Base.wrap_i64 ayafileio.Core.Backend.make_io_completion
    ayafileio.Core.FileState.apply_truncate ayafileio.Core.FileState.plan_read_at
    ayafileio.Core.FileState.reserve_write ayafileio.Core.FileState.seek
    ayafileio.Core.FileState.write_offset ayafileio.Core.Lifecycle.seek_completion
    ayafileio.Core.Lifecycle.tell_completion ayafileio.Core.Lifecycle.truncate_done
    ayafileio.Core.Lifecycle.truncate_guard ayafileio.Core.Request.release_allocation
history-untouched = refl

run_actions-Accounted_example :
    Accounted (run_actions windows opened [] history).0 (run_actions windows opened [] history).1
run_actions-Accounted_example =
    run_actions-Accounted windows opened [] history history-quiet history-untouched opened-Accounted

abbrev pending_read : Iocp ℕ
pending_read = record opened { requests = record (new_iocp_request 128) { session_id = 1 } ∷ [] }

pending_read-IsSound : IsSound pending_read
pending_read-IsSound = record { once = λ a. omega arith; marked = λ a. inr refl; counted = refl }

worker_turn-IsSound_example :
    let after = worker_turn pending_read ((5, packet) ∷ (6, packet) ∷ []) 7 in
    IsSound after
    × ((e : QuarantineEntry)
        → InQueue e pending_read.here.quarantine
        → IsYoung 7 e
        → InQueue e after.here.quarantine)
unfolding worker_turn ayafileio.Backend.Iocp.Worker.process_batch process_one
    ayafileio.Backend.Iocp.Worker.process_found ayafileio.Backend.Iocp.Worker.deliver
    ayafileio.Backend.Iocp.Quarantine.release_request
    ayafileio.Backend.Iocp.Quarantine.quarantine_push quarantine_drain
    ayafileio.Backend.Iocp.Quarantine.drain_loop
worker_turn-IsSound_example =
    worker_turn-IsSound pending_read ((5, packet) ∷ (6, packet) ∷ []) 7
      (omega arith, (omega arith, tt)) refl pending_read-IsSound

make_shell-IsSound_example :
    let (r, j) = make_shell opened 1 read 128 10 result_memory false false in
    IsSound j × IsUnused r.request.address opened.requests
make_shell-IsSound_example =
    make_shell-IsSound opened 1 read 128 10 result_memory false false refl (inl refl) opened-IsSound

process_one_twice_example :
    let once = process_one pending_read 5 1 128 10 0 in
    let met = turns once ((0, (6, packet) ∷ [], 7) ∷ []) in
    (process_one met 9 1 128 4 38).events ≡ met.events
unfolding worker_turn ayafileio.Backend.Iocp.Worker.process_batch process_one
    ayafileio.Backend.Iocp.Worker.process_found ayafileio.Backend.Iocp.Worker.deliver
    ayafileio.Backend.Iocp.Quarantine.release_request
    ayafileio.Backend.Iocp.Quarantine.quarantine_push quarantine_drain
    ayafileio.Backend.Iocp.Quarantine.drain_loop turns ayafileio.Backend.Iocp.Quarantine.note_push
    ayafileio.Backend.Iocp.iocp_req_free_impl
process_one_twice_example =
    process_one_twice pending_read 5 1 128 10 0 9 4 38 ((0, (6, packet) ∷ [], 7) ∷ []) refl refl

-- One entry is due two seconds later, and one is not.
abbrev aging : Thread
aging = record thread {
  quarantine =
      record { request = 128; when = 0 } ∷ record { request = 256; when = 1500000000 } ∷ [];
}

abbrev aging-InOrder : InOrder aging.quarantine
aging-InOrder = ((omega arith, tt), (tt, tt))

quarantine_drain_lem_example :
    let due = keep_if (expired 2000000000) aging.quarantine in
    quarantine_drain 2000000000 (aging, opened.stats) ≡ (
      record {
        memory = free_all due aging.memory;
        quarantine = keep_if (waiting 2000000000) aging.quarantine;
      },
      record (opened.stats) {
        live = (0 + 2 ^ 64 - length due % 2 ^ 64) % 2 ^ 64;
        scanned = (0 + length due) % 2 ^ 64;
        drains = 1 % 2 ^ 64;
      },
    )
quarantine_drain_lem_example = quarantine_drain_lem 2000000000 aging opened.stats aging-InOrder

abbrev entry : QuarantineEntry
entry = record { request = 128; when = 0 }

close_all_sessions-Emptied_example :
    Emptied windows (close_all_sessions windows opened (λ id n. []))
close_all_sessions-Emptied_example = close_all_sessions-Emptied windows opened (λ id n. [])

-- ===== src/Backend/Gcd/Methods.antt =====
-- The methods of src/backend/macos/macos_gcd_backend.cpp, and the history of a file. What a call meets
-- is its `Env`: whether the pages of a mapped read are in memory, and where memory comes from.
use ayafileio.Base.{
  ℕ, zero, suc, ◌+◌, ◌-◌, ◌/◌, ◌^◌, Bool, true, false, not, ◌&&◌, ◌||◌, List, [], ◌∷◌, ◌++◌, Option,
  none, some, ltb, leb, ◌==◌, if◌then◌else◌, ℤ, pos, negsuc, ltb_ℤ, ◌+ℤ◌, to_u64, to_i64,
}
use ayafileio.Core.Result.{
  ReqType, read, write, other, native_error, value_error, overflow_error, Result, ok, throws,
  io_exception,
}
use ayafileio.Core.FileState.{FileState, ReadPlan, plan_read, plan_read_at, reserve_write}
use ayafileio.Core.Buffer.{Buffer, no_buffer}
use ayafileio.Core.Completion.{Completion, success, counted, read_done, failure, completes_inline}
use ayafileio.Core.Lifecycle.{
  seek_completion, tell_completion, truncate_guard, truncate_failed, truncate_done,
}
use ayafileio.Core.Request.{IoRequest}
use ayafileio.Core.Backend.{
  Ledger, complete_inline, make_req, make_req_read_bytes, make_req_held_write, make_req_readinto,
}
use ayafileio.Platform.NativeFile.{Kernel, Sys, returned, failed, Answers, retry}
use ayafileio.Backend.Gcd.{
  GcdFile, Flight, fast, parallel, channel_read, channel_write, Happening, happen, make_group,
  parallel_read_threshold, large_io_threshold,
}

pub record Env : Type 0 where
  pub page_size : ℕ
  pub in_memory : (page : ℕ) → Bool
  pub mincore_fails : Bool
  pub read_buffer : Result Buffer
  pub malloc : Option ℕ
  pub fresh : ℕ

abbrev pub is_minus_one : ℤ → Bool
is_minus_one (negsuc zero) = true
is_minus_one _ = false

-- The pages from one on are all in memory.
abbrev pub all_in_memory : (ℕ → Bool) → (first count : ℕ) → Bool
all_in_memory here first zero = true
all_in_memory here first (suc n) = here first && all_in_memory here (suc first) n

-- `try_inline_read` up to the read: whether the range is mapped and in memory.
unfoldable pub is_resident : ℕ → Env → (offset size : ℕ) → Bool
is_resident map_size env offset size =
    let first_page = offset / env.page_size in
    let pages = (offset + size - 1) / env.page_size - first_page + 1 in
    if map_size == 0
    then false
    else if ltb map_size offset || ltb (map_size - offset) size
    then false
    else if ltb 64 pages || env.mincore_fails
    then false
    else all_in_memory env.in_memory first_page pages

-- The answer as `pread` returns it: -1 where it fails.
abbrev pub got_of : Sys → ℤ
got_of (returned n) = pos n
got_of (failed e) = negsuc 0

module _ {W : Type 0} (k : Kernel W) where
  abbrev pub Outcome : Type 0
  Outcome = Result (Unit {0}) × GcdFile W

  unfoldable pub closed : GcdFile W → Bool
  closed t = not t.running || is_minus_one t.fd

  abbrev pub inline : GcdFile W → ℕ → Completion → GcdFile W
  inline t operation c = record t {
    ledger = record (t.ledger) { events = completes_inline operation c ∷ t.ledger.events };
  }

  abbrev pub closed_failure : ReqType → Completion
  closed_failure type_ = failure type_ (value_error "I/O operation on closed file.")

  unfoldable pub refresh_size : GcdFile W → Option ℕ
  refresh_size t = elim (k.fstat_size t.world t.fd) [ returned n ↦ some n | failed e ↦ none ]

  abbrev pub launched : GcdFile W → Flight → GcdFile W
  launched t f = record t { in_flight = t.in_flight ++ f ∷ [] }

  -- The read of a range that is in memory, on the calling thread.
  abbrev pub inline_read : GcdFile W → IoRequest → Answers × W → GcdFile W
  inline_read t request (answers, w) = record t {
    world = w;
    ledger = complete_inline t.ledger request (got_of (retry answers));
  }

  unfoldable pub submit_read : GcdFile W → IoRequest → (offset size : ℕ) → Env → GcdFile W
  unfolding retry
  submit_read t request offset size env =
      if leb parallel_read_threshold size
      then launched t (parallel (make_group request size))
      else if leb large_io_threshold size
      then launched t (fast request)
      else if not request.is_readinto && is_resident t.map_size env offset size
      then inline_read t request (k.pread t.world t.fd size offset)
      else launched t (channel_read request 0)

  -- `m_pending.fetch_add(1)` for a request made on a ledger
  abbrev pub pending_more : GcdFile W → Ledger → FileState → GcdFile W
  pending_more t ledger state = record t {
    state = state;
    ledger = record ledger { pending = ledger.pending +ℤ pos 1 };
  }

  -- The part of `read` and `read_at` after the request is made, or is not.
  abbrev pub read_made :
      GcdFile W → FileState → (size offset : ℕ) → Env → Result IoRequest × Ledger → Outcome
  read_made t state size offset env (throws e, ledger) =
      (throws e, record t { state = state; ledger = ledger })
  read_made t state size offset env (ok request, ledger) =
      (ok tt, submit_read (pending_more t ledger state) request offset size env)

  unfoldable pub start_read : GcdFile W → ReadPlan × FileState → ℕ → ℕ → Env → Outcome
  start_read t (plan, state) offset operation env =
      if plan.eof
      then (ok tt, inline (record t { state = state }) operation (read_done no_buffer 0))
      else read_made t state plan.size offset env
          (make_req_read_bytes t.ledger plan.size operation env.read_buffer env.fresh)

  unfoldable pub read_file : GcdFile W → ℤ → ℕ → Env → Outcome
  read_file t size operation env =
      let planned = plan_read t.state size (refresh_size t) in
      if closed t
      then (ok tt, inline t operation (closed_failure read))
      else start_read t planned (planned.0).offset operation env

  unfoldable pub read_at : GcdFile W → ℤ → ℤ → ℕ → Env → Outcome
  read_at t offset size operation env =
      if closed t
      then (ok tt, inline t operation (closed_failure read))
      else if ltb_ℤ offset (pos 0)
      then (ok tt, inline t operation (failure read (value_error "negative offset not allowed")))
      else start_read t (plan_read_at t.state offset size (refresh_size t)) (to_u64 offset)
          operation env

  -- A small write copies its bytes into a buffer of its own, and gives that up once the channel has
  -- them.
  abbrev pub write_made : GcdFile W → FileState → ℕ → Result IoRequest × Ledger → Outcome
  write_made t state size (throws e, ledger) =
      (throws e, record t { state = state; ledger = ledger })
  write_made t state size (ok request, ledger) = (
    ok tt,
    launched (pending_more t ledger state)
        (channel_write (record request { buffer = no_buffer }) size),
  )

  abbrev pub write_large : GcdFile W → FileState → IoRequest × Ledger → Outcome
  write_large t state (request, ledger) =
      (ok tt, launched (pending_more t ledger state) (fast request))

  unfoldable pub write_file : GcdFile W → Buffer → ℤ → ℕ → Env → Outcome
  write_file t view position operation env =
      let (offset, state) = reserve_write t.state position view.size in
      if not (ltb_ℤ position (pos 0)) && (t.state.append_mode || k.is_append t.world t.fd)
      then (throws (io_exception (value_error "write_at() does not support append mode")), t)
      else if ltb (2 ^ 32 - 1) view.size
      then (throws (io_exception (overflow_error "write buffer exceeds 4 GiB - 1")), t)
      else if closed t
      then (ok tt, inline t operation (closed_failure write))
      else if view.size == 0
      then (ok tt, inline t operation (success write 0))
      else if leb large_io_threshold view.size
      then write_large t state (make_req_held_write t.ledger view operation env.fresh)
      else write_made t state view.size
          (make_req t.ledger view.size operation write env.malloc env.fresh)

  unfoldable pub seek_file : GcdFile W → ℤ → ℤ → ℕ → GcdFile W
  seek_file t offset whence operation =
      let (c, state) = seek_completion t.state offset whence (refresh_size t) in
      inline (record t { state = state }) operation c

  abbrev pub synced : GcdFile W → ℕ → Sys × W → GcdFile W
  synced t operation (returned n, w) = inline (record t { world = w }) operation (success other 0)
  synced t operation (failed e, w) =
      inline (record t { world = w }) operation (failure other (native_error e "fsync failed"))

  unfoldable pub flush_file : GcdFile W → ℕ → GcdFile W
  flush_file t operation =
      if closed t
      then inline t operation (failure other (native_error 0 "flush on closed file"))
      else synced t operation (k.fsync t.world t.fd)

  unfoldable pub tell_file : GcdFile W → ℕ → GcdFile W
  tell_file t operation = inline t operation (tell_completion t.state)

  abbrev pub truncated : GcdFile W → ℤ → ℕ → Sys × W → GcdFile W
  truncated t size operation (failed e, w) =
      inline (record t { world = w }) operation (truncate_failed e)
  truncated t size operation (returned n, w) =
      let (c, state) = truncate_done t.state size in
      inline (record t { world = w; state = state }) operation c

  unfoldable pub truncate_file : GcdFile W → ℤ → ℕ → GcdFile W
  truncate_file t size operation = elim (truncate_guard size) [
    | some rejected ↦ inline t operation rejected
    | none ↦ truncated t size operation (k.ftruncate t.world t.fd (to_u64 size))
  ]

  unfoldable pub readinto_file : GcdFile W → Buffer → ℕ → Env → Outcome
  readinto_file t buffer operation env =
      let (plan, state) = plan_read t.state (to_i64 buffer.size) (refresh_size t) in
      let (request, ledger) = make_req_readinto t.ledger buffer plan.size operation env.fresh in
      if closed t
      then (ok tt, inline t operation (closed_failure read))
      else if buffer.size == 0
      then (ok tt, inline t operation (counted read 0))
      else if plan.eof
      then (ok tt, inline (record t { state = state }) operation (counted read 0))
      else (ok tt, submit_read (pending_more t ledger state) request plan.offset plan.size env)

  abbrev pub pick : ℕ → List Flight → Option (Flight × List Flight)
  pick i [] = none
  pick zero (x ∷ xs) = some (x, xs)
  pick (suc i) (x ∷ xs) = elim (pick i xs) [ none ↦ none | some (y, ys) ↦ some (y, x ∷ ys) ]

  abbrev pub left : Option Flight → List Flight → List Flight
  left none fs = fs
  left (some f) fs = f ∷ fs

  -- Something happens to the entry at a place.
  unfoldable pub step : GcdFile W → ℕ → Happening → GcdFile W
  step t i h = elim (pick i t.in_flight) [
    | none ↦ t
    | some (f, rest) ↦
        let (o, ledger) = happen t.ledger f h in
        record t { in_flight = left o rest; ledger = ledger }
  ]

  unfoldable pub steps : GcdFile W → List (ℕ × Happening) → GcdFile W
  steps t [] = t
  steps t ((i, h) ∷ hs) = steps (step t i h) hs

  abbrev pub close_fd : GcdFile W → GcdFile W
  close_fd t = record t {
    world = if t.owns_fd && not (is_minus_one t.fd) then k.close_fd t.world t.fd else t.world;
    fd = negsuc 0;
    map_size = 0;
  }

  -- `waited` happens before the wait ends, by the count or by the deadline.
  unfoldable pub close_impl : GcdFile W → List (ℕ × Happening) → GcdFile W
  close_impl t waited =
      if not t.running then t else close_fd (steps (record t { running = false }) waited)

  unfoldable pub close_file : GcdFile W → List (ℕ × Happening) → ℕ → GcdFile W
  close_file t waited operation = inline (close_impl t waited) operation (success other 0)

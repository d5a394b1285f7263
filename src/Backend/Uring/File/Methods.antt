-- ===== src/Backend/Uring/File/Methods.antt =====
-- The methods of src/backend/linux/io_uring_backend.cpp, and the history of a file.
use ayafileio.Base.{
  ℕ, ◌^◌, ◌-◌, false, not, ◌&&◌, ◌||◌, List, [], ◌∷◌, none, some, ltb, ◌==◌, if◌then◌else◌, ℤ, pos,
  negsuc, ltb_ℤ, to_u64, to_i64,
}
use ayafileio.Core.Result.{
  read, write, other, native_error, value_error, overflow_error, Result, ok, throws, io_exception,
}
use ayafileio.Core.FileState.{plan_read, plan_read_at, reserve_write}
use ayafileio.Core.Buffer.{Buffer}
use ayafileio.Core.Completion.{success, counted, failure}
use ayafileio.Core.Lifecycle.{
  seek_completion, tell_completion, truncate_guard, truncate_failed, truncate_done,
}
use ayafileio.Core.Request.{IoRequest}
use ayafileio.Core.Backend.{Ledger, make_req, make_req_held_write, make_req_readinto}
use ayafileio.Platform.NativeFile.{Kernel, Sys, returned, failed}
use ayafileio.Backend.Uring.{op_read, op_write, op_fsync}
use ayafileio.Backend.Uring.File.{
  UringFile, Env, is_minus_one, closed, inline, closed_failure, refresh_size, ensure_uring, reap,
  start, flight_of, start_read, with_ring,
}

module _ {W : Type 0} (k : Kernel W) where
  abbrev pub Outcome : Type 0
  Outcome = Result (Unit {0}) × UringFile W

  unfoldable pub read_file : UringFile W → ℤ → ℕ → Env → Outcome
  read_file t size operation env =
      if closed k t
      then (ok tt, inline k t operation (closed_failure k read))
      else with_ring k (ensure_uring k t env) (λ u.
        let planned = plan_read u.state size (refresh_size k u) in
        start_read k u planned (planned.0).offset operation env)

  unfoldable pub read_at : UringFile W → ℤ → ℤ → ℕ → Env → Outcome
  read_at t offset size operation env =
      if closed k t
      then (ok tt, inline k t operation (closed_failure k read))
      else if ltb_ℤ offset (pos 0)
      then (ok tt, inline k t operation (failure read (value_error "negative offset not allowed")))
      else with_ring k (ensure_uring k t env) (λ u.
        start_read k u (plan_read_at u.state offset size (refresh_size k u)) (to_u64 offset)
          operation env)

  -- The part of `write` after `ensure_uring`.
  abbrev pub write_rest : Buffer → ℤ → ℕ → Env → UringFile W → Outcome
  write_rest view position operation env u =
      let (offset, state) = reserve_write u.state position view.size in
      let (request, ledger) = make_req_held_write u.ledger view operation env.fresh in
      if view.size == 0
      then (ok tt, inline k u operation (success write 0))
      else (ok tt, start k u ledger state (flight_of k request op_write view.size offset) env)

  unfoldable pub write_file : UringFile W → Buffer → ℤ → ℕ → Env → Outcome
  write_file t view position operation env =
      if not (ltb_ℤ position (pos 0)) && (t.state.append_mode || k.is_append t.world t.fd)
      then (throws (io_exception (value_error "write_at() does not support append mode")), t)
      else if ltb (2 ^ 32 - 1) view.size
      then (throws (io_exception (overflow_error "write buffer exceeds 4 GiB - 1")), t)
      else if closed k t
      then (ok tt, inline k t operation (closed_failure k write))
      else with_ring k (ensure_uring k t env) (write_rest view position operation env)

  unfoldable pub seek_file : UringFile W → ℤ → ℤ → ℕ → UringFile W
  seek_file t offset whence operation =
      let (c, state) = seek_completion t.state offset whence (refresh_size k t) in
      inline k (record t { state = state }) operation c

  -- The part of `flush` after the request is made, or is not.
  abbrev pub flush_made : ℕ → Env → UringFile W → Result IoRequest × Ledger → Outcome
  flush_made operation env u (throws e, ledger) = (throws e, record u { ledger = ledger })
  flush_made operation env u (ok request, ledger) =
      (ok tt, start k u ledger u.state (flight_of k request op_fsync 0 0) env)

  -- The part of `flush` after `ensure_uring`.
  abbrev pub flush_rest : ℕ → Env → UringFile W → Outcome
  flush_rest operation env u =
      flush_made operation env u (make_req u.ledger 0 operation other env.malloc env.fresh)

  unfoldable pub flush_file : UringFile W → ℕ → Env → Outcome
  flush_file t operation env =
      if closed k t
      then (ok tt, inline k t operation (failure other (native_error 0 "flush on closed file")))
      else with_ring k (ensure_uring k t env) (flush_rest operation env)

  unfoldable pub tell_file : UringFile W → ℕ → UringFile W
  tell_file t operation = inline k t operation (tell_completion t.state)

  -- The lines of `truncate` after the guard.
  abbrev pub truncated : UringFile W → ℤ → ℕ → Sys × W → UringFile W
  truncated t size operation (failed e, world) =
      inline k (record t { world = world }) operation (truncate_failed e)
  truncated t size operation (returned n, world) =
      let (c, state) = truncate_done t.state size in
      inline k (record t { world = world; state = state }) operation c

  unfoldable pub truncate_file : UringFile W → ℤ → ℕ → UringFile W
  truncate_file t size operation = elim (truncate_guard size) [
    | some rejected ↦ inline k t operation rejected
    | none ↦ truncated t size operation (k.ftruncate t.world t.fd (to_u64 size))
  ]

  -- The part of `readinto` after `ensure_uring`.
  abbrev pub readinto_rest : Buffer → ℕ → Env → UringFile W → Outcome
  readinto_rest buffer operation env u =
      let (plan, state) = plan_read u.state (to_i64 buffer.size) (refresh_size k u) in
      let (request, ledger) = make_req_readinto u.ledger buffer plan.size operation env.fresh in
      if plan.eof
      then (ok tt, inline k (record u { state = state }) operation (counted read 0))
      else (ok tt, start k u ledger state (flight_of k request op_read plan.size plan.offset) env)

  unfoldable pub readinto_file : UringFile W → Buffer → ℕ → Env → Outcome
  readinto_file t buffer operation env =
      if closed k t
      then (ok tt, inline k t operation (closed_failure k read))
      else if buffer.size == 0
      then (ok tt, inline k t operation (counted read 0))
      else with_ring k (ensure_uring k t env) (readinto_rest buffer operation env)

  -- Completions that the reaper handles one after the other while the file is waited for.
  unfoldable pub reap_all : UringFile W → List (ℕ × ℤ) → UringFile W
  reap_all t [] = t
  reap_all t ((i, result) ∷ rest) = reap_all (reap k t i result) rest

  abbrev pub close_fd : UringFile W → UringFile W
  close_fd u =
      if u.owns_fd && not (is_minus_one u.fd)
      then record u { world = k.close_fd u.world u.fd; fd = negsuc 0 }
      else u

  -- `waited` are the completions handled before the wait ends, by the count or by the deadline.
  unfoldable pub close_impl : UringFile W → List (ℕ × ℤ) → UringFile W
  close_impl t waited =
      if not t.running
      then t
      else close_fd (record (reap_all (record t { running = false }) waited) { has_ring = false })

  unfoldable pub close_file : UringFile W → List (ℕ × ℤ) → ℕ → UringFile W
  close_file t waited operation = inline k (close_impl t waited) operation (success other 0)

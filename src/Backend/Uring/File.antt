-- ===== src/Backend/Uring/File.antt =====
-- src/backend/linux/io_uring_backend.cpp: a file whose reads, writes and syncs are submissions to a
-- ring. A method is one step on the file. The requests in flight are those of this file; what a call
-- meets is its `Env`, in which `harvest` says which of them it finds finished, by their place, and
-- with which results. In what order a ring takes submissions is the subject of the parent module.
pub mod Methods
pub mod Settled
pub mod Calls
pub mod Answers
mod Tests
use ayafileio.Base.{
  ℕ, zero, suc, ◌^◌, ◌%◌, ◌+◌, ◌-◌, Bool, true, false, not, ◌&&◌, ◌||◌, List, [], ◌∷◌, ◌++◌, Option,
  none, some, ltb, ◌==◌, if◌then◌else◌, ℤ, pos, negsuc, ltb_ℤ, ◌+ℤ◌, to_u64, to_i64,
}
use ayafileio.Core.Result.{
  ReqType, read, write, other, native_error, value_error, overflow_error, runtime_error, Result, ok,
  throws, io_exception,
}
use ayafileio.Core.FileState.{FileState, ReadPlan, plan_read, plan_read_at, reserve_write}
use ayafileio.Core.Buffer.{Buffer, no_buffer}
use ayafileio.Core.Completion.{Completion, success, counted, read_done, failure, completes_inline}
use ayafileio.Core.Lifecycle.{
  seek_completion, tell_completion, truncate_guard, truncate_failed, truncate_done,
}
use ayafileio.Core.Request.{IoRequest}
use ayafileio.Core.Backend.{
  Ledger, complete_ok, complete_error, complete_inline, code_of, make_req, make_req_read_bytes,
  make_req_held_write, make_req_readinto,
}
use ayafileio.Platform.NativeFile.{Kernel, Sys, returned, failed}
use ayafileio.Backend.Uring.{Opcode, op_read, op_write, op_fsync}

pub record Flight : Type 0 where
  pub request : IoRequest
  pub op : Opcode
  pub len : ℕ
  pub offset : ℕ

pub record UringFile (W : Type 0) : Type 0 where
  pub world : W
  pub fd : ℤ
  pub running : Bool
  pub owns_fd : Bool
  pub state : FileState
  pub ledger : Ledger
  pub has_ring : Bool
  pub in_flight : List Flight

pub record Env : Type 0 where
  pub ring_available : Bool
  pub harvest : List (ℕ × ℤ)
  pub read_buffer : Result Buffer
  pub malloc : Option ℕ
  pub fresh : ℕ

abbrev pub is_minus_one : ℤ → Bool
is_minus_one (negsuc zero) = true
is_minus_one _ = false

-- The request at a place, and the others.
abbrev pub pick : ℕ → List Flight → Option (Flight × List Flight)
pick i [] = none
pick zero (x ∷ xs) = some (x, xs)
pick (suc i) (x ∷ xs) = elim (pick i xs) [ none ↦ none | some (y, ys) ↦ some (y, x ∷ ys) ]

abbrev pub valid_op : Opcode → Bool
valid_op op_read = true
valid_op op_write = true
valid_op op_fsync = true
valid_op _ = false

module _ {W : Type 0} (k : Kernel W) where
  unfoldable pub closed : UringFile W → Bool
  closed t = not t.running || is_minus_one t.fd

  abbrev pub inline : UringFile W → ℕ → Completion → UringFile W
  inline t operation c = record t {
    ledger = record (t.ledger) { events = completes_inline operation c ∷ t.ledger.events };
  }

  abbrev pub closed_failure : ReqType → Completion
  closed_failure type_ = failure type_ (value_error "I/O operation on closed file.")

  abbrev pub size_of : Sys → Option ℕ
  size_of (returned n) = some n
  size_of (failed e) = none

  unfoldable pub refresh_size : UringFile W → Option ℕ
  refresh_size t = size_of (k.fstat_size t.world t.fd)

  unfoldable pub ensure_uring : UringFile W → Env → Result (Unit {0}) × UringFile W
  ensure_uring t env =
      if t.has_ring
      then (ok tt, t)
      else if env.ring_available
      then (ok tt, record t { has_ring = true })
      else (throws (io_exception (runtime_error "Failed to acquire io_uring instance")), t)

  unfoldable pub harvest_one : UringFile W → ℕ → ℤ → UringFile W
  harvest_one t i result = elim (pick i t.in_flight) [
    | none ↦ t
    | some (x, rest) ↦ record t {
      in_flight = rest;
      ledger = complete_inline t.ledger x.request result;
    }
  ]

  unfoldable pub try_harvest_inline : UringFile W → List (ℕ × ℤ) → UringFile W
  try_harvest_inline t [] = t
  try_harvest_inline t ((i, result) ∷ rest) = try_harvest_inline (harvest_one t i result) rest

  -- What the reaper does with one completion of this file.
  abbrev pub reaped : Ledger → IoRequest → ℤ → Ledger
  reaped l request (pos n) = complete_ok l request n
  reaped l request (negsuc n) =
      complete_error l request (native_error (code_of (negsuc n)) "I/O operation failed")

  unfoldable pub reap : UringFile W → ℕ → ℤ → UringFile W
  reap t i result = elim (pick i t.in_flight) [
    | none ↦ t
    | some (x, rest) ↦ record t { in_flight = rest; ledger = reaped t.ledger x.request result }
  ]

  unfoldable pub submit_io : UringFile W → Flight → Env → UringFile W
  submit_io t x env =
      if not t.has_ring || not (valid_op x.op)
      then record t {
        ledger = complete_error t.ledger x.request (native_error 22 "Invalid io_uring operation");
      }
      else try_harvest_inline (record t { in_flight = t.in_flight ++ x ∷ [] }) env.harvest

  -- `m_pending.fetch_add(1)` and the submission, for a request made on a ledger
  abbrev pub start : UringFile W → Ledger → FileState → Flight → Env → UringFile W
  start t ledger state x env =
      submit_io
        (record t { state = state; ledger = record ledger { pending = ledger.pending +ℤ pos 1 } }) x
        env

  abbrev pub flight_of : IoRequest → Opcode → ℕ → ℕ → Flight
  flight_of request op len offset = record {
    request = request;
    op = op;
    len = len % 2 ^ 32;
    offset = offset;
  }

  -- The part of `read` and `read_at` after the request is made, or is not.
  abbrev pub read_made :
      UringFile W
      → FileState
      → (size offset : ℕ) → Env
      → Result IoRequest × Ledger
      → Result (Unit {0}) × UringFile W
  read_made t state size offset env (throws e, ledger) =
      (throws e, record t { state = state; ledger = ledger })
  read_made t state size offset env (ok request, ledger) =
      (ok tt, start t ledger state (flight_of request op_read size offset) env)

  -- What `read` and `read_at` do with a plan.
  unfoldable pub start_read :
      UringFile W → ReadPlan × FileState → ℕ → ℕ → Env → Result (Unit {0}) × UringFile W
  start_read t (plan, state) offset operation env =
      if plan.eof
      then (ok tt, inline (record t { state = state }) operation (read_done no_buffer 0))
      else read_made t state plan.size offset env
          (make_req_read_bytes t.ledger plan.size operation env.read_buffer env.fresh)

  -- The rest of a method after `ensure_uring`.
  abbrev pub with_ring :
      Result (Unit {0}) × UringFile W
      → (UringFile W → Result (Unit {0}) × UringFile W)
      → Result (Unit {0}) × UringFile W
  with_ring (throws e, t) rest = (throws e, t)
  with_ring (ok u, t) rest = rest t

-- ===== src/Backend/Iocp/Worker.antt =====
-- The workers of src/backend/windows/iocp_worker.cpp: what is done with the packets of a completion
-- port. A packet carries the id of a session and the address of a request, and may come late or
-- twice. The hook of the diagnostics, if one is installed, is `check_hook`.
use ayafileio.Base.{
  ℕ, zero, suc, ◌+◌, ◌&&◌, ◌||◌, Bool, true, false, not, List, [], ◌∷◌, Option, none, some, ltb,
  ◌==◌, min, if◌then◌else◌,
}
use ayafileio.Core.Result.{native_error}
use ayafileio.Core.Buffer.{no_buffer}
use ayafileio.Core.Completion.{Completion, failure, completes}
use ayafileio.Core.Request.{IoState, pending, resolved, IoRequest}
use ayafileio.Core.Backend.{is_read, make_io_completion}
use ayafileio.Backend.Iocp.{
  IocpRequest, Session, Thread, Iocp, complete_request, find_request, put_request, is_member, put,
}
use ayafileio.Backend.Iocp.Quarantine.{
  infinite, quarantine_drain, quarantine_timeout, release_request,
}

-- ERROR_OPERATION_ABORTED of the Windows API
abbrev pub error_operation_aborted : ℕ
error_operation_aborted = 995

-- OVERLAPPED_ENTRY: the key, the request if there is one, the bytes and the status
pub record Packet : Type 0 where
  pub key : ℕ
  pub overlapped : Option ℕ
  pub bytes : ℕ
  pub internal : ℕ

abbrev pub is_pending : IoState → Bool
is_pending pending = true
is_pending _ = false

-- `make_io_completion` moves the buffer of a read out of its request.
abbrev pub taken : IoRequest → IoRequest
taken r =
    if is_read r.type_ then (if r.is_readinto then r else record r { buffer = no_buffer }) else r

abbrev pub in_state : IoState → IocpRequest → IocpRequest
in_state st r = record r { request = record (r.request) { state = st } }

-- What a packet gives to the operation of its request.
abbrev pub completion_of : Bool → IoRequest → ℕ → ℕ → Completion
completion_of open_ r bytes error =
    if open_
    then (if error == 0
        then make_io_completion r bytes
        else failure r.type_ (native_error error "I/O operation failed"))
    else failure r.type_ (
        native_error (if error == 0 then error_operation_aborted else error)
          "I/O operation completed after the file was closed")

-- the request that a delivery leaves
abbrev pub delivered : Bool → IocpRequest → ℕ → IocpRequest
delivered open_ r error =
    let resolved_request = in_state resolved r in
    if open_
    then (if error == 0
        then record resolved_request { request = taken resolved_request.request }
        else resolved_request)
    else resolved_request

abbrev pub deleted_by : ℕ → List Thread → Bool
deleted_by a [] = false
deleted_by a (t ∷ ts) = is_member a t.memory.deleted || deleted_by a ts

abbrev pub exchange : ℕ → Thread → List Thread → Thread × List Thread
exchange n t [] = (t, [])
exchange zero t (x ∷ xs) = (x, t ∷ xs)
exchange (suc n) t (x ∷ xs) = let (y, ys) = exchange n t xs in (y, x ∷ ys)

module _ {W : Type 0} where
  abbrev pub request_access_valid : Iocp W → ℕ → Bool
  request_access_valid i a = elim i.check_hook [ none ↦ true | some check ↦ check a ]

  abbrev pub get_session : Iocp W → ℕ → Option ℕ
  get_session i id = if is_member id i.table then some id else none

  abbrev pub set_session : Iocp W → ℕ → Session → Iocp W
  set_session i id s = record i { objects = put id s i.objects }

  abbrev pub complete : Iocp W → ℕ → Completion → Iocp W
  complete i operation c = record i { events = completes operation c ∷ i.events }

  -- the counter of the session, if it is still in the table
  abbrev pub settled : Iocp W → ℕ → Iocp W
  settled i id =
      if is_member id i.table then set_session i id (complete_request (i.objects id)) else i

  -- From `get_session` on: the counter, the operation and the release, in this order.
  unfoldable pub deliver : Iocp W → ℕ → ℕ → IocpRequest → ℕ → ℕ → Iocp W
  deliver i now id r bytes error =
      let open_ = is_member id i.table in
      let after = delivered open_ r error in
      let done =
        complete (settled i id) r.request.operation (completion_of open_ r.request bytes error) in
      release_request (record done { requests = put_request after done.requests }) now after

  unfoldable pub process_found : Iocp W → ℕ → ℕ → IocpRequest → ℕ → ℕ → Iocp W
  process_found i now id r bytes error =
      let claimed = record i { requests = put_request (in_state resolved r) i.requests } in
      if not (r.session_id == id)
      then record i { packets_stale_session = i.packets_stale_session + 1 }
      else if not (is_pending r.request.state)
      then release_request i now r
      else if request_access_valid i r.request.address
      then deliver claimed now id r bytes error
      else claimed

  -- A request that a thread has given to `operator delete`: it was reaped, and it is none that was
  -- made since.
  abbrev pub is_freed : Iocp W → IocpRequest → Bool
  is_freed i r = r.request.reaped && deleted_by r.request.address (i.here ∷ i.others)

  -- An address at which no request was ever made is none that the kernel was given. Reading a request
  -- that was freed is undefined: it is recorded, and nothing is said of what follows.
  unfoldable pub process_one : Iocp W → ℕ → ℕ → ℕ → ℕ → ℕ → Iocp W
  process_one i now id a bytes error = elim (find_request a i.requests) [
    | none ↦ i
    | some r ↦
        if is_freed i r
        then record i { touched_freed = true }
        else process_found i now id r bytes error
  ]

  -- One entry of a batch: the packet that wakes the worker has no request or the key 0.
  abbrev pub process_entry : Iocp W → ℕ → Packet → Iocp W
  process_entry i now p = elim p.overlapped [
    | none ↦ i
    | some a ↦ if p.key == 0 then i else process_one i now p.key a p.bytes p.internal
  ]

  -- Another thread runs in place of this one, or this one again.
  abbrev pub switch : ℕ → Iocp W → Iocp W
  switch n i =
      let (here, others) = exchange n i.here i.others in record i { here = here; others = others }

  -- Packets that other threads handle, each with its thread and the time.
  unfoldable pub handled : Iocp W → List (ℕ × ℕ × Packet) → Iocp W
  handled i [] = i
  handled i ((n, now, p) ∷ ps) = handled (switch n (process_entry (switch n i) now p)) ps

  -- Each packet comes with the time at which it is handled.
  unfoldable pub process_batch : Iocp W → List (ℕ × Packet) → Iocp W
  process_batch i [] = i
  process_batch i ((now, p) ∷ ps) = process_batch (process_entry i now p) ps

  abbrev pub drained : Iocp W → ℕ → Iocp W
  drained i now =
      let (t, s) = quarantine_drain now (i.here, i.stats) in record i { here = t; stats = s }

  -- One turn of the loop of `worker_proc`, with the packets that the port gave; with none it only
  -- drains. `flush_idle` of the host's scheduler is not on this state.
  unfoldable pub worker_turn : Iocp W → List (ℕ × Packet) → ℕ → Iocp W
  worker_turn i packets now = drained (process_batch i packets) now

  -- how long a turn waits, with what the scheduler says if there is one
  unfoldable pub worker_timeout : Iocp W → ℕ → Option ℕ → ℕ
  worker_timeout i now scheduler =
      min (elim scheduler [ none ↦ infinite | some timeout ↦ timeout ])
        (quarantine_timeout now i.here.quarantine)

-- The size of a batch, from the configured one.
unfoldable pub batch_cap : ℕ → ℕ
batch_cap configured =
    if ltb configured 1 then 1 else if ltb 256 configured then 256 else configured

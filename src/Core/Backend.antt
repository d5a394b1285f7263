-- ===== src/Core/Backend.antt =====
-- src/core/io_backend.hpp and io_backend.cpp: what every backend keeps beside its file, how it
-- makes a request and how it hands a result to the operation. `events` are the calls on operations,
-- newest first. Where the code allocates, the addresses that it would get are arguments.
use ayafileio.Base.{
  ℕ, ◌+◌, Bool, true, false, List, ◌∷◌, Option, leb, if◌then◌else◌, ◌&&◌, not, ℤ, pos, negsuc, ◌-ℤ◌,
}
use ayafileio.Core.Result.{
  ReqType, read, write, IoError, native_error, memory_error, Result, ok, throws, io_exception,
}
use ayafileio.Core.BufferPool.{Caches}
use ayafileio.Core.Buffer.{Buffer, no_buffer, is_set, pool, heap}
use ayafileio.Core.Completion.{
  Completion, success, failure, Event, submitted, completes, completes_inline,
}
use ayafileio.Core.Request.{IoRequest, Memory, req_alloc, req_free}

-- `m_pending` is a signed counter; `m_close_wake` counts releases of the semaphore.
pub record Ledger : Type 0 where
  pub pending : ℤ
  pub close_wake : ℕ
  pub events : List Event
  pub memory : Memory
  pub caches : Caches
  pub cached_buffer_size : ℕ

abbrev pub is_read : ReqType → Bool
is_read read = true
is_read _ = false

-- The buffer of a read that is not a readinto moves to the completion.
unfoldable pub make_io_completion : IoRequest → ℕ → Completion
make_io_completion request bytes = record (success request.type_ bytes) {
  return_count = request.is_readinto;
  buffer = if is_read request.type_ && not request.is_readinto then request.buffer else no_buffer;
}

-- The first two lines of each completion, the call on the operation, and REQ_FREE.
abbrev pub settle : Ledger → Event → ℕ → Ledger
settle l event address = record l {
  pending = l.pending -ℤ pos 1;
  close_wake = l.close_wake + 1;
  events = event ∷ l.events;
  memory = req_free l.memory address;
}

unfoldable pub complete_ok : Ledger → IoRequest → ℕ → Ledger
complete_ok l request bytes =
    settle l (completes request.operation (make_io_completion request bytes)) request.address

unfoldable pub complete_error : Ledger → IoRequest → IoError → Ledger
complete_error l request error =
    settle l (completes request.operation (failure request.type_ error)) request.address

-- `-result` as an error code
abbrev pub code_of : ℤ → ℕ
code_of (pos n) = 0
code_of (negsuc n) = n + 1

abbrev pub inline_result : IoRequest → ℤ → Completion
inline_result request (pos n) = make_io_completion request n
inline_result request (negsuc n) =
    failure request.type_ (native_error (code_of (negsuc n)) "I/O operation failed")

unfoldable pub complete_inline : Ledger → IoRequest → ℤ → Ledger
complete_inline l request result =
    settle l (completes_inline request.operation (inline_result request result)) request.address

unfoldable pub complete_error_inline : Ledger → IoRequest → IoError → Ledger
complete_error_inline l request error =
    settle l (completes_inline request.operation (failure request.type_ error)) request.address

unfoldable pub make_shell : Ledger → ℕ → ReqType → ℕ → IoRequest × Ledger
make_shell l operation type_ fresh =
    let (request, memory) = req_alloc l.memory fresh in
    (
      record request { operation = operation; type_ = type_ },
      record l { memory = memory; events = submitted operation ∷ l.events },
    )

-- a shell with the fields of the four kinds of request
abbrev pub make_with : Ledger → ℕ → ReqType → ℕ → ℕ → Buffer → Bool → Bool → IoRequest × Ledger
make_with l operation type_ fresh size buffer readinto held =
    let (request, l') = make_shell l operation type_ fresh in
    (
      record request {
        req_size = size;
        buffer = buffer;
        is_readinto = readinto;
        holds_write_buf = held;
      },
      l',
    )

-- the lines of `make_req` after the buffer
unfoldable pub make_req_on :
    Ledger → ℕ → ℕ → ReqType → ℕ → Result Buffer × Caches → Result IoRequest × Ledger
make_req_on l size operation type_ fresh (throws e, caches) =
    (throws e, record l { caches = caches })
make_req_on l size operation type_ fresh (ok buffer, caches) =
    let (request, l') =
      make_with (record l { caches = caches }) operation type_ fresh size buffer false false in
    (ok request, l')

unfoldable pub make_req : Ledger → ℕ → ℕ → ReqType → Option ℕ → ℕ → Result IoRequest × Ledger
make_req l size operation type_ malloc fresh = make_req_on l size operation type_ fresh (
    if leb size l.cached_buffer_size
    then pool l.caches size malloc
    else (heap size malloc, l.caches))

-- What `operation->allocate_read_buffer(size)` returns is an argument: the host decides.
unfoldable pub make_req_read_bytes : Ledger → ℕ → ℕ → Result Buffer → ℕ → Result IoRequest × Ledger
make_req_read_bytes l size operation (throws e) fresh = (throws e, l)
make_req_read_bytes l size operation (ok buffer) fresh =
    if is_set buffer
    then (let (request, l') = make_with l operation read fresh size buffer false false in
        (ok request, l'))
    else (throws (io_exception (memory_error "Failed to allocate read result")), l)

unfoldable pub make_req_held_write : Ledger → Buffer → ℕ → ℕ → IoRequest × Ledger
make_req_held_write l view operation fresh =
    make_with l operation write fresh view.size view false true

unfoldable pub make_req_readinto : Ledger → Buffer → ℕ → ℕ → ℕ → IoRequest × Ledger
make_req_readinto l view size operation fresh =
    make_with l operation read fresh size view true false

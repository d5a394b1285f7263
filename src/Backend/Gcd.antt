-- ===== src/Backend/Gcd.antt =====
-- src/backend/macos/macos_gcd_backend.cpp: a file whose reads and writes run on the shared thread pool
-- or on a channel of Grand Central Dispatch, large reads in chunks that run side by side. What is in
-- flight is a list; a step finishes a part of one entry, with any result.
pub mod Chunks
pub mod Methods
pub mod Completed
pub mod Histories
mod Tests
use ayafileio.Base.{
  ℕ, zero, suc, ◌+◌, ◌-◌, ◌*◌, ◌/◌, ◌%◌, Bool, true, false, not, ◌&&◌, ◌||◌, List, [], ◌∷◌, ◌++◌,
  Option, none, some, ltb, leb, ◌==◌, min, if◌then◌else◌, ℤ, pos, negsuc, ◌+ℤ◌,
}
use ayafileio.Core.Result.{ReqType, native_error, value_error}
use ayafileio.Core.FileState.{FileState, set_cached_size, set_file_pos}
use ayafileio.Core.Completion.{Completion, failure, completes_inline}
use ayafileio.Core.Request.{IoRequest}
use ayafileio.Core.Backend.{Ledger, complete_ok, complete_error, complete_inline}
use ayafileio.Platform.NativeFile.{Kernel, Sys, returned, failed}

abbrev pub large_io_threshold : ℕ
large_io_threshold = 256 * 1024

abbrev pub parallel_read_threshold : ℕ
parallel_read_threshold = 1024 * 1024

abbrev pub parallel_read_chunk : ℕ
parallel_read_chunk = 512 * 1024

-- `ParallelReadGroup`, with the chunks that have not finished: their places and lengths.
pub record Group : Type 0 where
  pub request : IoRequest
  pub remaining : ℕ
  pub copied : ℕ
  pub first_errno : ℕ
  pub chunks : List (ℕ × ℕ)

-- A task of the pool, a group of them, or a transfer of the channel with the bytes that it has.
pub data Flight : Type 0 where
  fast : IoRequest → Flight
  parallel : Group → Flight
  channel_read : IoRequest → (total : ℕ) → Flight
  channel_write : IoRequest → (size : ℕ) → Flight

-- One call of a transfer's handler, or the answer to a task's read or write.
pub record Block : Type 0 where
  pub done : Bool
  pub length : ℕ
  pub error : ℕ

pub data Happening : Type 0 where
  task_ends : Sys → Happening
  chunk_ends : (place : ℕ) → Sys → Happening
  handler_runs : Block → Happening

pub record GcdFile (W : Type 0) : Type 0 where
  pub world : W
  pub fd : ℤ
  pub running : Bool
  pub owns_fd : Bool
  pub state : FileState
  pub ledger : Ledger
  pub map_size : ℕ
  pub in_flight : List Flight

-- `(size + chunk_size - 1) / chunk_size`
abbrev pub chunk_count : ℕ → ℕ → ℕ
chunk_count size chunk_size = (size + chunk_size - 1) / chunk_size

-- The doubling of the chunk size until there are no more than 256 chunks.
unfoldable pub chunk_size_from : ℕ → ℕ → ℕ → ℕ
chunk_size_from zero size chunk_size = chunk_size
chunk_size_from (suc fuel) size chunk_size =
    let rest = chunk_size_from fuel size (chunk_size * 2) in
    if ltb 256 (chunk_count size chunk_size) then rest else chunk_size

-- The chunks from an index on.
unfoldable pub chunks_from : (count index size chunk_size : ℕ) → List (ℕ × ℕ)
chunks_from zero index size chunk_size = []
chunks_from (suc count) index size chunk_size =
    (index * chunk_size, min chunk_size (size - index * chunk_size))
    ∷ chunks_from count (suc index) size chunk_size

-- 64 doublings take a chunk of a byte or more beyond any size_t.
unfoldable pub make_group : IoRequest → ℕ → Group
make_group request size =
    let chunk_size = chunk_size_from 64 size parallel_read_chunk in
    let chunks = chunk_count size chunk_size in
    record {
      request = request;
      remaining = chunks;
      copied = 0;
      first_errno = 0;
      chunks = chunks_from chunks 0 size chunk_size;
    }

abbrev pub take_chunk : ℕ → List (ℕ × ℕ) → Option ((ℕ × ℕ) × List (ℕ × ℕ))
take_chunk i [] = none
take_chunk zero (c ∷ cs) = some (c, cs)
take_chunk (suc i) (c ∷ cs) = elim (take_chunk i cs) [
  | none ↦ none
  | some (x, xs) ↦ some (x, c ∷ xs)
]

-- The bytes are added, or the first error is kept.
abbrev pub counted_in : Group → Sys → Group
counted_in g (returned n) = record g { copied = g.copied + n }
counted_in g (failed e) = record g { first_errno = if g.first_errno == 0 then e else g.first_errno }

-- The group after a chunk of it, and whether it was the last one.
unfoldable pub end_chunk : Group → List (ℕ × ℕ) → Sys → Bool × Group
end_chunk g rest answer =
    let counted = counted_in g answer in
    (g.remaining == 1, record counted { remaining = g.remaining - 1; chunks = rest })

abbrev pub finish_group : Ledger → Group → Ledger
finish_group l g =
    if g.first_errno == 0
    then complete_ok l g.request g.copied
    else complete_error l g.request (native_error g.first_errno "I/O operation failed")

abbrev pub finish_task : Ledger → IoRequest → Sys → Ledger
finish_task l request (returned n) = complete_ok l request n
finish_task l request (failed e) = complete_error l request (native_error e "I/O operation failed")

-- What one entry becomes, if it stays in flight, and the ledger.
abbrev pub group_step :
    Ledger → Group → Sys → Option ((ℕ × ℕ) × List (ℕ × ℕ)) → Option Flight × Ledger
group_step l g answer none = (some (parallel g), l)
group_step l g answer (some (c, rest)) =
    let (last, g') = end_chunk g rest answer in
    if last then (none, finish_group l g') else (some (parallel g'), l)

-- A transfer's handler is not called again after an error, as the channel documents.
abbrev pub read_block : Ledger → IoRequest → ℕ → Block → Option Flight × Ledger
read_block l request total b =
    if not (b.error == 0)
    then (none, complete_error l request (native_error b.error "I/O operation failed"))
    else if b.done
    then (none, complete_ok l request (total + b.length))
    else (some (channel_read request (total + b.length)), l)

abbrev pub write_block : Ledger → IoRequest → ℕ → Block → Option Flight × Ledger
write_block l request size b =
    if not (b.error == 0)
    then (none, complete_error l request (native_error b.error "I/O operation failed"))
    else if b.done
    then (none, complete_ok l request size)
    else (some (channel_write request size), l)

unfoldable pub happen : Ledger → Flight → Happening → Option Flight × Ledger
happen l (fast r) (task_ends s) = (none, finish_task l r s)
happen l (parallel g) (chunk_ends i s) = group_step l g s (take_chunk i g.chunks)
happen l (channel_read r total) (handler_runs b) = read_block l r total b
happen l (channel_write r size) (handler_runs b) = write_block l r size b
happen l f h = (some f, l)

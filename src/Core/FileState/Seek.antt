-- ===== src/Core/FileState/Seek.antt =====
-- Seeking and truncation of src/core/file_state.hpp and file_state.cpp.
use ayafileio.Base.{
  ℕ, ◌+◌, ◌^◌, ◌≤◌, ◌<◌, ◌≡◌, Option, none, some, min, ltb, ◌==◌, if◌then◌else◌, ℤ, pos, negsuc,
  ◌+ℤ◌, IsI64, to_i64, to_u64, add_i64, arith,
}
use ayafileio.Core.FileState.{FileState, seek, move_to, refreshed, apply_truncate, plan_read}
use ayafileio.Core.FileState.Read.{IsValid, IsSize, plan_read_lem, known_size, granted-le}

-- The offset that `whence` counts from: 0, the position, or the size, which is asked for anew.
abbrev pub base : FileState → ℕ → ℕ
base s whence = if whence == 0 then 0 else if whence == 1 then s.file_pos else s.cached_size

abbrev pub asked : FileState → ℕ → Option ℕ → FileState
asked s whence refresh = if whence == 2 then refreshed s refresh else s

-- The position moves to an offset below 2^63, and nothing else is an offset.
abbrev pub arrive : FileState → ℤ → Option ℕ × FileState
arrive s (negsuc _) = (none, s)
arrive s (pos n) = if ltb n (2 ^ 63) then (some n, record s { file_pos = n }) else (none, s)

move_to-add_i64 :
    (s : FileState) (b : ℕ) (offset : ℤ)
    → b < 2 ^ 63
    → IsI64 offset
    → move_to s (add_i64 (to_i64 b) offset) ≡ arrive s (pos b +ℤ offset)
unfolding add_i64 to_u64 to_i64
move_to-add_i64 s b (pos n) h i = ground arith
move_to-add_i64 s b (negsuc n) h i = ground arith

move_to_lem :
    (s : FileState) (offset : ℤ) → IsI64 offset → move_to s offset ≡ arrive s (pos 0 +ℤ offset)
unfolding to_u64 ◌+ℤ◌
move_to_lem s (pos n) i = ground arith
move_to_lem s (negsuc n) i = ground arith

-- For a valid state, a kernel answer below 2^63, an int64_t offset and `whence` 0, 1 or 2, a seek
-- goes to the sum of its base and the offset, computed without bound, where that sum lies in
-- [0, 2^63), and otherwise returns nothing and leaves the position alone; the base of `whence` 2 is
-- the size that the kernel gives, or the cached one, and only then is the cache updated.
pub seek_lem :
    (s : FileState) (offset : ℤ) (whence : ℕ) (refresh : Option ℕ)
    → IsValid s
    → IsSize refresh
    → IsI64 offset
    → whence < 3
    → let t = asked s whence refresh in
      seek s offset (pos whence) refresh ≡ arrive t (pos (base t whence) +ℤ offset)
unfolding seek
seek_lem s offset whence none h k i w = ground (
  arith,
  move_to_lem s offset i,
  move_to-add_i64 s s.file_pos offset h.0 i,
  move_to-add_i64 s s.cached_size offset h.1 i,
)
seek_lem s offset whence (some n) h k i w = ground (
  arith,
  move_to_lem s offset i,
  move_to-add_i64 s s.file_pos offset h.0 i,
  move_to-add_i64 (refreshed s (some n)) n offset k i,
)

apply_truncate_lem :
    (s : FileState) (size : ℕ)
    → ((apply_truncate s size).file_pos ≡ min s.file_pos size)
      × ((apply_truncate s size).cached_size ≡ size)
unfolding apply_truncate
apply_truncate_lem s size = ground arith

-- After a truncation to a size below 2^63, and while the kernel reports that size, a sequential
-- read from a valid state starts at the old position or at the size, whichever is less, ends at the
-- size at most, and moves the position to its end.
pub plan_read-apply_truncate :
    (s : FileState) (size : ℕ) (requested : ℤ)
    → IsValid s
    → size < 2 ^ 63
    → IsI64 requested
    → let (plan, t) = plan_read (apply_truncate s size) requested (some size) in
      (plan.offset ≡ min s.file_pos size)
      × (plan.offset + plan.size ≤ size)
      × (t.file_pos ≡ plan.offset + plan.size)
      × (t.cached_size ≡ size)
plan_read-apply_truncate s size requested h k i =
    let t = apply_truncate s size in
    let e = apply_truncate_lem s size in
    rw (plan_read_lem t (some size) (omega (arith, e)) k requested i)
      (ground (arith, e, granted-le requested (known_size t t.file_pos (some size)) t.file_pos))

-- ===== src/Core/FileState.antt =====
-- src/core/file_state.hpp and file_state.cpp: the logical position and the cached size of a file.
-- Each method runs under the object's mutex, so it is one step on the record. A `Refresh` callback
-- is the answer that it would give, `none` where it cannot tell the size; it is looked at only
-- where the code calls it.
pub mod Read
pub mod Write
pub mod Seek
mod Tests
use ayafileio.Base.{
  ℕ, Bool, true, false, Option, none, some, min, ltb, leb, ◌==◌, if◌then◌else◌, ℤ, pos, negsuc,
  ltb_ℤ, leb_ℤ, to_i64, to_u64, add_i64, sub_i64, add_u64,
}

pub record ReadPlan : Type 0 where
  pub offset : ℕ
  pub size : ℕ
  pub eof : Bool

pub record FileState : Type 0 where
  pub file_pos : ℕ
  pub cached_size : ℕ
  pub append_mode : Bool

abbrev pub initial_state : Bool → FileState
initial_state append = record { file_pos = 0; cached_size = 0; append_mode = append }

-- `ReadPlan{}`
abbrev pub empty_plan : ReadPlan
empty_plan = record { offset = 0; size = 0; eof = true }

unfoldable pub remaining_unlocked : FileState → ℕ → ℤ
remaining_unlocked s offset = sub_i64 (to_i64 s.cached_size) (to_i64 offset)

-- `if (auto refreshed = refresh(); refreshed) cached_size_ = *refreshed;`
abbrev pub refreshed : FileState → Option ℕ → FileState
refreshed s none = s
refreshed s (some size) = record s { cached_size = size }

-- `requested < 0 ? remaining : min(requested, remaining)`, where `remaining` is positive
unfoldable pub plan_size : ℤ → ℤ → ℕ
plan_size requested remaining =
    if ltb_ℤ requested (pos 0) then to_u64 remaining else min (to_u64 requested) (to_u64 remaining)

unfoldable pub plan_read_locked : FileState → ℕ → ℤ → Bool → ReadPlan × FileState
plan_read_locked s offset requested sequential =
    let remaining : ℤ = remaining_unlocked s offset in
    let size : ℕ = plan_size requested remaining in
    if leb_ℤ remaining (pos 0)
    then (record { offset = offset; size = 0; eof = true }, s)
    else if size == 0
    then (record { offset = offset; size = 0; eof = true }, s)
    else (
      record { offset = offset; size = size; eof = false },
      if sequential then record s { file_pos = add_u64 offset size } else s,
    )

-- The cached size is asked for anew where the cache says that nothing is left.
unfoldable pub refresh_at : FileState → ℕ → Option ℕ → FileState
refresh_at s offset refresh =
    if leb_ℤ (remaining_unlocked s offset) (pos 0) then refreshed s refresh else s

unfoldable pub plan_read : FileState → ℤ → Option ℕ → ReadPlan × FileState
plan_read s requested refresh =
    plan_read_locked (refresh_at s s.file_pos refresh) s.file_pos requested true

unfoldable pub plan_read_at : FileState → ℤ → ℤ → Option ℕ → ReadPlan × FileState
plan_read_at s offset requested refresh =
    if ltb_ℤ offset (pos 0)
    then (empty_plan, s)
    else plan_read_locked (refresh_at s (to_u64 offset) refresh) (to_u64 offset) requested false

-- where a write of `position` starts
unfoldable pub write_offset : FileState → ℤ → ℕ
write_offset s position =
    if ltb_ℤ position (pos 0)
    then (if s.append_mode then s.cached_size else s.file_pos)
    else to_u64 position

unfoldable pub reserve_write : FileState → ℤ → ℕ → ℕ × FileState
reserve_write s position size =
    let offset : ℕ = write_offset s position in
    let end_ : ℕ = add_u64 offset size in
    (
      offset,
      record s {
        file_pos = if ltb_ℤ position (pos 0) then end_ else s.file_pos;
        cached_size = if ltb s.cached_size end_ then end_ else s.cached_size;
      },
    )

unfoldable pub apply_truncate : FileState → ℕ → FileState
apply_truncate s size = record s {
  cached_size = size;
  file_pos = if ltb size s.file_pos then size else s.file_pos;
}

-- the last lines of `seek`: a negative target is refused, any other becomes the position
abbrev pub move_to : FileState → ℤ → Option ℕ × FileState
move_to s target =
    if ltb_ℤ target (pos 0)
    then (none, s)
    else (some (to_u64 target), record s { file_pos = to_u64 target })

abbrev pub seek_end : FileState → ℤ → Option ℕ × FileState
seek_end t offset = move_to t (add_i64 (to_i64 t.cached_size) offset)

unfoldable pub seek : FileState → ℤ → ℤ → Option ℕ → Option ℕ × FileState
seek s offset (pos whence) refresh =
    if whence == 0
    then move_to s offset
    else if whence == 1
    then move_to s (add_i64 (to_i64 s.file_pos) offset)
    else if whence == 2
    then seek_end (refreshed s refresh) offset
    else (none, s)
seek s offset (negsuc _) refresh = (none, s)

abbrev pub tell : FileState → ℕ
tell s = s.file_pos

abbrev pub set_cached_size : FileState → ℕ → FileState
set_cached_size s size = record s { cached_size = size }

abbrev pub set_file_pos : FileState → ℕ → FileState
set_file_pos s position = record s { file_pos = position }

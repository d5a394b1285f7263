-- ===== src/Core/Lifecycle.antt =====
-- src/core/file_lifecycle.hpp: the policy of seek, tell and truncate that all backends share.
pub mod Laws
mod Tests
use ayafileio.Base.{
  ℕ, Bool, true, false, ◌||◌, Option, none, some, if◌then◌else◌, ℤ, pos, negsuc, ltb_ℤ, to_u64,
}
use ayafileio.Core.Result.{other, value_error, native_error}
use ayafileio.Core.FileState.{FileState, seek, tell, apply_truncate}
use ayafileio.Core.Completion.{Completion, success, counted, failure}

unfoldable pub seek_completion : FileState → ℤ → ℤ → Option ℕ → Completion × FileState
seek_completion state offset whence refresh =
    if ltb_ℤ whence (pos 0) || ltb_ℤ (pos 2) whence
    then (failure other (value_error "Invalid whence value"), state)
    else (let (position, state') = seek state offset whence refresh in
        (
          elim position [
            | none ↦ failure other (value_error "negative seek position")
            | some p ↦ counted other p
          ],
          state',
        ))

unfoldable pub tell_completion : FileState → Completion
tell_completion state = counted other (tell state)

-- A value means that the size is refused.
unfoldable pub truncate_guard : ℤ → Option Completion
truncate_guard size =
    if ltb_ℤ size (pos 0)
    then some (failure other (value_error "negative size not allowed"))
    else none

unfoldable pub truncate_failed : ℕ → Completion
truncate_failed native_code = failure other (native_error native_code "truncate failed")

unfoldable pub truncate_done : FileState → ℤ → Completion × FileState
truncate_done state size = (success other 0, apply_truncate state (to_u64 size))

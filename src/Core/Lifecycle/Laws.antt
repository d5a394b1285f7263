-- ===== src/Core/Lifecycle/Laws.antt =====
-- What the shared policy promises to a caller, with no assumption on the state.
use ayafileio.Base.{ℕ, ◌≡◌, refl, ◌⊎◌, inr, Option, none, some, ℤ, pos, negsuc, arith}
use ayafileio.Core.Result.{other, value}
use ayafileio.Core.FileState.{FileState, seek, move_to}
use ayafileio.Core.Completion.{Completion, counted}
use ayafileio.Core.Lifecycle.{seek_completion, tell_completion}

-- A seek either says where the position is now, which `tell` then says too, or fails as a value
-- error and leaves the position where it was.
abbrev pub Sought : FileState → Completion × FileState → Type 0
Sought s (c, t) =
    ((c ≡ counted other t.file_pos) × (tell_completion t ≡ c))
    ⊎ ((c.error.kind ≡ value) × (t.file_pos ≡ s.file_pos))

move_to-Sought :
    (s t : FileState) (target : ℤ)
    → t.file_pos ≡ s.file_pos
    → let (p, u) = move_to t target in
      ((p ≡ some u.file_pos)) ⊎ ((p ≡ none) × (u.file_pos ≡ s.file_pos))
move_to-Sought s t target h = ground arith

seek-Sought :
    (s : FileState) (offset whence : ℤ) (refresh : Option ℕ)
    → let (p, u) = seek s offset whence refresh in
      ((p ≡ some u.file_pos)) ⊎ ((p ≡ none) × (u.file_pos ≡ s.file_pos))
unfolding seek
seek-Sought s offset (negsuc n) refresh = inr (refl, refl)
seek-Sought s offset (pos n) none = ground arith
seek-Sought s offset (pos n) (some k) = ground arith

-- Whatever the state, the offset, `whence` and the kernel's answer, a seek either completes with
-- the count of the new position, which is also what tell then completes with, or completes with a
-- value error and leaves the position alone.
pub seek_completion-Sought :
    (s : FileState) (offset whence : ℤ) (refresh : Option ℕ)
    → Sought s (seek_completion s offset whence refresh)
unfolding seek_completion tell_completion
seek_completion-Sought s offset whence refresh = ground (arith, seek-Sought s offset whence refresh)

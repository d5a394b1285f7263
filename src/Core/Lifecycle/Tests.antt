-- ===== src/Core/Lifecycle/Tests.antt =====
-- The seek policy at a state.
use ayafileio.Base.{false}
use ayafileio.Core.FileState.{FileState}

abbrev middle : FileState
middle = record { file_pos = 5; cached_size = 10; append_mode = false }

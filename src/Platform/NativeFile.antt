-- ===== src/Platform/NativeFile.antt =====
-- src/platform/native_file.hpp, the POSIX branch. The system calls are the parameter `Kernel`: each
-- takes the world and answers with a value or an errno. The error variable is thread-local, so it is
-- part of what a call threads through, beside the world.
use ayafileio.Base.{ℕ, Bool, true, false, Option, none, some, ℤ, pos, negsuc}

-- What a system call returns: a value that is not negative, or -1 with an errno.
pub data Sys : Type 0 where
  returned : ℕ → Sys
  failed : ℕ → Sys

-- The answers to one call that is repeated while it is interrupted: some EINTR, then another one.
pub data Answers : Type 0 where
  done : Sys → Answers
  eintr : Answers → Answers

-- The system calls: pread, pwrite, fstat's size, fsync, ftruncate, close and fcntl's O_APPEND.
pub record Kernel (W : Type 0) : Type 0 where
  pub pread : W → ℤ → ℕ → ℕ → Answers × W
  pub pwrite : W → ℤ → ℕ → ℕ → Answers × W
  pub fstat_size : W → ℤ → Sys
  pub fsync : W → ℤ → Sys × W
  pub ftruncate : W → ℤ → ℕ → Sys × W
  pub close_fd : W → ℤ → W
  pub is_append : W → ℤ → Bool

abbrev pub file_invalid : ℤ
file_invalid = negsuc 0

-- The world, and `g_native_file_error` of the running thread.
pub record Os (W : Type 0) : Type 0 where
  pub world : W
  pub last_error : ℕ

-- `do { … } while (got < 0 && errno == EINTR)`
unfoldable pub retry : Answers → Sys
retry (done s) = s
retry (eintr rest) = retry rest

module _ {W : Type 0} (k : Kernel W) where
  abbrev pub report : Sys → W → ℤ × Os W
  report (returned n) w = (pos n, record { world = w; last_error = 0 })
  report (failed e) w = (negsuc 0, record { world = w; last_error = e })

  unfoldable pub file_pread : Os W → ℤ → ℕ → ℕ → ℤ × Os W
  unfolding retry
  file_pread os h n offset =
      let (answers, w) = k.pread os.world h n offset in report (retry answers) w

  unfoldable pub file_pwrite : Os W → ℤ → ℕ → ℕ → ℤ × Os W
  unfolding retry
  file_pwrite os h n offset =
      let (answers, w) = k.pwrite os.world h n offset in report (retry answers) w

  -- The size, or `none` where the code returns false.
  abbrev pub sized : Sys → W → Option ℕ × Os W
  sized (returned n) w = (some n, record { world = w; last_error = 0 })
  sized (failed e) w = (none, record { world = w; last_error = e })

  unfoldable pub file_size : Os W → ℤ → Option ℕ × Os W
  file_size os h = sized (k.fstat_size os.world h) os.world

  abbrev pub status : Sys → W → Bool × Os W
  status (returned n) w = (true, record { world = w; last_error = 0 })
  status (failed e) w = (false, record { world = w; last_error = e })

  -- true for a return of 0
  unfoldable pub file_fsync : Os W → ℤ → Bool × Os W
  file_fsync os h = let (s, w) = k.fsync os.world h in status s w

  unfoldable pub file_truncate : Os W → ℤ → ℕ → Bool × Os W
  file_truncate os h size = let (s, w) = k.ftruncate os.world h size in status s w

  unfoldable pub file_close : Os W → ℤ → Os W
  file_close os h = record os { world = k.close_fd os.world h }

  unfoldable pub file_is_append : Os W → ℤ → Bool
  file_is_append os h = k.is_append os.world h

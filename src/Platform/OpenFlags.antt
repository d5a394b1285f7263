-- ===== src/Platform/OpenFlags.antt =====
-- How a mode becomes the flags of an open: the thread-pool backend's flags of
-- src/backend/thread/thread_io_backend.cpp and what src/platform/native_file.hpp makes of them, those
-- of src/backend/linux/io_uring_backend.cpp and native_open.cpp, and those of
-- src/backend/windows/windows_io_backend.cpp. A set of flags is a record with one field for each bit.
pub mod Agreement
mod Tests
use ayafileio.Base.{Bool, true, false, not, ◌&&◌, ◌||◌, if◌then◌else◌}
use ayafileio.Core.FileMode.{ModeInfo}

-- `FileOpenFlags`
pub record FileOpenFlags : Type 0 where
  pub open_read : Bool
  pub open_write : Bool
  pub open_create : Bool
  pub open_truncate : Bool
  pub open_append : Bool
  pub open_exclusive : Bool

abbrev pub flags_of : Bool → Bool → Bool → Bool → Bool → Bool → FileOpenFlags
flags_of r w c t a x = record {
  open_read = r;
  open_write = w;
  open_create = c;
  open_truncate = t;
  open_append = a;
  open_exclusive = x;
}

-- The constructor of the thread-pool backend.
unfoldable pub native_flags : ModeInfo → FileOpenFlags
native_flags info =
    let flags =
      if info.has_w
      then flags_of false true true true false false
      else if info.has_a
      then flags_of false true true false true false
      else if info.has_x
      then flags_of false true true false false true
      else flags_of true false false false false false in
    if info.plus then record flags { open_read = true; open_write = true } else flags

pub data AccessMode : Type 0 where
  rdonly wronly rdwr : AccessMode

-- The `oflags` of `open(2)`.
pub record PosixFlags : Type 0 where
  pub access : AccessMode
  pub creat : Bool
  pub trunc : Bool
  pub append : Bool
  pub excl : Bool

abbrev pub oflags_of : AccessMode → Bool → Bool → Bool → Bool → PosixFlags
oflags_of access c t a x = record { access = access; creat = c; trunc = t; append = a; excl = x }

-- `file_open` on POSIX
unfoldable pub posix_flags : FileOpenFlags → PosixFlags
posix_flags flags =
    oflags_of
      (if flags.open_read && flags.open_write
        then rdwr
        else if flags.open_write
        then wronly
        else rdonly)
      (flags.open_create || flags.open_exclusive) flags.open_truncate flags.open_append
      flags.open_exclusive

-- `open_flags` of the io_uring backend; `submit_native_aopen` has the same lines.
unfoldable pub uring_flags : ModeInfo → PosixFlags
uring_flags info =
    let flags =
      if info.has_w
      then oflags_of wronly true true false false
      else if info.has_a
      then oflags_of wronly true false true false
      else if info.has_x
      then oflags_of wronly true false false true
      else oflags_of rdonly false false false false in
    if info.plus then record flags { access = rdwr } else flags

pub data Disposition : Type 0 where
  create_new create_always open_always open_existing : Disposition

pub record WindowsOpen : Type 0 where
  pub generic_read : Bool
  pub generic_write : Bool
  pub disposition : Disposition

-- `file_open` on Windows
unfoldable pub windows_open : FileOpenFlags → WindowsOpen
windows_open flags = record {
  generic_read = flags.open_read || not (flags.open_read || flags.open_write);
  generic_write = flags.open_write;
  disposition =
      if flags.open_exclusive
      then create_new
      else if flags.open_truncate
      then create_always
      else if flags.open_create
      then open_always
      else open_existing;
}

-- `WindowsIOBackend::init_from_path`: a later letter overrides an earlier one.
unfoldable pub iocp_open : ModeInfo → WindowsOpen
iocp_open info = record {
  generic_read = info.can_read;
  generic_write = info.can_write;
  disposition =
      if info.has_x
      then create_new
      else if info.has_a
      then open_always
      else if info.has_w
      then create_always
      else open_existing;
}

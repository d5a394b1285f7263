-- ===== src/Platform/OpenFlags/Agreement.antt =====
-- Where the backends open a file alike, and where they differ.
use ayafileio.Base.{ℕ, ◌≡◌, ◌↔◌, List, Bool, true, false, not, ◌&&◌, ◌||◌, if◌then◌else◌, arith}
use ayafileio.Core.Result.{ok}
use ayafileio.Core.FileMode.{ModeInfo, permit, parse_flags, parse_mode}
use ayafileio.Platform.OpenFlags.{
  native_flags, posix_flags, uring_flags, windows_open, iocp_open, AccessMode, rdonly, wronly,
}

-- For every mode, the thread-pool backend on POSIX and the io_uring backend open a file with the
-- same flags.
pub posix_flags-native_flags :
    (info : ModeInfo) → posix_flags (native_flags info) ≡ uring_flags info
unfolding posix_flags native_flags uring_flags
posix_flags-native_flags info = ground arith

abbrev pub reads : AccessMode → Bool
reads wronly = false
reads _ = true

abbrev pub writes : AccessMode → Bool
writes rdonly = false
writes _ = true

-- one of r, w, a, x and no other
abbrev pub one_letter : ModeInfo → Bool
one_letter i =
    if i.has_r
    then not (i.has_w || i.has_a || i.has_x)
    else if i.has_w
    then not (i.has_a || i.has_x)
    else not (i.has_a && i.has_x)

-- For an accepted mode with one of the letters r, w, a, x, the descriptor can be read where the mode
-- permits reading, and written where it permits writing or has an x; it appends exactly for a,
-- truncates exactly for w, fails on an existing file exactly for x, and creates one for w, a and x.
pub uring_flags-parse_mode :
    (mode : List ℕ) (info : ModeInfo)
    → parse_mode mode ≡ ok info
    → one_letter info ≡ true
    → (reads (uring_flags info).access ≡ info.can_read)
      × (writes (uring_flags info).access ≡ info.can_write || info.has_x)
      × ((uring_flags info).append ≡ info.append_mode)
      × ((uring_flags info).trunc ≡ info.has_w)
      × ((uring_flags info).excl ≡ info.has_x)
      × ((uring_flags info).creat ≡ info.has_w || info.has_a || info.has_x)
unfolding uring_flags parse_mode parse_flags permit
uring_flags-parse_mode mode info h one = ground arith

-- On Windows, the thread-pool backend and the IOCP backend create, open or truncate a file alike for
-- an accepted mode exactly when that does not combine a with w or x.
pub windows_open-iocp_open :
    (mode : List ℕ) (info : ModeInfo)
    → parse_mode mode ≡ ok info
    → ((windows_open (native_flags info)).disposition ≡ (iocp_open info).disposition)
      ↔ ((info.has_a && (info.has_w || info.has_x)) ≡ false)
unfolding windows_open native_flags iocp_open parse_mode parse_flags permit
windows_open-iocp_open mode info h = ground arith

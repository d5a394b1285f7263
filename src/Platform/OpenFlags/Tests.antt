-- ===== src/Platform/OpenFlags/Tests.antt =====
-- The flags at two modes.
use ayafileio.Base.{ℕ, ◌≡◌, ◌↔◌, refl, List, [], ◌∷◌, true, false, ◌&&◌, ◌||◌}
use ayafileio.Core.Result.{ok}
use ayafileio.Core.FileMode.{ModeInfo, permit, parse_mode}
use ayafileio.Platform.OpenFlags.{native_flags, posix_flags, uring_flags, windows_open, iocp_open}
use ayafileio.Platform.OpenFlags.Agreement.{posix_flags-native_flags, windows_open-iocp_open}

-- "r+"
abbrev update_mode : List ℕ
update_mode = b'r' ∷ b'+' ∷ []

abbrev update_info : ModeInfo
update_info = record {
  can_read = true;
  can_write = true;
  append_mode = false;
  plus = true;
  has_r = true;
  has_w = false;
  has_a = false;
  has_x = false;
}

parse_update : parse_mode update_mode ≡ ok update_info
unfolding parse_mode permit
parse_update = refl

posix_flags-native_flags_example : posix_flags (native_flags update_info) ≡ uring_flags update_info
posix_flags-native_flags_example = posix_flags-native_flags update_info

windows_open-iocp_open_example :
    ((windows_open (native_flags update_info)).disposition ≡ (iocp_open update_info).disposition)
    ↔ ((false && (false || false)) ≡ false)
windows_open-iocp_open_example = windows_open-iocp_open update_mode update_info parse_update

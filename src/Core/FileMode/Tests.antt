-- ===== src/Core/FileMode/Tests.antt =====
-- Mode strings of the documentation, and the theorems at them.
use ayafileio.Base.{ℕ, true, false, List, [], ◌∷◌, ◌≡◌, refl}
use ayafileio.Core.Result.{ok}
use ayafileio.Core.FileMode.{ModeInfo, permit, parse_mode}

-- "xb"
abbrev exclusive : List ℕ
exclusive = b'x' ∷ b'b' ∷ []

abbrev exclusive_info : ModeInfo
exclusive_info = record {
  can_read = false;
  can_write = false;
  append_mode = false;
  plus = false;
  has_r = false;
  has_w = false;
  has_a = false;
  has_x = true;
}

parse_exclusive : parse_mode exclusive ≡ ok exclusive_info
unfolding parse_mode permit
parse_exclusive = refl

-- ===== src/Core/FileMode.antt =====
-- src/core/file_mode.hpp: the mode string, a list of its bytes.
pub mod Laws
mod Tests
use ayafileio.Base.{ℕ, Bool, true, false, not, ◌&&◌, ◌||◌, List, [], ◌∷◌, ◌==◌, if◌then◌else◌}
use ayafileio.Core.Result.{
  Result, ok, throws, invalid_argument, io_exception, value_error, bad_alloc,
}

pub record ModeInfo : Type 0 where
  pub can_read : Bool
  pub can_write : Bool
  pub append_mode : Bool
  pub plus : Bool
  pub has_r : Bool
  pub has_w : Bool
  pub has_a : Bool
  pub has_x : Bool

-- `mode.find(c) != npos`
abbrev pub contains : ℕ → List ℕ → Bool
contains c [] = false
contains c (x ∷ xs) = x == c || contains c xs

-- the permissions that the flags give
unfoldable pub permit : Bool → Bool → Bool → Bool → Bool → ModeInfo
permit plus r w a x = record {
  can_read = r || plus;
  can_write = w || a || plus;
  append_mode = a;
  plus = plus;
  has_r = r;
  has_w = w;
  has_a = a;
  has_x = x;
}

unfoldable pub parse_flags : Bool → Bool → Bool → Bool → Bool → Result ModeInfo
parse_flags plus r w a x =
    if x && w
    then throws (invalid_argument "Invalid mode: cannot combine x and w")
    else if not r && not w && not a && not x
    then throws (invalid_argument "Invalid mode: missing mode character")
    else ok (permit plus r w a x)

unfoldable pub parse_mode : List ℕ → Result ModeInfo
unfolding parse_flags
parse_mode mode =
    parse_flags (contains b'+' mode) (contains b'r' mode) (contains b'w' mode) (contains b'a' mode)
      (contains b'x' mode)

-- `parse_native_mode` of the backends: the exception as an `IoException`
unfoldable pub parse_native_mode : List ℕ → Result ModeInfo
parse_native_mode mode = elim (parse_mode mode) [
  | throws e ↦ elim e [
    | invalid_argument text ↦ throws (io_exception (value_error text))
    | io_exception error ↦ throws (io_exception error)
    | bad_alloc ↦ throws bad_alloc
  ]
  | ok info ↦ ok info
]

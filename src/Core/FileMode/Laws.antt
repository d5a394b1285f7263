-- ===== src/Core/FileMode/Laws.antt =====
-- Which mode strings are accepted, and what they permit.
use ayafileio.Base.{ℕ, Bool, true, not, ◌&&◌, ◌||◌, List, ◌≡◌, arith}
use ayafileio.Core.Result.{ok}
use ayafileio.Core.FileMode.{ModeInfo, contains, permit, parse_flags, parse_mode}

-- What makes a mode acceptable.
abbrev pub acceptable : List ℕ → Bool
acceptable mode =
    (contains b'r' mode || contains b'w' mode || contains b'a' mode || contains b'x' mode)
    && not (contains b'x' mode && contains b'w' mode)

parse_flags-ok :
    (plus r w a x : Bool) (info : ModeInfo)
    → parse_flags plus r w a x ≡ ok info
    → ((r || w || a || x) && not (x && w) ≡ true)
      × (info.can_read ≡ (r || plus))
      × (info.can_write ≡ (w || a || plus))
      × (info.append_mode ≡ a)
      × (info.has_x ≡ x)
unfolding parse_flags permit
parse_flags-ok plus r w a x info h = ground arith

parse_flags-accepts :
    (plus r w a x : Bool)
    → ((r || w || a || x) && not (x && w)) ≡ true
    → (info : ModeInfo) × (parse_flags plus r w a x ≡ ok info)
unfolding parse_flags
parse_flags-accepts plus r w a x h = (permit plus r w a x, ground arith)

-- A mode string is accepted exactly when it names one of r, w, a, x and does not combine x with w,
-- and an accepted one permits reading by r or +, writing by w, a or + (not by x), and appending by a.
pub parse_mode_lem :
    (mode : List ℕ)
    → ((acceptable mode ≡ true) → (info : ModeInfo) × (parse_mode mode ≡ ok info))
      × ((info : ModeInfo)
          → parse_mode mode ≡ ok info
          → (acceptable mode ≡ true)
            × (info.can_read ≡ (contains b'r' mode || contains b'+' mode))
            × (info.can_write ≡ (contains b'w' mode || contains b'a' mode || contains b'+' mode))
            × (info.append_mode ≡ contains b'a' mode)
            × (info.has_x ≡ contains b'x' mode))
unfolding parse_mode
parse_mode_lem mode = (
  parse_flags-accepts (contains b'+' mode) (contains b'r' mode) (contains b'w' mode)
      (contains b'a' mode) (contains b'x' mode),
  parse_flags-ok (contains b'+' mode) (contains b'r' mode) (contains b'w' mode) (contains b'a' mode)
      (contains b'x' mode),
)

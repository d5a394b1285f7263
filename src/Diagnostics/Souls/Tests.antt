-- ===== src/Diagnostics/Souls/Tests.antt =====
-- Two allocations, of 16 and of 8 bytes.
use ayafileio.Base.{◌+◌, ◌≡◌, refl, true, false, [], ◌∷◌, some, none, leb, if◌then◌else◌, arith}
use ayafileio.Diagnostics.Souls.{
  SoulRecord, Souls, Site, operator_new, std_malloc, register_soul_impl, release_soul_impl,
  check_access, containing, last_below, soul_of,
}
use ayafileio.Diagnostics.Souls.Book.{
  IsBook, other_source, register_soul_impl-IsBook, release_soul_impl-register,
}
use ayafileio.Diagnostics.Souls.Bounds.{IsDisjoint, containing_lem}

abbrev site : Site
site = record { file = none; line = 70000; func = none; thread_name = []; thread_id = []; now = 5 }

abbrev large : SoulRecord
large = soul_of 100 16 operator_new site

abbrev small : SoulRecord
small = soul_of 116 8 std_malloc site

abbrev book : Souls
book = record {
  alive = large ∷ small ∷ [];
  released = [];
  permanent = [];
  alive_range = 100 ∷ 116 ∷ [];
  released_range = [];
}

book-IsBook : IsBook book
book-IsBook = record {
  apart = λ a. ground arith;
  alive_mirror = λ a. ground arith;
  released_mirror = λ a. refl;
}

register_soul_impl-IsBook_example : IsBook (register_soul_impl book 100 32 std_malloc site)
register_soul_impl-IsBook_example =
    register_soul_impl-IsBook book 100 32 std_malloc site book-IsBook

release_soul_impl-register_example :
    let alive = register_soul_impl book 200 32 operator_new site in
    let (accepted, released) = release_soul_impl alive 200 operator_new 9 in
    (check_access alive 200 ≡ true)
    × (release_soul_impl alive 200 (other_source operator_new) 9 ≡ (false, alive))
    × (accepted ≡ true)
    × (check_access released 200 ≡ false)
    × (release_soul_impl released 200 std_malloc 12 ≡ (false, released))
release_soul_impl-register_example =
    release_soul_impl-register book 200 32 operator_new std_malloc site 9 12 (λ h. ground arith)

book-IsDisjoint : IsDisjoint book.alive
book-IsDisjoint a c s t f g h = ground arith

containing_lem_example :
    containing 104 112 book.alive (last_below 104 book.alive_range)
    ≡ (if leb 112 (100 + 16) then some large else none)
containing_lem_example =
    containing_lem book 100 104 112 large book-IsBook book-IsDisjoint refl (omega arith)
      (omega arith)

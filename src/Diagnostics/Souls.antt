-- ===== src/Diagnostics/Souls.antt =====
-- src/diagnostics/yuyuko/memory_record.hpp: the allocations that are alive and those that were
-- released. Addresses are numbers, a text is the list of its bytes. The maps are association lists,
-- a set of addresses is a list without order; what is logged is left out. Each function runs under
-- the lock of the book, so it is one step; `now` is the time that it reads.
pub mod Book
pub mod Bounds
mod Tests
use ayafileio.Base.{
  ℕ, zero, suc, ◌+◌, ◌-◌, ◌%◌, ◌^◌, Bool, true, false, not, ◌&&◌, ◌||◌, List, [], ◌∷◌, Option, none,
  some, ltb, leb, ◌==◌, if◌then◌else◌, length,
}

pub data AllocSource : Type 0 where
  operator_new std_malloc : AllocSource

pub record SoulRecord : Type 0 where
  pub ptr : ℕ
  pub size : ℕ
  pub timestamp : ℕ
  pub line : ℕ
  pub source : AllocSource
  pub file : List ℕ
  pub func : List ℕ
  pub thread_name : List ℕ
  pub thread_id : List ℕ

pub record Souls : Type 0 where
  pub alive : List SoulRecord
  pub released : List SoulRecord
  pub permanent : List ℕ
  pub alive_range : List ℕ
  pub released_range : List ℕ

-- Where a call is made: `none` is a null pointer, a text ends at its first 0.
pub record Site : Type 0 where
  pub file : Option (List ℕ)
  pub line : ℕ
  pub func : Option (List ℕ)
  pub thread_name : List ℕ
  pub thread_id : List ℕ
  pub now : ℕ

abbrev pub find : ℕ → List SoulRecord → Option SoulRecord
find a [] = none
find a (s ∷ ss) = if s.ptr == a then some s else find a ss

-- `map.erase`, and `map[ptr] = sr`
abbrev pub erase : ℕ → List SoulRecord → List SoulRecord
erase a [] = []
erase a (s ∷ ss) = if s.ptr == a then erase a ss else s ∷ erase a ss

abbrev pub store : SoulRecord → List SoulRecord → List SoulRecord
store s ss = s ∷ erase s.ptr ss

abbrev pub contains : ℕ → List ℕ → Bool
contains a [] = false
contains a (x ∷ xs) = if x == a then true else contains a xs

abbrev pub without : ℕ → List ℕ → List ℕ
without a [] = []
without a (x ∷ xs) = if x == a then without a xs else x ∷ without a xs

-- `set.insert`
abbrev pub insert : ℕ → List ℕ → List ℕ
insert a xs = if contains a xs then xs else a ∷ xs

unfoldable pub find_soul : Souls → ℕ → Option SoulRecord
find_soul b a = elim (find a b.alive) [ none ↦ find a b.released | some s ↦ some s ]

-- The bytes before the first 0, as many as fit before the one that ends the text.
abbrev pub copied : ℕ → List ℕ → List ℕ
copied zero src = []
copied (suc room) [] = []
copied (suc room) (c ∷ cs) = if c == 0 then [] else c ∷ copied room cs

unfoldable pub str_copy : ℕ → Option (List ℕ) → List ℕ
str_copy cap none = []
str_copy cap (some src) = copied (cap - 1) src

abbrev pub soul_of : ℕ → ℕ → AllocSource → Site → SoulRecord
soul_of a size source at = record {
  ptr = a;
  size = size;
  timestamp = at.now;
  line = at.line % 2 ^ 16;
  source = source;
  file = str_copy 80 at.file;
  func = str_copy 64 at.func;
  thread_name = str_copy 64 (some at.thread_name);
  thread_id = str_copy 20 (some at.thread_id);
}

unfoldable pub register_soul_impl : Souls → ℕ → ℕ → AllocSource → Site → Souls
register_soul_impl b a size source at = record {
  alive = store (soul_of a size source at) b.alive;
  released = erase a b.released;
  permanent = without a b.permanent;
  alive_range = insert a b.alive_range;
  released_range = elim (find a b.released) [
    | none ↦ b.released_range
    | some s ↦ without a b.released_range
  ];
}

abbrev pub same_source : AllocSource → AllocSource → Bool
same_source operator_new operator_new = true
same_source std_malloc std_malloc = true
same_source _ _ = false

-- `emplace` leaves an entry that is there alone.
abbrev pub emplace : SoulRecord → List SoulRecord → List SoulRecord
emplace s ss = elim (find s.ptr ss) [ none ↦ s ∷ ss | some x ↦ ss ]

abbrev pub moved : Souls → ℕ → SoulRecord → ℕ → Souls
moved b a s now = record b {
  released = emplace (record s { timestamp = now }) b.released;
  alive = erase a b.alive;
  alive_range = without a b.alive_range;
  released_range = insert a b.released_range;
}

-- After the tests for null and for a second release.
abbrev pub released_from : Souls → ℕ → AllocSource → ℕ → Option SoulRecord → Bool × Souls
released_from b a source now none = (false, b)
released_from b a source now (some s) =
    if same_source s.source source then (true, moved b a s now) else (false, b)

unfoldable pub release_soul_impl : Souls → ℕ → AllocSource → ℕ → Bool × Souls
release_soul_impl b a source now = if a == 0 then (false, b) else elim (find a b.released) [
  | some s ↦ (false, b)
  | none ↦ released_from b a source now (find a b.alive)
]

abbrev pub register_new : Souls → ℕ → ℕ → Site → Souls
register_new b a size at = register_soul_impl b a size operator_new at

abbrev pub register_malloc : Souls → ℕ → ℕ → Site → Souls
register_malloc b a size at = register_soul_impl b a size std_malloc at

abbrev pub release_new : Souls → ℕ → ℕ → Bool × Souls
release_new b a now = release_soul_impl b a operator_new now

abbrev pub release_malloc : Souls → ℕ → ℕ → Bool × Souls
release_malloc b a now = release_soul_impl b a std_malloc now

abbrev pub is_found : Option SoulRecord → Bool
is_found none = false
is_found (some s) = true

unfoldable pub check_access : Souls → ℕ → Bool
check_access b a = if a == 0 then true else not (is_found (find a b.released))

-- `upper_bound`, and one step back: the greatest element that is not above a number.
unfoldable pub last_below : ℕ → List ℕ → Option ℕ
last_below p [] = none
last_below p (x ∷ xs) =
    let rest = last_below p xs in
    if ltb p x
    then rest
    else elim rest [ none ↦ some x | some y ↦ if ltb x y then some y else some x ]

-- Of a range and its map: the record that contains the bytes.
abbrev pub containing : ℕ → ℕ → List SoulRecord → Option ℕ → Option SoulRecord
containing ps pe souls none = none
containing ps pe souls (some base) = elim (find base souls) [
  | none ↦ none
  | some s ↦ if leb s.ptr ps && leb pe (s.ptr + s.size) then some s else none
]

unfoldable pub find_containing_soul : Souls → ℕ → ℕ → Option SoulRecord
find_containing_soul b ps pe = elim (containing ps pe b.alive (last_below ps b.alive_range)) [
  | some s ↦ some s
  | none ↦ containing ps pe b.released (last_below ps b.released_range)
]

-- The end of the bytes is not wrapped: an object ends below 2^64.
unfoldable pub check_bounds : Souls → ℕ → ℕ → Bool
check_bounds b a size = if a == 0 then true else elim (find a b.alive) [
  | some s ↦ leb (a + size) (s.ptr + s.size)
  | none ↦ is_found (find_containing_soul b a (a + size))
]

abbrev pub is_released : Souls → ℕ → Bool
is_released b a = is_found (find a b.released)

unfoldable pub get_size : Souls → ℕ → ℕ
get_size b a = elim (find a b.alive) [
  | some s ↦ s.size
  | none ↦ elim (find a b.released) [ some s ↦ s.size | none ↦ 0 ]
]

abbrev pub get_alive_souls : Souls → ℕ
get_alive_souls b = length b.alive

abbrev pub get_total_souls : Souls → ℕ
get_total_souls b = length b.alive + length b.released

abbrev pub get_permanent_souls : Souls → ℕ
get_permanent_souls b = length b.permanent

unfoldable pub mark_permanent : Souls → ℕ → Souls
mark_permanent b a =
    if a == 0
    then b
    else if is_found (find a b.alive)
    then record b { permanent = insert a b.permanent }
    else b

unfoldable pub leaks : List ℕ → List SoulRecord → ℕ
leaks permanent [] = 0
leaks permanent (s ∷ ss) = (if contains s.ptr permanent then 0 else 1) + leaks permanent ss

abbrev pub leak_check : Souls → ℕ
leak_check b = leaks b.permanent b.alive

-- ===== src/Core/FileState/Write.antt =====
-- Write reservation and truncation of src/core/file_state.cpp.
use ayafileio.Base.{
  ℕ, ◌+◌, ◌^◌, ◌<◌, ◌≡◌, refl, subst, false, Option, List, [], ◌∷◌, max, if◌then◌else◌, ℤ, pos,
  negsuc, ltb_ℤ, IsI64, to_u64, add_u64, arith,
}
use ayafileio.Core.FileState.{FileState, write_offset, reserve_write, plan_read_at}
use ayafileio.Core.FileState.Read.{IsValid, IsSize, known_size, known_size_inside, plan_read_at_lem}

-- Where a write starts, as a plain number.
abbrev pub starts_at : FileState → ℤ → ℕ
starts_at s (pos n) = n
starts_at s (negsuc _) = if s.append_mode then s.cached_size else s.file_pos

-- For a valid state, an int64_t position and a size such that the write ends below 2^63,
-- a reservation returns the start (the given position, or for a negative one the end of the known
-- file in append mode and the logical position otherwise), grows the cached size to the end
-- of the write where that is larger, and moves the logical position to that end for a write without
-- a position only. The state stays valid.
pub reserve_write_lem :
    (s : FileState) (position : ℤ) (size : ℕ)
    → IsValid s
    → IsI64 position
    → starts_at s position + size < 2 ^ 63
    → let (offset, t) = reserve_write s position size in
      let end_ = starts_at s position + size in
      (offset ≡ starts_at s position)
      × (t.cached_size ≡ max s.cached_size end_)
      × (t.file_pos ≡ (if ltb_ℤ position (pos 0) then end_ else s.file_pos))
      × (t.append_mode ≡ s.append_mode)
      × IsValid t
unfolding reserve_write write_offset add_u64 to_u64
reserve_write_lem s (pos n) size h i k = ground arith
reserve_write_lem s (negsuc n) size h i k = ground arith

-- Writes without a position, one after the other: where each starts, with its size.
pub reserve_all : FileState → List ℕ → List (ℕ × ℕ) × FileState
reserve_all s [] = ([], s)
reserve_all s (n ∷ ns) =
    let (offset, t) = reserve_write s (negsuc 0) n in
    let (ranges, u) = reserve_all t ns in ((offset, n) ∷ ranges, u)

abbrev pub sum : List ℕ → ℕ
sum [] = 0
sum (n ∷ ns) = n + sum ns

-- Ranges that follow one another from an offset, each beginning where the last one ends.
abbrev pub Consecutive : List (ℕ × ℕ) → List ℕ → ℕ → Type 0
Consecutive [] [] from = Unit {0}
Consecutive [] (n ∷ ns) from = ⊥
Consecutive (r ∷ rs) [] from = ⊥
Consecutive (r ∷ rs) (n ∷ ns) from = (r.0 ≡ from) × (r.1 ≡ n) × Consecutive rs ns (from + n)

abbrev start : FileState → ℕ
start s = starts_at s (negsuc 0)

start-reserve_write :
    (s : FileState) (n : ℕ)
    → IsValid s
    → start s + n < 2 ^ 63
    → let (offset, t) = reserve_write s (negsuc 0) n in
      (offset ≡ start s) × (start t ≡ start s + n) × IsValid t
start-reserve_write s n h k = ground (arith, reserve_write_lem s (negsuc 0) n h (omega arith) k)

-- For a valid state, writes without a position that together stay below 2^63 reserve disjoint
-- ranges that follow one another in the order of the calls, from the end of the file in append mode
-- and from the logical position otherwise, whose sizes are those asked for.
pub reserve_all-Consecutive :
    (ns : List ℕ) (s : FileState)
    → IsValid s
    → starts_at s (negsuc 0) + sum ns < 2 ^ 63
    → Consecutive (reserve_all s ns).0 ns (starts_at s (negsuc 0))
unfolding reserve_all
reserve_all-Consecutive [] s h k = tt
reserve_all-Consecutive (n ∷ ns) s h k =
    let step = start-reserve_write s n h (omega arith) in
    let (offset, t) = reserve_write s (negsuc 0) n in
    let rest = reserve_all-Consecutive ns t step.2 (omega (arith, step.1)) in
    (step.0, refl, subst (Consecutive (reserve_all t ns).0 ns) step.1 rest)

-- What was reserved can be read back at once: for a valid state, a positioned write of a positive
-- size that ends below 2^63, and whatever the kernel answers, a positioned read of the same range
-- is granted in full and leaves the position where it was.
pub plan_read_at-reserve_write :
    (s : FileState) (n size : ℕ) (refresh : Option ℕ)
    → IsValid s
    → IsSize refresh
    → 0 < size
    → n + size < 2 ^ 63
    → let t = (reserve_write s (pos n) size).1 in
      let (plan, u) = plan_read_at t (pos n) (pos size) refresh in
      (plan ≡ record { offset = n; size = size; eof = false }) × (u.file_pos ≡ s.file_pos)
plan_read_at-reserve_write s n size refresh h k p q =
    let w = reserve_write_lem s (pos n) size h (omega arith) q in
    let t = (reserve_write s (pos n) size).1 in
    let known : known_size t n refresh ≡ t.cached_size =
      known_size_inside t n refresh (omega (arith, w)) in
    rw (plan_read_at_lem t refresh w.4 k (pos n) (pos size) (omega arith) (omega arith), known)
      (ground (arith, w))

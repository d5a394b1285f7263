-- ===== src/Core/FileState/Read.antt =====
-- Read planning of src/core/file_state.hpp: what a plan grants, and what a run of reads covers.
use ayafileio.Base.{
  ℕ, ◌+◌, ◌-◌, ◌^◌, ◌≤◌, ◌<◌, ◌≡◌, refl, sym, subst, true, false, Option, none, some, List, [], ◌∷◌,
  min, ltb, ◌==◌, if◌then◌else◌, ℤ, pos, negsuc, IsI64, to_u64, to_u64_lem, add_u64, ◌⊎◌, All,
  sub_ℕ, sub_i64-to_i64, arith,
}
use ayafileio.Core.FileState.{
  ReadPlan, FileState, remaining_unlocked, plan_size, plan_read_locked, refresh_at, empty_plan,
  plan_read, plan_read_at,
}

-- Offsets and sizes that the file system can report, which are not negative as an `off_t`.
abbrev pub IsValid : FileState → Type 0
IsValid s = (s.file_pos < 2 ^ 63) × (s.cached_size < 2 ^ 63)

abbrev pub IsSize : Option ℕ → Type 0
IsSize none = Unit {0}
IsSize (some n) = n < 2 ^ 63

-- The size that the plan goes by: the cache, or the answer of the kernel at the end of the cache.
abbrev pub known_size : FileState → ℕ → Option ℕ → ℕ
known_size s offset none = s.cached_size
known_size s offset (some n) = if ltb offset s.cached_size then s.cached_size else n

-- The bytes that a request is granted at an offset, as plain numbers.
abbrev pub granted : ℤ → ℕ → ℕ → ℕ
granted (pos n) offset size = min n (size - offset)
granted (negsuc n) offset size = size - offset

remaining_unlocked_lem :
    (s : FileState) (offset : ℕ)
    → s.cached_size < 2 ^ 63
    → offset < 2 ^ 63
    → remaining_unlocked s offset ≡ sub_ℕ s.cached_size offset
unfolding remaining_unlocked
remaining_unlocked_lem s offset h k = sub_i64-to_i64 s.cached_size offset h k

-- The refresh leaves the known size in the cache and nothing else changed.
refresh_at_lem :
    (s : FileState) (offset : ℕ) (refresh : Option ℕ)
    → s.cached_size < 2 ^ 63
    → offset < 2 ^ 63
    → refresh_at s offset refresh ≡ record s { cached_size = known_size s offset refresh }
unfolding refresh_at
refresh_at_lem s offset none h k = ground (arith, remaining_unlocked_lem s offset)
refresh_at_lem s offset (some n) h k = ground (arith, remaining_unlocked_lem s offset)

plan_size_lem :
    (requested : ℤ) (size offset : ℕ)
    → IsI64 requested
    → size < 2 ^ 63
    → offset < size
    → plan_size requested (sub_ℕ size offset) ≡ granted requested offset size
unfolding plan_size to_u64
plan_size_lem (pos n) size offset r h k = ground arith
plan_size_lem (negsuc n) size offset r h k = ground arith

granted-zero : (requested : ℤ) (size offset : ℕ) → size ≤ offset → granted requested offset size ≡ 0
granted-zero (pos n) size offset h = omega arith
granted-zero (negsuc n) size offset h = omega arith

pub granted-le : (requested : ℤ) (size offset : ℕ) → granted requested offset size ≤ size - offset
granted-le (pos n) size offset = omega arith
granted-le (negsuc n) size offset = omega arith

-- The plan that the numbers give.
abbrev pub plan_of : ℤ → ℕ → ℕ → ReadPlan
plan_of requested offset size = record {
  offset = offset;
  size = granted requested offset size;
  eof = granted requested offset size == 0;
}

plan_read_locked_at :
    (s : FileState) (offset : ℕ) (requested : ℤ)
    → IsI64 requested
    → s.cached_size < 2 ^ 63
    → offset < 2 ^ 63
    → plan_read_locked s offset requested false ≡ (plan_of requested offset s.cached_size, s)
unfolding plan_read_locked
plan_read_locked_at s offset requested r h k = rw (remaining_unlocked_lem s offset h k) (
    ground (
      arith,
      plan_size_lem requested s.cached_size offset r h,
      granted-zero requested s.cached_size offset,
    ))

plan_read_locked_lem :
    (s : FileState) (requested : ℤ)
    → IsI64 requested
    → IsValid s
    → plan_read_locked s s.file_pos requested true ≡ (
      plan_of requested s.file_pos s.cached_size,
      record s { file_pos = s.file_pos + granted requested s.file_pos s.cached_size },
    )
unfolding plan_read_locked add_u64
plan_read_locked_lem s requested r h = rw (remaining_unlocked_lem s s.file_pos h.1 h.0) (
    ground (
      arith,
      plan_size_lem requested s.cached_size s.file_pos r h.1,
      granted-zero requested s.cached_size s.file_pos,
      granted-le requested s.cached_size s.file_pos,
    ))

known_size-lt :
    (s : FileState) (offset : ℕ) (refresh : Option ℕ)
    → IsSize refresh
    → s.cached_size < 2 ^ 63
    → known_size s offset refresh < 2 ^ 63
known_size-lt s offset none k h = h
known_size-lt s offset (some n) k h = ground arith

-- A positioned read, on plain numbers.
abbrev pub planned_at : FileState → Option ℕ → ℤ → ℤ → ReadPlan × FileState
planned_at s refresh (negsuc _) requested = (empty_plan, s)
planned_at s refresh (pos offset) requested =
    let known = known_size s offset refresh in
    (plan_of requested offset known, record s { cached_size = known })

-- Below the cached size the kernel's answer does not matter.
pub known_size_inside :
    (s : FileState) (offset : ℕ) (refresh : Option ℕ)
    → offset < s.cached_size
    → known_size s offset refresh ≡ s.cached_size
known_size_inside s offset none h = refl
known_size_inside s offset (some n) h = ground arith

module _ (s : FileState) (refresh : Option ℕ) (h : IsValid s) (k : IsSize refresh) where
  -- For a state and a kernel answer whose sizes and position are below 2^63, and any int64_t
  -- request, a sequential read plans from the position, grants what the request and the known size
  -- allow (all that is left for a negative request), marks the plan as end of file exactly when
  -- that is nothing, and moves the position by it; the cache then holds the known size, which is
  -- the cached size, or the kernel's answer where the cache left nothing to read.
  pub plan_read_lem :
      (requested : ℤ)
      → IsI64 requested
      → let known = known_size s s.file_pos refresh in
        plan_read s requested refresh ≡ (
          plan_of requested s.file_pos known,
          record s {
            cached_size = known;
            file_pos = s.file_pos + granted requested s.file_pos known;
          },
        )
  unfolding plan_read
  plan_read_lem requested r =
      rw (refresh_at_lem s s.file_pos refresh h.1 h.0)
        (plan_read_locked_lem _ requested r (h.0, known_size-lt s s.file_pos refresh k h.1))

  -- For the same states, a positioned read at an offset that is not negative plans from that
  -- offset in the same way, and leaves the position alone; at a negative offset it gives the empty
  -- plan and changes nothing, not even the cache.
  pub plan_read_at_lem :
      (offset requested : ℤ)
      → IsI64 offset
      → IsI64 requested
      → plan_read_at s offset requested refresh ≡ planned_at s refresh offset requested
  unfolding plan_read_at to_u64
  plan_read_at_lem (negsuc n) requested o r = ground arith
  plan_read_at_lem (pos n) requested o r =
      let e : to_u64 (pos n) ≡ n = to_u64_lem n (omega arith) in
      rw (e, refresh_at_lem s n refresh h.1 (omega arith))
        (ground (
          arith,
          plan_read_locked_at (record s { cached_size = known_size s n refresh }) n requested r
              (known_size-lt s n refresh k h.1) (omega arith),
        ))

  -- A valid state stays valid over a sequential read, and the plan lies inside the known size.
  pub plan_read-IsValid :
      (requested : ℤ)
      → IsI64 requested
      → let (plan, t) = plan_read s requested refresh in
        IsValid t × ((plan.eof ≡ true) ⊎ (plan.offset + plan.size ≤ t.cached_size))
  plan_read-IsValid requested r = rw (plan_read_lem requested r) (
      ground (
        arith,
        known_size-lt s s.file_pos refresh k h.1,
        granted-le requested (known_size s s.file_pos refresh) s.file_pos,
      ))

  plan_read_moves :
      (requested : ℤ)
      → IsI64 requested
      → let (plan, t) = plan_read s requested refresh in
        (plan.offset ≡ s.file_pos) × (s.file_pos + plan.size ≡ t.file_pos)
  plan_read_moves requested r = rw (plan_read_lem requested r) (refl, refl)

-- Reads one after the other, the kernel giving one answer throughout.
pub read_all : FileState → Option ℕ → List ℤ → List ReadPlan × FileState
read_all s refresh [] = ([], s)
read_all s refresh (r ∷ rs) =
    let (plan, t) = plan_read s r refresh in
    let (plans, u) = read_all t refresh rs in (plan ∷ plans, u)

-- Plans that follow one another without a gap or an overlap, from one offset to another.
abbrev pub Covers : List ReadPlan → ℕ → ℕ → Type 0
Covers [] from to = from ≡ to
Covers (p ∷ ps) from to = (p.offset ≡ from) × Covers ps (from + p.size) to

-- For a valid state and int64_t requests, the plans of a run of sequential reads cover the file
-- from the first position to the last one in order, each byte once, and the last state is valid.
pub read_all-Covers :
    (rs : List ℤ) (s : FileState) (refresh : Option ℕ)
    → IsValid s
    → IsSize refresh
    → All IsI64 rs
    → let (plans, t) = read_all s refresh rs in Covers plans s.file_pos t.file_pos × IsValid t
unfolding read_all
read_all-Covers [] s refresh h k a = (refl, h)
read_all-Covers (r ∷ rs) s refresh h k a =
    let (plan, t) = plan_read s r refresh in
    let rest = read_all-Covers rs t refresh (plan_read-IsValid s refresh h k r a.0).0 k a.1 in
    let moves = plan_read_moves s refresh h k r a.0 in
    let (plans, u) = read_all t refresh rs in
    ((moves.0, subst (λ from. Covers plans from u.file_pos) (sym moves.1) rest.0), rest.1)

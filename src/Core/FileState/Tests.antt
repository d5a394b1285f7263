-- ===== src/Core/FileState/Tests.antt =====
-- The theorems on the file state at concrete inputs, and runs of the source's own test cases.
use ayafileio.Base.{
  ◌≡◌, refl, true, false, none, some, [], ◌∷◌, pos, negsuc, arith, to_i64, add_i64, ◌+ℤ◌,
}
use ayafileio.Core.FileState.{FileState, plan_read_at, reserve_write, seek}
use ayafileio.Core.FileState.Read.{IsValid, Covers, read_all, read_all-Covers}
use ayafileio.Core.FileState.Write.{
  Consecutive, reserve_all, reserve_all-Consecutive, plan_read_at-reserve_write,
}
use ayafileio.Core.FileState.Seek.{seek_lem}

-- Ten of a hundred bytes read.
abbrev opened : FileState
opened = record { file_pos = 10; cached_size = 100; append_mode = false }

abbrev appending : FileState
appending = record { file_pos = 10; cached_size = 100; append_mode = true }

read_all-Covers_example :
    let (plans, t) = read_all opened none (pos 30 ∷ pos 0 ∷ negsuc 0 ∷ []) in
    Covers plans 10 t.file_pos × IsValid t
read_all-Covers_example =
    read_all-Covers (pos 30 ∷ pos 0 ∷ negsuc 0 ∷ []) opened none (omega arith) tt (omega arith)

reserve_all-Consecutive_example : Consecutive (reserve_all opened (3 ∷ 4 ∷ [])).0 (3 ∷ 4 ∷ []) 10
reserve_all-Consecutive_example =
    reserve_all-Consecutive (3 ∷ 4 ∷ []) opened (omega arith) (omega arith)

plan_read_at-reserve_write_example :
    let t = (reserve_write opened (pos 95) 20).1 in
    let (plan, u) = plan_read_at t (pos 95) (pos 20) none in
    (plan ≡ record { offset = 95; size = 20; eof = false }) × (u.file_pos ≡ 10)
plan_read_at-reserve_write_example =
    plan_read_at-reserve_write opened 95 20 none (omega arith) tt (omega arith) (omega arith)

seek_lem_example :
    seek opened (negsuc 4) (pos 2) (some 50)
    ≡ (some 45, record opened { cached_size = 50; file_pos = 45 })
unfolding ◌+ℤ◌
seek_lem_example =
    seek_lem opened (negsuc 4) 2 (some 50) (omega arith) (omega arith) (omega arith) (omega arith)

-- tests/core/test_file_state.cpp: the position is past the sum of the two, so the seek is refused.
seek_overflows :
    (seek (record opened { file_pos = 1 }) (pos (9223372036854775807)) (pos 1) none).0 ≡ none
unfolding seek add_i64 to_i64
seek_overflows = refl

-- ===== src/Core/BufferPool/Tests.antt =====
-- The pool's theorems at a small cache.
use mathlib.Core.List.{Perm}
use ayafileio.Base.{◌≡◌, refl, [], ◌∷◌, ◌++◌, some, arith}
use ayafileio.Core.Result.{ok}
use ayafileio.Core.BufferPool.{
  PoolBuf, Caches, pool_size_class, bit_ceil, bit_ceil_from, acquire, take_bucket, new_pool_buf,
  pool_release,
}
use ayafileio.Core.BufferPool.Laws.{IsValid, cached}
use ayafileio.Core.BufferPool.Handout.{IsBounded, pool_release-Perm}

abbrev small : PoolBuf
small = record { address = 16; size = 4096 }

abbrev large : PoolBuf
large = record { address = 32; size = 65536 }

-- One buffer in the thread's cache, one in the pool.
abbrev stocked : Caches
stocked = record {
  local_ = small ∷ [];
  shared = record { pools = (4096, []) ∷ (65536, large ∷ []) ∷ []; total = 1; cached_max = 512 };
}

stocked-IsValid : IsValid stocked.shared
stocked-IsValid = omega arith

class_of_5000 : pool_size_class 5000 ≡ 8192
unfolding pool_size_class bit_ceil bit_ceil_from
class_of_5000 = refl

pool_release-Perm_example :
    let (freed, c') = pool_release stocked (some large) in
    Perm (large ∷ cached stocked) (freed ++ cached c')
    × IsValid c'.shared
    × (IsBounded stocked → IsBounded c')
pool_release-Perm_example = pool_release-Perm stocked large stocked-IsValid

-- An empty bucket that is large enough hides a larger one: a new buffer is allocated.
acquire_past_empty :
    (acquire stocked.shared 100 (some 48)).0 ≡ ok (record { address = 48; size = 4096 })
unfolding acquire take_bucket new_pool_buf pool_size_class
acquire_past_empty = refl

-- ===== src/Core/BufferPool.antt =====
-- src/core/buffer_pool.hpp: size classes, the shared pool with one bucket for each size, and the
-- cache of the calling thread in front of it. A method runs under the pool's mutex. A buffer is the
-- address and the size that `malloc` was asked for; the address that `malloc` would return is an
-- argument, `none` where it fails and the constructor throws.
pub mod Classes
pub mod Laws
pub mod Handout
mod Tests
use ayafileio.Base.{
  ℕ, zero, suc, ◌+◌, ◌-◌, ◌*◌, ◌^◌, Bool, true, false, List, [], ◌∷◌, ◌++◌, Option, none, some, ltb,
  leb, ◌==◌, if◌then◌else◌, length,
}
use ayafileio.Core.Result.{Result, ok, throws, bad_alloc}

-- `std::bit_ceil`: the least power of two that is not below the number, found by doubling. 64
-- doublings reach every value of a size_t up to 2^63, above which the library call is undefined.
unfoldable pub bit_ceil_from : ℕ → ℕ → ℕ → ℕ
bit_ceil_from zero p n = p
bit_ceil_from (suc fuel) p n = elim (leb n p) [ true ↦ p | false ↦ bit_ceil_from fuel (2 * p) n ]

unfoldable pub bit_ceil : ℕ → ℕ
bit_ceil n = bit_ceil_from 64 1 n

abbrev pub min_class : ℕ
min_class = 4096

unfoldable pub pool_size_class : ℕ → ℕ
pool_size_class n = if leb n min_class then min_class else bit_ceil n

pub record PoolBuf : Type 0 where
  pub address : ℕ
  pub size : ℕ

-- `m_pools` in the order of its keys. The back of a vector is the head of the list.
abbrev pub Buckets : Type 0
Buckets = List (ℕ × List PoolBuf)

pub record BufferPool : Type 0 where
  pub pools : Buckets
  pub total : ℕ
  pub cached_max : ℕ

-- `lower_bound`, then the back of that bucket: the first bucket that is large enough is the only
-- one that is looked at, and it stays in the map when it runs empty.
unfoldable pub take_bucket : ℕ → Buckets → Option (PoolBuf × Buckets)
take_bucket required [] = none
take_bucket required ((key, []) ∷ rest) =
    let later = take_bucket required rest in
    if leb required key
    then none
    else elim later [ none ↦ none | some (buf, rest') ↦ some (buf, (key, []) ∷ rest') ]
take_bucket required ((key, b ∷ bs) ∷ rest) =
    let later = take_bucket required rest in
    if leb required key
    then some (b, (key, bs) ∷ rest)
    else elim later [ none ↦ none | some (buf, rest') ↦ some (buf, (key, b ∷ bs) ∷ rest') ]

-- `new PoolBuf(pool_size_class(required_size))`
unfoldable pub new_pool_buf : Option ℕ → ℕ → Result PoolBuf
new_pool_buf none size = throws bad_alloc
new_pool_buf (some address) size = ok (record { address = address; size = size })

unfoldable pub acquire : BufferPool → ℕ → Option ℕ → Result PoolBuf × BufferPool
acquire pool required malloc = elim (take_bucket required pool.pools) [
  | some (buf, pools) ↦ (ok buf, record pool { pools = pools; total = pool.total - 1 })
  | none ↦ (new_pool_buf malloc (pool_size_class required), pool)
]

-- `m_pools[buf->size].push_back(buf)`
unfoldable pub push_bucket : PoolBuf → Buckets → Buckets
push_bucket buf [] = (buf.size, buf ∷ []) ∷ []
push_bucket buf ((key, bufs) ∷ rest) =
    if buf.size == key
    then (key, buf ∷ bufs) ∷ rest
    else if ltb buf.size key
    then (buf.size, buf ∷ []) ∷ (key, bufs) ∷ rest
    else (key, bufs) ∷ push_bucket buf rest

-- What is deleted is returned beside the pool.
unfoldable pub release : BufferPool → Option PoolBuf → List PoolBuf × BufferPool
release pool none = ([], pool)
release pool (some buf) =
    if leb pool.cached_max pool.total
    then (buf ∷ [], pool)
    else ([], record pool { pools = push_bucket buf pool.pools; total = pool.total + 1 })

unfoldable pub refresh_config : BufferPool → ℕ → BufferPool
refresh_config pool buffer_pool_max = record pool { cached_max = buffer_pool_max }

abbrev pub bucket_contents : Buckets → List PoolBuf
bucket_contents [] = []
bucket_contents ((key, bufs) ∷ rest) = bufs ++ bucket_contents rest

unfoldable pub clear : BufferPool → List PoolBuf × BufferPool
clear pool = (bucket_contents pool.pools, record pool { pools = []; total = 0 })

abbrev pub tc_max : ℕ
tc_max = 8

-- The thread's cache, oldest first, and the pool that all threads share.
pub record Caches : Type 0 where
  pub local_ : List PoolBuf
  pub shared : BufferPool

-- the first buffer of the cache that is large enough
unfoldable pub take_first : ℕ → List PoolBuf → Option (PoolBuf × List PoolBuf)
take_first required [] = none
take_first required (b ∷ bs) =
    let later = take_first required bs in
    if leb required b.size
    then some (b, bs)
    else elim later [ none ↦ none | some (buf, rest) ↦ some (buf, b ∷ rest) ]

unfoldable pub pool_acquire_with_size : Caches → ℕ → Option ℕ → Result PoolBuf × Caches
pool_acquire_with_size c required malloc = elim (take_first required c.local_) [
  | some (buf, rest) ↦ (ok buf, record c { local_ = rest })
  | none ↦
      let (got, shared) = acquire c.shared required malloc in (got, record c { shared = shared })
]

unfoldable pub pool_acquire : Caches → ℕ → Option ℕ → Result PoolBuf × Caches
pool_acquire c buffer_size malloc = pool_acquire_with_size c buffer_size malloc

unfoldable pub pool_release : Caches → Option PoolBuf → List PoolBuf × Caches
pool_release c none = ([], c)
pool_release c (some buf) =
    if ltb (length c.local_) tc_max
    then ([], record c { local_ = c.local_ ++ buf ∷ [] })
    else (let (freed, shared) = release c.shared (some buf) in
        (freed, record c { shared = shared }))

unfoldable pub pool_clear : Caches → List PoolBuf × Caches
pool_clear c = let (freed, shared) = clear c.shared in (freed, record c { shared = shared })

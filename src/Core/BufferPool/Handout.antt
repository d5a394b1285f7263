-- ===== src/Core/BufferPool/Handout.antt =====
-- The calls that the engine makes: acquire and release through the thread's cache.
use mathlib.Core.List.{Perm, perm_middle}
use mathlib.Core.List.Perm
use ayafileio.Base.{
  ℕ, ◌≤◌, ◌<◌, ◌≡◌, refl, subst, ◌⊎◌, inl, inr, List, [], ◌∷◌, ◌++◌, Option, none, some, ltb, leb,
  length, length-append, Bool-cases, Option-cases, arith, append_assoc, leb→le, ltb→lt, lt→ltb,
}
use ayafileio.Core.Result.{Result, ok}
use ayafileio.Core.BufferPool.{
  PoolBuf, BufferPool, Caches, take_bucket, bucket_contents, new_pool_buf, acquire, release,
  take_first, pool_size_class, pool_acquire_with_size, pool_release,
}
use ayafileio.Core.BufferPool.Laws.{
  IsValid, cached, Taken, Perm-skip, take_bucket-Taken, push_bucket-Filed, push_bucket-Perm,
  length-push_bucket,
}

-- A call hands out a cached buffer that is large enough and leaves the others, or nothing cached
-- is touched and a buffer of the size class is allocated.
abbrev pub HandsOut : Caches → ℕ → Option ℕ → Result PoolBuf × Caches → Type 0
HandsOut c n malloc (got, c') =
    ((b : PoolBuf) × (got ≡ ok b) × (n ≤ b.size) × Perm (cached c) (b ∷ cached c'))
    ⊎ ((c' ≡ c) × (got ≡ new_pool_buf malloc (pool_size_class n)))

acquire-HandsOut :
    (local_ : List PoolBuf) (pool : BufferPool) (n : ℕ) (malloc : Option ℕ)
    → IsValid pool
    → let (got, pool') = acquire pool n malloc in
      IsValid pool'
      × HandsOut
          (record { local_ = local_; shared = pool })
          n
          malloc
          (got, record { local_ = local_; shared = pool' })
unfolding acquire
acquire-HandsOut local_ pool n malloc v = elim (Option-cases (take_bucket n pool.pools)) [
  | inl e ↦ rw (e, acquire) (v, inr (refl, refl))
  | inr (r, e) ↦
      let t = subst (Taken 0 n pool.pools) e (take_bucket-Taken n 0 pool.pools v.filed) in
      rw (e, acquire)
        (
          record { filed = t.1; counted = omega (arith, t.3, v.counted) },
          inl (r.0, refl, t.0, Perm-skip local_ _ _ r.0 t.2),
        )
]

take_first-Taken :
    (n : ℕ) (bs : List PoolBuf)
    → (take_first n bs ≡ none)
      ⊎ ((b : PoolBuf) × (bs' : List PoolBuf) × (take_first n bs ≡ some (b, bs'))
          × (n ≤ b.size)
          × Perm bs (b ∷ bs'))
unfolding take_first
take_first-Taken n [] = inl refl
take_first-Taken n (x ∷ bs) = elim (Bool-cases (leb n x.size)) [
  | inl e ↦ inr (x, bs, rw e, leb→le n x.size e, Perm.refl _)
  | inr e ↦ elim (take_first-Taken n bs) [
    | inl q ↦ inl (rw (e, q))
    | inr (b, bs', q, h, p) ↦
        inr (b, x ∷ bs', rw (e, q), h, Perm.trans (Perm.cons x p) (Perm.swap b x bs'))
  ]
]

-- For a valid pool, an acquired buffer either comes out of the cached ones, is at least as large
-- as asked for and is no longer cached, the others staying, or the caches are left as they are and
-- a buffer of the size class is allocated, or fails to be; the pool stays valid.
pub pool_acquire_with_size-HandsOut :
    (c : Caches) (n : ℕ) (malloc : Option ℕ)
    → IsValid c.shared
    → let r = pool_acquire_with_size c n malloc in IsValid r.1.shared × HandsOut c n malloc r
unfolding pool_acquire_with_size
pool_acquire_with_size-HandsOut c n malloc v = elim (take_first-Taken n c.local_) [
  | inl e ↦ rw (e, pool_acquire_with_size) (acquire-HandsOut c.local_ c.shared n malloc v)
  | inr (b, bs', e, h, p) ↦
      rw (e, pool_acquire_with_size)
        (v, inl (b, refl, h, Perm.append p (Perm.refl (bucket_contents c.shared.pools))))
]

-- The number of buffers that the pool and one thread keep.
pub record IsBounded (c : Caches) : Type 0 where
  pub local_bound : length c.local_ ≤ 8
  pub shared_bound : c.shared.total ≤ c.shared.cached_max

-- For a valid pool, a buffer that is released is kept or freed, and so is every buffer that was
-- cached, each once; the pool stays valid, and a bounded cache (eight buffers in the thread, the
-- configured maximum in the pool) stays bounded.
pub pool_release-Perm :
    (c : Caches) (b : PoolBuf)
    → IsValid c.shared
    → let (freed, c') = pool_release c (some b) in
      Perm (b ∷ cached c) (freed ++ cached c') × IsValid c'.shared × (IsBounded c → IsBounded c')
unfolding pool_release release
pool_release-Perm c b v = elim (Bool-cases (ltb (length c.local_) 8)) [
  | inl e ↦ rw e (
    rw append_assoc (Perm.symm (perm_middle c.local_ (bucket_contents c.shared.pools))),
    v,
    λ h. record {
      local_bound = omega (arith, length-append c.local_ (b ∷ []), ltb→lt _ _ e);
      shared_bound = h.shared_bound;
    },
  )
  | inr e ↦ rw e (elim (Bool-cases (leb c.shared.cached_max c.shared.total)) [
    | inl q ↦ rw q (Perm.refl _, v, λ h. h)
    | inr q ↦ rw q (
      Perm.trans (Perm.symm (perm_middle c.local_ (bucket_contents c.shared.pools)))
          (Perm.append (Perm.refl c.local_) (push_bucket-Perm b c.shared.pools)),
      record {
        filed = push_bucket-Filed b 0 c.shared.pools (omega arith) v.filed;
        counted = omega (arith, length-push_bucket b c.shared.pools, v.counted);
      },
      λ h. record { local_bound = h.local_bound; shared_bound = ground arith },
    )
  ])
]

take_first-append :
    (n : ℕ) (bs : List PoolBuf) (b : PoolBuf)
    → n ≤ b.size
    → (r : PoolBuf × List PoolBuf) × (take_first n (bs ++ b ∷ []) ≡ some r)
unfolding take_first
take_first-append n [] b h = ((b, []), ground arith)
take_first-append n (x ∷ bs) b h = elim (Bool-cases (leb n x.size)) [
  | inl e ↦ ((x, bs ++ b ∷ []), rw e)
  | inr e ↦ let (r, q) = take_first-append n bs b h in ((r.0, x ∷ r.1), rw (e, q))
]

-- What a thread releases while its cache has room, it gets back without an allocation: the next
-- acquire of a size that the buffer can hold succeeds even where the allocator fails.
pub pool_acquire-pool_release :
    (c : Caches) (b : PoolBuf) (n : ℕ) (malloc : Option ℕ)
    → length c.local_ < 8
    → n ≤ b.size
    → (got : PoolBuf) × ((pool_acquire_with_size (pool_release c (some b)).1 n malloc).0 ≡ ok got)
unfolding pool_acquire_with_size pool_release
pool_acquire-pool_release c b n malloc h k =
    let (r, q) = take_first-append n c.local_ b k in
    (r.0, rw (lt→ltb _ _ h, q, pool_acquire_with_size))

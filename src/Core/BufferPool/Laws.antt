-- ===== src/Core/BufferPool/Laws.antt =====
-- No buffer is lost, made up or handed out twice, and one that is handed out is large enough.
use mathlib.Core.List.{Perm, perm_middle}
use mathlib.Core.List.Perm
use ayafileio.Base.{
  ℕ, suc, ◌≤◌, ◌≡◌, refl, inl, inr, List, [], ◌∷◌, ◌++◌, Option, none, some, ltb, leb, ◌==◌, length,
  length-append, All, Bool-cases, arith, leb→le, some,
}
use ayafileio.Core.BufferPool.{
  PoolBuf, Buckets, BufferPool, Caches, take_bucket, push_bucket, bucket_contents,
}

-- Keys rise from a bound, and a bucket holds buffers of its key's size.
abbrev pub Filed : ℕ → Buckets → Type 0
Filed lo [] = Unit {0}
Filed lo ((key, bufs) ∷ rest) =
    (lo ≤ key) × All (λ (b : PoolBuf). b.size ≡ key) bufs × Filed (suc key) rest

pub record IsValid (pool : BufferPool) : Type 0 where
  pub filed : Filed 0 pool.pools
  pub counted : pool.total ≡ length (bucket_contents pool.pools)

abbrev pub cached : Caches → List PoolBuf
cached c = c.local_ ++ bucket_contents c.shared.pools

-- What a bucket gives up.
abbrev pub Taken : ℕ → ℕ → Buckets → Option (PoolBuf × Buckets) → Type 0
Taken lo required bs none = Unit {0}
Taken lo required bs (some (b, bs')) =
    (required ≤ b.size)
    × Filed lo bs'
    × Perm (bucket_contents bs) (b ∷ bucket_contents bs')
    × (length (bucket_contents bs) ≡ suc (length (bucket_contents bs')))

pub Perm-skip :
    (xs ys zs : List PoolBuf) (b : PoolBuf) → Perm ys (b ∷ zs) → Perm (xs ++ ys) (b ∷ (xs ++ zs))
Perm-skip [] ys zs b p = p
Perm-skip (x ∷ xs) ys zs b p =
    Perm.trans (Perm.cons x (Perm-skip xs ys zs b p)) (Perm.swap b x (xs ++ zs))

Taken-cons :
    (lo key required : ℕ) (bufs : List PoolBuf) (rest : Buckets) (r : Option (PoolBuf × Buckets))
    → lo ≤ key
    → All (λ (b : PoolBuf). b.size ≡ key) bufs
    → Taken (suc key) required rest r
    → Taken lo required
        ((key, bufs) ∷ rest)
        (elim r [ none ↦ none | some (buf, rest') ↦ some (buf, (key, bufs) ∷ rest') ])
Taken-cons lo key required bufs rest none h a t = tt
Taken-cons lo key required bufs rest (some (b, bs')) h a t = (
  t.0,
  (h, a, t.1),
  Perm-skip bufs (bucket_contents rest) (bucket_contents bs') b t.2,
  omega (
    arith,
    t.3,
    length-append bufs (bucket_contents rest),
    length-append bufs (bucket_contents bs'),
  ),
)

pub take_bucket-Taken :
    (required lo : ℕ) (bs : Buckets) → Filed lo bs → Taken lo required bs (take_bucket required bs)
unfolding take_bucket
take_bucket-Taken required lo [] f = tt
take_bucket-Taken required lo ((key, []) ∷ rest) f = elim (Bool-cases (leb required key)) [
  | inl e ↦ rw e tt
  | inr e ↦ rw e (
      Taken-cons lo key required [] rest (take_bucket required rest) f.0 f.1
        (take_bucket-Taken required (suc key) rest f.2))
]
take_bucket-Taken required lo ((key, b ∷ bs) ∷ rest) f = elim (Bool-cases (leb required key)) [
  | inl e ↦ rw e (omega (arith, leb→le required key e, f.1.0), (f.0, f.1.1, f.2), Perm.refl _, refl)
  | inr e ↦ rw e (
      Taken-cons lo key required (b ∷ bs) rest (take_bucket required rest) f.0 f.1
        (take_bucket-Taken required (suc key) rest f.2))
]

-- What a bucket takes back.
pub push_bucket-Filed :
    (b : PoolBuf) (lo : ℕ) (bs : Buckets) → lo ≤ b.size → Filed lo bs → Filed lo (push_bucket b bs)
unfolding push_bucket
push_bucket-Filed b lo [] h f = (h, (refl, tt), tt)
push_bucket-Filed b lo ((key, bufs) ∷ rest) h f = ground (arith, push_bucket-Filed b (suc key) rest)

pub push_bucket-Perm :
    (b : PoolBuf) (bs : Buckets)
    → Perm (b ∷ bucket_contents bs) (bucket_contents (push_bucket b bs))
unfolding push_bucket
push_bucket-Perm b [] = Perm.refl _
push_bucket-Perm b ((key, bufs) ∷ rest) = elim (Bool-cases (b.size == key)) [
  | inl e ↦ rw e (Perm.refl _)
  | inr e ↦ rw e (elim (Bool-cases (ltb b.size key)) [
    | inl q ↦ rw q (Perm.refl _)
    | inr q ↦ rw q (
        Perm.trans (Perm.symm (perm_middle bufs (bucket_contents rest)))
          (Perm.append (Perm.refl bufs) (push_bucket-Perm b rest)))
  ])
]

pub length-push_bucket :
    (b : PoolBuf) (bs : Buckets)
    → length (bucket_contents (push_bucket b bs)) ≡ suc (length (bucket_contents bs))
unfolding push_bucket
length-push_bucket b [] = refl
length-push_bucket b ((key, bufs) ∷ rest) = ground (
  arith,
  length-push_bucket b rest,
  length-append bufs (bucket_contents rest),
  length-append bufs (bucket_contents (push_bucket b rest)),
)

-- ===== src/Core/BufferPool/Classes.antt =====
-- The size classes: what `pool_size_class` returns.
use native.Mathlib.Nat.{pow-suc, le_refl}
use ayafileio.Base.{
  ℕ, zero, suc, ◌*◌, ◌^◌, ◌≤◌, ◌<◌, ◌≡◌, refl, false, leb, Bool-cases, inl, inr, arith, leb→le, ap,
  subst,
}
use ayafileio.Core.BufferPool.{bit_ceil_from, bit_ceil, pool_size_class}

leb-false : (a b : ℕ) → leb a b ≡ false → b < a
leb-false a b h = ground arith

leb_above : (a b : ℕ) → b < a → leb a b ≡ false
leb_above a b h = ground arith

room : (f p n : ℕ) → n ≤ p * 2 ^ suc f → n ≤ 2 * p * 2 ^ f
room f p n h = omega (arith, pow-suc 2 f, ap (λ t. p * t) (pow-suc 2 f))

le-bit_ceil_from : (f p n : ℕ) → n ≤ p * 2 ^ f → n ≤ bit_ceil_from f p n
unfolding bit_ceil_from
le-bit_ceil_from zero p n h = omega arith
le-bit_ceil_from (suc f) p n h = ground (arith, le-bit_ceil_from f (2 * p) n, room f p n h)

bit_ceil_from_idem :
    (f p n : ℕ) → n ≤ p * 2 ^ f → bit_ceil_from f p (bit_ceil_from f p n) ≡ bit_ceil_from f p n
unfolding bit_ceil_from
bit_ceil_from_idem zero p n h = refl
bit_ceil_from_idem (suc f) p n h =
    ground (arith, bit_ceil_from_idem f (2 * p) n, le-bit_ceil_from f (2 * p) n, room f p n h)

bit_ceil_from-lt : (f p n : ℕ) → p < 2 * n → bit_ceil_from f p n < 2 * n
unfolding bit_ceil_from
bit_ceil_from-lt zero p n h = h
bit_ceil_from-lt (suc f) p n h = ground (arith, bit_ceil_from-lt f (2 * p) n)

bit_ceil_from-pow : (f j n : ℕ) → (k : ℕ) × (bit_ceil_from f (2 ^ j) n ≡ 2 ^ k)
unfolding bit_ceil_from
bit_ceil_from-pow zero j n = (j, refl)
bit_ceil_from-pow (suc f) j n = elim (Bool-cases (leb n (2 ^ j))) [
  | inl e ↦ (j, rw (e, bit_ceil_from))
  | inr e ↦
      let (k, q) = bit_ceil_from-pow f (suc j) n in
      (
        k,
        rw (e, bit_ceil_from)
            (subst (λ p. bit_ceil_from f p n ≡ 2 ^ k) (omega (arith, pow-suc 2 j)) q),
      )
]

-- A size class of a size up to 2^63 is a power of two of at least 4096 that is not below the size,
-- is less than twice the size where the size is above 4096, and is its own class, so that a buffer
-- that goes back to the pool serves every size of its class.
pub pool_size_class_lem :
    (n : ℕ)
    → n ≤ 2 ^ 63
    → (n ≤ pool_size_class n)
      × (4096 ≤ pool_size_class n)
      × (4096 < n → pool_size_class n < 2 * n)
      × (pool_size_class (pool_size_class n) ≡ pool_size_class n)
      × ((k : ℕ) × (pool_size_class n ≡ 2 ^ k))
unfolding pool_size_class bit_ceil
pool_size_class_lem n h = elim (Bool-cases (leb n 4096)) [
  | inl e ↦ rw e (
    omega (arith, leb→le n 4096 e),
    le_refl 4096,
    λ k. absurd (omega (arith, leb→le n 4096 e)),
    refl,
    (12, refl),
  )
  | inr e ↦
      let above : 4096 < n = leb-false n 4096 e in
      let up = le-bit_ceil_from 64 1 n (omega arith) in
      rw e (
        up,
        omega (arith, up),
        λ _. bit_ceil_from-lt 64 1 n (omega arith),
        rw (leb_above (bit_ceil_from 64 1 n) 4096 (omega (arith, up)))
            (bit_ceil_from_idem 64 1 n (omega arith)),
        bit_ceil_from-pow 64 0 n,
      )
]

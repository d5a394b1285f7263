-- ===== src/Backend/Gcd/Chunks.antt =====
-- The chunks of a parallel read of src/backend/macos/macos_gcd_backend.cpp.
use ayafileio.Base.{
  ℕ, zero, suc, ◌+◌, ◌-◌, ◌*◌, ◌^◌, ◌≤◌, ◌<◌, ◌≡◌, refl, subst, ltb→lt, List, [], ◌∷◌, ltb,
  Bool-cases, inl, inr, length, arith,
}
use native.Mathlib.Omega.{div_any}
use native.Mathlib.Nat.{mul-le-mul_left, suc-mul, mul_comm, mod-lt}
use ayafileio.Core.Request.{IoRequest}
use ayafileio.Backend.Gcd.{
  chunk_count, chunk_size_from, chunks_from, make_group, parallel_read_chunk,
}

-- The chunk size that so many doublings reach.
unfoldable reach : ℕ → ℕ → ℕ
reach zero chunk_size = chunk_size
reach (suc n) chunk_size = reach n (chunk_size * 2)

enough : (size : ℕ) → size < 2 ^ 63 → size ≤ 256 * reach 64 parallel_read_chunk
unfolding reach
enough size h = omega arith

few-chunks : (size c : ℕ) → 1 ≤ c → size ≤ 256 * c → chunk_count size c ≤ 256
few-chunks size c h k =
    let q = chunk_count size c in
    let fact = div_any (size + c - 1) c in
    elim (Bool-cases (ltb 256 q)) [
      | inr e ↦ ground arith
      | inl e ↦
          let more : 257 ≤ q = ltb→lt 256 q e in
          absurd (omega (arith, fact, mul-le-mul_left c more))
    ]

chunk_size_from-le :
    (fuel size c : ℕ)
    → 1 ≤ c
    → size ≤ 256 * reach fuel c
    → (1 ≤ chunk_size_from fuel size c) × (chunk_count size (chunk_size_from fuel size c) ≤ 256)
unfolding chunk_size_from reach
chunk_size_from-le zero size c h k = (h, few-chunks size c h k)
chunk_size_from-le (suc fuel) size c h k = elim (Bool-cases (ltb 256 (chunk_count size c))) [
  | inl e ↦ rw e (chunk_size_from-le fuel size (c * 2) (omega arith) k)
  | inr e ↦ rw e (h, ground arith)
]

-- Pieces that follow one another without a gap or an overlap, none of them empty.
abbrev pub Tiles : List (ℕ × ℕ) → ℕ → ℕ → Type 0
Tiles [] from to = from ≡ to
Tiles ((place, length) ∷ ps) from to = (place ≡ from) × (1 ≤ length) × Tiles ps (from + length) to

chunks_from-Tiles :
    (count index size c : ℕ)
    → 1 ≤ c
    → index * c + count * c < size + c
    → size ≤ index * c + count * c
    → 1 ≤ count
    → Tiles (chunks_from count index size c) (index * c) size
unfolding chunks_from
chunks_from-Tiles zero index size c h a b d = absurd (omega arith)
chunks_from-Tiles (suc zero) index size c h a b d = (refl, omega arith, omega arith)
chunks_from-Tiles (suc (suc n)) index size c h a b d =
    let one = suc-mul (suc n) c in
    let two = suc-mul n c in
    let next = suc-mul index c in
    let rest =
      chunks_from-Tiles (suc n) (suc index) size c h (omega (arith, one, two, next))
        (omega (arith, one, two, next)) (omega arith) in
    (
      refl,
      omega (arith, one, two),
      subst (λ from. Tiles (chunks_from (suc n) (suc index) size c) from size)
          (omega (arith, one, two, next)) rest,
    )

length-chunks_from : (count index size c : ℕ) → length (chunks_from count index size c) ≡ count
unfolding chunks_from
length-chunks_from zero index size c = refl
length-chunks_from (suc n) index size c = omega (arith, length-chunks_from n (suc index) size c)

some-chunk : (q size c : ℕ) → 1 ≤ size → size ≤ 0 * c + q * c → 1 ≤ q
some-chunk zero size c h above = absurd (omega arith)
some-chunk (suc q) size c h above = omega arith

-- A read of a byte or more and less than 2^63 is cut into at most 256 chunks, which follow one another
-- from its first byte to its last without a gap or an overlap, none of them empty, and the group counts
-- as many as there are.
pub make_group-Tiles :
    (request : IoRequest) (size : ℕ)
    → 1 ≤ size
    → size < 2 ^ 63
    → let g = make_group request size in
      Tiles g.chunks 0 size × (length g.chunks ≡ g.remaining) × (g.remaining ≤ 256)
unfolding make_group
make_group-Tiles request size h k =
    let c = chunk_size_from 64 size parallel_read_chunk in
    let w = chunk_size_from-le 64 size parallel_read_chunk (omega arith) (enough size k) in
    let q = chunk_count size c in
    let fact = div_any (size + c - 1) c in
    let small = mod-lt (size + c - 1) w.0 in
    let swap = mul_comm c q in
    let above : size ≤ 0 * c + q * c = omega (arith, fact, small, swap, w.0) in
    (
      subst (λ from. Tiles (chunks_from q 0 size c) from size) (omega arith)
          (chunks_from-Tiles q 0 size c w.0 (omega (arith, fact, small, swap)) above
            (some-chunk q size c h above)),
      length-chunks_from q 0 size c,
      w.1,
    )

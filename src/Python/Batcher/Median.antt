-- ===== src/Python/Batcher/Median.antt =====
-- The rolling median of src/bindings/python/result_batcher.cpp.
use ayafileio.Base.{
  ℕ, zero, suc, ◌-◌, ◌/◌, ◌%◌, ◌≤◌, ◌<◌, ◌≡◌, refl, ◌&&◌, List, [], ◌∷◌, ltb, leb, ◌==◌, if-elim,
  length, length-append, All, All-append, arith,
}
use ayafileio.Python.Batcher.{insert, sort, values, at, median_us}

module _ (low high : ℕ) where
  abbrev pub Within : ℕ → Type 0
  Within x = (low ≤ x) × (x ≤ high)

  insert-Within : (x : ℕ) (xs : List ℕ) → Within x → All Within xs → All Within (insert x xs)
  insert-Within x [] h a = (h, tt)
  insert-Within x (y ∷ ys) h a =
      if-elim {A = List ℕ} (All Within) (leb x y) (h, a) (a.0, insert-Within x ys h a.1)

  sort-Within : (xs : List ℕ) → All Within xs → All Within (sort xs)
  unfolding sort
  sort-Within [] a = tt
  sort-Within (x ∷ xs) a = insert-Within x (sort xs) a.0 (sort-Within xs a.1)

  at-Within : (xs : List ℕ) (i : ℕ) → i < length xs → All Within xs → Within (at xs i)
  at-Within [] i h a = absurd (omega arith)
  at-Within (x ∷ xs) zero h a = a.0
  at-Within (x ∷ xs) (suc i) h a = at-Within xs i (omega arith) a.1

length-insert : (x : ℕ) (xs : List ℕ) → length (insert x xs) ≡ suc (length xs)
length-insert x [] = refl
length-insert x (y ∷ ys) = ground (arith, length-insert x ys)

length-sort : (xs : List ℕ) → length (sort xs) ≡ length xs
unfolding sort
length-sort [] = refl
length-sort (x ∷ xs) = omega (arith, length-insert x (sort xs), length-sort xs)

-- The median of values that are not none lies between any two bounds of them.
pub median_us-Within :
    (low high : ℕ) (xs : List ℕ)
    → 1 ≤ length xs
    → All (Within low high) xs
    → Within low high (median_us xs)
unfolding median_us
median_us-Within low high xs h a =
    let n = length xs in
    let sorted = sort-Within low high xs a in
    let middle = at-Within low high (sort xs) (n / 2) (omega (arith, length-sort xs)) sorted in
    let before = at-Within low high (sort xs) (n / 2 - 1) (omega (arith, length-sort xs)) sorted in
    if-elim {A = ℕ} (Within low high) ((n % 2 == 0) && ltb 1 n)
      (omega (arith, middle.0, before.0), omega (arith, middle.1, before.1)) middle

pub length-values : (f : ℕ → ℕ) (n : ℕ) → length (values f n) ≡ n
unfolding values
length-values f zero = refl
length-values f (suc n) = omega (arith, length-append (values f n) (f n ∷ []), length-values f n)

pub values-All :
    (low high : ℕ) (f : ℕ → ℕ) (n : ℕ)
    → ((i : ℕ) → Within low high (f i))
    → All (Within low high) (values f n)
unfolding values
values-All low high f zero h = tt
values-All low high f (suc n) h =
    All-append (Within low high) (values f n) (f n ∷ []) (values-All low high f n h) (h n, tt)

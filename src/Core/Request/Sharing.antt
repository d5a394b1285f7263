-- ===== src/Core/Request/Sharing.antt =====
-- No two requests in use share memory.
use mathlib.Core.List.{
  Perm, Nodup, Mem, Mem-prop, mem-append_left, Nodup-cons, perm_middle, not-mem-nil, mem-cons,
}
use mathlib.Core.List.Perm
use mathlib.Core.Logic.Or
use ayafileio.Base.{
  ℕ, ◌≡◌, refl, subst, ap, ◌≤◌, inl, inr, true, false, List, [], ◌∷◌, ◌++◌, ltb, ltb→lt, ◌==◌,
  ==_iff, length, arith, Bool-cases,
}
use ayafileio.Core.Request.{
  Memory, req_alloc, req_free, request_mem_acquire, request_mem_release, release_allocation, remove,
}

-- The addresses that the thread's requests own, in use or free.
abbrev pub owned : Memory → List ℕ
owned m = m.live ++ m.freelist

pub record IsSound (m : Memory) : Type 0 where
  pub distinct : Nodup (owned m)
  pub short : length m.freelist ≤ 64

-- `operator new` returns memory that is not in use, and not in the free list either.
abbrev pub IsFresh : Memory → ℕ → Type 0
IsFresh m a = ¬ Mem a (owned m)

alloc-reused :
    (m : Memory) (a : ℕ) (rest : List ℕ)
    → m.freelist ≡ a ∷ rest
    → IsSound m
    → Nodup (a ∷ m.live ++ rest)
alloc-reused m a rest e v =
    Perm.nodup (perm_middle m.live rest) (subst (λ l. Nodup (m.live ++ l)) e v.distinct)

-- From a sound memory, and with `operator new` returning memory that the thread does not own yet,
-- an allocation gives a request at an address that no request in use has, makes it one of those in
-- use, and leaves the memory sound: all addresses distinct, and at most 64 on the free list.
pub req_alloc-IsSound :
    (m : Memory) (fresh : ℕ)
    → IsSound m
    → IsFresh m fresh
    → let (request, m') = req_alloc m fresh in
      IsSound m' × (¬ Mem request.address m.live) × (m'.live ≡ request.address ∷ m.live)
unfolding req_alloc request_mem_acquire
req_alloc-IsSound m fresh v f = go m.freelist refl
  where
    go :
        (free : List ℕ)
        → m.freelist ≡ free
        → let (request, m') = req_alloc m fresh in
          IsSound m' × (¬ Mem request.address m.live) × (m'.live ≡ request.address ∷ m.live)
    go [] e =
        rw (e, request_mem_acquire)
          (
            record { distinct = Nodup-cons.1 (f, v.distinct); short = v.short },
            (λ h. f (mem-append_left m.freelist h)),
            refl,
          )
    go (a ∷ rest) e =
        let d = alloc-reused m a rest e v in
        rw (e, request_mem_acquire)
          (
            record { distinct = d; short = omega (arith, v.short, ap length e) },
            (λ h. (Nodup-cons.0 d).0 (mem-append_left rest h)),
            refl,
          )

mem_later : (a x : ℕ) (xs : List ℕ) → (x == a) ≡ false → Mem a (x ∷ xs) → Mem a xs
mem_later a x xs e k = Or.elim Mem-prop (mem-cons.0 k) (λ q. absurd (ground (arith, e, q))) (λ z. z)

remove-perm : (a : ℕ) (xs : List ℕ) → Mem a xs → Perm xs (a ∷ remove a xs)
remove-perm a [] h = absurd (not-mem-nil h)
remove-perm a (x ∷ xs) h = elim (Bool-cases (x == a)) [
  | inl e ↦ rw (e, (==_iff x a).0 e) (Perm.refl _)
  | inr e ↦
      rw e (Perm.trans (Perm.cons x (remove-perm a xs (mem_later a x xs e h))) (Perm.swap a x _))
]

-- A release of memory in use keeps the memory sound, whatever the diagnostics answer and however
-- full the free list is; where they agree, the request is no longer in use, and where they refuse,
-- nothing changes.
pub req_free-IsSound :
    (m : Memory) (a : ℕ)
    → IsSound m
    → Mem a m.live
    → let m' = req_free m a in
      IsSound m'
      × (release_allocation m a ≡ true → ¬ Mem a m'.live)
      × (release_allocation m a ≡ false → m' ≡ m)
unfolding req_free request_mem_release
req_free-IsSound m a v h = elim (Bool-cases (release_allocation m a)) [
  | inr e ↦ rw e (v, (λ q. cc), (λ _. refl))
  | inl e ↦ rw e (elim (Bool-cases (ltb (length m.freelist) 64)) [
    | inl q ↦ rw q (
      record {
        distinct = Perm.nodup (Perm.symm (perm_middle (remove a m.live) m.freelist)) split;
        short = omega (arith, ltb→lt _ _ q);
      },
      (λ _. gone),
      (λ x. cc),
    )
    | inr q ↦
        rw q (record { distinct = (Nodup-cons.0 split).1; short = v.short }, (λ _. gone), (λ x. cc))
  ])
]
  where
    split : Nodup (a ∷ remove a m.live ++ m.freelist)
    split = Perm.nodup (Perm.append (remove-perm a m.live h) (Perm.refl m.freelist)) v.distinct

    gone : ¬ Mem a (remove a m.live)
    gone k = (Nodup-cons.0 split).0 (mem-append_left m.freelist k)

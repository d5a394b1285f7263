-- ===== src/Diagnostics/Souls/Bounds.antt =====
-- The search for the allocation that contains some bytes, in src/diagnostics/yuyuko/memory_record.hpp.
use ayafileio.Base.{
  ℕ, ◌+◌, ◌≤◌, ◌<◌, ◌≡◌, ◌⊎◌, refl, subst, ◌∙◌, true, List, [], ◌∷◌, Option, none, some, ltb, leb,
  ltb→lt, le→leb, ◌==◌, ==_iff, ==_refl, if◌then◌else◌, Bool-cases, Option-cases, inl, inr, arith,
}
use ayafileio.Diagnostics.Souls.{SoulRecord, Souls, find, contains, last_below, containing}
use ayafileio.Diagnostics.Souls.Book.{IsBook, find-ptr}

-- Nothing alive overlaps: what starts below another allocation ends before it.
abbrev pub IsDisjoint : List SoulRecord → Type 0
IsDisjoint ss =
    (a c : ℕ) (s t : SoulRecord) → find a ss ≡ some s → find c ss ≡ some t → a < c → a + s.size ≤ c

-- The greatest element that is not above a number, if there is one.
abbrev Greatest : ℕ → List ℕ → Option ℕ → Type 0
Greatest p xs none = (x : ℕ) → contains x xs ≡ true → p < x
Greatest p xs (some m) =
    (contains m xs ≡ true) × (m ≤ p) × ((x : ℕ) → contains x xs ≡ true → x ≤ p → x ≤ m)

contains-cons :
    (y x : ℕ) (xs : List ℕ) → contains y (x ∷ xs) ≡ true → (x ≡ y) ⊎ (contains y xs ≡ true)
contains-cons y x xs h = elim (Bool-cases (x == y)) [
  | inl e ↦ inl ((==_iff x y).0 e)
  | inr e ↦ inr (ground arith)
]

last_below-Greatest : (p : ℕ) (xs : List ℕ) → Greatest p xs (last_below p xs)
unfolding last_below
last_below-Greatest p [] = λ x h. absurd (ground arith)
last_below-Greatest p (x ∷ xs) = go (last_below p xs) (last_below-Greatest p xs)
  where
    go :
        (o : Option ℕ)
        → Greatest p xs o
        → Greatest p (x ∷ xs) (
            if ltb p x
            then o
            else elim o [ none ↦ some x | some y ↦ if ltb x y then some y else some x ])
    go none r = elim (Bool-cases (ltb p x)) [
      | inl e ↦ rw e (λ y h. elim (contains-cons y x xs h) [ inl q ↦ ground arith | inr q ↦ r y q ])
      | inr e ↦ rw e (
        rw (==_refl x) refl,
        ground arith,
        λ y h k. elim (contains-cons y x xs h) [
          | inl q ↦ omega arith
          | inr q ↦ absurd (omega (arith, r y q))
        ],
      )
    ]
    go (some m) (c, l, u) = elim (Bool-cases (ltb p x)) [
      | inl e ↦ rw e (
        ground arith,
        l,
        λ y h k. elim (contains-cons y x xs h) [ inl q ↦ ground arith | inr q ↦ u y q k ],
      )
      | inr e ↦ elim (Bool-cases (ltb x m)) [
        | inl f ↦
            rw (e, f)
              (
                ground arith,
                l,
                λ y h k. elim (contains-cons y x xs h) [ inl q ↦ ground arith | inr q ↦ u y q k ],
              )
        | inr f ↦
            rw (e, f)
              (
                rw (==_refl x) refl,
                ground arith,
                λ y h k. elim (contains-cons y x xs h) [
                  | inl q ↦ omega arith
                  | inr q ↦ ground (arith, u y q k)
                ],
              )
      ]
    ]

-- For a consistent book in which what is alive does not overlap, bytes that start inside an alive
-- allocation are found in it where they end in it too, and otherwise not in what is alive.
pub containing_lem :
    (b : Souls) (a ps pe : ℕ) (s : SoulRecord)
    → IsBook b
    → IsDisjoint b.alive
    → find a b.alive ≡ some s
    → a ≤ ps
    → ps < a + s.size
    → containing ps pe b.alive (last_below ps b.alive_range)
      ≡ (if leb pe (a + s.size) then some s else none)
containing_lem b a ps pe s v d f h k =
    go (last_below ps b.alive_range) (last_below-Greatest ps b.alive_range)
  where
    here : contains a b.alive_range ≡ true
    here = v.alive_mirror a ∙ rw f refl

    own : containing ps pe b.alive (some a) ≡ (if leb pe (a + s.size) then some s else none)
    own = rw (f, containing) (rw (find-ptr a b.alive s f, le→leb a ps h) refl)

    same : (m : ℕ) → contains m b.alive_range ≡ true → m ≤ ps → a ≤ m → a ≡ m
    same m c l u = elim (Option-cases (find m b.alive)) [
      | inl e ↦ absurd (ground (arith, v.alive_mirror m))
      | inr (t, e) ↦ elim (Bool-cases (ltb a m)) [
        | inl q ↦ absurd (omega (arith, d a m s t f e (ltb→lt a m q)))
        | inr q ↦ ground arith
      ]
    ]

    go :
        (o : Option ℕ)
        → Greatest ps b.alive_range o
        → containing ps pe b.alive o ≡ (if leb pe (a + s.size) then some s else none)
    go none r = absurd (omega (arith, r a here))
    go (some m) (c, l, u) =
        subst
          (λ x. containing ps pe b.alive (some x) ≡ (if leb pe (a + s.size) then some s else none))
          (same m c l (u a here h)) own

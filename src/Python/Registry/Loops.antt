-- ===== src/Python/Registry/Loops.antt =====
-- One live batcher for each loop, and each batcher deleted once, in
-- src/bindings/python/batcher_registry.cpp.
use ayafileio.Base.{
  ℕ, ◌+◌, ◌≤◌, ◌≡◌, refl, ap, subst, true, ◌&&◌, List, [], ◌∷◌, ◌++◌, Option, none, some, ltb, ◌==◌,
  ==_iff, ==_refl, if◌then◌else◌, Bool-cases, inl, inr, count, count-append, All, arith,
}
use ayafileio.Core.Config.{Config}
use ayafileio.Python.Batcher.{Batcher, get_timeout_ms}
use ayafileio.Python.Registry.{
  Slot, BatcherRegistry, is_loop, search, find_live_locked, without_nulls, placed, second,
  candidate, get_or_create, batchers, snapshot, clear, least_timeout, next_timeout_ms,
}

-- How many live batchers the entries of a loop have.
abbrev pub lives : (ℕ → Option ℕ) → ℕ → List Slot → ℕ
lives target loop [] = 0
lives target loop (s ∷ ss) =
    elim s.batcher [
      | none ↦ 0
      | some b ↦ if is_loop s.loop loop && is_loop (target b) loop then 1 else 0
    ]
    + lives target loop ss

abbrev pub held : ℕ → BatcherRegistry → ℕ
held b r = count b (batchers r.active) + count b r.retired

some-injective : (x y : ℕ) → some x ≡ some y → x ≡ y
some-injective x y h = ground arith

-- What a search leaves: the same batchers, the same live ones, and the answer to whether there is one.
record Searches (target : ℕ → Option ℕ) (loop : ℕ) (ss : List Slot) (retired : List ℕ)
    (r : Option ℕ × List Slot × List ℕ) : Type 0 where
  same : (b : ℕ) → count b (batchers r.1) + count b r.2 ≡ count b (batchers ss) + count b retired
  alive : (l : ℕ) → lives target l r.1 ≤ lives target l ss
  found : (b : ℕ) → r.0 ≡ some b → is_loop (target b) loop ≡ true
  missed : r.0 ≡ none → lives target loop r.1 ≡ 0

search-Searches :
    (target : ℕ → Option ℕ) (loop : ℕ) (ss : List Slot) (retired : List ℕ)
    → Searches target loop ss retired (search target loop ss retired)
unfolding search
search-Searches target loop [] retired = record {
  same = λ b. refl;
  alive = λ l. omega arith;
  found = λ b h. ground arith;
  missed = λ h. refl;
}
search-Searches target loop (s ∷ ss) retired =
    go s.loop s.batcher (λ r. search-Searches target loop ss r)
  where
    go :
        (l o : Option ℕ)
        → ((r : List ℕ) → Searches target loop ss r (search target loop ss r))
        → Searches target loop
            (record { loop = l; batcher = o } ∷ ss)
            retired
            (search target loop (record { loop = l; batcher = o } ∷ ss) retired)
    go l none rec =
        let w = rec retired in
        record {
          same = w.same;
          alive = λ x. omega (arith, w.alive x);
          found = w.found;
          missed = λ h. omega (arith, w.missed h);
        }
    go l (some b) rec = elim (Bool-cases (is_loop l loop)) [
      | inr e ↦
          let w = rec retired in
          rw (e, search)
            (record {
              same = λ x. omega (arith, w.same x);
              alive = λ x. omega (arith, w.alive x);
              found = w.found;
              missed = λ h. rw e (omega (arith, w.missed h));
            })
      | inl e ↦ elim (Bool-cases (is_loop (target b) loop)) [
        | inl f ↦
            rw (e, f, search)
              (record {
                same = λ x. refl;
                alive = λ x. omega arith;
                found = λ x h. subst (λ y. is_loop (target y) loop ≡ true) (some-injective b x h) f;
                missed = λ h. ground arith;
              })
        | inr f ↦
            let w = rec (retired ++ b ∷ []) in
            rw (e, f, search)
              (record {
                same = λ x. omega (arith, w.same x, count-append x retired (b ∷ []));
                alive = λ x. omega (arith, w.alive x);
                found = w.found;
                missed = λ h. omega (arith, w.missed h);
              })
      ]
    ]

without_nulls-batchers : (ss : List Slot) → batchers (without_nulls ss) ≡ batchers ss
without_nulls-batchers [] = refl
without_nulls-batchers (s ∷ ss) = go s.loop s.batcher (without_nulls-batchers ss)
  where
    go :
        (l o : Option ℕ)
        → batchers (without_nulls ss) ≡ batchers ss
        → batchers (without_nulls (record { loop = l; batcher = o } ∷ ss))
          ≡ batchers (record { loop = l; batcher = o } ∷ ss)
    go l none h = h
    go l (some b) h = ap (λ xs. b ∷ xs) h

without_nulls-lives :
    (target : ℕ → Option ℕ) (loop : ℕ) (ss : List Slot)
    → lives target loop (without_nulls ss) ≡ lives target loop ss
without_nulls-lives target loop [] = refl
without_nulls-lives target loop (s ∷ ss) = go s.loop s.batcher (without_nulls-lives target loop ss)
  where
    go :
        (l o : Option ℕ)
        → lives target loop (without_nulls ss) ≡ lives target loop ss
        → lives target loop (without_nulls (record { loop = l; batcher = o } ∷ ss))
          ≡ lives target loop (record { loop = l; batcher = o } ∷ ss)
    go l none h = omega arith
    go l (some b) h = omega arith

lives-append :
    (target : ℕ → Option ℕ) (loop : ℕ) (xs ys : List Slot)
    → lives target loop (xs ++ ys) ≡ lives target loop xs + lives target loop ys
lives-append target loop [] ys = omega arith
lives-append target loop (x ∷ xs) ys = omega (arith, lives-append target loop xs ys)

batchers-append : (xs ys : List Slot) → batchers (xs ++ ys) ≡ batchers xs ++ batchers ys
batchers-append [] ys = refl
batchers-append (s ∷ xs) ys = go s.loop s.batcher (batchers-append xs ys)
  where
    go :
        (l o : Option ℕ)
        → batchers (xs ++ ys) ≡ batchers xs ++ batchers ys
        → batchers (record { loop = l; batcher = o } ∷ xs ++ ys)
          ≡ batchers (record { loop = l; batcher = o } ∷ xs) ++ batchers ys
    go l none h = h
    go l (some b) h = ap (λ zs. b ∷ zs) h

-- Every loop has at most one live batcher, and no batcher is in two places.
pub record IsSingle (target : ℕ → Option ℕ) (r : BatcherRegistry) : Type 0 where
  pub one_live : (loop : ℕ) → lives target loop r.active ≤ 1
  pub once : (b : ℕ) → held b r ≤ 1

find_live_locked-IsSingle :
    (target : ℕ → Option ℕ) (loop : ℕ) (r : BatcherRegistry)
    → IsSingle target r
    → IsSingle target (find_live_locked target loop r).1
unfolding find_live_locked
find_live_locked-IsSingle target loop r v =
    let w = search-Searches target loop r.active r.retired in
    record {
      one_live = λ x. omega (arith, w.alive x, v.one_live x);
      once = λ b. omega (arith, w.same b, v.once b);
    }

-- The batcher serves the loop, and the registry is still one with single entries.
abbrev pub Serves : (ℕ → Option ℕ) → ℕ → ℕ × BatcherRegistry → Type 0
Serves target loop r = (is_loop (target r.0) loop ≡ true) × IsSingle target r.1

module _ (target : ℕ → Option ℕ) (loop fresh : ℕ) (served : target fresh ≡ some loop) where
  no-nulls-IsSingle :
      (r : BatcherRegistry)
      → IsSingle target r
      → IsSingle target (record r { active = without_nulls r.active })
  no-nulls-IsSingle r v = record {
    one_live = λ x. omega (arith, without_nulls-lives target x r.active, v.one_live x);
    once = λ b. rw (without_nulls-batchers r.active) (v.once b);
  }

  added : List Slot → List Slot
  added ss = ss ++ record { loop = some loop; batcher = some fresh } ∷ []

  added-lives :
      (ss : List Slot) (x : ℕ)
      → lives target loop ss ≡ 0
      → lives target x ss ≤ 1
      → lives target x (added ss) ≤ 1
  unfolding added
  added-lives ss x z h =
      let e = lives-append target x ss (record { loop = some loop; batcher = some fresh } ∷ []) in
      elim (Bool-cases (loop == x)) [
        | inl q ↦
            let none : lives target x ss ≡ 0 =
              subst (λ y. lives target y ss ≡ 0) ((==_iff loop x).0 q) z in
            ground (arith, e, none)
        | inr q ↦ ground (arith, e)
      ]

  added-held :
      (r : BatcherRegistry) (objects : ℕ → Batcher) (b : ℕ)
      → held fresh r ≡ 0
      → held b r ≤ 1
      → held b (record r { active = added r.active; objects = objects }) ≤ 1
  unfolding added
  added-held r objects b z h =
      rw (batchers-append r.active (record { loop = some loop; batcher = some fresh } ∷ []))
        (elim (Bool-cases (fresh == b)) [
          | inl q ↦
              let none : held b r ≡ 0 = subst (λ y. held y r ≡ 0) ((==_iff fresh b).0 q) z in
              ground (arith, count-append b (batchers r.active) (fresh ∷ []), none)
          | inr q ↦ ground (arith, count-append b (batchers r.active) (fresh ∷ []), h)
        ])

  placed-Serves :
      (made : Batcher) (f : Option ℕ × BatcherRegistry)
      → ((b : ℕ) → f.0 ≡ some b → is_loop (target b) loop ≡ true)
      → (f.0 ≡ none → lives target loop f.1.active ≡ 0)
      → held fresh f.1 ≡ 0
      → IsSingle target f.1
      → Serves target loop (placed loop fresh made f)
  unfolding added
  placed-Serves made (some hit, r) found missed z v = (found hit refl, no-nulls-IsSingle r v)
  placed-Serves made (none, r) found missed z v = (
    rw served (==_refl loop),
    no-nulls-IsSingle
        (record r {
          active = added r.active;
          objects = (placed loop fresh made (none, r)).1.objects;
        })
        (record {
          one_live = λ x. added-lives r.active x (missed refl) (v.one_live x);
          once = λ b. added-held r (placed loop fresh made (none, r)).1.objects b z (v.once b);
        }),
  )

  find_live_locked-Serves :
      (made : Batcher) (r : BatcherRegistry)
      → held fresh r ≡ 0
      → IsSingle target r
      → Serves target loop (placed loop fresh made (find_live_locked target loop r))
  unfolding find_live_locked
  find_live_locked-Serves made r z v =
      let w = search-Searches target loop r.active r.retired in
      placed-Serves made (find_live_locked target loop r) w.found w.missed
        (omega (arith, w.same fresh)) (find_live_locked-IsSingle target loop r v)

  -- For a registry in which every loop has at most one live batcher and no batcher is in two places,
  -- if this is still so after what other threads do while a batcher is made, whose address none of
  -- them uses, the loop gets a batcher whose weak reference reaches that very loop, and each loop
  -- still has at most one.
  pub get_or_create-Serves :
      (cfg : Config) (meanwhile : BatcherRegistry → BatcherRegistry) (r : BatcherRegistry)
      → IsSingle target r
      → IsSingle target (meanwhile (find_live_locked target loop r).1)
      → held fresh (meanwhile (find_live_locked target loop r).1) ≡ 0
      → Serves target loop (get_or_create target loop fresh cfg meanwhile r)
  unfolding get_or_create find_live_locked
  get_or_create-Serves cfg meanwhile r v w z =
      let s = search-Searches target loop r.active r.retired in
      go (find_live_locked target loop r) s.found (find_live_locked-IsSingle target loop r v) w z
    where
      go :
          (f : Option ℕ × BatcherRegistry)
          → ((b : ℕ) → f.0 ≡ some b → is_loop (target b) loop ≡ true)
          → IsSingle target f.1
          → IsSingle target (meanwhile f.1)
          → held fresh (meanwhile f.1) ≡ 0
          → Serves target loop (second target loop fresh cfg meanwhile f)
      go (some hit, q) found u u' z' = (found hit refl, u)
      go (none, q) found u u' z' = find_live_locked-Serves (candidate cfg) (meanwhile q) z' u'

-- The least of the waits and of a value that is given.
least_timeout-le :
    (objects : ℕ → Batcher) (now : ℕ) (bs : List ℕ) (result : ℕ)
    → (least_timeout objects now bs result ≤ result)
      × All (λ b. least_timeout objects now bs result ≤ get_timeout_ms (objects b) now) bs
unfolding least_timeout
least_timeout-le objects now [] result = (omega arith, tt)
least_timeout-le objects now (b ∷ bs) result =
    let t = get_timeout_ms (objects b) now in
    let w = least_timeout-le objects now bs (if ltb t result then t else result) in
    (ground (arith, w.0), (ground (arith, w.0), w.1))

-- The wait of a worker is no longer than that of any batcher, nor than INFINITE.
pub next_timeout_ms-le :
    (r : BatcherRegistry) (now : ℕ)
    → (next_timeout_ms r now ≤ 4294967295)
      × All (λ b. next_timeout_ms r now ≤ get_timeout_ms (r.objects b) now) (snapshot r)
unfolding next_timeout_ms
next_timeout_ms-le r now = least_timeout-le r.objects now (snapshot r) 4294967295

-- A clear deletes each batcher, active or retired, as often as the registry held it, and leaves none.
pub clear-held :
    (r : BatcherRegistry) (b : ℕ) → (count b (clear r).0 ≡ held b r) × (held b (clear r).1 ≡ 0)
unfolding clear
clear-held r b = (omega (arith, count-append b (batchers r.active) r.retired), refl)

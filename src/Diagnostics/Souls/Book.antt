-- ===== src/Diagnostics/Souls/Book.antt =====
-- The book of src/diagnostics/yuyuko/memory_record.hpp stays consistent, and an allocation goes through
-- its life once.
use ayafileio.Base.{
  ℕ, ◌≡◌, ◌≢◌, ==_ne, refl, ap, subst, sym, ◌∙◌, Bool, true, false, not, ◌&&◌, List, [], ◌∷◌,
  Option, none, some, ◌==◌, ==_iff, ==_refl, if◌then◌else◌, if-elim, Bool-cases, Option-cases, inl,
  inr, arith,
}
use ayafileio.Diagnostics.Souls.{
  AllocSource, operator_new, std_malloc, SoulRecord, Souls, Site, find, erase, store, contains,
  without, insert, soul_of, register_soul_impl, same_source, emplace, moved, released_from,
  release_soul_impl, is_found, check_access, mark_permanent,
}

find-erase :
    (a b : ℕ) (ss : List SoulRecord)
    → is_found (find a (erase b ss)) ≡ (if b == a then false else is_found (find a ss))
find-erase a b [] = ground arith
find-erase a b (s ∷ ss) = ground (arith, find-erase a b ss)

contains-without :
    (a b : ℕ) (xs : List ℕ) → contains a (without b xs) ≡ (if b == a then false else contains a xs)
contains-without a b [] = ground arith
contains-without a b (x ∷ xs) = ground (arith, contains-without a b xs)

contains-insert :
    (a b : ℕ) (xs : List ℕ) → contains a (insert b xs) ≡ (if b == a then true else contains a xs)
contains-insert a b xs = elim (Bool-cases (contains b xs)) [
  | inr e ↦ rw (e, insert) refl
  | inl e ↦
      rw (e, insert)
        (elim (Bool-cases (b == a)) [
          | inl h ↦ rw h (subst (λ x. contains x xs ≡ true) ((==_iff b a).0 h) e)
          | inr h ↦ rw h refl
        ])
]

find-store :
    (a : ℕ) (s : SoulRecord) (ss : List SoulRecord)
    → is_found (find a (store s ss)) ≡ (if s.ptr == a then true else is_found (find a ss))
find-store a s ss = ground (arith, find-erase a s.ptr ss)

find-emplace :
    (a : ℕ) (s : SoulRecord) (ss : List SoulRecord)
    → is_found (find s.ptr ss) ≡ false
    → is_found (find a (emplace s ss)) ≡ (if s.ptr == a then true else is_found (find a ss))
find-emplace a s ss h = elim (Option-cases (find s.ptr ss)) [
  | inl e ↦ rw (e, emplace) (ground arith)
  | inr (x, e) ↦ absurd (ground arith)
]

pub find-ptr : (a : ℕ) (ss : List SoulRecord) (s : SoulRecord) → find a ss ≡ some s → s.ptr ≡ a
find-ptr a [] s h = ground arith
find-ptr a (x ∷ xs) s h = ground (arith, find-ptr a xs s)

-- No address is both alive and released, and each set of addresses is that of its map.
pub record IsBook (b : Souls) : Type 0 where
  pub apart : (a : ℕ) → (is_found (find a b.alive) && is_found (find a b.released)) ≡ false
  pub alive_mirror : (a : ℕ) → contains a b.alive_range ≡ is_found (find a b.alive)
  pub released_mirror : (a : ℕ) → contains a b.released_range ≡ is_found (find a b.released)

released_range-register :
    (b : Souls) (a x : ℕ)
    → IsBook b
    → contains x
        (elim (find a b.released) [ none ↦ b.released_range | some s ↦ without a b.released_range ])
      ≡ (if a == x then false else is_found (find x b.released))
released_range-register b a x v = elim (Option-cases (find a b.released)) [
  | inl e ↦ rw e (elim (Bool-cases (a == x)) [
    | inl h ↦
        let gone : is_found (find x b.released) ≡ false =
          subst (λ y. is_found (find y b.released) ≡ false) ((==_iff a x).0 h) (rw e refl) in
        rw h (v.released_mirror x ∙ gone)
    | inr h ↦ rw h (v.released_mirror x)
  ])
  | inr (s, e) ↦ rw e (
      contains-without x a b.released_range
      ∙ ap (λ c. if a == x then false else c) (v.released_mirror x))
]

-- A registration keeps the book consistent: no address both alive and released, and each set of
-- addresses that of its map.
pub register_soul_impl-IsBook :
    (b : Souls) (a size : ℕ) (source : AllocSource) (at : Site)
    → IsBook b
    → IsBook (register_soul_impl b a size source at)
unfolding register_soul_impl
register_soul_impl-IsBook b a size source at v = record {
  apart = λ x. ground (
    arith,
    v.apart x,
    find-store x (soul_of a size source at) b.alive,
    find-erase x a b.released,
  );
  alive_mirror = λ x. ground (
    arith,
    v.alive_mirror x,
    contains-insert x a b.alive_range,
    find-store x (soul_of a size source at) b.alive,
  );
  released_mirror = λ x. released_range-register b a x v ∙ sym (find-erase x a b.released);
}

moved-IsBook :
    (b : Souls) (a : ℕ) (s : SoulRecord) (now : ℕ)
    → find a b.alive ≡ some s
    → find a b.released ≡ none
    → IsBook b
    → IsBook (moved b a s now)
moved-IsBook b a s now f g v =
    let p = find-ptr a b.alive s f in
    let t : SoulRecord = record s { timestamp = now } in
    let fresh : is_found (find s.ptr b.released) ≡ false = rw p (rw g refl) in
    record {
      apart = λ x.
          ground (arith, v.apart x, p, find-emplace x t b.released fresh, find-erase x a b.alive);
      alive_mirror = λ x.
          ground
            (arith, v.alive_mirror x, contains-without x a b.alive_range, find-erase x a b.alive);
      released_mirror = λ x. ground (
        arith,
        p,
        v.released_mirror x,
        contains-insert x a b.released_range,
        find-emplace x t b.released fresh,
      );
    }

-- So does a release, whether it is accepted or refused.
pub release_soul_impl-IsBook :
    (b : Souls) (a : ℕ) (source : AllocSource) (now : ℕ)
    → IsBook b
    → IsBook (release_soul_impl b a source now).1
unfolding release_soul_impl
release_soul_impl-IsBook b a source now v =
    if-elim {A = Bool × Souls} (λ r. IsBook r.1) (a == 0) v
      (elim (Option-cases (find a b.released)) [
        | inr (s, e) ↦ rw (e, release_soul_impl) v
        | inl e ↦
            rw (e, release_soul_impl)
              (elim (Option-cases (find a b.alive)) [
                | inl f ↦ rw (f, released_from) v
                | inr (s, f) ↦
                    rw (f, released_from)
                      (if-elim {A = Bool × Souls} (λ r. IsBook r.1) (same_source s.source source)
                        (moved-IsBook b a s now f e v) v)
              ])
      ])

pub mark_permanent-IsBook : (b : Souls) (a : ℕ) → IsBook b → IsBook (mark_permanent b a)
unfolding mark_permanent
mark_permanent-IsBook b a v = if-elim {A = Souls} IsBook (a == 0) v (
    if-elim {A = Souls} IsBook (is_found (find a b.alive))
      (record {
        apart = v.apart;
        alive_mirror = v.alive_mirror;
        released_mirror = v.released_mirror;
      })
      v)

abbrev pub other_source : AllocSource → AllocSource
other_source operator_new = std_malloc
other_source std_malloc = operator_new

erased : (a : ℕ) (ss : List SoulRecord) → find a (erase a ss) ≡ none
erased a [] = refl
erased a (s ∷ ss) = ground (arith, erased a ss)

-- The answers of a release, by where the address is found.
release_alive :
    (b : Souls) (a : ℕ) (s : SoulRecord) (source : AllocSource) (now : ℕ)
    → a ≢ 0
    → find a b.released ≡ none
    → find a b.alive ≡ some s
    → release_soul_impl b a source now
      ≡ (if same_source s.source source then (true, moved b a s now) else (false, b))
unfolding release_soul_impl
release_alive b a s source now h e f = rw (==_ne a 0 h, e, f, released_from) refl

release_released :
    (b : Souls) (a : ℕ) (s : SoulRecord) (source : AllocSource) (now : ℕ)
    → find a b.released ≡ some s
    → release_soul_impl b a source now ≡ (false, b)
unfolding release_soul_impl
release_released b a s source now e =
    rw e (if-elim {A = Bool × Souls} (λ r. r ≡ (false, b)) (a == 0) refl refl)

check_access-released :
    (b : Souls) (a : ℕ) (o : Option SoulRecord)
    → a ≢ 0
    → find a b.released ≡ o
    → check_access b a ≡ not (is_found o)
unfolding check_access
check_access-released b a o h e = rw (==_ne a 0 h, e) refl

same_source_refl : (s : AllocSource) → same_source s s ≡ true
same_source_refl operator_new = refl
same_source_refl std_malloc = refl

same_source_other : (s : AllocSource) → same_source s (other_source s) ≡ false
same_source_other operator_new = refl
same_source_other std_malloc = refl

-- A null pointer apart, an address that was just registered may be accessed; its release under the
-- source that it was registered with is accepted, and one under the other source is refused and
-- changes nothing; after the release it may not be accessed, and a second release is refused and
-- changes nothing, under any source.
pub release_soul_impl-register :
    (b : Souls) (a size : ℕ) (source again : AllocSource) (at : Site) (now later : ℕ)
    → a ≢ 0
    → let alive = register_soul_impl b a size source at in
      let (accepted, released) = release_soul_impl alive a source now in
      (check_access alive a ≡ true)
      × (release_soul_impl alive a (other_source source) now ≡ (false, alive))
      × (accepted ≡ true)
      × (check_access released a ≡ false)
      × (release_soul_impl released a again later ≡ (false, released))
unfolding register_soul_impl
release_soul_impl-register b a size source again at now later h =
    let alive = register_soul_impl b a size source at in
    let s = soul_of a size source at in
    let none_released : find a alive.released ≡ none = erased a b.released in
    let found : find a alive.alive ≡ some s = rw (==_refl a) refl in
    let d = moved alive a s now in
    let t : SoulRecord = record s { timestamp = now } in
    let now_released : find a d.released ≡ some t =
      rw (none_released, emplace) (rw (==_refl a) refl) in
    let good : release_soul_impl alive a source now ≡ (true, d) =
      release_alive alive a s source now h none_released found
      ∙ rw (same_source_refl source) refl in
    rw good (
      check_access-released alive a none h none_released,
      release_alive alive a s (other_source source) now h none_released found
          ∙ rw (same_source_other source) refl,
      refl,
      check_access-released d a (some t) h now_released,
      release_released d a t again later now_released,
    )

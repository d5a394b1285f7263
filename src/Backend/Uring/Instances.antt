-- ===== src/Backend/Uring/Instances.antt =====
-- The rings of the schedulers in src/backend/linux/uring_pool.cpp: which one a scheduler gets.
use ayafileio.Base.{
  ℕ, ◌≡◌, ◌≢◌, ◌∙◌, refl, sym, subst, ==_refl, ==_ne, Bool, true, false, not, ◌&&◌, [], ◌∷◌, none,
  some, ◌==◌, arith, Bool-cases, Option-cases, inl, inr,
}
use ayafileio.Backend.Uring.Setup.{
  Instance, Answers, setup_instance, Instances, lookup, erase, new_instance, create_instance,
  acquire,
}

-- No key has a second instance.
abbrev pub OnePerKey : Instances → Type 0
OnePerKey [] = Unit
OnePerKey ((key, i) ∷ rest) = (lookup key rest ≡ none) × OnePerKey rest

some-inj : (i j : Instance) → some i ≡ some j → i ≡ j
some-inj i j h = ground arith

none_found : {P : Type 0} {i : Instance} → none ≡ some i → P
none_found h = ground arith

lookup-erase : (k key : ℕ) (xs : Instances) → k ≢ key → lookup k (erase key xs) ≡ lookup k xs
lookup-erase k key [] h = refl
lookup-erase k key ((k', i) ∷ rest) h = ground (arith, lookup-erase k key rest h)

erase-absent : (k key : ℕ) (xs : Instances) → lookup k xs ≡ none → lookup k (erase key xs) ≡ none
erase-absent k key [] h = refl
erase-absent k key ((k', i) ∷ rest) h = ground (arith, erase-absent k key rest)

erase-OnePerKey : (key : ℕ) (xs : Instances) → OnePerKey xs → OnePerKey (erase key xs)
erase-OnePerKey key [] h = tt
erase-OnePerKey key ((k, i) ∷ rest) (a, o) = elim (Bool-cases (k == key)) [
  | inl e ↦ rw e o
  | inr e ↦ rw e (erase-absent k key rest a, erase-OnePerKey key rest o)
]

erase-gone : (key : ℕ) (xs : Instances) → OnePerKey xs → lookup key (erase key xs) ≡ none
erase-gone key [] h = refl
erase-gone key ((k, i) ∷ rest) (a, o) = elim (Bool-cases (k == key)) [
  | inl e ↦ rw e (ground (arith, a, e))
  | inr e ↦ rw e (rw e (erase-gone key rest o))
]

-- What a scheduler gets: an instance that runs, whose owner lives if that of the caller does, and that
-- is found under its key from now on. The others are as they were, and no key has two.
pub record Acquired (key : ℕ) (x : Bool) (xs : Instances) (i : Instance) (ys : Instances)
    : Type 0 where
  pub runs : i.running ≡ true
  pub lives : x ≡ false → i.expired ≡ false
  pub found : lookup key ys ≡ some i
  pub others : (k : ℕ) → k ≢ key → lookup k ys ≡ lookup k xs
  pub one_each : OnePerKey ys

setup-Kept :
    (a : Answers) (i : Instance)
    → ((setup_instance a i).1.running ≡ i.running) × ((setup_instance a i).1.expired ≡ i.expired)
unfolding setup_instance
setup-Kept a i = ground arith

create-Acquired :
    (a : Answers) (key : ℕ) (x : Bool) (id : ℕ) (xs : Instances) (i : Instance)
    → OnePerKey xs
    → lookup key xs ≡ none
    → (create_instance a key x id xs).0 ≡ some i
    → Acquired key x xs i (create_instance a key x id xs).1
unfolding create_instance
create-Acquired a key x id xs i o gone h =
    elim (Bool-cases (setup_instance a (new_instance id x)).0) [
      | inl e ↦
          let new = (setup_instance a (new_instance id x)).1 in
          let same : new ≡ i = some-inj new i (rw e at h) in
          rw e (
            subst (λ j. Acquired key x xs j ((key, new) ∷ xs)) same
              (record {
                runs = (setup-Kept a (new_instance id x)).0;
                lives = λ h. (setup-Kept a (new_instance id x)).1 ∙ h;
                found = rw (==_refl key);
                others = λ k ne. rw (==_ne key k (λ q. ne (sym q)));
                one_each = (gone, o);
              }))
      | inr e ↦ none_found (rw e at h)
    ]

erased-Acquired :
    (a : Answers) (key : ℕ) (x : Bool) (id : ℕ) (xs : Instances) (i : Instance)
    → OnePerKey xs
    → (create_instance a key x id (erase key xs)).0 ≡ some i
    → Acquired key x xs i (create_instance a key x id (erase key xs)).1
erased-Acquired a key x id xs i o h =
    let v =
      create-Acquired a key x id (erase key xs) i (erase-OnePerKey key xs o) (erase-gone key xs o)
        h in
    record {
      runs = v.runs;
      lives = v.lives;
      found = v.found;
      others = λ k ne. v.others k ne ∙ lookup-erase k key xs ne;
      one_each = v.one_each;
    }

-- Where each scheduler has one instance at most, a scheduler that gets one gets an instance that runs,
-- whose owner lives if that of the caller does, and that is the one found under its key from then on; the other schedulers keep theirs, and each still
-- has one at most.
pub acquire-Acquired :
    (a : Answers) (key : ℕ) (x : Bool) (id : ℕ) (xs : Instances) (i : Instance)
    → OnePerKey xs
    → (acquire a key x id xs).0 ≡ some i
    → Acquired key x xs i (acquire a key x id xs).1
unfolding acquire
acquire-Acquired a key x id xs i o h = elim (Option-cases (lookup key xs)) [
  | inl e ↦ rw (e, acquire) (create-Acquired a key x id xs i o e (rw (e, acquire) at h))
  | inr (j, e) ↦ elim (Bool-cases (j.running && not j.expired)) [
    | inl b ↦
        rw (e, acquire)
          (rw b (
            subst (λ i'. Acquired key x xs i' xs) (some-inj j i (rw b at (rw (e, acquire) at h)))
              (record {
                runs = (both j.running j.expired b).0;
                lives = λ h. (both j.running j.expired b).1;
                found = e;
                others = λ k ne. refl;
                one_each = o;
              })))
    | inr b ↦
        rw (e, acquire) (rw b (erased-Acquired a key x id xs i o (rw b at (rw (e, acquire) at h))))
  ]
]
  where
    both : (r y : Bool) → (r && not y) ≡ true → (r ≡ true) × (y ≡ false)
    both true false h = (refl, refl)
    both true true h = ground arith
    both false y h = ground arith

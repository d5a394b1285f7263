-- ===== src/Backend/Uring/Order.antt =====
-- What enters a ring of src/backend/linux/uring_pool.cpp, and in which order.
use ayafileio.Base.{
  ℕ, ◌≡◌, ◌∙◌, refl, sym, List, [], ◌∷◌, ◌++◌, append-nil, append_assoc, map, Bool, true, false,
  if-elim, arith, Bool-cases, inl, inr,
}
use mathlib.Core.List.{map-append}
use ayafileio.Backend.Uring.{
  PendingSubmit, Entry, RingCall, prepared, refused, submitted, Ring, entry_of, uring_prep_sqe,
  uring_submit_or_queue, next_entry, drain_loop, uring_drain_overflow,
}

abbrev pub Tagged : Type 0
Tagged = Entry × ℕ

abbrev pub tagged : PendingSubmit → Tagged
tagged p = (entry_of p, p.request)

-- The entries that were prepared, the oldest first.
abbrev pub entered : List RingCall → List Tagged
entered [] = []
entered (prepared e request ∷ calls) = entered calls ++ (e, request) ∷ []
entered (refused ∷ calls) = entered calls
entered (submitted ∷ calls) = entered calls

abbrev pub waiting : List RingCall → Bool
waiting [] = false
waiting (prepared e request ∷ calls) = true
waiting (refused ∷ calls) = waiting calls
waiting (submitted ∷ calls) = false

abbrev pub in_order : Ring → List Tagged
in_order r = entered r.ring ++ map tagged r.overflow

-- What a ring is asked to do.
pub data Call : Type 0 where
  submits : PendingSubmit → Call
  drains : Call

abbrev pub asked : List Call → List Tagged
asked [] = []
asked (submits p ∷ cs) = tagged p ∷ asked cs
asked (drains ∷ cs) = asked cs

unfoldable pub run : (List RingCall → Bool) → Ring → List Call → Ring
run room r [] = r
run room r (submits p ∷ cs) = run room (uring_submit_or_queue room r p) cs
run room r (drains ∷ cs) = run room (uring_drain_overflow room r) cs

module _ (room : List RingCall → Bool) where
  next_entry-entered :
      (calls : List RingCall) (w : Bool) → entered (next_entry room calls w).1 ≡ entered calls
  unfolding next_entry
  next_entry-entered calls w = ground arith

  drain_loop-entered :
      (calls : List RingCall) (w : Bool) (ps : List PendingSubmit)
      → let (calls', w', left) = drain_loop room calls w ps in
        entered calls' ++ map tagged left ≡ entered calls ++ map tagged ps
  unfolding drain_loop uring_prep_sqe
  drain_loop-entered calls w [] = refl
  drain_loop-entered calls w (p ∷ ps) =
      let (found, calls') = next_entry room calls w in
      if-elim {A = List RingCall × Bool × List PendingSubmit}
        (λ r. entered r.0 ++ map tagged r.2 ≡ entered calls ++ tagged p ∷ map tagged ps)
        (next_entry room calls w).0
        (drain_loop-entered (uring_prep_sqe (next_entry room calls w).1 p) true ps
          ∙ rw (next_entry-entered calls w, append_assoc))
        (rw (next_entry-entered calls w))

  drain-in_order : (r : Ring) → in_order (uring_drain_overflow room r) ≡ in_order r
  unfolding uring_drain_overflow
  drain-in_order r =
      if-elim
        (λ calls.
          entered calls ++ map tagged (drain_loop room r.ring false r.overflow).2 ≡ in_order r)
        (drain_loop room r.ring false r.overflow).1 (drain_loop-entered r.ring false r.overflow)
        (drain_loop-entered r.ring false r.overflow)

  submit-in_order :
      (r : Ring) (p : PendingSubmit)
      → in_order (uring_submit_or_queue room r p) ≡ in_order r ++ tagged p ∷ []
  unfolding uring_submit_or_queue uring_prep_sqe
  submit-in_order r p = go r.ring r.overflow
    where
      go :
          (calls : List RingCall) (left : List PendingSubmit)
          → in_order (uring_submit_or_queue room (record { ring = calls; overflow = left }) p)
            ≡ (entered calls ++ map tagged left) ++ tagged p ∷ []
      go calls [] =
          if-elim (λ r'. in_order r' ≡ (entered calls ++ []) ++ tagged p ∷ []) (room calls)
            (rw (append-nil (entered calls), append-nil (entered calls ++ tagged p ∷ [])))
            (rw append-nil)
      go calls (q ∷ qs) = rw (map-append, append_assoc)

  -- What is asked of a ring enters it in the order it was asked, each once: at any time, the entries
  -- that were prepared, followed by what waits in the overflow, are those at the start followed by
  -- what was asked since.
  pub run-in_order : (r : Ring) (cs : List Call) → in_order (run room r cs) ≡ in_order r ++ asked cs
  unfolding run
  run-in_order r [] = sym (append-nil (in_order r))
  run-in_order r (submits p ∷ cs) =
      run-in_order (uring_submit_or_queue room r p) cs ∙ rw (submit-in_order r p, append_assoc)
  run-in_order r (drains ∷ cs) =
      run-in_order (uring_drain_overflow room r) cs ∙ rw (drain-in_order r)

  next_entry-Submitted :
      (calls : List RingCall) (w : Bool)
      → waiting calls ≡ w
      → (next_entry room calls w).0 ≡ false
      → waiting (next_entry room calls w).1 ≡ false
  unfolding next_entry
  next_entry-Submitted calls w h e = ground arith

  drain_loop-waiting :
      (calls : List RingCall) (w : Bool) (ps : List PendingSubmit)
      → waiting calls ≡ w
      → waiting (drain_loop room calls w ps).0 ≡ (drain_loop room calls w ps).1
  unfolding drain_loop uring_prep_sqe
  drain_loop-waiting calls w [] h = h
  drain_loop-waiting calls w (p ∷ ps) h = elim (Bool-cases (next_entry room calls w).0) [
    | inl e ↦ rw e (drain_loop-waiting (uring_prep_sqe (next_entry room calls w).1 p) true ps refl)
    | inr e ↦ rw e (next_entry-Submitted calls w h e)
  ]

  submit-Submitted :
      (r : Ring) (p : PendingSubmit)
      → waiting r.ring ≡ false
      → waiting (uring_submit_or_queue room r p).ring ≡ false
  unfolding uring_submit_or_queue uring_prep_sqe
  submit-Submitted r p h = go r.overflow
    where
      go :
          (left : List PendingSubmit)
          → waiting (uring_submit_or_queue room (record { ring = r.ring; overflow = left }) p).ring
            ≡ false
      go [] = if-elim {A = Ring} (λ r'. waiting r'.ring ≡ false) (room r.ring) refl h
      go (q ∷ qs) = h

  drain-Submitted :
      (r : Ring) → waiting r.ring ≡ false → waiting (uring_drain_overflow room r).ring ≡ false
  unfolding uring_drain_overflow
  drain-Submitted r h = elim (Bool-cases (drain_loop room r.ring false r.overflow).1) [
    | inl e ↦ rw e
    | inr e ↦ rw e (drain_loop-waiting r.ring false r.overflow h ∙ e)
  ]

  -- On a ring on which every prepared entry has been submitted, that stays so after any calls: no
  -- entry is left prepared without a submit behind it.
  pub run-Submitted :
      (r : Ring) (cs : List Call) → waiting r.ring ≡ false → waiting (run room r cs).ring ≡ false
  unfolding run
  run-Submitted r [] h = h
  run-Submitted r (submits p ∷ cs) h =
      run-Submitted (uring_submit_or_queue room r p) cs (submit-Submitted r p h)
  run-Submitted r (drains ∷ cs) h =
      run-Submitted (uring_drain_overflow room r) cs (drain-Submitted r h)

  drain_loop-emptied :
      ((calls : List RingCall) → room (submitted ∷ calls) ≡ true)
      → (calls : List RingCall) (ps : List PendingSubmit) → (drain_loop room calls true ps).2 ≡ []
  unfolding drain_loop next_entry uring_prep_sqe
  drain_loop-emptied k calls [] = refl
  drain_loop-emptied k calls (p ∷ ps) = elim (Bool-cases (room calls)) [
    | inl e ↦ rw (e, next_entry) (drain_loop-emptied k (uring_prep_sqe calls p) ps)
    | inr e ↦
        rw (e, next_entry, k (refused ∷ calls))
          (drain_loop-emptied k (uring_prep_sqe (submitted ∷ refused ∷ calls) p) ps)
  ]

  -- If the ring has room after each submit, and has some when a drain begins, the drain empties the
  -- overflow, so that everything asked before has entered the ring.
  pub drain-emptied :
      (r : Ring)
      → ((calls : List RingCall) → room (submitted ∷ calls) ≡ true)
      → room r.ring ≡ true
      → (in_order r ≡ entered (uring_drain_overflow room r).ring)
        × ((uring_drain_overflow room r).overflow ≡ [])
  unfolding uring_drain_overflow drain_loop next_entry uring_prep_sqe
  drain-emptied r k h =
      let none_left = go r.overflow in
      (sym (drain-in_order r) ∙ rw (none_left, append-nil), none_left)
    where
      go : (left : List PendingSubmit) → (drain_loop room r.ring false left).2 ≡ []
      go [] = refl
      go (p ∷ ps) = rw (h, next_entry) (drain_loop-emptied k (uring_prep_sqe r.ring p) ps)

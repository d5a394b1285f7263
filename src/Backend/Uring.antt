-- ===== src/Backend/Uring.antt =====
-- src/backend/linux/uring_pool.hpp and uring_pool.cpp: the submission queue of one ring with its
-- overflow, and the rings of the schedulers. The ring is liburing's: `room` says, from all calls made
-- on it so far, whether `io_uring_get_sqe` gives an entry, so that the kernel may take what was
-- submitted at any pace.
pub mod Order
pub mod Setup
pub mod Instances
pub mod File
mod Tests
use ayafileio.Base.{
  ℕ, Bool, true, false, not, ◌&&◌, List, [], ◌∷◌, ◌++◌, Option, none, some, ◌==◌, if◌then◌else◌, ℤ,
}

-- `IORING_OP_…`, those that the code names.
pub data Opcode : Type 0 where
  op_read op_write op_fsync op_openat : Opcode
  op_other : ℕ → Opcode

pub record PendingSubmit : Type 0 where
  pub request : ℕ
  pub op : Opcode
  pub fd : ℤ
  pub buf : ℕ
  pub len : ℕ
  pub offset : ℕ

-- What an entry asks the kernel for.
pub data Entry : Type 0 where
  reads : ℤ → (buf len offset : ℕ) → Entry
  writes : ℤ → (buf len offset : ℕ) → Entry
  syncs : ℤ → Entry
  opens : ℤ → (path flags mode : ℕ) → Entry
  unprepared : Entry

-- The calls on the ring, newest first: an entry prepared with its user data, an entry refused, a
-- submit.
pub data RingCall : Type 0 where
  prepared : Entry → ℕ → RingCall
  refused : RingCall
  submitted : RingCall

pub record Ring : Type 0 where
  pub ring : List RingCall
  pub overflow : List PendingSubmit

abbrev pub entry_of : PendingSubmit → Entry
entry_of p = elim p.op [
  | op_read ↦ reads p.fd p.buf p.len p.offset
  | op_write ↦ writes p.fd p.buf p.len p.offset
  | op_fsync ↦ syncs p.fd
  | op_openat ↦ opens p.fd p.buf p.len p.offset
  | op_other n ↦ unprepared
]

unfoldable pub uring_prep_sqe : List RingCall → PendingSubmit → List RingCall
uring_prep_sqe calls p = prepared (entry_of p) p.request ∷ calls

module _ (room : List RingCall → Bool) where
  unfoldable pub uring_submit_or_queue : Ring → PendingSubmit → Ring
  unfolding uring_prep_sqe
  uring_submit_or_queue r p = elim r.overflow [
    | q ∷ qs ↦ record r { overflow = r.overflow ++ p ∷ [] }
    | [] ↦
        if room r.ring
        then record r { ring = submitted ∷ uring_prep_sqe r.ring p }
        else record { ring = refused ∷ r.ring; overflow = p ∷ [] }
  ]

  -- The loop up to the next entry: whether there is one, and the calls made for it. Where none is to
  -- be had and some entries wait for a submit, they are submitted and the loop tries once more, with
  -- none waiting; so none waits where it ends.
  unfoldable pub next_entry : List RingCall → Bool → Bool × List RingCall
  next_entry calls waiting =
      if room calls
      then (true, calls)
      else if not waiting
      then (false, refused ∷ calls)
      else if room (submitted ∷ refused ∷ calls)
      then (true, submitted ∷ refused ∷ calls)
      else (false, refused ∷ submitted ∷ refused ∷ calls)

  -- The calls, whether an entry waits for a submit, and what is left.
  unfoldable pub drain_loop :
      List RingCall → Bool → List PendingSubmit → List RingCall × Bool × List PendingSubmit
  drain_loop calls waiting [] = (calls, waiting, [])
  drain_loop calls waiting (p ∷ ps) =
      let (found, calls') = next_entry calls waiting in
      let rest = drain_loop (uring_prep_sqe calls' p) true ps in
      if found then rest else (calls', false, p ∷ ps)

  unfoldable pub uring_drain_overflow : Ring → Ring
  uring_drain_overflow r =
      let (calls, waiting, left) = drain_loop r.ring false r.overflow in
      record { ring = if waiting then submitted ∷ calls else calls; overflow = left }

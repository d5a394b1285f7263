-- ===== src/Backend/Uring/Tests.antt =====
-- A ring with room for one entry between two submits, and the rings of two schedulers.
use ayafileio.Base.{ℕ, ◌≡◌, refl, Bool, true, false, List, [], ◌∷◌, ◌++◌, some, pos}
use ayafileio.Backend.Uring.{PendingSubmit, op_read, RingCall, prepared, Ring}
use ayafileio.Backend.Uring.Order.{
  waiting, in_order, Call, submits, drains, asked, run, run-in_order, run-Submitted,
}
use ayafileio.Backend.Uring.Setup.{Instance, Answers, new_instance, acquire}
use ayafileio.Backend.Uring.Instances.{Acquired, acquire-Acquired}

abbrev room : List RingCall → Bool
room (prepared e request ∷ calls) = false
room _ = true

abbrev read_of : ℕ → PendingSubmit
read_of n = record { request = n; op = op_read; fd = pos 3; buf = 64; len = 10; offset = n }

-- Two reads that had to wait.
abbrev held : Ring
held = record { ring = []; overflow = read_of 1 ∷ read_of 2 ∷ [] }

abbrev calls : List Call
calls = submits (read_of 3) ∷ drains ∷ submits (read_of 4) ∷ []

run-in_order_example : in_order (run room held calls) ≡ in_order held ++ asked calls
run-in_order_example = run-in_order room held calls

run-Submitted_example : waiting (run room held calls).ring ≡ false
run-Submitted_example = run-Submitted room held calls refl

-- No entry for the first poll.
abbrev no_entry : Answers
no_entry = record {
  eventfd = some 5;
  init_with_flags = false;
  init_plain = true;
  get_sqe = false;
  submit = true;
}

abbrev in_use : Instance
in_use = record (new_instance 1 false) { ring_ready = true; event_fd = some 5 }

in_use-found : (acquire no_entry 7 true 2 ((7, in_use) ∷ [])).0 ≡ some in_use
unfolding acquire
in_use-found = refl

acquire-Acquired_example :
    Acquired 7 true ((7, in_use) ∷ []) in_use (acquire no_entry 7 true 2 ((7, in_use) ∷ [])).1
acquire-Acquired_example =
    acquire-Acquired no_entry 7 true 2 ((7, in_use) ∷ []) in_use (refl, tt) in_use-found

-- ===== src/Backend/Iocp/Answers.antt =====
-- No operation of src/backend/windows is answered twice: the store of requests, and what a packet, a
-- release and a flush do to the accounts of the operations.
pub mod Submissions
pub mod Moved
use ayafileio.Base.{
  ℕ, zero, suc, ◌+◌, ◌≤◌, ◌≡◌, refl, subst, sym, Bool, true, false, not, List, [], ◌∷◌, ◌++◌,
  Option, none, some, ◌==◌, ==_iff, ==_refl, if◌then◌else◌, if-elim, Bool-cases, Option-cases, inl,
  inr, count, arith,
}
use ayafileio.Core.Completion.{Completion, Event, completes, completions}
use ayafileio.Core.Request.{resolved, IoRequest}
use ayafileio.Backend.Iocp.{
  IocpRequest, FlushTask, Session, Iocp, find_request, put_request, is_member, complete_request,
  put,
}
use ayafileio.Backend.Iocp.Quarantine.{release_request, quarantine_push}
use ayafileio.Backend.Iocp.Worker.{
  is_pending, in_state, complete, settled, delivered, deliver, process_found, process_one,
  request_access_valid, is_freed, Packet, process_entry, handled, switch,
}

-- How many requests of an operation are still to be answered: those that are pending, and flushes.
abbrev pub owes : ℕ → IocpRequest → ℕ
owes op r = if is_pending r.request.state then (if r.request.operation == op then 1 else 0) else 0

abbrev pub owed : ℕ → List IocpRequest → ℕ
owed op [] = 0
owed op (r ∷ rs) = owes op r + owed op rs

abbrev pub flushing : ℕ → List FlushTask → ℕ
flushing op [] = 0
flushing op (t ∷ ts) = (if t.operation == op then 1 else 0) + flushing op ts

-- The answers that an operation got and may still get are no more than the calls that were made with
-- it.
abbrev pub Accounted : {W : Type 0} → Iocp W → List ℕ → Type 0
Accounted i acc =
    (op : ℕ) → completions op i.events + owed op i.requests + flushing op i.flushes ≤ count op acc

pub put_request-owed_le :
    (op : ℕ) (x : IocpRequest) (rs : List IocpRequest)
    → owed op (put_request x rs) ≤ owes op x + owed op rs
put_request-owed_le op x [] = omega arith
put_request-owed_le op x (r ∷ rs) = ground (arith, put_request-owed_le op x rs)

abbrev pub owed_at : ℕ → Option IocpRequest → ℕ
owed_at op none = 0
owed_at op (some r) = owes op r

put_request-owed :
    (op : ℕ) (x : IocpRequest) (rs : List IocpRequest)
    → owed op (put_request x rs) + owed_at op (find_request x.request.address rs)
      ≡ owes op x + owed op rs
put_request-owed op x [] = omega arith
put_request-owed op x (y ∷ ys) = elim (Bool-cases (y.request.address == x.request.address)) [
  | inl e ↦ rw (e, put_request, find_request) (omega arith)
  | inr e ↦ rw (e, put_request, find_request) (omega (arith, put_request-owed op x ys))
]

-- Where the request that is overwritten is known.
pub put_request-owed_at :
    (op : ℕ) (x r : IocpRequest) (rs : List IocpRequest)
    → find_request x.request.address rs ≡ some r
    → owed op (put_request x rs) + owes op r ≡ owes op x + owed op rs
put_request-owed_at op x r rs h =
    subst (λ o. owed op (put_request x rs) + owed_at op o ≡ owes op x + owed op rs) h
      (put_request-owed op x rs)

pub find-put_request :
    (x : IocpRequest) (rs : List IocpRequest)
    → find_request x.request.address (put_request x rs) ≡ some x
find-put_request x [] = ground arith
find-put_request x (r ∷ rs) = ground (arith, find-put_request x rs)

pub find_request-address :
    (a : ℕ) (r : IocpRequest) (rs : List IocpRequest)
    → find_request a rs ≡ some r
    → r.request.address ≡ a
find_request-address a r [] h = ground arith
find_request-address a r (x ∷ xs) h = ground (arith, find_request-address a r xs)

-- A request that is not pending, written over whatever was at its address.
pub put_settled-owed :
    (op : ℕ) (x : IocpRequest) (rs : List IocpRequest)
    → is_pending x.request.state ≡ false
    → owed op (put_request x rs) ≤ owed op rs
put_settled-owed op x rs h =
    let none_owed : owes op x ≡ 0 = rw h refl in
    omega (arith, put_request-owed_le op x rs, none_owed)

-- A pending request that is no longer pending.
pub claimed-owed :
    (op : ℕ) (r x : IocpRequest) (rs : List IocpRequest)
    → find_request x.request.address rs ≡ some r
    → is_pending r.request.state ≡ true
    → is_pending x.request.state ≡ false
    → owed op (put_request x rs) + (if r.request.operation == op then 1 else 0) ≡ owed op rs
claimed-owed op r x rs f h h' =
    let owes_r : owes op r ≡ (if r.request.operation == op then 1 else 0) = rw h refl in
    let owes_x : owes op x ≡ 0 = rw h' refl in
    omega (arith, put_request-owed_at op x r rs f, owes_r, owes_x)

pub delivered-settled :
    (open_ : Bool) (r : IocpRequest) (error : ℕ)
    → (is_pending (delivered open_ r error).request.state ≡ false)
delivered-settled open_ r error = ground arith

module _ {W : Type 0} where
  -- A release leaves alone what is owed for a request that is not pending.
  pub release_request-Accounted :
      (i : Iocp W) (now : ℕ) (r : IocpRequest) (acc : List ℕ)
      → is_pending r.request.state ≡ false
      → Accounted i acc
      → Accounted (release_request i now r) acc
  unfolding release_request
  release_request-Accounted i now r acc h v =
      let marked : IocpRequest = record r { request = record (r.request) { reaped = true } } in
      if-elim {A = Iocp W} (λ j. Accounted j acc) r.request.reaped v
        (λ op. omega (arith, v op, put_settled-owed op marked i.requests h))

  pub set_session-Accounted :
      (i : Iocp W) (objects : ℕ → Session) (acc : List ℕ)
      → Accounted i acc
      → Accounted (record i { objects = objects }) acc
  set_session-Accounted i objects acc v op = v op

  -- There is room for one more answer to an operation.
  abbrev pub HasRoom : ℕ → Iocp W → List ℕ → Type 0
  HasRoom x i acc =
      (op : ℕ)
      → (if x == op then 1 else 0)
          + completions op i.events
          + owed op i.requests
          + flushing op i.flushes
        ≤ count op acc

  -- The answer, the request that is left, and its release.
  answered-Accounted :
      (i : Iocp W) (now : ℕ) (r : IocpRequest) (c : Completion) (acc : List ℕ)
      → is_pending r.request.state ≡ false
      → (x : ℕ) → HasRoom x i acc
      → Accounted
          (release_request (record (complete i x c) { requests = put_request r i.requests }) now r)
          acc
  answered-Accounted i now r c acc h x v =
      release_request-Accounted (record (complete i x c) { requests = put_request r i.requests })
        now r acc h (λ op. omega (arith, v op, put_settled-owed op r i.requests h))

  deliver-Accounted :
      (i : Iocp W) (now id : ℕ) (r : IocpRequest) (bytes error : ℕ) (acc : List ℕ)
      → HasRoom r.request.operation i acc
      → Accounted (deliver i now id r bytes error) acc
  unfolding deliver
  deliver-Accounted i now id r bytes error acc v =
      answered-Accounted (settled i id) now (delivered (is_member id i.table) r error) _ acc
        (delivered-settled (is_member id i.table) r error) r.request.operation
        (if-elim {A = Iocp W} (λ j. HasRoom r.request.operation j acc) (is_member id i.table)
          (λ op. v op) (λ op. v op))

  process_found-Accounted :
      (i : Iocp W) (now id : ℕ) (r : IocpRequest) (bytes error : ℕ) (acc : List ℕ)
      → find_request r.request.address i.requests ≡ some r
      → Accounted i acc
      → Accounted (process_found i now id r bytes error) acc
  unfolding process_found
  process_found-Accounted i now id r bytes error acc f v =
      if-elim {A = Iocp W} (λ j. Accounted j acc) (not (r.session_id == id)) (λ op. v op)
        (elim (Bool-cases (is_pending r.request.state)) [
          | inr h ↦ rw h (release_request-Accounted i now r acc h v)
          | inl h ↦ rw h (
              if-elim {A = Iocp W} (λ j. Accounted j acc) (request_access_valid i r.request.address)
                (deliver-Accounted _ now id r bytes error acc (λ op.
                  omega (arith, v op, claimed-owed op r (in_state resolved r) i.requests f h refl)))
                (λ op.
                  omega (arith, v op, claimed-owed op r (in_state resolved r) i.requests f h refl)))
        ])

  -- A packet of any session, for any address, early, late or twice.
  pub process_one-Accounted :
      (i : Iocp W) (now id a bytes error : ℕ) (acc : List ℕ)
      → Accounted i acc
      → Accounted (process_one i now id a bytes error) acc
  unfolding process_one
  process_one-Accounted i now id a bytes error acc v =
      elim (Option-cases (find_request a i.requests)) [
        | inl e ↦ rw (e, process_one) v
        | inr (r, e) ↦
            rw (e, process_one)
              (if-elim {A = Iocp W} (λ j. Accounted j acc) (is_freed i r) (λ op. v op)
                (process_found-Accounted i now id r bytes error acc
                  (subst (λ b. find_request b i.requests ≡ some r)
                    (sym (find_request-address a r i.requests e)) e)
                  v))
      ]

  pub process_entry-Accounted :
      (i : Iocp W) (now : ℕ) (p : Packet) (acc : List ℕ)
      → Accounted i acc
      → Accounted (process_entry i now p) acc
  process_entry-Accounted i now p acc v = elim (Option-cases p.overlapped) [
    | inl e ↦ rw (e, process_entry) v
    | inr (a, e) ↦
        rw (e, process_entry)
          (if-elim {A = Iocp W} (λ j. Accounted j acc) (p.key == 0) v
            (process_one-Accounted i now p.key a p.bytes p.internal acc v))
  ]

  pub handled-Accounted :
      (i : Iocp W) (ms : List (ℕ × ℕ × Packet)) (acc : List ℕ)
      → Accounted i acc
      → Accounted (handled i ms) acc
  unfolding handled
  handled-Accounted i [] acc v = v
  handled-Accounted i ((n, now, p) ∷ ms) acc v =
      let w = process_entry-Accounted (switch n i) now p acc (λ op. v op) in
      handled-Accounted (switch n (process_entry (switch n i) now p)) ms acc (λ op. w op)

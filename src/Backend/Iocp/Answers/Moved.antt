-- ===== src/Backend/Iocp/Answers/Moved.antt =====
-- What a packet of src/backend/windows leaves at an address: what was there, or, at its own address, a
-- request that is no longer pending.
use ayafileio.Base.{
  ℕ, ◌≡◌, ◌≢◌, ◌⊎◌, ◌∙◌, refl, subst, sym, Bool, true, false, not, List, [], ◌∷◌, Option, some,
  ◌==◌, ==_iff, if-elim, Bool-cases, Option-cases, inl, inr, All, arith,
}
use ayafileio.Core.Request.{resolved}
use ayafileio.Backend.Iocp.{IocpRequest, Iocp, find_request, put_request, is_member}
use ayafileio.Backend.Iocp.Quarantine.{release_request}
use ayafileio.Backend.Iocp.Worker.{
  Packet, is_pending, in_state, complete, completion_of, settled, delivered, deliver, process_found,
  process_one, process_entry, handled, switch, is_freed, request_access_valid,
}
use ayafileio.Backend.Iocp.Answers.{find_request-address, delivered-settled}

-- From one request to another at an address, by a packet with an address.
abbrev pub Moved : (at packet : ℕ) → (was is : Option IocpRequest) → Type 0
Moved at packet was is =
    (is ≡ was)
    ⊎ ((packet ≡ at) × (x : IocpRequest) × (is ≡ some x) × (is_pending x.request.state ≡ false))

Moved-trans :
    (at packet : ℕ) (a b c : Option IocpRequest)
    → Moved at packet a b
    → Moved at packet b c
    → Moved at packet a c
Moved-trans at packet a b c p (inr q) = inr q
Moved-trans at packet a b c p (inl q) = subst (Moved at packet a) (sym q) p

pub find-put_other :
    (b : ℕ) (x : IocpRequest) (rs : List IocpRequest)
    → (x.request.address == b) ≡ false
    → find_request b (put_request x rs) ≡ find_request b rs
find-put_other b x [] h = rw h refl
find-put_other b x (r ∷ rs) h = ground (arith, find-put_other b x rs h, h)

find-put_same :
    (x : IocpRequest) (rs : List IocpRequest)
    → find_request x.request.address (put_request x rs) ≡ some x
find-put_same x [] = ground arith
find-put_same x (r ∷ rs) = ground (arith, find-put_same x rs)

put-Moved :
    (at : ℕ) (x : IocpRequest) (rs : List IocpRequest)
    → is_pending x.request.state ≡ false
    → Moved at x.request.address (find_request at rs) (find_request at (put_request x rs))
put-Moved at x rs h = elim (Bool-cases (x.request.address == at)) [
  | inr e ↦ inl (find-put_other at x rs e)
  | inl e ↦
      let same : x.request.address ≡ at = (==_iff x.request.address at).0 e in
      inr (
        same,
        x,
        subst (λ b. find_request b (put_request x rs) ≡ some x) same (find-put_same x rs),
        h,
      )
]

delivered-address :
    (open_ : Bool) (r : IocpRequest) (error : ℕ)
    → (delivered open_ r error).request.address ≡ r.request.address
delivered-address open_ r error = ground arith

-- Packets of other addresses leave a request alone.
abbrev pub Quiet : ℕ → List (ℕ × ℕ × Packet) → Type 0
Quiet at = All (λ m. m.2.overlapped ≢ some at)

module _ {W : Type 0} where
  abbrev At : ℕ → Iocp W → Option IocpRequest
  At at i = find_request at i.requests

  release-Moved :
      (at : ℕ) (i : Iocp W) (now : ℕ) (r : IocpRequest)
      → is_pending r.request.state ≡ false
      → Moved at r.request.address (At at i) (At at (release_request i now r))
  unfolding release_request
  release-Moved at i now r h =
      if-elim {A = Iocp W} (λ j. Moved at r.request.address (At at i) (At at j)) r.request.reaped
        (inl refl)
        (put-Moved at (record r { request = record (r.request) { reaped = true } }) i.requests h)

  deliver-Moved :
      (at : ℕ) (i : Iocp W) (now id : ℕ) (r : IocpRequest) (bytes error : ℕ)
      → Moved at r.request.address (At at i) (At at (deliver i now id r bytes error))
  unfolding deliver
  deliver-Moved at i now id r bytes error =
      let open_ = is_member id i.table in
      let x = delivered open_ r error in
      let j = settled i id in
      let done = complete j r.request.operation (completion_of open_ r.request bytes error) in
      let same : At at j ≡ At at i =
        if-elim {A = Iocp W} (λ u. At at u ≡ At at i) (is_member id i.table) refl refl in
      let h = delivered-settled open_ r error in
      subst (λ a. Moved at a (At at i) (At at (deliver i now id r bytes error)))
        (delivered-address open_ r error)
        (Moved-trans at x.request.address _ _ _
          (subst (λ o. Moved at x.request.address o (find_request at (put_request x j.requests)))
            same (put-Moved at x j.requests h))
          (release-Moved at (record done { requests = put_request x done.requests }) now x h))

  process_found-Moved :
      (at : ℕ) (i : Iocp W) (now id : ℕ) (r : IocpRequest) (bytes error : ℕ)
      → Moved at r.request.address (At at i) (At at (process_found i now id r bytes error))
  unfolding process_found
  process_found-Moved at i now id r bytes error =
      let P : Iocp W → Type 0 = λ j. Moved at r.request.address (At at i) (At at j) in
      let x = in_state resolved r in
      let claimed = put-Moved at x i.requests refl in
      if-elim {A = Iocp W} P (not (r.session_id == id)) (inl refl)
        (elim (Bool-cases (is_pending r.request.state)) [
          | inr p ↦ rw p (release-Moved at i now r p)
          | inl p ↦ rw p (
              if-elim {A = Iocp W} P (request_access_valid i r.request.address)
                (Moved-trans at r.request.address _ _ _ claimed (
                  deliver-Moved at (record i { requests = put_request x i.requests }) now id r bytes
                    error))
                claimed)
        ])

  pub process_one-Moved :
      (at : ℕ) (i : Iocp W) (now id a bytes error : ℕ)
      → Moved at a (At at i) (At at (process_one i now id a bytes error))
  unfolding process_one
  process_one-Moved at i now id a bytes error = elim (Option-cases (find_request a i.requests)) [
    | inl e ↦ rw (e, process_one) (inl refl)
    | inr (r, e) ↦
        rw (e, process_one)
          (if-elim {A = Iocp W} (λ j. Moved at a (At at i) (At at j)) (is_freed i r) (inl refl)
            (subst (λ b. Moved at b (At at i) (At at (process_found i now id r bytes error)))
              (find_request-address a r i.requests e)
              (process_found-Moved at i now id r bytes error)))
  ]

  process_entry-elsewhere :
      (at : ℕ) (i : Iocp W) (now : ℕ) (p : Packet)
      → p.overlapped ≢ some at
      → At at (process_entry i now p) ≡ At at i
  process_entry-elsewhere at i now p h = elim (Option-cases p.overlapped) [
    | inl e ↦ rw (e, process_entry) refl
    | inr (a, e) ↦
        rw (e, process_entry)
          (if-elim {A = Iocp W} (λ j. At at j ≡ At at i) (p.key == 0) refl
            (elim (process_one-Moved at i now p.key a p.bytes p.internal) [
              | inl q ↦ q
              | inr q ↦ absurd (h (subst (λ b. p.overlapped ≡ some b) q.0 e))
            ]))
  ]

  pub handled-elsewhere :
      (at : ℕ) (i : Iocp W) (ms : List (ℕ × ℕ × Packet))
      → Quiet at ms
      → At at (handled i ms) ≡ At at i
  unfolding handled
  handled-elsewhere at i [] q = refl
  handled-elsewhere at i ((n, now, p) ∷ ms) (h, q) =
      handled-elsewhere at (switch n (process_entry (switch n i) now p)) ms q
      ∙ process_entry-elsewhere at (switch n i) now p h

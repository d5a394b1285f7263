-- ===== src/Backend/Iocp/Duplicates.antt =====
-- A packet that comes twice, and the offset that a request carries, in src/backend/windows.
use ayafileio.Base.{
  ℕ, ◌^◌, ◌<◌, ◌≡◌, ◌⊎◌, refl, subst, sym, Bool, true, false, not, List, [], ◌∷◌, Option, none,
  some, ◌==◌, if-elim, Bool-cases, Option-cases, inl, inr, arith,
}
use ayafileio.Core.Request.{resolved}
use ayafileio.Backend.Iocp.{IocpRequest, Iocp, find_request, put_request, is_member}
use ayafileio.Backend.Iocp.Quarantine.{release_request}
use ayafileio.Backend.Iocp.Worker.{
  Packet, is_pending, in_state, complete, settled, delivered, deliver, process_found, process_one,
  process_entry, process_batch, worker_turn, switch, is_freed, request_access_valid, completion_of,
}
use ayafileio.Backend.Iocp.Answers.Moved.{Moved, process_one-Moved}
use ayafileio.Backend.Iocp.Submit.{at_offset, ov_offset}
use ayafileio.Backend.Iocp.Answers.{find-put_request, find_request-address, delivered-settled}

-- A request that a packet of this session no longer answers.
abbrev pub Deaf : ℕ → Option IocpRequest → Type 0
Deaf id none = Unit
Deaf id (some r) = (((r.session_id == id) ≡ false)) ⊎ (is_pending r.request.state ≡ false)

delivered-address :
    (open_ : Bool) (r : IocpRequest) (error : ℕ)
    → (delivered open_ r error).request.address ≡ r.request.address
delivered-address open_ r error = ground arith

-- What a packet leaves is not answered either.
Moved-Deaf :
    (id at packet : ℕ) (was is : Option IocpRequest)
    → Moved at packet was is
    → Deaf id was
    → Deaf id is
Moved-Deaf id at packet was is (inl q) d = subst (Deaf id) (sym q) d
Moved-Deaf id at packet was is (inr (same, x, q, h)) d = subst (Deaf id) (sym q) (inr h)

module _ {W : Type 0} where
  -- Turns of workers, each with its thread, its packets and the time at which it ends.
  unfoldable pub turns : Iocp W → List (ℕ × List (ℕ × Packet) × ℕ) → Iocp W
  turns i [] = i
  turns i ((n, packets, now) ∷ ts) = turns (switch n (worker_turn (switch n i) packets now)) ts

  release_request-events :
      (i : Iocp W) (now : ℕ) (r : IocpRequest) → (release_request i now r).events ≡ i.events
  unfolding release_request
  release_request-events i now r =
      if-elim {A = Iocp W} (λ j. j.events ≡ i.events) r.request.reaped refl refl

  release_request-Deaf :
      (i : Iocp W) (now id : ℕ) (r : IocpRequest)
      → find_request r.request.address i.requests ≡ some r
      → is_pending r.request.state ≡ false
      → Deaf id (find_request r.request.address (release_request i now r).requests)
  unfolding release_request
  release_request-Deaf i now id r f h =
      let x : IocpRequest = record r { request = record (r.request) { reaped = true } } in
      if-elim {A = Iocp W} (λ j. Deaf id (find_request r.request.address j.requests))
        r.request.reaped (subst (Deaf id) (sym f) (inr h))
        (subst (Deaf id) (sym (find-put_request x i.requests)) (inr h))

  -- A request that is not answered gets nothing.
  process_one-unheard :
      (i : Iocp W) (now id a bytes error : ℕ)
      → Deaf id (find_request a i.requests)
      → (process_one i now id a bytes error).events ≡ i.events
  unfolding process_one process_found
  process_one-unheard i now id a bytes error d = elim (Option-cases (find_request a i.requests)) [
    | inl e ↦ rw (e, process_one) refl
    | inr (r, e) ↦
        rw (e, process_one)
          (if-elim {A = Iocp W} (λ j. j.events ≡ i.events) (is_freed i r) refl
            (elim (subst (Deaf id) e d) [
              | inl h ↦ rw h refl
              | inr h ↦ rw h (
                  if-elim {A = Iocp W} (λ j. j.events ≡ i.events) (not (r.session_id == id)) refl
                    (release_request-events i now r))
            ]))
  ]

  deliver-Deaf :
      (i : Iocp W) (now id : ℕ) (r : IocpRequest) (bytes error : ℕ)
      → Deaf id (find_request r.request.address (deliver i now id r bytes error).requests)
  unfolding deliver
  deliver-Deaf i now id r bytes error =
      let x = delivered (is_member id i.table) r error in
      let j = settled i id in
      let c = completion_of (is_member id i.table) r.request bytes error in
      subst (λ b. Deaf id (find_request b (deliver i now id r bytes error).requests))
        (delivered-address (is_member id i.table) r error)
        (release_request-Deaf
          (record (complete j r.request.operation c) { requests = put_request x j.requests }) now id
          x (find-put_request x j.requests) (delivered-settled (is_member id i.table) r error))

  process_found-Deaf :
      (i : Iocp W) (now id : ℕ) (r : IocpRequest) (bytes error : ℕ)
      → find_request r.request.address i.requests ≡ some r
      → Deaf id (find_request r.request.address (process_found i now id r bytes error).requests)
  unfolding process_found
  process_found-Deaf i now id r bytes error f =
      let P : Iocp W → Type 0 = λ j. Deaf id (find_request r.request.address j.requests) in
      let x = in_state resolved r in
      elim (Bool-cases (r.session_id == id)) [
        | inr h ↦ rw (h, process_found) (subst (Deaf id) (sym f) (inl h))
        | inl h ↦ elim (Bool-cases (is_pending r.request.state)) [
          | inr p ↦ rw (h, p, process_found) (release_request-Deaf i now id r f p)
          | inl p ↦
              rw (h, p, process_found)
                (if-elim {A = Iocp W} P (request_access_valid i r.request.address)
                  (deliver-Deaf _ now id r bytes error)
                  (subst (Deaf id) (sym (find-put_request x i.requests)) (inr refl)))
        ]
      ]

  process_one-Deaf :
      (i : Iocp W) (now id a bytes error : ℕ)
      → (process_one i now id a bytes error).touched_freed ≡ false
      → Deaf id (find_request a (process_one i now id a bytes error).requests)
  unfolding process_one
  process_one-Deaf i now id a bytes error untouched =
      elim (Option-cases (find_request a i.requests)) [
        | inl e ↦ rw (e, process_one) (subst (Deaf id) (sym e) tt)
        | inr (r, e) ↦ elim (Bool-cases (is_freed i r)) [
          | inl freed ↦
              absurd (let t = rw (e, process_one, freed) at untouched in ground (arith, t))
          | inr alive ↦
              let b = find_request-address a r i.requests e in
              rw (e, process_one)
                (rw alive (
                  subst
                    (λ c. Deaf id (find_request c (process_found i now id r bytes error).requests))
                    b
                    (process_found-Deaf i now id r bytes error
                      (subst (λ c. find_request c i.requests ≡ some r) (sym b) e))))
        ]
      ]

  abbrev DeafAt : ℕ → ℕ → Iocp W → Type 0
  DeafAt id a i = Deaf id (find_request a i.requests)

  process_batch-DeafAt :
      (id a : ℕ) (i : Iocp W) (ps : List (ℕ × Packet))
      → DeafAt id a i
      → DeafAt id a (process_batch i ps)
  unfolding process_batch
  process_batch-DeafAt id a i [] d = d
  process_batch-DeafAt id a i ((now, p) ∷ ps) d =
      process_batch-DeafAt id a (process_entry i now p) ps (elim (Option-cases p.overlapped) [
        | inl e ↦ rw (e, process_entry) d
        | inr (b, e) ↦
            rw (e, process_entry)
              (if-elim {A = Iocp W} (DeafAt id a) (p.key == 0) d
                (Moved-Deaf id a b _ _ (process_one-Moved a i now p.key b p.bytes p.internal) d))
      ])

  turns-DeafAt :
      (id a : ℕ) (i : Iocp W) (ts : List (ℕ × List (ℕ × Packet) × ℕ))
      → DeafAt id a i
      → DeafAt id a (turns i ts)
  unfolding turns worker_turn
  turns-DeafAt id a i [] d = d
  turns-DeafAt id a i ((n, packets, now) ∷ ts) d =
      turns-DeafAt id a (switch n (worker_turn (switch n i) packets now)) ts
        (process_batch-DeafAt id a (switch n i) packets d)

  -- A packet that comes a second time, with whatever size and status, after any turns of any workers
  -- with any packets in between, while no request is made: it makes no call on any operation, where
  -- neither the first packet nor the second reads memory that was freed.
  pub process_one_twice :
      (i : Iocp W) (now id a bytes error later bytes' error' : ℕ)
      (between : List (ℕ × List (ℕ × Packet) × ℕ))
      → let once = process_one i now id a bytes error in
        let met = turns once between in
        let twice = process_one met later id a bytes' error' in
        once.touched_freed ≡ false → twice.touched_freed ≡ false → twice.events ≡ met.events
  process_one_twice i now id a bytes error later bytes' error' between first second =
      process_one-unheard (turns (process_one i now id a bytes error) between) later id a bytes'
        error'
        (turns-DeafAt id a (process_one i now id a bytes error) between
          (process_one-Deaf i now id a bytes error first))

-- An offset below 2^64 reaches the kernel as it is: the two halves of `OVERLAPPED` give it back.
pub ov_offset-at_offset :
    (id offset : ℕ) (r : IocpRequest) → offset < 2 ^ 64 → ov_offset (at_offset id offset r) ≡ offset
ov_offset-at_offset id offset r h = omega arith

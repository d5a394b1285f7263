-- ===== src/Backend/Iocp/Quarantine/Kept.antt =====
-- Memory of src/backend/windows/iocp_worker.cpp that has waited for less than a second goes on waiting.
use ayafileio.Base.{
  ℕ, ◌+◌, ◌-◌, ◌≤◌, ◌<◌, ◌≡◌, ◌⊎◌, subst, true, false, not, List, [], ◌∷◌, ◌++◌, ◌==◌, if-elim,
  Bool-cases, Option-cases, inl, inr, All, arith,
}
use ayafileio.Core.Request.{resolved}
use ayafileio.Backend.Iocp.{
  IocpRequest, QuarantineEntry, Thread, QuarantineStats, Iocp, iocp_req_free_impl, find_request,
  put_request, is_member,
}
use ayafileio.Backend.Iocp.Quarantine.{
  expired, drain_loop, quarantine_drain, quarantine_push, release_request,
}
use ayafileio.Backend.Iocp.Worker.{
  Packet, is_pending, in_state, complete, completion_of, settled, delivered, deliver, process_found,
  process_one, process_entry, process_batch, worker_turn, is_freed, request_access_valid,
}

abbrev pub InQueue : QuarantineEntry → List QuarantineEntry → Type 0
InQueue e [] = ⊥
InQueue e (x ∷ xs) = (x ≡ e) ⊎ InQueue e xs

-- An entry is younger than a second, in nanoseconds.
abbrev pub IsYoung : ℕ → QuarantineEntry → Type 0
IsYoung now e = now - e.when < 1000000000

young-expired : (now : ℕ) (e : QuarantineEntry) → IsYoung now e → expired now e ≡ false
young-expired now e h = ground (arith, h)

InQueue-append :
    (e : QuarantineEntry) (xs ys : List QuarantineEntry) → InQueue e xs → InQueue e (xs ++ ys)
InQueue-append e [] ys h = absurd h
InQueue-append e (x ∷ xs) ys (inl h) = inl h
InQueue-append e (x ∷ xs) ys (inr h) = inr (InQueue-append e xs ys h)

drain_loop-InQueue :
    (now : ℕ) (e : QuarantineEntry) (es : List QuarantineEntry) (t : Thread) (n : ℕ)
    → IsYoung now e
    → InQueue e es
    → InQueue e (drain_loop now es t n).0.quarantine
unfolding drain_loop
drain_loop-InQueue now e [] t n y h = absurd h
drain_loop-InQueue now e (x ∷ xs) t n y h = elim (Bool-cases (expired now x)) [
  | inr d ↦ rw d h
  | inl d ↦
      let u = record t { memory = iocp_req_free_impl t.memory x.request } in
      rw d (elim h [
        | inr g ↦ drain_loop-InQueue now e xs u (n + 1) y g
        | inl g ↦
            let old : expired now e ≡ true = subst (λ z. expired now z ≡ true) g d in
            absurd (let young = young-expired now e y in ground (arith, old, young))
      ])
]

quarantine_push-InQueue :
    (now a : ℕ) (e : QuarantineEntry) (t : Thread) (s : QuarantineStats)
    → IsYoung now e
    → InQueue e t.quarantine
    → InQueue e (quarantine_push now a (t, s)).0.quarantine
unfolding quarantine_push quarantine_drain
quarantine_push-InQueue now a e t s y h =
    let new : QuarantineEntry = record { request = a; when = now } in
    drain_loop-InQueue now e (t.quarantine ++ new ∷ [])
      (record t { quarantine = t.quarantine ++ new ∷ [] }) 0 y
      (InQueue-append e t.quarantine (new ∷ []) h)

module _ {W : Type 0} (e : QuarantineEntry) where
  abbrev Waits : Iocp W → Type 0
  Waits i = InQueue e i.here.quarantine

  release-Waits :
      (i : Iocp W) (now : ℕ) (r : IocpRequest)
      → IsYoung now e
      → Waits i
      → Waits (release_request i now r)
  unfolding release_request
  release-Waits i now r y h =
      if-elim {A = Iocp W} Waits r.request.reaped h
        (quarantine_push-InQueue now r.request.address e i.here i.stats y h)

  deliver-Waits :
      (i : Iocp W) (now id : ℕ) (r : IocpRequest) (bytes error : ℕ)
      → IsYoung now e
      → Waits i
      → Waits (deliver i now id r bytes error)
  unfolding deliver
  deliver-Waits i now id r bytes error y h =
      let open_ = is_member id i.table in
      let done =
        complete (settled i id) r.request.operation (completion_of open_ r.request bytes error) in
      release-Waits (record done { requests = put_request (delivered open_ r error) done.requests })
        now (delivered open_ r error) y (if-elim {A = Iocp W} Waits (is_member id i.table) h h)

  process_one-Waits :
      (i : Iocp W) (now id a bytes error : ℕ)
      → IsYoung now e
      → Waits i
      → Waits (process_one i now id a bytes error)
  unfolding process_one process_found
  process_one-Waits i now id a bytes error y h = elim (Option-cases (find_request a i.requests)) [
    | inl f ↦ rw (f, process_one) h
    | inr (r, f) ↦
        rw (f, process_one)
          (if-elim {A = Iocp W} Waits (is_freed i r) h (
            if-elim {A = Iocp W} Waits (not (r.session_id == id)) h (
              if-elim {A = Iocp W} Waits (not (is_pending r.request.state))
                (release-Waits i now r y h)
                (if-elim {A = Iocp W} Waits (request_access_valid i r.request.address)
                  (deliver-Waits
                    (record i { requests = put_request (in_state resolved r) i.requests }) now id r
                    bytes error y h)
                  h))))
  ]

  process_batch-Waits :
      (i : Iocp W) (now : ℕ) (ps : List (ℕ × Packet))
      → IsYoung now e
      → All (λ m. m.0 ≤ now) ps
      → Waits i
      → Waits (process_batch i ps)
  unfolding process_batch
  process_batch-Waits i now [] y t h = h
  process_batch-Waits i now ((at, p) ∷ ps) y (t, ts) h =
      process_batch-Waits (process_entry i at p) now ps y ts (entry p)
    where
      entry : (p : Packet) → Waits (process_entry i at p)
      entry p = elim (Option-cases p.overlapped) [
        | inl f ↦ rw (f, process_entry) h
        | inr (a, f) ↦
            rw (f, process_entry)
              (if-elim {A = Iocp W} Waits (p.key == 0) h
                (process_one-Waits i at p.key a p.bytes p.internal (omega (arith, y, t)) h))
      ]

  -- A worker's turn, with packets that are handled up to its end.
  pub worker_turn-Waits :
      (i : Iocp W) (ps : List (ℕ × Packet)) (now : ℕ)
      → All (λ m. m.0 ≤ now) ps
      → IsYoung now e
      → InQueue e i.here.quarantine
      → InQueue e (worker_turn i ps now).here.quarantine
  unfolding worker_turn quarantine_drain
  worker_turn-Waits i ps now t y h =
      let j = process_batch i ps in
      drain_loop-InQueue now e j.here.quarantine j.here 0 y (process_batch-Waits i now ps y t h)

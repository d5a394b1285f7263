-- ===== src/Backend/Iocp/Sharing.antt =====
-- The memory of requests in src/backend/windows: what waits in a quarantine or lies on a free list is
-- there once and belongs to no request in use.
pub mod Packets
use ayafileio.Base.{
  ℕ, zero, suc, ◌+◌, ◌-◌, ◌%◌, ◌^◌, ◌≤◌, ◌≡◌, ◌⊎◌, refl, subst, sym, Bool, true, false, not, List,
  [], ◌∷◌, ◌++◌, map, Option, none, some, ltb, ◌==◌, ==_iff, if◌then◌else◌, if-elim, Bool-cases,
  Option-cases, inl, inr, length, length-append, count, count-append, arith,
}
use ayafileio.Core.Request.{Memory, resolved, release_allocation, IoRequest}
use ayafileio.Backend.Iocp.{
  IocpRequest, QuarantineEntry, Thread, QuarantineStats, Iocp, iocp_req_alloc_impl,
  iocp_req_free_impl, find_request, put_request, is_member,
}
use ayafileio.Backend.Iocp.Quarantine.{
  note_push, expired, drain_loop, quarantine_drain, quarantine_push, release_request,
}
use ayafileio.Backend.Iocp.Worker.{
  Packet, is_pending, in_state, complete, settled, delivered, deliver, process_found, process_one,
  process_entry, drained, request_access_valid,
}
use ayafileio.Backend.Iocp.Answers.{find-put_request, find_request-address}

-- How often an address waits in the quarantine or lies on the free list of a thread.
abbrev pub waiting_for : ℕ → List QuarantineEntry → ℕ
waiting_for a [] = 0
waiting_for a (e ∷ es) = (if e.request == a then 1 else 0) + waiting_for a es

abbrev pub held_in : ℕ → Thread → ℕ
held_in a t = waiting_for a t.quarantine + count a t.memory.freelist

abbrev pub held_by : ℕ → List Thread → ℕ
held_by a [] = 0
held_by a (t ∷ ts) = held_in a t + held_by a ts

abbrev pub queued : List Thread → ℕ
queued [] = 0
queued (t ∷ ts) = length t.quarantine + queued ts

abbrev pub reaped_at : ℕ → List IocpRequest → Bool
reaped_at a rs = elim (find_request a rs) [ none ↦ false | some r ↦ r.request.reaped ]

-- In all threads together each address is held once, and only after its request was reaped; and the
-- counter of the quarantine, of 64 bits, is the number of entries in it.
pub record IsSound {W : Type 0} (i : Iocp W) : Type 0 where
  pub once : (a : ℕ) → held_by a (i.here ∷ i.others) ≤ 1
  pub marked : (a : ℕ) → (reaped_at a i.requests ≡ true) ⊎ (held_by a (i.here ∷ i.others) ≡ 0)
  pub counted : i.stats.live ≡ queued (i.here ∷ i.others) % 2 ^ 64

waiting_for-append :
    (a : ℕ) (xs ys : List QuarantineEntry)
    → waiting_for a (xs ++ ys) ≡ waiting_for a xs + waiting_for a ys
waiting_for-append a [] ys = omega arith
waiting_for-append a (x ∷ xs) ys = omega (arith, waiting_for-append a xs ys)

free-count :
    (a b : ℕ) (m : Memory)
    → count a (iocp_req_free_impl m b).freelist ≤ (if b == a then 1 else 0) + count a m.freelist
unfolding iocp_req_free_impl
free-count a b m = ground arith

-- A drain makes nothing appear, and counts what leaves the queue.
drain_loop-held :
    (now a : ℕ) (es : List QuarantineEntry) (t : Thread) (n : ℕ)
    → held_in a (drain_loop now es t n).0 ≤ waiting_for a es + count a t.memory.freelist
unfolding drain_loop
drain_loop-held now a [] t n = omega arith
drain_loop-held now a (e ∷ es) t n =
    let u = record t { memory = iocp_req_free_impl t.memory e.request } in
    if-elim {A = Thread × ℕ}
      (λ r. held_in a r.0 ≤ waiting_for a (e ∷ es) + count a t.memory.freelist) (expired now e)
      (omega (arith, drain_loop-held now a es u (n + 1), free-count a e.request t.memory))
      (omega arith)

drain_loop-queue :
    (now : ℕ) (es : List QuarantineEntry) (t : Thread) (n : ℕ)
    → length (drain_loop now es t n).0.quarantine + (drain_loop now es t n).1 ≡ length es + n
unfolding drain_loop
drain_loop-queue now [] t n = omega arith
drain_loop-queue now (e ∷ es) t n =
    let u = record t { memory = iocp_req_free_impl t.memory e.request } in
    if-elim {A = Thread × ℕ} (λ r. length r.0.quarantine + r.1 ≡ suc (length es) + n)
      (expired now e) (omega (arith, drain_loop-queue now es u (n + 1))) (omega arith)

-- What a drain and a push do to a thread and to the counter.
record Changes (n : ℕ) (a : ℕ) (t : Thread) (s : QuarantineStats) (u : Thread × QuarantineStats)
    : Type 0 where
  holds : held_in a u.0 ≤ n + held_in a t
  counts :
      (rest : ℕ)
      → s.live ≡ (length t.quarantine + rest) % 2 ^ 64
      → u.1.live ≡ (length u.0.quarantine + rest) % 2 ^ 64

quarantine_drain-Changes :
    (now a : ℕ) (t : Thread) (s : QuarantineStats) → Changes 0 a t s (quarantine_drain now (t, s))
unfolding quarantine_drain
quarantine_drain-Changes now a t s = record {
  holds = omega (arith, drain_loop-held now a t.quarantine t 0);
  counts = λ rest h. omega (arith, h, drain_loop-queue now t.quarantine t 0);
}

quarantine_push-Changes :
    (now a b : ℕ) (t : Thread) (s : QuarantineStats)
    → Changes (if b == a then 1 else 0) a t s (quarantine_push now b (t, s))
unfolding quarantine_push note_push
quarantine_push-Changes now a b t s =
    let e : QuarantineEntry = record { request = b; when = now } in
    let u : Thread = record t { quarantine = t.quarantine ++ e ∷ [] } in
    let c = quarantine_drain-Changes now a u (note_push s) in
    record {
      holds = omega (arith, c.holds, waiting_for-append a t.quarantine (e ∷ []));
      counts = λ rest h. c.counts rest (omega (arith, h, length-append t.quarantine (e ∷ [])));
    }

pub reaped_at-put :
    (a : ℕ) (x : IocpRequest) (rs : List IocpRequest)
    → reaped_at a (put_request x rs)
      ≡ (if x.request.address == a then x.request.reaped else reaped_at a rs)
reaped_at-put a x [] = ground arith
reaped_at-put a x (r ∷ rs) = ground (arith, reaped_at-put a x rs)

-- A request that is written again with the mark that it had.
pub reaped_at-kept :
    (a : ℕ) (x r : IocpRequest) (rs : List IocpRequest)
    → find_request x.request.address rs ≡ some r
    → x.request.reaped ≡ r.request.reaped
    → reaped_at a (put_request x rs) ≡ reaped_at a rs
reaped_at-kept a x r rs f e =
    let was : reaped_at x.request.address rs ≡ r.request.reaped = rw (f, reaped_at) refl in
    ground (arith, reaped_at-put a x rs)

-- An address that was not held is held once when it is pushed.
pushed-once :
    (b a : ℕ) (t u : Thread) (ts : List Thread)
    → held_in a u ≤ (if b == a then 1 else 0) + held_in a t
    → held_by b (t ∷ ts) ≡ 0
    → held_by a (t ∷ ts) ≤ 1
    → held_by a (u ∷ ts) ≤ 1
pushed-once b a t u ts c free v = elim (Bool-cases (b == a)) [
  | inl h ↦
      let same : b ≡ a = (==_iff b a).0 h in
      let none : held_by a (t ∷ ts) ≡ 0 = subst (λ z. held_by z (t ∷ ts) ≡ 0) same free in
      ground (arith, none)
  | inr h ↦ ground arith
]

pushed-marked :
    (a : ℕ) (x : IocpRequest) (rs : List IocpRequest) (t u : Thread) (ts : List Thread)
    → held_in a u ≤ (if x.request.address == a then 1 else 0) + held_in a t
    → x.request.reaped ≡ true
    → (reaped_at a rs ≡ true) ⊎ (held_by a (t ∷ ts) ≡ 0)
    → (reaped_at a (put_request x rs) ≡ true) ⊎ (held_by a (u ∷ ts) ≡ 0)
pushed-marked a x rs t u ts c m v =
    rw (reaped_at-put a x rs) (elim (Bool-cases (x.request.address == a)) [
      | inl h ↦ inl (rw h m)
      | inr h ↦ elim v [ inl e ↦ inl (rw h e) | inr e ↦ inr (ground arith) ]
    ])

module _ {W : Type 0} where
  pub drained-IsSound : (i : Iocp W) (now : ℕ) → IsSound i → IsSound (drained i now)
  drained-IsSound i now v = record {
    once = λ a. omega (arith, v.once a, (quarantine_drain-Changes now a i.here i.stats).holds);
    marked = λ a. elim (v.marked a) [
      | inl e ↦ inl e
      | inr e ↦ inr (omega (arith, e, (quarantine_drain-Changes now a i.here i.stats).holds))
    ];
    counted = (quarantine_drain-Changes now 0 i.here i.stats).counts (queued i.others) v.counted;
  }

  -- The last step of a request: it is marked, and its address waits.
  pub release_request-IsSound :
      (i : Iocp W) (now : ℕ) (r : IocpRequest)
      → find_request r.request.address i.requests ≡ some r
      → IsSound i
      → IsSound (release_request i now r)
  unfolding release_request
  release_request-IsSound i now r f v = elim (Bool-cases r.request.reaped) [
    | inl e ↦ rw (e, release_request) v
    | inr e ↦
        let b = r.request.address in
        let x : IocpRequest = record r { request = record (r.request) { reaped = true } } in
        let was : reaped_at b i.requests ≡ false = rw (f, reaped_at) e in
        let free : held_by b (i.here ∷ i.others) ≡ 0 = elim (v.marked b) [
          | inl h ↦ absurd (ground arith)
          | inr h ↦ h
        ] in
        let c : (a : ℕ)
            → Changes (if b == a then 1 else 0) a i.here i.stats
                (quarantine_push now b (i.here, i.stats)) =
          λ a. quarantine_push-Changes now a b i.here i.stats in
        let u = (quarantine_push now b (i.here, i.stats)).0 in
        rw (e, release_request)
          (record {
            once = λ a. pushed-once b a i.here u i.others (c a).holds free (v.once a);
            marked =
                λ a. pushed-marked a x i.requests i.here u i.others (c a).holds refl (v.marked a);
            counted = (c 0).counts (queued i.others) v.counted;
          })
  ]

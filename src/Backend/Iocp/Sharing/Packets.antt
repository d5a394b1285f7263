-- ===== src/Backend/Iocp/Sharing/Packets.antt =====
-- Whatever packets come, the memory of requests in src/backend/windows is given back once, and a new
-- request gets memory that no request in use has.
use ayafileio.Base.{
  ℕ, ◌+◌, ◌≤◌, ◌≡◌, ◌⊎◌, refl, ap, subst, sym, Bool, true, false, not, All, List, [], ◌∷◌, none,
  some, ◌==◌, ==_iff, if◌then◌else◌, if-elim, Bool-cases, Option-cases, inl, inr, count, arith,
}
use ayafileio.Core.Result.{ReqType}
use ayafileio.Core.Buffer.{Buffer}
use ayafileio.Core.Request.{Memory, resolved}
use ayafileio.Backend.Iocp.{
  IocpRequest, QuarantineEntry, Iocp, iocp_req_alloc_impl, find_request, put_request, is_member,
}
use ayafileio.Backend.Iocp.Quarantine.{release_request}
use ayafileio.Backend.Iocp.Quarantine.Kept.{InQueue, IsYoung, worker_turn-Waits}
use ayafileio.Backend.Iocp.Worker.{
  Packet, is_pending, in_state, complete, settled, delivered, deliver, process_found, process_one,
  process_entry, process_batch, worker_turn, request_access_valid, completion_of, is_freed,
}
use ayafileio.Backend.Iocp.Submit.{make_shell}
use ayafileio.Backend.Iocp.Answers.{find-put_request, find_request-address}
use ayafileio.Backend.Iocp.Sharing.{
  IsSound, held_by, reaped_at, reaped_at-put, reaped_at-kept, drained-IsSound,
  release_request-IsSound,
}

delivered-kept :
    (open_ : Bool) (r : IocpRequest) (error : ℕ)
    → ((delivered open_ r error).request.address ≡ r.request.address)
      × ((delivered open_ r error).request.reaped ≡ r.request.reaped)
delivered-kept open_ r error = (ground arith, ground arith)

-- No request in use has the address.
abbrev pub IsUnused : ℕ → List IocpRequest → Type 0
IsUnused a rs = (find_request a rs ≡ none) ⊎ (reaped_at a rs ≡ true)

module _ {W : Type 0} where
  -- A request written again, with its mark.
  written-IsSound :
      (i : Iocp W) (x r : IocpRequest)
      → find_request x.request.address i.requests ≡ some r
      → x.request.reaped ≡ r.request.reaped
      → IsSound i
      → IsSound (record i { requests = put_request x i.requests })
  written-IsSound i x r f e v = record {
    once = v.once;
    marked = λ a. rw (reaped_at-kept a x r i.requests f e) (v.marked a);
    counted = v.counted;
  }

  deliver-IsSound :
      (i : Iocp W) (now id : ℕ) (r : IocpRequest) (bytes error : ℕ)
      → find_request r.request.address i.requests ≡ some (in_state resolved r)
      → IsSound i
      → IsSound (deliver i now id r bytes error)
  unfolding deliver
  deliver-IsSound i now id r bytes error f v =
      let after = delivered (is_member id i.table) r error in
      let kept = delivered-kept (is_member id i.table) r error in
      go (settled i id) after kept.0 kept.1
        (if-elim {A = Iocp W}
          (λ j. find_request r.request.address j.requests ≡ some (in_state resolved r))
          (is_member id i.table) f f)
        (if-elim {A = Iocp W} IsSound (is_member id i.table)
          (record { once = v.once; marked = v.marked; counted = v.counted }) v)
    where
      go :
          (j : Iocp W) (x : IocpRequest)
          → x.request.address ≡ r.request.address
          → x.request.reaped ≡ r.request.reaped
          → find_request r.request.address j.requests ≡ some (in_state resolved r)
          → IsSound j
          → IsSound (
              release_request
                (record (complete j r.request.operation
                  (completion_of (is_member id i.table) r.request bytes error)) {
                    requests = put_request x j.requests;
                  })
                now
                x)
      go j x a e g w =
          let p = written-IsSound j x (in_state resolved r) (rw a g) e w in
          release_request-IsSound _ now x (find-put_request x j.requests)
            (record { once = p.once; marked = p.marked; counted = p.counted })

  process_found-IsSound :
      (i : Iocp W) (now id : ℕ) (r : IocpRequest) (bytes error : ℕ)
      → find_request r.request.address i.requests ≡ some r
      → IsSound i
      → IsSound (process_found i now id r bytes error)
  unfolding process_found
  process_found-IsSound i now id r bytes error f v =
      let x = in_state resolved r in
      let w = written-IsSound i x r f refl v in
      if-elim {A = Iocp W} IsSound (not (r.session_id == id))
        (record { once = v.once; marked = v.marked; counted = v.counted })
        (if-elim {A = Iocp W} IsSound (not (is_pending r.request.state))
          (release_request-IsSound i now r f v)
          (if-elim {A = Iocp W} IsSound (request_access_valid i r.request.address)
            (deliver-IsSound _ now id r bytes error (find-put_request x i.requests) w) w))

  process_one-IsSound :
      (i : Iocp W) (now id a bytes error : ℕ)
      → IsSound i
      → IsSound (process_one i now id a bytes error)
  unfolding process_one
  process_one-IsSound i now id a bytes error v = elim (Option-cases (find_request a i.requests)) [
    | inl e ↦ rw (e, process_one) v
    | inr (r, e) ↦
        rw (e, process_one)
          (if-elim {A = Iocp W} IsSound (is_freed i r)
            (record { once = v.once; marked = v.marked; counted = v.counted })
            (process_found-IsSound i now id r bytes error
              (subst (λ b. find_request b i.requests ≡ some r)
                (sym (find_request-address a r i.requests e)) e)
              v))
  ]

  process_entry-IsSound :
      (i : Iocp W) (now : ℕ) (p : Packet) → IsSound i → IsSound (process_entry i now p)
  process_entry-IsSound i now p v = elim (Option-cases p.overlapped) [
    | inl e ↦ rw (e, process_entry) v
    | inr (a, e) ↦
        rw (e, process_entry)
          (if-elim {A = Iocp W} IsSound (p.key == 0) v
            (process_one-IsSound i now p.key a p.bytes p.internal v))
  ]

  process_batch-IsSound :
      (i : Iocp W) (ps : List (ℕ × Packet)) → IsSound i → IsSound (process_batch i ps)
  unfolding process_batch
  process_batch-IsSound i [] v = v
  process_batch-IsSound i ((now, p) ∷ ps) v =
      process_batch-IsSound (process_entry i now p) ps (process_entry-IsSound i now p v)

  -- Whatever packets a worker is given, late, doubled or of another session, none for memory that was
  -- freed, and each handled by the end of its turn: with every address held at most once in all
  -- quarantines and free lists, only reaped requests held, and the counter equal to the entries of
  -- the quarantines modulo 2^64, the same is true after the turn; and what has waited in its quarantine
  -- for less than a second at the end still waits there.
  pub worker_turn-IsSound :
      (i : Iocp W) (packets : List (ℕ × Packet)) (now : ℕ)
      → All (λ m. m.0 ≤ now) packets
      → (worker_turn i packets now).touched_freed ≡ false
      → IsSound i
      → IsSound (worker_turn i packets now)
        × ((e : QuarantineEntry)
            → InQueue e i.here.quarantine
            → IsYoung now e
            → InQueue e (worker_turn i packets now).here.quarantine)
  unfolding worker_turn
  worker_turn-IsSound i packets now times untouched v = (
    drained-IsSound (process_batch i packets) now (process_batch-IsSound i packets v),
    λ e h y. worker_turn-Waits e i packets now times y h,
  )

  -- A state in which one address is taken from the free list, or is new, and a request in use is
  -- written at it.
  taken-IsSound :
      (i : Iocp W) (x : IocpRequest) (memory : Memory)
      → ((a : ℕ)
          → count a memory.freelist
              + (if x.request.address == a then held_by a (i.here ∷ i.others) else 0)
            ≤ count a i.here.memory.freelist)
      → IsSound i
      → IsSound (record i {
        here = record (i.here) { memory = memory };
        requests = put_request x i.requests;
      })
  taken-IsSound i x memory h v = record {
    once = λ a. omega (arith, h a, v.once a);
    marked = λ a. elim (Bool-cases (x.request.address == a)) [
      | inl e ↦ inr (ground (arith, h a))
      | inr e ↦ elim (v.marked a) [
        | inl m ↦ inl (rw (reaped_at-put a x i.requests, e) m)
        | inr m ↦ inr (omega (arith, h a, m))
      ]
    ];
    counted = v.counted;
  }

  -- What an allocation takes off the free list, and that no request in use has it.
  record Takes (i : Iocp W) (got : ℕ × Memory) : Type 0 where
    less :
        (a : ℕ)
        → count a got.1.freelist + (if got.0 == a then held_by a (i.here ∷ i.others) else 0)
          ≤ count a i.here.memory.freelist
    unused : IsUnused got.0 i.requests

  alloc-Takes :
      (i : Iocp W) (fresh : ℕ) (free : List ℕ)
      → i.here.memory.freelist ≡ free
      → held_by fresh (i.here ∷ i.others) ≡ 0
      → IsUnused fresh i.requests
      → IsSound i
      → Takes i (iocp_req_alloc_impl i.here.memory fresh)
  unfolding iocp_req_alloc_impl
  alloc-Takes i fresh [] e f u v =
      rw (e, iocp_req_alloc_impl)
        (record {
          less = λ a. elim (Bool-cases (fresh == a)) [
            | inl h ↦
                let none : held_by a (i.here ∷ i.others) ≡ 0 =
                  subst (λ b. held_by b (i.here ∷ i.others) ≡ 0) ((==_iff fresh a).0 h) f in
                rw h (omega (arith, none, ap (count a) e))
            | inr h ↦ rw h (omega (arith, ap (count a) e))
          ];
          unused = u;
        })
  alloc-Takes i fresh (b ∷ rest) e f u v =
      let front : (a : ℕ)
          → count a i.here.memory.freelist ≡ (if b == a then 1 else 0) + count a rest =
        λ a. ap (count a) e in
      rw (e, iocp_req_alloc_impl)
        (record {
          less = λ a. elim (Bool-cases (b == a)) [
            | inl h ↦ rw h (ground (arith, v.once a, front a))
            | inr h ↦ rw h (omega arith)
          ];
          unused = elim (v.marked b) [
            | inl m ↦ inr m
            | inr m ↦ absurd (ground (arith, m, front b))
          ];
        })

  -- With the accounts of memory as above, and an address from `operator new` that no list holds and
  -- no request in use has, a new request is made at an address that no request in use had, and the
  -- accounts of memory are then the same.
  pub make_shell-IsSound :
      (i : Iocp W) (op : ℕ) (type_ : ReqType) (fresh size : ℕ) (buffer : Buffer)
      (readinto held : Bool)
      → held_by fresh (i.here ∷ i.others) ≡ 0
      → IsUnused fresh i.requests
      → IsSound i
      → let (r, j) = make_shell i op type_ fresh size buffer readinto held in
        IsSound j × IsUnused r.request.address i.requests
  unfolding make_shell
  make_shell-IsSound i op type_ fresh size buffer readinto held f u v =
      let t = alloc-Takes i fresh i.here.memory.freelist refl f u v in
      let w =
        taken-IsSound i (make_shell i op type_ fresh size buffer readinto held).0
          (iocp_req_alloc_impl i.here.memory fresh).1 t.less v in
      (record { once = w.once; marked = w.marked; counted = w.counted }, t.unused)

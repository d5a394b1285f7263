-- ===== src/Backend/Iocp/Answers/Submissions.antt =====
-- What a submission of src/backend/windows/iocp_submit.cpp does to the accounts of its operation.
use ayafileio.Base.{
  ℕ, ◌%◌, ◌^◌, ◌≡◌, refl, ap, ◌∙◌, Bool, true, false, not, List, ◌∷◌, some, ltb, ◌==◌,
  if◌then◌else◌, if-elim, Bool-cases, Option-cases, inl, inr, arith,
}
use ayafileio.Core.Result.{ReqType, read, write, Result, ok, throws}
use ayafileio.Core.FileState.{ReadPlan}
use ayafileio.Core.Buffer.{Buffer, is_set}
use ayafileio.Core.Completion.{Completion}
use ayafileio.Core.Request.{resolved, rejected, IoRequest}
use ayafileio.Platform.NativeFile.{Sys, returned, failed}
use ayafileio.Backend.Iocp.{IocpRequest, Session, Iocp, find_request, iocp_req_alloc_impl}
use ayafileio.Backend.Iocp.Worker.{Packet, is_pending, in_state, taken, handled}
use ayafileio.Backend.Iocp.Submit.{
  Windows, Env, error_io_pending, complete_inline, make_shell, make_read_request,
  make_write_request, make_readinto_request, unavailable, finish_inline, at_offset, ov_offset,
}
use ayafileio.Backend.Iocp.Submit.Methods.{
  Outcome, refresh_session_size, refresh_session_size_after_short_io, io_done, current,
  read_answered, write_answered, placed, read_made, start_read, start_readinto, start_write,
  available,
}
use ayafileio.Backend.Iocp.Answers.{
  Accounted, put_request-owed_le, put_request-owed_at, find-put_request, claimed-owed,
  release_request-Accounted, handled-Accounted,
}
use ayafileio.Backend.Iocp.Answers.Moved.{Quiet, handled-elsewhere}

-- A call that returns was accepted.
abbrev pub accepted : Result (Unit {0}) → ℕ → List ℕ → List ℕ
accepted (ok u) op acc = op ∷ acc
accepted (throws e) op acc = acc

module _ {W : Type 0} (k : Windows W) where
  pub inline-Accounted :
      (i : Iocp W) (op : ℕ) (c : Completion) (acc : List ℕ)
      → Accounted i acc
      → Accounted (complete_inline i op c) (op ∷ acc)
  inline-Accounted i op c acc v x = omega (arith, v x)

  -- A request that was made for an operation and is in the store.
  pub record Started (i : Iocp W) (r : IocpRequest) (op : ℕ) (acc : List ℕ) : Type 0 where
    stored : find_request r.request.address i.requests ≡ some r
    waits : is_pending r.request.state ≡ true
    named : r.request.operation ≡ op
    accounts : Accounted i (op ∷ acc)

  make_shell-Started :
      (i : Iocp W) (op : ℕ) (type_ : ReqType) (fresh size : ℕ) (buffer : Buffer)
      (readinto held : Bool) (acc : List ℕ)
      → Accounted i acc
      → let (r, j) = make_shell i op type_ fresh size buffer readinto held in Started j r op acc
  unfolding make_shell
  make_shell-Started i op type_ fresh size buffer readinto held acc v =
      let r = (make_shell i op type_ fresh size buffer readinto held).0 in
      record {
        stored = find-put_request r i.requests;
        waits = refl;
        named = refl;
        accounts = λ x. omega (arith, v x, put_request-owed_le x r i.requests);
      }

  finish-Accounted :
      (i : Iocp W) (now id : ℕ) (r x : IocpRequest) (c : Completion) (op : ℕ) (acc : List ℕ)
      → Started i r op acc
      → x.request.address ≡ r.request.address
      → x.request.operation ≡ r.request.operation
      → is_pending x.request.state ≡ false
      → Accounted (finish_inline i now id x c) (op ∷ acc)
  unfolding finish_inline
  finish-Accounted i now id r x c op acc v e f h =
      let found : find_request x.request.address i.requests ≡ some r = rw e v.stored in
      release_request-Accounted _ now x (op ∷ acc) h (λ y. omega (
        arith,
        v.accounts y,
        claimed-owed y r x i.requests found v.waits h,
        ap {B = ℕ} (λ z. if z == y then 1 else 0) f,
      ))

  objects-Started :
      (i : Iocp W) (objects : ℕ → Session) (w : W) (r : IocpRequest) (op : ℕ) (acc : List ℕ)
      → Started i r op acc
      → Started (record i { world = w; objects = objects }) r op acc
  objects-Started i objects w r op acc v = record {
    stored = v.stored;
    waits = v.waits;
    named = v.named;
    accounts = λ x. v.accounts x;
  }

  refreshed-Started :
      (i : Iocp W) (id : ℕ) (r : IocpRequest) (op : ℕ) (acc : List ℕ)
      → Started i r op acc
      → Started (refresh_session_size_after_short_io k i id) r op acc
  unfolding refresh_session_size_after_short_io
  refreshed-Started i id r op acc v = elim (Option-cases (refresh_session_size k i id)) [
    | inl e ↦ rw (e, refresh_session_size_after_short_io) v
    | inr (size, e) ↦
        rw (e, refresh_session_size_after_short_io) (objects-Started i _ i.world r op acc v)
  ]

  taken-kept :
      (q : IoRequest)
      → ((taken q).address ≡ q.address)
        × ((taken q).operation ≡ q.operation)
        × (is_pending (taken q).state ≡ is_pending q.state)
  taken-kept q = (ground arith, ground arith, ground arith)

  -- Packets of other requests, before the submission goes on.
  handled-Started :
      (i : Iocp W) (r : IocpRequest) (ms : List (ℕ × ℕ × Packet)) (op : ℕ) (acc : List ℕ)
      → Quiet r.request.address ms
      → Started i r op acc
      → Started (handled i ms) r op acc
  handled-Started i r ms op acc q v = record {
    stored = handled-elsewhere r.request.address i ms q ∙ v.stored;
    waits = v.waits;
    named = v.named;
    accounts = handled-Accounted i ms (op ∷ acc) v.accounts;
  }

  met-Started :
      (i : Iocp W) (w : W) (r : IocpRequest) (env : Env) (op : ℕ) (acc : List ℕ)
      → Quiet r.request.address env.early
      → Started i r op acc
      → Started (handled (record i { world = w }) env.early) r op acc
  met-Started i w r env op acc quiet v =
      handled-Started (record i { world = w }) r env.early op acc quiet
        (objects-Started i i.objects w r op acc v)

  -- No packet of the request that a submission makes is handled before its state is stored.
  abbrev pub Undisturbed : Iocp W → Env → Type 0
  Undisturbed i env = Quiet (iocp_req_alloc_impl i.here.memory env.fresh).0 env.early

  current-stored :
      (i : Iocp W) (r : IocpRequest)
      → find_request r.request.address i.requests ≡ some r
      → current k i r ≡ r
  current-stored i r h = rw (h, current) refl

  io_done-Accounted :
      (i : Iocp W) (id : ℕ) (r : IocpRequest) (short : Bool) (got : ℕ) (env : Env) (op : ℕ)
      (acc : List ℕ)
      → Started i r op acc
      → Accounted (io_done k i id r short got env) (op ∷ acc)
  io_done-Accounted i id r short got env op acc v =
      let i' : Iocp W = if short then refresh_session_size_after_short_io k i id else i in
      let u : Started i' r op acc =
        if-elim {A = Iocp W} (λ j. Started j r op acc) short (refreshed-Started i id r op acc v)
          v in
      let e = current-stored i r v.stored in
      let q = taken-kept (in_state resolved (current k i r)).request in
      if-elim {A = Iocp W} (λ j. Accounted j (op ∷ acc)) (i'.objects id).skip_cp_on_success
        (finish-Accounted i' env.now id r _ _ op acc u (q.0 ∙ ap (λ x. x.request.address) e)
          (q.1 ∙ ap (λ x. x.request.operation) e) q.2)
        u.accounts

  failed-Accounted :
      (i j : Iocp W) (id : ℕ) (r : IocpRequest) (pends : Bool) (c : Completion) (env : Env) (op : ℕ)
      (acc : List ℕ)
      → Started i r op acc
      → Started j r op acc
      → Accounted
          (if pends then i else finish_inline j env.now id (in_state rejected (current k i r)) c)
          (op ∷ acc)
  failed-Accounted i j id r pends c env op acc v u =
      if-elim {A = Iocp W} (λ x. Accounted x (op ∷ acc)) pends v.accounts
        (finish-Accounted j env.now id r (in_state rejected (current k i r)) c op acc u
          (ap (λ x. x.request.address) (current-stored i r v.stored))
          (ap (λ x. x.request.operation) (current-stored i r v.stored)) refl)

  read_answered-Accounted :
      (i : Iocp W) (id : ℕ) (r : IocpRequest) (size : ℕ) (env : Env) (a : Sys × W) (op : ℕ)
      (acc : List ℕ)
      → Quiet r.request.address env.early
      → Started i r op acc
      → Accounted (read_answered k i id r size env a) (op ∷ acc)
  read_answered-Accounted i id r size env (returned got, w) op acc quiet v =
      io_done-Accounted (handled (record i { world = w }) env.early) id r (ltb got size) got env op
        acc (met-Started i w r env op acc quiet v)
  read_answered-Accounted i id r size env (failed e, w) op acc quiet v =
      let u = met-Started i w r env op acc quiet v in
      failed-Accounted _ _ id r (e == error_io_pending) _ env op acc u u

  write_answered-Accounted :
      (i : Iocp W) (id : ℕ) (r : IocpRequest) (size : ℕ) (env : Env) (a : Sys × W) (op : ℕ)
      (acc : List ℕ)
      → Quiet r.request.address env.early
      → Started i r op acc
      → Accounted (write_answered k i id r size env a) (op ∷ acc)
  write_answered-Accounted i id r size env (returned wrote, w) op acc quiet v =
      io_done-Accounted (handled (record i { world = w }) env.early) id r (not (wrote == size))
        wrote env op acc (met-Started i w r env op acc quiet v)
  write_answered-Accounted i id r size env (failed e, w) op acc quiet v =
      let u = met-Started i w r env op acc quiet v in
      failed-Accounted _ _ id r (e == error_io_pending) _ env op acc u
        (refreshed-Started (handled (record i { world = w }) env.early) id r op acc u)

  -- The request that was made is written again, with its offset.
  placed-Started :
      (i : Iocp W) (id offset : ℕ) (r : IocpRequest) (op : ℕ) (acc : List ℕ)
      → Started i r op acc
      → Started (placed k i id (at_offset id offset r)) (at_offset id offset r) op acc
  placed-Started i id offset r op acc v = record {
    stored = find-put_request (at_offset id offset r) i.requests;
    waits = v.waits;
    named = v.named;
    accounts = λ x.
        omega (
          arith,
          v.accounts x,
          put_request-owed_at x (at_offset id offset r) r i.requests v.stored,
        );
  }

  abbrev pub Answered : ℕ → List ℕ → Outcome k → Type 0
  Answered op acc r = Accounted r.1 (accepted r.0 op acc)

  read_made-Answered :
      (i : Iocp W) (id : ℕ) (plan : ReadPlan) (r : IocpRequest) (env : Env) (op : ℕ) (acc : List ℕ)
      → Quiet r.request.address env.early
      → Started i r op acc
      → Answered op acc (read_made k id plan env (ok r, i))
  read_made-Answered i id plan r env op acc quiet v =
      let x = at_offset id plan.offset r in
      read_answered-Accounted (placed k i id x) id x plan.size env
        (k.read_file i.world (i.objects id).handle (plan.size % 2 ^ 32) (ov_offset x)) op acc quiet
        (placed-Started i id plan.offset r op acc v)

  shell-Answered :
      (i : Iocp W) (id : ℕ) (plan : ReadPlan) (op : ℕ) (b : Buffer) (readinto held : Bool)
      (env : Env) (acc : List ℕ)
      → Undisturbed i env
      → Accounted i acc
      → let (r, j) = make_shell i op read env.fresh plan.size b readinto held in
        Answered op acc (read_made k id plan env (ok r, j))
  unfolding make_shell
  shell-Answered i id plan op b readinto held env acc quiet v =
      let made = make_shell i op read env.fresh plan.size b readinto held in
      read_made-Answered made.1 id plan made.0 env op acc quiet
        (make_shell-Started i op read env.fresh plan.size b readinto held acc v)

  pub start_read-Answered :
      (i : Iocp W) (id : ℕ) (plan : ReadPlan) (op : ℕ) (env : Env) (acc : List ℕ)
      → Undisturbed i env
      → Accounted i acc
      → Answered op acc (start_read k i id plan op env)
  unfolding start_read make_read_request make_shell
  start_read-Answered i id plan op env acc quiet v = go env.read_buffer
    where
      go :
          (b : Result Buffer)
          → Answered op acc (read_made k id plan env (make_read_request i plan.size op b env.fresh))
      go (throws e) = v
      go (ok b) = elim (Bool-cases (is_set b)) [
        | inl e ↦
            rw (e, make_read_request) (shell-Answered i id plan op b false false env acc quiet v)
        | inr e ↦ rw (e, make_read_request) v
      ]

  pub start_readinto-Answered :
      (i : Iocp W) (id : ℕ) (plan : ReadPlan) (op : ℕ) (buffer : Buffer) (env : Env) (acc : List ℕ)
      → Undisturbed i env
      → Accounted i acc
      → Answered op acc (start_readinto k i id plan op buffer env)
  unfolding start_readinto make_readinto_request
  start_readinto-Answered i id plan op buffer env acc quiet v =
      shell-Answered i id plan op buffer true false env acc quiet v

  pub start_write-Accounted :
      (i : Iocp W) (id : ℕ) (view : Buffer) (offset op : ℕ) (env : Env) (acc : List ℕ)
      → Undisturbed i env
      → Accounted i acc
      → Accounted (start_write k i id view offset op env) (op ∷ acc)
  unfolding start_write make_write_request make_shell
  start_write-Accounted i id view offset op env acc quiet v =
      let made = make_shell i op write env.fresh view.size view false true in
      let x = at_offset id offset made.0 in
      write_answered-Accounted (placed k made.1 id x) id x view.size env
        (k.write_file i.world (i.objects id).handle (view.size % 2 ^ 32) (ov_offset x)) op acc quiet
        (placed-Started made.1 id offset made.0 op acc
          (make_shell-Started i op write env.fresh view.size view false true acc v))

  pub both :
      (b : Bool) (op : ℕ) (acc : List ℕ) (x y : Outcome k)
      → Answered op acc x
      → Answered op acc y
      → Answered op acc (if b then x else y)
  both true op acc x y p q = p
  both false op acc x y p q = q

  pub available-Answered :
      (i : Iocp W) (id op : ℕ) (type_ : ReqType) (rest : Outcome k) (acc : List ℕ)
      → Accounted i acc
      → Answered op acc rest
      → Answered op acc (available k i id op type_ rest)
  available-Answered i id op type_ rest acc v h = elim (Option-cases (unavailable i id type_)) [
    | inl e ↦ rw (e, available) h
    | inr (c, e) ↦ rw (e, available) (inline-Accounted i op c acc v)
  ]

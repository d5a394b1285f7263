-- ===== src/Backend/Uring/File/Answers.antt =====
-- What each call on a file of src/backend/linux/io_uring_backend.cpp does to the accounts of its
-- operations, and so what a history of calls does.
use ayafileio.Base.{
  ℕ, ◌-◌, ◌^◌, refl, Bool, true, false, not, ◌&&◌, ◌||◌, List, [], ◌∷◌, ltb, ◌==◌, if◌then◌else◌,
  if-elim, Bool-cases, Option-cases, inl, inr, ℤ, pos, ltb_ℤ, to_i64, to_u64,
}
use ayafileio.Core.Result.{Result, ok, throws, other, read}
use ayafileio.Core.BufferPool.{Caches}
use ayafileio.Core.FileState.{FileState, ReadPlan, plan_read}
use ayafileio.Core.Buffer.{Buffer, is_set}
use ayafileio.Core.Lifecycle.{truncate_guard}
use ayafileio.Core.Backend.{
  make_with, make_shell, make_req_on, make_req, make_req_read_bytes, make_req_held_write,
  make_req_readinto,
}
use ayafileio.Platform.NativeFile.{Kernel, Sys, returned, failed}
use ayafileio.Backend.Uring.File.{
  UringFile, Env, is_minus_one, closed, ensure_uring, reap, read_made, start_read, with_ring,
  refresh_size,
}
use ayafileio.Backend.Uring.File.Methods.{
  read_file, read_at, write_rest, write_file, seek_file, flush_made, flush_file, tell_file,
  truncated, truncate_file, readinto_rest, readinto_file, reap_all, close_fd, close_impl,
  close_file,
}
use ayafileio.Backend.Uring.File.Settled.{Settled, inline-Settled, reap-Settled, start-Settled}
use ayafileio.Backend.Uring.File.Calls.{
  Call, Action, reads, reads_at, writes, seeks, flushes, tells, truncates, reads_into, closes,
  calls, reaps, accepted, call, run_actions,
}

module _ {W : Type 0} (k : Kernel W) where
  abbrev Answered : ℕ → List ℕ → Result (Unit {0}) × UringFile W → Type 0
  Answered op acc r = Settled r.1 (accepted r.0 op acc)

  both :
      (b : Bool) (op : ℕ) (acc : List ℕ) (x y : Result (Unit {0}) × UringFile W)
      → Answered op acc x
      → Answered op acc y
      → Answered op acc (if b then x else y)
  both true op acc x y p q = p
  both false op acc x y p q = q

  moved-Settled :
      (t : UringFile W) (w : W) (state : FileState) (acc : List ℕ)
      → Settled t acc
      → Settled (record t { world = w; state = state }) acc
  moved-Settled t w state acc v = record { counted = v.counted; balance = λ x. v.balance x }

  with_ring-Answered :
      (t : UringFile W) (env : Env) (op : ℕ) (acc : List ℕ)
      (rest : UringFile W → Result (Unit {0}) × UringFile W)
      → ((u : UringFile W) → Settled u acc → Answered op acc (rest u))
      → Settled t acc
      → Answered op acc (with_ring k (ensure_uring k t env) rest)
  unfolding ensure_uring
  with_ring-Answered t env op acc rest h v =
      if-elim {A = Result (Unit {0}) × UringFile W} (λ r. Answered op acc (with_ring k r rest))
        t.has_ring (h t v)
        (if-elim {A = Result (Unit {0}) × UringFile W} (λ r. Answered op acc (with_ring k r rest))
          env.ring_available
          (h (record t { has_ring = true })
            (record { counted = v.counted; balance = λ x. v.balance x }))
          v)

  start_read-Answered :
      (t : UringFile W) (p : ReadPlan × FileState) (offset op : ℕ) (env : Env) (acc : List ℕ)
      → Settled t acc
      → Answered op acc (start_read k t p offset op env)
  unfolding start_read make_req_read_bytes make_shell
  start_read-Answered t (plan, state) offset op env acc v =
      both plan.eof op acc _ _
        (inline-Settled k (record t { state = state }) op _ acc
          (moved-Settled t t.world state acc v))
        (go env.read_buffer)
    where
      go :
          (b : Result Buffer)
          → Answered op acc (
              read_made k t state plan.size offset env
                (make_req_read_bytes t.ledger plan.size op b env.fresh))
      go (throws e) = record { counted = v.counted; balance = λ x. v.balance x }
      go (ok b) = elim (Bool-cases (is_set b)) [
        | inl e ↦
            rw (e, make_req_read_bytes)
              (start-Settled k t (make_with t.ledger op read env.fresh plan.size b false false).1
                state _ env acc refl (λ x. refl) v)
        | inr e ↦
            rw (e, make_req_read_bytes) (record { counted = v.counted; balance = λ x. v.balance x })
      ]

  flush_made-Answered :
      (t : UringFile W) (op : ℕ) (env : Env) (acc : List ℕ) (g : Result Buffer × Caches)
      → Settled t acc
      → Answered op acc (flush_made k op env t (make_req_on t.ledger 0 op other env.fresh g))
  unfolding make_req_on make_shell
  flush_made-Answered t op env acc (throws e, caches) v = record {
    counted = v.counted;
    balance = λ x. v.balance x;
  }
  flush_made-Answered t op env acc (ok b, caches) v =
      start-Settled k t (make_req_on t.ledger 0 op other env.fresh (ok b, caches)).1 t.state _ env
        acc refl (λ x. refl) v

  truncated-Settled :
      (t : UringFile W) (size : ℤ) (op : ℕ) (acc : List ℕ) (r : Sys × W)
      → Settled t acc
      → Settled (truncated k t size op r) (op ∷ acc)
  truncated-Settled t size op acc (failed e, w) v =
      inline-Settled k _ op _ acc (moved-Settled t w t.state acc v)
  truncated-Settled t size op acc (returned n, w) v =
      inline-Settled k _ op _ acc (moved-Settled t w _ acc v)

  write_rest-Answered :
      (t : UringFile W) (view : Buffer) (position : ℤ) (op : ℕ) (env : Env) (acc : List ℕ)
      → Settled t acc
      → Answered op acc (write_rest k view position op env t)
  unfolding make_req_held_write make_shell
  write_rest-Answered t view position op env acc v =
      both (view.size == 0) op acc _ _ (inline-Settled k t op _ acc v) (
        start-Settled k t (make_req_held_write t.ledger view op env.fresh).1 _ _ env acc refl
          (λ x. refl) v)

  readinto_rest-Answered :
      (t : UringFile W) (buffer : Buffer) (op : ℕ) (env : Env) (acc : List ℕ)
      → Settled t acc
      → Answered op acc (readinto_rest k buffer op env t)
  unfolding make_req_readinto make_shell
  readinto_rest-Answered t buffer op env acc v =
      let planned = plan_read t.state (to_i64 buffer.size) (refresh_size k t) in
      both (planned.0).eof op acc _ _
        (inline-Settled k (record t { state = planned.1 }) op _ acc
          (moved-Settled t t.world planned.1 acc v))
        (start-Settled k t (make_req_readinto t.ledger buffer (planned.0).size op env.fresh).1
          planned.1 _ env acc refl (λ x. refl) v)

  reap_all-Settled :
      (t : UringFile W) (hs : List (ℕ × ℤ)) (acc : List ℕ)
      → Settled t acc
      → Settled (reap_all k t hs) acc
  unfolding reap_all
  reap_all-Settled t [] acc v = v
  reap_all-Settled t ((i, result) ∷ hs) acc v =
      reap_all-Settled (reap k t i result) hs acc (reap-Settled k t i result acc v)

  close_fd-Settled : (u : UringFile W) (acc : List ℕ) → Settled u acc → Settled (close_fd k u) acc
  close_fd-Settled u acc v =
      if-elim {A = UringFile W} (λ w. Settled w acc) (u.owns_fd && not (is_minus_one u.fd))
        (record { counted = v.counted; balance = λ x. v.balance x }) v

  close_file-Settled :
      (t : UringFile W) (hs : List (ℕ × ℤ)) (op : ℕ) (acc : List ℕ)
      → Settled t acc
      → Settled (close_file k t hs op) (op ∷ acc)
  unfolding close_file close_impl
  close_file-Settled t hs op acc v =
      let w =
        reap_all-Settled (record t { running = false }) hs acc
          (record { counted = v.counted; balance = λ x. v.balance x }) in
      inline-Settled k _ op _ acc (
        if-elim {A = UringFile W} (λ u. Settled u acc) (not t.running) v
          (close_fd-Settled
            (record (reap_all k (record t { running = false }) hs) { has_ring = false }) acc
            (record { counted = w.counted; balance = λ x. w.balance x })))

  call-Answered :
      (t : UringFile W) (op : ℕ) (env : Env) (c : Call) (acc : List ℕ)
      → Settled t acc
      → Answered op acc (call k t op env c)
  unfolding call read_file read_at write_file seek_file flush_file tell_file truncate_file
      readinto_file make_req
  call-Answered t op env (reads size) acc v =
      both (closed k t) op acc _ _ (inline-Settled k t op _ acc v)
        (with_ring-Answered t env op acc _ (λ u w. start_read-Answered u _ _ op env acc w) v)
  call-Answered t op env (reads_at offset size) acc v =
      both (closed k t) op acc _ _ (inline-Settled k t op _ acc v) (
        both (ltb_ℤ offset (pos 0)) op acc _ _ (inline-Settled k t op _ acc v)
          (with_ring-Answered t env op acc _ (λ u w. start_read-Answered u _ _ op env acc w) v))
  call-Answered t op env (writes view position) acc v =
      both (not (ltb_ℤ position (pos 0)) && (t.state.append_mode || k.is_append t.world t.fd)) op
        acc _ _ v
        (both (ltb (2 ^ 32 - 1) view.size) op acc _ _ v (
          both (closed k t) op acc _ _ (inline-Settled k t op _ acc v) (
            with_ring-Answered t env op acc _
              (λ u w. write_rest-Answered u view position op env acc w) v)))
  call-Answered t op env (seeks offset whence) acc v =
      inline-Settled k _ op _ acc (moved-Settled t t.world _ acc v)
  call-Answered t op env flushes acc v =
      both (closed k t) op acc _ _ (inline-Settled k t op _ acc v)
        (with_ring-Answered t env op acc _ (λ u w. flush_made-Answered u op env acc _ w) v)
  call-Answered t op env tells acc v = inline-Settled k t op _ acc v
  call-Answered t op env (truncates size) acc v = elim (Option-cases (truncate_guard size)) [
    | inr (rejected, e) ↦ rw (e, truncate_file) (inline-Settled k t op rejected acc v)
    | inl e ↦
        rw (e, truncate_file)
          (truncated-Settled t size op acc (k.ftruncate t.world t.fd (to_u64 size)) v)
  ]
  call-Answered t op env (reads_into buffer) acc v =
      both (closed k t) op acc _ _ (inline-Settled k t op _ acc v) (
        both (buffer.size == 0) op acc _ _ (inline-Settled k t op _ acc v) (
          with_ring-Answered t env op acc _ (λ u w. readinto_rest-Answered u buffer op env acc w)
            v))
  call-Answered t op env (closes waited) acc v = close_file-Settled t waited op acc v

  -- From settled accounts, over any history of calls, of completions found while a call submits and of
  -- completions that the reaper handles, with whatever results: each operation of a call that returned was completed once or has
  -- one request in flight, none of a call that threw, and the counter is the number of requests in
  -- flight.
  pub run_actions-Answered :
      (t : UringFile W) (acc : List ℕ) (actions : List Action)
      → Settled t acc
      → Settled (run_actions k t acc actions).0 (run_actions k t acc actions).1
  unfolding run_actions
  run_actions-Answered t acc [] v = v
  run_actions-Answered t acc (calls op env c ∷ actions) v =
      run_actions-Answered _ _ actions (call-Answered t op env c acc v)
  run_actions-Answered t acc (reaps i result ∷ actions) v =
      run_actions-Answered (reap k t i result) acc actions (reap-Settled k t i result acc v)

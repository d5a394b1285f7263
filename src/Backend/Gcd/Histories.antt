-- ===== src/Backend/Gcd/Histories.antt =====
-- The history of a file of src/backend/macos/macos_gcd_backend.cpp: calls, and what happens to what is
-- in flight, in any order.
use ayafileio.Base.{
  ℕ, suc, ◌+◌, ◌-◌, ◌^◌, ◌≡◌, refl, Bool, true, false, not, ◌&&◌, ◌||◌, List, [], ◌∷◌, ltb, leb,
  ◌==◌, if◌then◌else◌, if-elim, Bool-cases, Option-cases, inl, inr, length, length-append, count,
  arith, ℤ, pos, ◌+ℤ◌, ◌-ℤ◌, ltb_ℤ, to_i64, to_u64,
}
use ayafileio.Core.Result.{Result, ok, throws, read, write}
use ayafileio.Core.BufferPool.{Caches}
use ayafileio.Core.FileState.{FileState, ReadPlan, plan_read, plan_read_at, reserve_write}
use ayafileio.Core.Buffer.{Buffer, no_buffer, is_set}
use ayafileio.Core.Completion.{completions}
use ayafileio.Core.Lifecycle.{truncate_guard}
use ayafileio.Core.Request.{IoRequest}
use ayafileio.Core.Backend.{
  Ledger, complete_inline, make_shell, make_with, make_req_on, make_req, make_req_read_bytes,
  make_req_held_write, make_req_readinto,
}
use ayafileio.Platform.NativeFile.{Kernel, Sys, returned, failed, Answers}
use ayafileio.Backend.Gcd.{
  GcdFile, Flight, fast, parallel, channel_read, channel_write, Happening, make_group,
  parallel_read_threshold, large_io_threshold,
}
use ayafileio.Backend.Gcd.Methods.{
  Env, Outcome, launched, inline_read, submit_read, pending_more, is_resident, closed, read_made,
  start_read, read_file, read_at, write_made, write_large, write_file, seek_file, synced,
  flush_file, tell_file, truncated, truncate_file, readinto_file, close_impl, close_file, step,
  refresh_size,
}
use ayafileio.Backend.Gcd.Completed.{
  Settled, operation_of, flying, flying_append, inline-Settled, step-Settled, steps-Settled,
}

pub data Call : Type 0 where
  reads : ℤ → Call
  reads_at : (offset size : ℤ) → Call
  writes : Buffer → ℤ → Call
  seeks : (offset whence : ℤ) → Call
  flushes tells : Call
  truncates : ℤ → Call
  reads_into : Buffer → Call
  closes : List (ℕ × Happening) → Call

pub data Action : Type 0 where
  calls : (op : ℕ) → Env → Call → Action
  happens : ℕ → Happening → Action

-- A call that returns was accepted.
abbrev pub accepted : Result (Unit {0}) → ℕ → List ℕ → List ℕ
accepted (ok u) op acc = op ∷ acc
accepted (throws e) op acc = acc

module _ {W : Type 0} (k : Kernel W) where
  unfoldable pub call : GcdFile W → ℕ → Env → Call → Outcome k
  call t op env (reads size) = read_file k t size op env
  call t op env (reads_at offset size) = read_at k t offset size op env
  call t op env (writes view position) = write_file k t view position op env
  call t op env (seeks offset whence) = (ok tt, seek_file k t offset whence op)
  call t op env flushes = (ok tt, flush_file k t op)
  call t op env tells = (ok tt, tell_file k t op)
  call t op env (truncates size) = (ok tt, truncate_file k t size op)
  call t op env (reads_into buffer) = readinto_file k t buffer op env
  call t op env (closes waited) = (ok tt, close_file k t waited op)

  -- The file, and the operations of the calls that returned.
  unfoldable pub run_actions : GcdFile W → List ℕ → List Action → GcdFile W × List ℕ
  run_actions t acc [] = (t, acc)
  run_actions t acc (calls op env c ∷ actions) =
      let (result, u) = call t op env c in run_actions u (accepted result op acc) actions
  run_actions t acc (happens i h ∷ actions) = run_actions (step k t i h) acc actions

  abbrev Answered : ℕ → List ℕ → Outcome k → Type 0
  Answered op acc r = Settled r.1 (accepted r.0 op acc)

  both :
      (b : Bool) (op : ℕ) (acc : List ℕ) (x y : Outcome k)
      → Answered op acc x
      → Answered op acc y
      → Answered op acc (if b then x else y)
  both true op acc x y p q = p
  both false op acc x y p q = q

  moved-Settled :
      (t : GcdFile W) (w : W) (state : FileState) (acc : List ℕ)
      → Settled t acc
      → Settled (record t { world = w; state = state }) acc
  moved-Settled t w state acc v = record { counted = v.counted; balance = λ x. v.balance x }

  -- A file whose counter is one ahead of what is in flight, and that owes one operation.
  record Owing (t : GcdFile W) (op : ℕ) (acc : List ℕ) : Type 0 where
    ahead : t.ledger.pending ≡ pos (suc (length t.in_flight))
    owes : (x : ℕ) → completions x t.ledger.events + flying x t.in_flight ≡ count x acc

  launched-Settled :
      (t : GcdFile W) (f : Flight) (acc : List ℕ)
      → Owing t (operation_of f) acc
      → Settled (launched k t f) (operation_of f ∷ acc)
  launched-Settled t f acc v = record {
    counted = rw (v.ahead, length-append t.in_flight (f ∷ [])) (ground arith);
    balance = λ x. omega (arith, v.owes x, flying_append x t.in_flight f);
  }

  inline_read-Settled :
      (t : GcdFile W) (r : IoRequest) (a : Answers × W) (acc : List ℕ)
      → Owing t r.operation acc
      → Settled (inline_read k t r a) (r.operation ∷ acc)
  unfolding complete_inline ◌-ℤ◌
  inline_read-Settled t r (a, w) acc v = record {
    counted = rw v.ahead (ground arith);
    balance = λ x. omega (arith, v.owes x);
  }

  submit_read-Settled :
      (t : GcdFile W) (r : IoRequest) (offset size : ℕ) (env : Env) (acc : List ℕ)
      → Owing t r.operation acc
      → Settled (submit_read k t r offset size env) (r.operation ∷ acc)
  unfolding submit_read make_group
  submit_read-Settled t r offset size env acc v =
      let P : GcdFile W → Type 0 = λ u. Settled u (r.operation ∷ acc) in
      if-elim {A = GcdFile W} P (leb parallel_read_threshold size)
        (launched-Settled t (parallel (make_group r size)) acc v)
        (if-elim {A = GcdFile W} P (leb large_io_threshold size) (launched-Settled t (fast r) acc v)
          (if-elim {A = GcdFile W} P (not r.is_readinto && is_resident t.map_size env offset size)
            (inline_read-Settled t r (k.pread t.world t.fd size offset) acc v)
            (launched-Settled t (channel_read r 0) acc v)))

  -- A request that was made on a ledger with no completion.
  pending_more-Owing :
      (t : GcdFile W) (l : Ledger) (state : FileState) (op : ℕ) (acc : List ℕ)
      → l.pending ≡ t.ledger.pending
      → ((x : ℕ) → completions x l.events ≡ completions x t.ledger.events)
      → Settled t acc
      → Owing (pending_more k t l state) op acc
  unfolding ◌+ℤ◌
  pending_more-Owing t l state op acc e f v = record {
    ahead = rw (e, v.counted) (ground arith);
    owes = λ x. omega (arith, f x, v.balance x);
  }

  read_made-Answered :
      (t : GcdFile W) (state : FileState) (size offset op : ℕ) (env : Env) (b : Result Buffer)
      (acc : List ℕ)
      → Settled t acc
      → Answered op acc
          (read_made k t state size offset env (make_req_read_bytes t.ledger size op b env.fresh))
  unfolding make_req_read_bytes make_shell
  read_made-Answered t state size offset op env (throws e) acc v = record {
    counted = v.counted;
    balance = λ x. v.balance x;
  }
  read_made-Answered t state size offset op env (ok b) acc v = elim (Bool-cases (is_set b)) [
    | inl e ↦
        let made = make_with t.ledger op read env.fresh size b false false in
        rw (e, make_req_read_bytes)
          (submit_read-Settled (pending_more k t made.1 state) made.0 offset size env acc
            (pending_more-Owing t made.1 state op acc refl (λ x. refl) v))
    | inr e ↦
        rw (e, make_req_read_bytes) (record { counted = v.counted; balance = λ x. v.balance x })
  ]

  start_read-Answered :
      (t : GcdFile W) (p : ReadPlan × FileState) (offset op : ℕ) (env : Env) (acc : List ℕ)
      → Settled t acc
      → Answered op acc (start_read k t p offset op env)
  unfolding start_read
  start_read-Answered t (plan, state) offset op env acc v =
      both plan.eof op acc _ _
        (inline-Settled k (record t { state = state }) op _ acc
          (moved-Settled t t.world state acc v))
        (read_made-Answered t state plan.size offset op env env.read_buffer acc v)

  write_made-Answered :
      (t : GcdFile W) (state : FileState) (size op fresh : ℕ) (g : Result Buffer × Caches)
      (acc : List ℕ)
      → Settled t acc
      → Answered op acc (write_made k t state size (make_req_on t.ledger size op write fresh g))
  unfolding make_req_on make_shell
  write_made-Answered t state size op fresh (throws e, caches) acc v = record {
    counted = v.counted;
    balance = λ x. v.balance x;
  }
  write_made-Answered t state size op fresh (ok b, caches) acc v =
      let made =
        make_with (record (t.ledger) { caches = caches }) op write fresh size b false false in
      launched-Settled (pending_more k t made.1 state)
        (channel_write (record (made.0) { buffer = no_buffer }) size) acc
        (pending_more-Owing t made.1 state op acc refl (λ x. refl) v)

  write_large-Answered :
      (t : GcdFile W) (state : FileState) (view : Buffer) (op fresh : ℕ) (acc : List ℕ)
      → Settled t acc
      → Answered op acc (write_large k t state (make_req_held_write t.ledger view op fresh))
  unfolding make_req_held_write make_shell
  write_large-Answered t state view op fresh acc v =
      let made = make_req_held_write t.ledger view op fresh in
      launched-Settled (pending_more k t made.1 state) (fast made.0) acc
        (pending_more-Owing t made.1 state op acc refl (λ x. refl) v)

  synced-Settled :
      (t : GcdFile W) (op : ℕ) (r : Sys × W) (acc : List ℕ)
      → Settled t acc
      → Settled (synced k t op r) (op ∷ acc)
  synced-Settled t op (returned n, w) acc v =
      inline-Settled k _ op _ acc (moved-Settled t w t.state acc v)
  synced-Settled t op (failed e, w) acc v =
      inline-Settled k _ op _ acc (moved-Settled t w t.state acc v)

  truncated-Settled :
      (t : GcdFile W) (size : ℤ) (op : ℕ) (r : Sys × W) (acc : List ℕ)
      → Settled t acc
      → Settled (truncated k t size op r) (op ∷ acc)
  truncated-Settled t size op (failed e, w) acc v =
      inline-Settled k _ op _ acc (moved-Settled t w t.state acc v)
  truncated-Settled t size op (returned n, w) acc v =
      inline-Settled k _ op _ acc (moved-Settled t w _ acc v)

  readinto-Settled :
      (t : GcdFile W) (plan : ReadPlan) (state : FileState) (buffer : Buffer) (op : ℕ) (env : Env)
      (acc : List ℕ)
      → Settled t acc
      → let (r, l) = make_req_readinto t.ledger buffer plan.size op env.fresh in
        Settled (submit_read k (pending_more k t l state) r plan.offset plan.size env) (op ∷ acc)
  unfolding make_req_readinto make_shell
  readinto-Settled t plan state buffer op env acc v =
      let made = make_req_readinto t.ledger buffer plan.size op env.fresh in
      submit_read-Settled (pending_more k t made.1 state) made.0 plan.offset plan.size env acc
        (pending_more-Owing t made.1 state op acc refl (λ x. refl) v)

  closing-Settled :
      (t : GcdFile W) (hs : List (ℕ × Happening)) (acc : List ℕ)
      → Settled t acc
      → Settled (close_impl k t hs) acc
  unfolding close_impl
  closing-Settled t hs acc v =
      let w =
        steps-Settled k (record t { running = false }) hs acc
          (record { counted = v.counted; balance = λ x. v.balance x }) in
      if-elim {A = GcdFile W} (λ u. Settled u acc) (not t.running) v
        (record { counted = w.counted; balance = λ x. w.balance x })

  call-Answered :
      (t : GcdFile W) (op : ℕ) (env : Env) (c : Call) (acc : List ℕ)
      → Settled t acc
      → Answered op acc (call t op env c)
  unfolding call read_file read_at write_file seek_file flush_file tell_file truncate_file
      readinto_file close_file make_req
  call-Answered t op env (reads size) acc v =
      both (closed k t) op acc _ _ (inline-Settled k t op _ acc v)
        (start_read-Answered t (plan_read t.state size (refresh_size k t)) _ op env acc v)
  call-Answered t op env (reads_at offset size) acc v =
      both (closed k t) op acc _ _ (inline-Settled k t op _ acc v) (
        both (ltb_ℤ offset (pos 0)) op acc _ _ (inline-Settled k t op _ acc v) (
          start_read-Answered t (plan_read_at t.state offset size (refresh_size k t)) _ op env acc
            v))
  call-Answered t op env (writes view position) acc v =
      both (not (ltb_ℤ position (pos 0)) && (t.state.append_mode || k.is_append t.world t.fd)) op
        acc _ _ v
        (both (ltb (2 ^ 32 - 1) view.size) op acc _ _ v (
          both (closed k t) op acc _ _ (inline-Settled k t op _ acc v) (
            both (view.size == 0) op acc _ _ (inline-Settled k t op _ acc v) (
              both (leb large_io_threshold view.size) op acc _ _
                (write_large-Answered t (reserve_write t.state position view.size).1 view op
                  env.fresh acc v)
                (write_made-Answered t (reserve_write t.state position view.size).1 view.size op
                  env.fresh _ acc v)))))
  call-Answered t op env (seeks offset whence) acc v =
      inline-Settled k _ op _ acc (moved-Settled t t.world _ acc v)
  call-Answered t op env flushes acc v =
      if-elim {A = GcdFile W} (λ u. Settled u (op ∷ acc)) (closed k t)
        (inline-Settled k t op _ acc v) (synced-Settled t op (k.fsync t.world t.fd) acc v)
  call-Answered t op env tells acc v = inline-Settled k t op _ acc v
  call-Answered t op env (truncates size) acc v = elim (Option-cases (truncate_guard size)) [
    | inr (rejected, e) ↦ rw (e, truncate_file) (inline-Settled k t op rejected acc v)
    | inl e ↦
        rw (e, truncate_file)
          (truncated-Settled t size op (k.ftruncate t.world t.fd (to_u64 size)) acc v)
  ]
  call-Answered t op env (reads_into buffer) acc v =
      let planned = plan_read t.state (to_i64 buffer.size) (refresh_size k t) in
      both (closed k t) op acc _ _ (inline-Settled k t op _ acc v) (
        both (buffer.size == 0) op acc _ _ (inline-Settled k t op _ acc v) (
          both (planned.0).eof op acc _ _
            (inline-Settled k (record t { state = planned.1 }) op _ acc
              (moved-Settled t t.world planned.1 acc v))
            (readinto-Settled t planned.0 planned.1 buffer op env acc v)))
  call-Answered t op env (closes waited) acc v =
      inline-Settled k (close_impl k t waited) op _ acc (closing-Settled t waited acc v)

  -- From settled accounts, over any history of calls and of what happens to tasks, chunks and transfers
  -- of the channel, with whatever results: each operation of a call that returned was completed once
  -- or has one entry in flight, none of a call that threw, and the counter is the number of entries.
  pub run_actions-Completed :
      (t : GcdFile W) (acc : List ℕ) (actions : List Action)
      → Settled t acc
      → Settled (run_actions t acc actions).0 (run_actions t acc actions).1
  unfolding run_actions
  run_actions-Completed t acc [] v = v
  run_actions-Completed t acc (calls op env c ∷ actions) v =
      run_actions-Completed _ _ actions (call-Answered t op env c acc v)
  run_actions-Completed t acc (happens i h ∷ actions) v =
      run_actions-Completed (step k t i h) acc actions (step-Settled k t i h acc v)

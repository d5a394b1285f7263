-- ===== src/Backend/Iocp/Histories.antt =====
-- The calls on the sessions of src/backend/windows, in any order with what its workers and its pool
-- do.
use ayafileio.Base.{
  ℕ, ◌+◌, ◌-◌, ◌^◌, ◌≡◌, false, not, ◌&&◌, List, [], ◌∷◌, ◌++◌, none, some, ltb, ◌==◌, if-elim,
  Option-cases, inl, inr, arith, ℤ, pos, ltb_ℤ, to_i64,
}
use ayafileio.Core.Result.{read, write, other, ok}
use ayafileio.Core.FileState.{plan_read, plan_read_at}
use ayafileio.Core.Buffer.{Buffer}
use ayafileio.Core.Lifecycle.{truncate_guard}
use ayafileio.Platform.NativeFile.{Sys, returned, failed}
use ayafileio.Backend.Iocp.{FlushTask, Iocp, is_member}
use ayafileio.Backend.Iocp.Worker.{switch}
use ayafileio.Backend.Iocp.Submit.{Windows, Env}
use ayafileio.Backend.Iocp.Submit.Methods.{
  Outcome, refresh_session_size, submit_read, submit_read_at, submit_readinto, submit_write,
  submit_seek, submit_tell,
}
use ayafileio.Backend.Iocp.Submit.Closing.{
  Step, handles, drains, flushes, submit_truncate, submit_flush, submit_close, step, run_steps,
  asked, moved, ended, flushed, run_flush, close_session, cancel, stopped, has_handle, pointer,
}
use ayafileio.Backend.Iocp.Answers.{Accounted, flushing, process_entry-Accounted}
use ayafileio.Backend.Iocp.Answers.Submissions.{
  Undisturbed, accepted, Answered, both, available-Answered, start_read-Answered,
  start_readinto-Answered, start_write-Accounted,
}

pub data Call : Type 0 where
  reads : ℤ → Call
  reads_at : (offset size : ℤ) → Call
  writes : Buffer → ℤ → Call
  seeks : (offset whence : ℤ) → Call
  flushes_file tells : Call
  truncates : ℤ → Call
  reads_into : Buffer → Call
  closes : List Step → Call

pub data Action : Type 0 where
  calls : (session op : ℕ) → Env → Call → Action
  steps : Step → Action

flushing-append :
    (op : ℕ) (xs ys : List FlushTask) → flushing op (xs ++ ys) ≡ flushing op xs + flushing op ys
flushing-append op [] ys = omega arith
flushing-append op (x ∷ xs) ys = omega (arith, flushing-append op xs ys)

module _ {W : Type 0} (k : Windows W) where
  unfoldable pub call : Iocp W → ℕ → ℕ → Env → Call → Outcome k
  call i id op env (reads size) = submit_read k i id size op env
  call i id op env (reads_at offset size) = submit_read_at k i id offset size op env
  call i id op env (writes view position) = submit_write k i id view position op env
  call i id op env (seeks offset whence) = submit_seek k i id offset whence op
  call i id op env flushes_file = submit_flush k i id op
  call i id op env tells = submit_tell k i id op
  call i id op env (truncates size) = submit_truncate k i id size op
  call i id op env (reads_into buffer) = submit_readinto k i id buffer op env
  call i id op env (closes waited) = (ok tt, submit_close k i id waited op)

  -- The state, and the operations of the calls that returned.
  unfoldable pub run_actions : Iocp W → List ℕ → List Action → Iocp W × List ℕ
  run_actions i acc [] = (i, acc)
  run_actions i acc (calls id op env c ∷ actions) =
      let (result, j) = call i id op env c in run_actions j (accepted result op acc) actions
  run_actions i acc (steps s ∷ actions) = run_actions (step k i s) acc actions

  run_flush-Accounted :
      (i : Iocp W) (ts : List FlushTask) (acc : List ℕ)
      → Accounted (record i { flushes = ts }) acc
      → Accounted (run_flush k (record i { flushes = ts }) ts) acc
  run_flush-Accounted i [] acc v = v
  run_flush-Accounted i (t ∷ ts) acc v = go (k.flush_file_buffers i.world t.handle)
    where
      go : (r : Sys × W) → Accounted (flushed k (record i { flushes = ts }) t r) acc
      go (returned n, w) = λ op. omega (arith, v op)
      go (failed e, w) = λ op. omega (arith, v op)

  step-Accounted :
      (i : Iocp W) (s : Step) (acc : List ℕ) → Accounted i acc → Accounted (step k i s) acc
  unfolding step
  step-Accounted i (handles n now p) acc v =
      let w = process_entry-Accounted (switch n i) now p acc (λ op. v op) in λ op. w op
  step-Accounted i (drains n now) acc v = λ op. v op
  step-Accounted i flushes acc v = run_flush-Accounted i i.flushes acc v

  run_steps-Accounted :
      (i : Iocp W) (ss : List Step) (acc : List ℕ)
      → Accounted i acc
      → Accounted (run_steps k i ss) acc
  unfolding run_steps
  run_steps-Accounted i [] acc v = v
  run_steps-Accounted i (s ∷ ss) acc v =
      run_steps-Accounted (step k i s) ss acc (step-Accounted i s acc v)

  truncated-Accounted :
      (i : Iocp W) (id : ℕ) (size : ℤ) (op : ℕ) (r : Sys × W) (acc : List ℕ)
      → Accounted i acc
      → Accounted (asked k i id size op r) (op ∷ acc)
  truncated-Accounted i id size op (failed e, w) acc v = λ x. omega (arith, v x)
  truncated-Accounted i id size op (returned previous, w) acc v =
      go (k.set_file_pointer w (i.objects id).handle (some size))
    where
      cut :
          (w : W) (r : Sys × W)
          → Accounted (ended k (record i { world = w }) id size previous op r) (op ∷ acc)
      cut w' (failed e, u) = λ x. omega (arith, v x)
      cut w' (returned n, u) = λ x. omega (arith, v x)

      go :
          (r : Sys × W)
          → Accounted (moved k (record i { world = w }) id size previous op r) (op ∷ acc)
      go (failed e, u) = λ x. omega (arith, v x)
      go (returned n, u) = cut u (k.set_end_of_file u (i.objects id).handle)

  close_session-Accounted :
      (i : Iocp W) (id : ℕ) (waited : List Step) (acc : List ℕ)
      → Accounted i acc
      → Accounted (close_session k i id waited) acc
  close_session-Accounted i id waited acc v =
      let w = run_steps-Accounted (cancel k i id) waited acc (λ op. v op) in
      if-elim {A = Iocp W} (λ j. Accounted j acc) (has_handle k (i.objects id))
        (if-elim {A = Iocp W} (λ j. Accounted j acc) (ltb_ℤ (pos 0) (i.objects id).pending)
          (λ op. w op) (λ op. v op))
        v

  call-Answered :
      (i : Iocp W) (id op : ℕ) (env : Env) (c : Call) (acc : List ℕ)
      → Undisturbed k i env
      → Accounted i acc
      → Answered k op acc (call i id op env c)
  unfolding call submit_read submit_read_at submit_write submit_seek submit_flush submit_tell
      submit_truncate submit_readinto submit_close
  call-Answered i id op env (reads size) acc quiet v =
      let (plan, state) = plan_read (i.objects id).state size (refresh_session_size k i id) in
      available-Answered k i id op read _ acc v (
        both k plan.eof op acc _ _ (λ x. omega (arith, v x))
          (start_read-Answered k _ id plan op env acc quiet (λ x. v x)))
  call-Answered i id op env (reads_at offset size) acc quiet v =
      let (plan, state) =
        plan_read_at (i.objects id).state offset size (refresh_session_size k i id) in
      available-Answered k i id op read _ acc v (
        both k (ltb_ℤ offset (pos 0)) op acc _ _ (λ x. omega (arith, v x))
          (both k plan.eof op acc _ _ (λ x. omega (arith, v x))
            (start_read-Answered k _ id plan op env acc quiet (λ x. v x))))
  call-Answered i id op env (writes view position) acc quiet v =
      available-Answered k i id op write _ acc v (
        both k (not (ltb_ℤ position (pos 0)) && (i.objects id).append_mode) op acc _ _ v (
          both k (ltb (2 ^ 32 - 1) view.size) op acc _ _ v (
            both k (view.size == 0) op acc _ _ (λ x. omega (arith, v x))
              (start_write-Accounted k _ id view _ op env acc quiet (λ x. v x)))))
  call-Answered i id op env (seeks offset whence) acc quiet v =
      available-Answered k i id op other _ acc v (λ x. omega (arith, v x))
  call-Answered i id op env flushes_file acc quiet v =
      available-Answered k i id op other _ acc v
        (λ x. omega (arith, v x, flushing-append x i.flushes _))
  call-Answered i id op env tells acc quiet v =
      available-Answered k i id op other _ acc v (λ x. omega (arith, v x))
  call-Answered i id op env (truncates size) acc quiet v =
      available-Answered k i id op other _ acc v (elim (Option-cases (truncate_guard size)) [
        | inr (rejected, e) ↦ rw e (λ x. omega (arith, v x))
        | inl e ↦ rw e (truncated-Accounted i id size op (pointer k i id none) acc v)
      ])
  call-Answered i id op env (reads_into buffer) acc quiet v =
      let (plan, state) =
        plan_read (i.objects id).state (to_i64 buffer.size) (refresh_session_size k i id) in
      available-Answered k i id op read _ acc v (
        both k (buffer.size == 0) op acc _ _ (λ x. omega (arith, v x))
          (both k plan.eof op acc _ _ (λ x. omega (arith, v x))
            (start_readinto-Answered k _ id plan op buffer env acc quiet (λ x. v x))))
  call-Answered i id op env (closes waited) acc quiet v =
      let w = close_session-Accounted (stopped k i id) id waited acc (λ x. v x) in
      if-elim {A = Iocp W} (λ j. Accounted j (op ∷ acc)) (not (is_member id i.table))
        (λ x. omega (arith, v x))
        (if-elim {A = Iocp W} (λ j. Accounted j (op ∷ acc)) (not (i.objects id).running)
          (λ x. omega (arith, v x)) (λ x. omega (arith, w x)))

  -- Along a history: no packet of a request that a submission makes is handled between the return of
  -- the call of Windows and the store of the request's state.
  abbrev pub UndisturbedRun : Iocp W → List ℕ → List Action → Type 0
  UndisturbedRun i acc [] = Unit {0}
  UndisturbedRun i acc (calls id op env c ∷ actions) =
      Undisturbed k i env
      × UndisturbedRun (call i id op env c).1 (accepted (call i id op env c).0 op acc) actions
  UndisturbedRun i acc (steps s ∷ actions) = UndisturbedRun (step k i s) acc actions

  run-Accounted :
      (i : Iocp W) (acc : List ℕ) (actions : List Action)
      → UndisturbedRun i acc actions
      → Accounted i acc
      → Accounted (run_actions i acc actions).0 (run_actions i acc actions).1
  unfolding run_actions
  run-Accounted i acc [] quiet v = v
  run-Accounted i acc (calls id op env c ∷ actions) (q, quiet) v =
      run-Accounted _ _ actions quiet (call-Answered i id op env c acc q v)
  run-Accounted i acc (steps s ∷ actions) quiet v =
      run-Accounted (step k i s) acc actions quiet (step-Accounted i s acc v)

  -- From accounts in which no operation has more answers, given and owed, than calls, over any history
  -- of calls and of what workers and pool do meanwhile - packets that are late, doubled or of
  -- another session, whichever thread handles them, also in the middle of a submission, drains and
  -- flushes - in which no packet of the very request that a submission makes is handled before its
  -- state is stored, and none for memory that was freed: the completions of an operation and those that
  -- it is still owed are together no more than the calls with it that returned.
  pub run_actions-Accounted :
      (i : Iocp W) (acc : List ℕ) (actions : List Action)
      → UndisturbedRun i acc actions
      → (run_actions i acc actions).0.touched_freed ≡ false
      → Accounted i acc
      → Accounted (run_actions i acc actions).0 (run_actions i acc actions).1
  run_actions-Accounted i acc actions quiet untouched v = run-Accounted i acc actions quiet v

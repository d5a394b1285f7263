-- ===== src/Backend/Iocp/Submit/Closing.antt =====
-- Truncation, flush and close of src/backend/windows/iocp_submit.cpp, and the steps that the other
-- threads take while a close waits for them.
use ayafileio.Base.{
  ℕ, Bool, true, false, not, List, [], ◌∷◌, ◌++◌, Option, none, some, if◌then◌else◌, ℤ, pos, ltb_ℤ,
}
use ayafileio.Core.Result.{other, native_error}
use ayafileio.Core.Completion.{success, failure}
use ayafileio.Core.Request.{remove}
use ayafileio.Core.Lifecycle.{truncate_guard, truncate_done}
use ayafileio.Platform.NativeFile.{Sys, returned, failed}
use ayafileio.Core.Result.{ok}
use ayafileio.Core.Completion.{submitted}
use ayafileio.Backend.Iocp.{Session, FlushTask, Iocp, complete_request, is_member}
use ayafileio.Backend.Iocp.Worker.{Packet, process_entry, drained, complete, switch}
use ayafileio.Backend.Iocp.Submit.{Windows, complete_inline, modify_session, with_state, one_more}
use ayafileio.Backend.Iocp.Submit.Methods.{Outcome, available}

-- What another thread does: a worker handles a packet or drains its quarantine, the pool runs the
-- oldest flush.
pub data Step : Type 0 where
  handles : (thread now : ℕ) → Packet → Step
  drains : (thread now : ℕ) → Step
  flushes : Step

module _ {W : Type 0} (k : Windows W) where
  abbrev pub pointer : Iocp W → ℕ → Option ℤ → Sys × W
  pointer i id target = k.set_file_pointer i.world (i.objects id).handle target

  -- The pointer goes back to where it was, and the operation fails.
  abbrev pub restored : Iocp W → ℕ → ℕ → ℕ → Iocp W
  restored i id previous operation = record i { world = (pointer i id (some (pos previous))).1 }

  abbrev pub ended : Iocp W → ℕ → ℤ → ℕ → ℕ → Sys × W → Iocp W
  ended i id size previous operation (failed e, w) =
      complete_inline (restored (record i { world = w }) id previous operation) operation
        (failure other (native_error e "SetEndOfFile failed"))
  ended i id size previous operation (returned n, w) =
      let (c, state) = truncate_done (i.objects id).state size in
      complete_inline
        (modify_session (restored (record i { world = w }) id previous operation) id
          (with_state state))
        operation c

  abbrev pub moved : Iocp W → ℕ → ℤ → ℕ → ℕ → Sys × W → Iocp W
  moved i id size previous operation (failed e, w) =
      complete_inline (restored (record i { world = w }) id previous operation) operation
        (failure other (native_error e "SetFilePointerEx failed"))
  moved i id size previous operation (returned n, w) =
      ended (record i { world = w }) id size previous operation
        (k.set_end_of_file w (i.objects id).handle)

  abbrev pub asked : Iocp W → ℕ → ℤ → ℕ → Sys × W → Iocp W
  asked i id size operation (failed e, w) =
      complete_inline (record i { world = w }) operation
        (failure other (native_error e "SetFilePointerEx failed"))
  asked i id size operation (returned previous, w) =
      moved (record i { world = w }) id size previous operation
        (k.set_file_pointer w (i.objects id).handle (some size))

  unfoldable pub submit_truncate : Iocp W → ℕ → ℤ → ℕ → Outcome k
  submit_truncate i id size operation =
      available k i id operation other (elim (truncate_guard size) [
        | some rejected ↦ (ok tt, complete_inline i operation rejected)
        | none ↦ (ok tt, asked i id size operation (pointer i id none))
      ])

  -- The pool has been started, or is by this call; the task runs as a `Step`.
  unfoldable pub submit_flush : Iocp W → ℕ → ℕ → Outcome k
  submit_flush i id operation =
      let task : FlushTask = record {
        session = id;
        handle = (i.objects id).handle;
        operation = operation;
      } in
      available k i id operation other (
        ok tt,
        modify_session
            (record i { events = submitted operation ∷ i.events; flushes = i.flushes ++ task ∷ [] })
            id one_more,
      )

  abbrev pub flushed : Iocp W → FlushTask → Sys × W → Iocp W
  flushed i t (returned n, w) =
      complete (modify_session (record i { world = w }) t.session complete_request) t.operation
        (success other 0)
  flushed i t (failed e, w) =
      complete (modify_session (record i { world = w }) t.session complete_request) t.operation
        (failure other (native_error e "FlushFileBuffers failed"))

  abbrev pub run_flush : Iocp W → List FlushTask → Iocp W
  run_flush i [] = i
  run_flush i (t ∷ ts) =
      flushed (record i { flushes = ts }) t (k.flush_file_buffers i.world t.handle)

  unfoldable pub step : Iocp W → Step → Iocp W
  step i (handles n now p) = switch n (process_entry (switch n i) now p)
  step i (drains n now) = switch n (drained (switch n i) now)
  step i flushes = run_flush i i.flushes

  unfoldable pub run_steps : Iocp W → List Step → Iocp W
  run_steps i [] = i
  run_steps i (s ∷ ss) = run_steps (step i s) ss

  abbrev pub remove_session : Iocp W → ℕ → Iocp W
  remove_session i id = record i { table = remove id i.table }

  abbrev pub has_handle : Session → Bool
  has_handle s = elim s.handle [ none ↦ false | some h ↦ true ]

  abbrev pub cancel : Iocp W → ℕ → Iocp W
  cancel i id = record i { world = k.cancel_io i.world (i.objects id).handle }

  -- `if (session->owns_fd) CloseHandle(session->handle); session->handle = INVALID_HANDLE_VALUE;`
  abbrev pub close_handle : Iocp W → ℕ → Iocp W
  close_handle i id =
      let s = i.objects id in
      modify_session
        (record i { world = if s.owns_fd then k.close_handle i.world s.handle else i.world }) id
        (λ x. record x { handle = none })

  abbrev pub stopped : Iocp W → ℕ → Iocp W
  stopped i id = modify_session i id (λ s. record s { running = false })

  -- `waited` are the steps of the other threads before the wait ends, by the count or by the deadline.
  abbrev pub close_session : Iocp W → ℕ → List Step → Iocp W
  close_session i id waited =
      let s = i.objects id in
      if has_handle s
      then (if ltb_ℤ (pos 0) s.pending
          then close_handle (run_steps (cancel i id) waited) id
          else close_handle i id)
      else i

  unfoldable pub submit_close : Iocp W → ℕ → List Step → ℕ → Iocp W
  submit_close i id waited operation =
      if not (is_member id i.table)
      then complete_inline i operation (success other 0)
      else if not (i.objects id).running
      then complete_inline i operation (success other 0)
      else complete_inline (remove_session (close_session (stopped i id) id waited) id) operation
          (success other 0)

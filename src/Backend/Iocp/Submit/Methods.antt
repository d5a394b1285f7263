-- ===== src/Backend/Iocp/Submit/Methods.antt =====
-- The operations of src/backend/windows/iocp_submit.cpp on a session, up to the close.
use ayafileio.Base.{
  ℕ, ◌-◌, ◌%◌, ◌^◌, Bool, not, ◌&&◌, Option, none, some, ltb, ◌==◌, if◌then◌else◌, ℤ, pos, ltb_ℤ,
  to_i64,
}
use ayafileio.Core.Result.{
  ReqType, read, write, other, native_error, value_error, overflow_error, Result, ok, throws,
  io_exception,
}
use ayafileio.Core.FileState.{
  FileState, ReadPlan, plan_read, plan_read_at, reserve_write, set_cached_size,
}
use ayafileio.Core.Buffer.{Buffer, no_buffer}
use ayafileio.Core.Completion.{success, counted, read_done, failure}
use ayafileio.Core.Request.{resolved, rejected}
use ayafileio.Core.Backend.{make_io_completion}
use ayafileio.Core.Lifecycle.{seek_completion, tell_completion}
use ayafileio.Platform.NativeFile.{Sys, returned, failed}
use ayafileio.Backend.Iocp.{IocpRequest, Iocp, find_request, put_request}
use ayafileio.Backend.Iocp.Worker.{in_state, taken, handled}
use ayafileio.Backend.Iocp.Submit.{
  Windows, Env, error_io_pending, complete_inline, make_read_request, make_write_request,
  make_readinto_request, unavailable, modify_session, with_state, one_more, finish_inline,
  at_offset, ov_offset,
}

module _ {W : Type 0} (k : Windows W) where
  abbrev pub Outcome : Type 0
  Outcome = Result (Unit {0}) × Iocp W

  -- `refresh_session_size`: a size that is not negative
  unfoldable pub refresh_session_size : Iocp W → ℕ → Option ℕ
  refresh_session_size i id = elim (k.get_file_size i.world (i.objects id).handle) [
    | some (pos n) ↦ some n
    | _ ↦ none
  ]

  unfoldable pub refresh_session_size_after_short_io : Iocp W → ℕ → Iocp W
  refresh_session_size_after_short_io i id = elim (refresh_session_size i id) [
    | none ↦ i
    | some size ↦ modify_session i id (λ s. with_state (set_cached_size s.state size) s)
  ]

  -- The request as it is now: a worker may have answered or released it. The store of its state does not
  -- look at the one that it has.
  abbrev pub current : Iocp W → IocpRequest → IocpRequest
  current i r = elim (find_request r.request.address i.requests) [ none ↦ r | some x ↦ x ]

  -- Where the call returned `got` bytes at once: the size is asked for anew after fewer bytes than
  -- were wanted, and the completion is left to a worker unless the handle posts no packet.
  abbrev pub io_done : Iocp W → ℕ → IocpRequest → Bool → ℕ → Env → Iocp W
  io_done i id r short got env =
      let i' = if short then refresh_session_size_after_short_io i id else i in
      let c = make_io_completion (current i r).request got in
      let done = in_state resolved (current i r) in
      if (i'.objects id).skip_cp_on_success
      then finish_inline i' env.now id (record done { request = taken done.request }) c
      else i'

  -- Where it did not: a worker gets the packet of an operation that is pending.
  abbrev pub read_failed : Iocp W → ℕ → IocpRequest → ℕ → Env → Iocp W
  read_failed i id r error env =
      if error == error_io_pending
      then i
      else finish_inline i env.now id (in_state rejected (current i r))
          (failure r.request.type_ (native_error error "ReadFile failed"))

  abbrev pub write_failed : Iocp W → ℕ → IocpRequest → ℕ → Env → Iocp W
  write_failed i id r error env =
      if error == error_io_pending
      then i
      else finish_inline (refresh_session_size_after_short_io i id) env.now id
          (in_state rejected (current i r))
          (failure r.request.type_ (native_error error "WriteFile failed"))

  abbrev pub read_answered : Iocp W → ℕ → IocpRequest → ℕ → Env → Sys × W → Iocp W
  read_answered i id r size env (returned got, w) =
      io_done (handled (record i { world = w }) env.early) id r (ltb got size) got env
  read_answered i id r size env (failed e, w) =
      read_failed (handled (record i { world = w }) env.early) id r e env

  abbrev pub write_answered : Iocp W → ℕ → IocpRequest → ℕ → Env → Sys × W → Iocp W
  write_answered i id r size env (returned wrote, w) =
      io_done (handled (record i { world = w }) env.early) id r (not (wrote == size)) wrote env
  write_answered i id r size env (failed e, w) =
      write_failed (handled (record i { world = w }) env.early) id r e env

  -- The request with its `OVERLAPPED`, in the store, and the counter.
  abbrev pub placed : Iocp W → ℕ → IocpRequest → Iocp W
  placed i id r = modify_session (record i { requests = put_request r i.requests }) id one_more

  -- The call. Its length is a DWORD.
  abbrev pub read_made : ℕ → ReadPlan → Env → Result IocpRequest × Iocp W → Outcome
  read_made id plan env (throws e, i) = (throws e, i)
  read_made id plan env (ok made, i) =
      let r = at_offset id plan.offset made in
      (
        ok tt,
        read_answered (placed i id r) id r plan.size env
            (k.read_file i.world (i.objects id).handle (plan.size % 2 ^ 32) (ov_offset r)),
      )

  unfoldable pub start_read : Iocp W → ℕ → ReadPlan → ℕ → Env → Outcome
  start_read i id plan operation env =
      read_made id plan env (make_read_request i plan.size operation env.read_buffer env.fresh)

  unfoldable pub start_readinto : Iocp W → ℕ → ReadPlan → ℕ → Buffer → Env → Outcome
  start_readinto i id plan operation buffer env =
      let (r, i') = make_readinto_request i buffer plan.size operation env.fresh in
      read_made id plan env (ok r, i')

  unfoldable pub start_write : Iocp W → ℕ → Buffer → ℕ → ℕ → Env → Iocp W
  start_write i id view offset operation env =
      let (made, i') = make_write_request i view operation env.fresh in
      let r = at_offset id offset made in
      write_answered (placed i' id r) id r view.size env
        (k.write_file i.world (i.objects id).handle (view.size % 2 ^ 32) (ov_offset r))

  -- A method after its `unavailable`.
  abbrev pub available : Iocp W → ℕ → ℕ → ReqType → Outcome → Outcome
  available i id operation type_ rest = elim (unavailable i id type_) [
    | some c ↦ (ok tt, complete_inline i operation c)
    | none ↦ rest
  ]

  abbrev pub planned : Iocp W → ℕ → FileState → Iocp W
  planned i id state = modify_session i id (with_state state)

  unfoldable pub submit_read : Iocp W → ℕ → ℤ → ℕ → Env → Outcome
  submit_read i id size operation env =
      let (plan, state) = plan_read (i.objects id).state size (refresh_session_size i id) in
      available i id operation read (
        if plan.eof
        then (ok tt, complete_inline (planned i id state) operation (read_done no_buffer 0))
        else start_read (planned i id state) id plan operation env)

  unfoldable pub submit_read_at : Iocp W → ℕ → ℤ → ℤ → ℕ → Env → Outcome
  submit_read_at i id offset size operation env =
      let (plan, state) =
        plan_read_at (i.objects id).state offset size (refresh_session_size i id) in
      available i id operation read (
        if ltb_ℤ offset (pos 0)
        then (
          ok tt,
          complete_inline i operation (failure read (value_error "negative offset not allowed")),
        )
        else if plan.eof
        then (ok tt, complete_inline (planned i id state) operation (read_done no_buffer 0))
        else start_read (planned i id state) id plan operation env)

  unfoldable pub submit_readinto : Iocp W → ℕ → Buffer → ℕ → Env → Outcome
  submit_readinto i id buffer operation env =
      let (plan, state) =
        plan_read (i.objects id).state (to_i64 buffer.size) (refresh_session_size i id) in
      available i id operation read (
        if buffer.size == 0
        then (ok tt, complete_inline i operation (counted read 0))
        else if plan.eof
        then (ok tt, complete_inline (planned i id state) operation (counted read 0))
        else start_readinto (planned i id state) id plan operation buffer env)

  unfoldable pub submit_write : Iocp W → ℕ → Buffer → ℤ → ℕ → Env → Outcome
  submit_write i id view position operation env =
      let (offset, state) = reserve_write (i.objects id).state position view.size in
      available i id operation write (
        if not (ltb_ℤ position (pos 0)) && (i.objects id).append_mode
        then (throws (io_exception (value_error "write_at() does not support append mode")), i)
        else if ltb (2 ^ 32 - 1) view.size
        then (throws (io_exception (overflow_error "write buffer exceeds 4 GiB - 1")), i)
        else if view.size == 0
        then (ok tt, complete_inline i operation (success write 0))
        else (ok tt, start_write (planned i id state) id view offset operation env))

  unfoldable pub submit_seek : Iocp W → ℕ → ℤ → ℤ → ℕ → Outcome
  submit_seek i id offset whence operation =
      let (c, state) =
        seek_completion (i.objects id).state offset whence (refresh_session_size i id) in
      available i id operation other (ok tt, complete_inline (planned i id state) operation c)

  unfoldable pub submit_tell : Iocp W → ℕ → ℕ → Outcome
  submit_tell i id operation =
      available i id operation other
        (ok tt, complete_inline i operation (tell_completion (i.objects id).state))

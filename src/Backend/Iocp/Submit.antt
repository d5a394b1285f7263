-- ===== src/Backend/Iocp/Submit.antt =====
-- The submissions of src/backend/windows/iocp_submit.cpp. The calls of Windows are the parameter
-- `Windows`: each takes the world and answers with a value or an error code. What else a submission
-- meets is its `Env`.
pub mod Methods
pub mod Closing
use ayafileio.Base.{
  ℕ, ◌+◌, ◌-◌, ◌*◌, ◌/◌, ◌%◌, ◌^◌, Bool, true, false, not, ◌&&◌, ◌||◌, List, [], ◌∷◌, Option, none,
  some, ltb, leb, ◌==◌, if◌then◌else◌, ℤ, pos, negsuc, ltb_ℤ, ◌+ℤ◌, to_u64, to_i64,
}
use ayafileio.Core.Result.{
  ReqType, read, write, other, IoError, native_error, value_error, overflow_error, memory_error,
  interrupted_error, Result, ok, throws, io_exception,
}
use ayafileio.Core.FileState.{
  FileState, ReadPlan, plan_read, plan_read_at, reserve_write, set_cached_size,
}
use ayafileio.Core.Buffer.{Buffer, no_buffer, is_set}
use ayafileio.Core.Completion.{
  Completion, success, counted, read_done, failure, submitted, completes_inline,
}
use ayafileio.Core.Request.{resolved, rejected, IoRequest}
use ayafileio.Core.Backend.{make_io_completion}
use ayafileio.Core.Lifecycle.{seek_completion, tell_completion, truncate_guard, truncate_done}
use ayafileio.Platform.NativeFile.{Sys, returned, failed}
use ayafileio.Backend.Iocp.{
  IocpRequest, Session, Iocp, new_iocp_request, iocp_req_alloc_impl, complete_request, put_request,
  is_member,
}
use ayafileio.Backend.Iocp.Quarantine.{release_request}
use ayafileio.Backend.Iocp.Worker.{Packet, get_session, set_session, in_state, taken}

-- ReadFile and WriteFile take the handle, the length and the offset, GetFileSizeEx the handle,
-- SetFilePointerEx the handle and the offset, or none to ask where the pointer is, SetEndOfFile,
-- FlushFileBuffers, CancelIoEx and CloseHandle the handle. CreateIoCompletionPort makes a port, or
-- associates a handle with a port and a key; SetFileCompletionNotificationModes may refuse the mode in
-- which an operation that is done at once posts no packet.
pub record Windows (W : Type 0) : Type 0 where
  pub read_file : W → Option ℕ → (length offset : ℕ) → Sys × W
  pub write_file : W → Option ℕ → (length offset : ℕ) → Sys × W
  pub get_file_size : W → Option ℕ → Option ℤ
  pub set_file_pointer : W → Option ℕ → Option ℤ → Sys × W
  pub set_end_of_file : W → Option ℕ → Sys × W
  pub flush_file_buffers : W → Option ℕ → Sys × W
  pub cancel_io : W → Option ℕ → W
  pub close_handle : W → Option ℕ → W
  pub create_port : W → Option ℕ × W
  pub associate : W → Option ℕ → Option ℕ → ℕ → Sys × W
  pub skip_completion_port : W → Option ℕ → Bool

-- The buffer that the operation allocates for a read, the address that `operator new` returns, the time
-- at which a finished request is put aside, and the packets that workers handle after the call of
-- Windows returned and before the submission stores the state of its request.
pub record Env : Type 0 where
  pub read_buffer : Result Buffer
  pub fresh : ℕ
  pub now : ℕ
  pub early : List (ℕ × ℕ × Packet)

-- ERROR_IO_PENDING of the Windows API
abbrev pub error_io_pending : ℕ
error_io_pending = 997

abbrev pub with_state : FileState → Session → Session
with_state state s = record s { state = state }

abbrev pub one_more : Session → Session
one_more s = record s { pending = s.pending +ℤ pos 1 }

module _ {W : Type 0} where
  abbrev pub complete_inline : Iocp W → ℕ → Completion → Iocp W
  complete_inline i operation c = record i { events = completes_inline operation c ∷ i.events }

  -- A new request in the store, and the call of `submitted`. What the three kinds of request set
  -- after it is written here with it.
  unfoldable pub make_shell :
      Iocp W
      → (operation : ℕ) → ReqType
      → (fresh size : ℕ) → Buffer
      → (readinto held : Bool) → IocpRequest × Iocp W
  make_shell i operation type_ fresh size buffer readinto held =
      let (a, memory) = iocp_req_alloc_impl i.here.memory fresh in
      let shell = new_iocp_request a in
      let made = record shell {
        request = record (shell.request) {
          operation = operation;
          type_ = type_;
          req_size = size;
          buffer = buffer;
          is_readinto = readinto;
          holds_write_buf = held;
        };
      } in
      (
        made,
        record i {
          here = record (i.here) { memory = memory };
          requests = put_request made i.requests;
          events = submitted operation ∷ i.events;
        },
      )

  unfoldable pub make_read_request :
      Iocp W → ℕ → ℕ → Result Buffer → ℕ → Result IocpRequest × Iocp W
  make_read_request i size operation (throws e) fresh = (throws e, i)
  make_read_request i size operation (ok buffer) fresh =
      if is_set buffer
      then (let (r, i') = make_shell i operation read fresh size buffer false false in (ok r, i'))
      else (throws (io_exception (memory_error "Failed to allocate read result")), i)

  unfoldable pub make_write_request : Iocp W → Buffer → ℕ → ℕ → IocpRequest × Iocp W
  make_write_request i view operation fresh =
      make_shell i operation write fresh view.size view false true

  unfoldable pub make_readinto_request : Iocp W → Buffer → ℕ → ℕ → ℕ → IocpRequest × Iocp W
  make_readinto_request i view size operation fresh =
      make_shell i operation read fresh size view true false

  -- The completion with which a submission is refused, if it is: for no session, for one that does not
  -- run, or after an interrupt.
  unfoldable pub unavailable : Iocp W → ℕ → ReqType → Option Completion
  unavailable i id type_ =
      let s = i.objects id in
      if not (is_member id i.table)
      then some (failure type_ (value_error "File not open."))
      else if not s.running || elim s.handle [ none ↦ true | some h ↦ false ]
      then some (failure type_ (value_error "I/O operation on closed file."))
      else if i.ctrlc
      then some (failure type_ (interrupted_error "interrupted"))
      else none

  abbrev pub modify_session : Iocp W → ℕ → (Session → Session) → Iocp W
  modify_session i id f = set_session i id (f (i.objects id))

  -- The last lines of a submission that is over at once: the counter, the state of the request, the
  -- operation, and the release.
  unfoldable pub finish_inline : Iocp W → ℕ → ℕ → IocpRequest → Completion → Iocp W
  finish_inline i now id r c =
      let counted_down = modify_session i id complete_request in
      let answered = complete_inline counted_down r.request.operation c in
      release_request (record answered { requests = put_request r answered.requests }) now r

-- `ov`, and the offset that the kernel reads in it
abbrev pub at_offset : ℕ → ℕ → IocpRequest → IocpRequest
at_offset id offset r = record r {
  session_id = id;
  offset = offset % 2 ^ 32;
  offset_high = offset / 2 ^ 32 % 2 ^ 32;
}

abbrev pub ov_offset : IocpRequest → ℕ
ov_offset r = r.offset_high * 2 ^ 32 + r.offset

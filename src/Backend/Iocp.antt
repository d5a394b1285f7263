-- ===== src/Backend/Iocp.antt =====
-- src/backend/windows: iocp_request.hpp, iocp_request.cpp, iocp_session.hpp and iocp_context.hpp, the
-- state that the completion-port back end keeps. A request is named by its address, an operation
-- and a handle by a number. A thread's free list and quarantine are its own: `here` is the running
-- thread, and `others` are the rest of them. A request on a free list stays as it is until its address
-- is used anew; of one that was given to `operator delete` nothing is known, and `touched_freed` says
-- that such a one was read.
pub mod Quarantine
pub mod Worker
pub mod Submit
pub mod Context
pub mod Answers
pub mod Histories
pub mod Sharing
pub mod Duplicates
mod Tests
use ayafileio.Base.{
  ℕ, ◌+◌, Bool, true, false, List, [], ◌∷◌, Option, none, some, ltb, ◌==◌, if◌then◌else◌, length, ℤ,
  pos, ◌-ℤ◌,
}
use ayafileio.Core.FileState.{FileState}
use ayafileio.Core.Completion.{Event}
use ayafileio.Core.Request.{IoRequest, Memory, new_request, release_allocation}

-- `offset` and `offset_high` are the fields of `ov`.
pub record IocpRequest : Type 0 where
  pub request : IoRequest
  pub session_id : ℕ
  pub offset : ℕ
  pub offset_high : ℕ

abbrev pub new_iocp_request : ℕ → IocpRequest
new_iocp_request a = record { request = new_request a; session_id = 0; offset = 0; offset_high = 0 }

-- A steady clock counts nanoseconds.
pub record QuarantineEntry : Type 0 where
  pub request : ℕ
  pub when : ℕ

-- What is thread_local: the memory of requests, and the queue with its front at the head.
pub record Thread : Type 0 where
  pub memory : Memory
  pub quarantine : List QuarantineEntry

pub record QuarantineStats : Type 0 where
  pub live : ℕ
  pub pushes : ℕ
  pub scanned : ℕ
  pub drains : ℕ
  pub peak : ℕ

-- `none` is INVALID_HANDLE_VALUE. GENERIC_READ and GENERIC_WRITE of `access` are a flag each.
pub record Session : Type 0 where
  pub id : ℕ
  pub handle : Option ℕ
  pub running : Bool
  pub state : FileState
  pub append_mode : Bool
  pub pending : ℤ
  pub close_wake : ℕ
  pub owns_fd : Bool
  pub generic_read : Bool
  pub generic_write : Bool
  pub skip_cp_on_success : Bool
  pub cached_buffer_size : ℕ
  pub cached_buffer_pool_max : ℕ
  pub cached_close_timeout_ms : ℕ

-- The task that `submit_flush` gives to the thread pool.
pub record FlushTask : Type 0 where
  pub session : ℕ
  pub handle : Option ℕ
  pub operation : ℕ

-- `objects` are the sessions by their ids, which outlive their entry of the table, as a
-- shared_ptr does; `table` are the keys of `sessions_`. `events` are the calls on operations, newest
-- first.
pub record Iocp (W : Type 0) : Type 0 where
  pub world : W
  pub read_iocp : Option ℕ
  pub write_iocp : Option ℕ
  pub running : Bool
  pub next_session_id : ℕ
  pub ctrlc : Bool
  pub objects : ℕ → Session
  pub table : List ℕ
  pub requests : List IocpRequest
  pub here : Thread
  pub others : List Thread
  pub stats : QuarantineStats
  pub packets_stale_session : ℕ
  pub check_hook : Option (ℕ → Bool)
  pub flushes : List FlushTask
  pub events : List Event
  pub touched_freed : Bool

-- A request is made by one thread and given back by another, so that `live` is not kept here.
-- The address that the request gets; `fresh` is what `operator new` returns if it is called.
unfoldable pub iocp_req_alloc_impl : Memory → ℕ → ℕ × Memory
iocp_req_alloc_impl m fresh = elim m.freelist [
  | [] ↦ (fresh, m)
  | a ∷ rest ↦ (a, record m { freelist = rest })
]

unfoldable pub iocp_req_free_impl : Memory → ℕ → Memory
iocp_req_free_impl m a =
    if release_allocation m a
    then (if ltb (length m.freelist) 64
        then record m { freelist = a ∷ m.freelist }
        else record m { deleted = a ∷ m.deleted })
    else m

abbrev pub complete_request : Session → Session
complete_request s = record s { pending = s.pending -ℤ pos 1; close_wake = s.close_wake + 1 }

-- The request at an address, and a store with that request written.
abbrev pub find_request : ℕ → List IocpRequest → Option IocpRequest
find_request a [] = none
find_request a (r ∷ rs) = if r.request.address == a then some r else find_request a rs

abbrev pub put_request : IocpRequest → List IocpRequest → List IocpRequest
put_request x [] = x ∷ []
put_request x (r ∷ rs) =
    if r.request.address == x.request.address then x ∷ rs else r ∷ put_request x rs

abbrev pub is_member : ℕ → List ℕ → Bool
is_member a [] = false
is_member a (x ∷ xs) = if x == a then true else is_member a xs

-- A store of objects with one of them written.
abbrev pub put {ℓ} : {A : Type ℓ} → ℕ → A → (ℕ → A) → ℕ → A
put i x f j = if j == i then x else f j

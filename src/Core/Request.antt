-- ===== src/Core/Request.antt =====
-- src/core/io_request.hpp and io_request.cpp: requests, the memory that they are made in, and the
-- hooks of the diagnostics. Addresses are numbers; `operator new` is the address that it returns.
pub mod Sharing
mod Tests
use ayafileio.Base.{
  ℕ, Bool, true, false, List, [], ◌∷◌, Option, none, some, ltb, ◌==◌, if◌then◌else◌, length,
}
use ayafileio.Core.Result.{ReqType, other}
use ayafileio.Core.Buffer.{Buffer, no_buffer}

-- `IOState`
pub data IoState : Type 0 where
  pending resolved rejected : IoState

pub record IoRequest : Type 0 where
  pub address : ℕ
  pub operation : ℕ
  pub buffer : Buffer
  pub req_size : ℕ
  pub type_ : ReqType
  pub state : IoState
  pub reaped : Bool
  pub is_readinto : Bool
  pub holds_write_buf : Bool

-- The memory of one thread's requests: the free list with its back at the head, what is in use,
-- and what went back to `operator delete`. `release_hook` is the diagnostics' answer, if installed.
pub record Memory : Type 0 where
  pub freelist : List ℕ
  pub live : List ℕ
  pub deleted : List ℕ
  pub release_hook : Option (ℕ → Bool)

abbrev pub max_entries : ℕ
max_entries = 64

-- `request_mem_acquire`, with what `operator new` returns if it is called
unfoldable pub request_mem_acquire : Memory → ℕ → ℕ × Memory
request_mem_acquire m fresh = elim m.freelist [
  | [] ↦ (fresh, m)
  | a ∷ rest ↦ (a, record m { freelist = rest })
]

unfoldable pub request_mem_release : Memory → ℕ → Memory
request_mem_release m a =
    if ltb (length m.freelist) max_entries
    then record m { freelist = a ∷ m.freelist }
    else record m { deleted = a ∷ m.deleted }

-- `IORequest{}` at an address
abbrev pub new_request : ℕ → IoRequest
new_request a = record {
  address = a;
  operation = 0;
  buffer = no_buffer;
  req_size = 0;
  type_ = other;
  state = pending;
  reaped = false;
  is_readinto = false;
  holds_write_buf = false;
}

unfoldable pub req_alloc : Memory → ℕ → IoRequest × Memory
req_alloc m fresh =
    let (a, m') = request_mem_acquire m fresh in (new_request a, record m' { live = a ∷ m'.live })

abbrev pub remove : ℕ → List ℕ → List ℕ
remove a [] = []
remove a (x ∷ xs) = if x == a then xs else x ∷ remove a xs

-- `!g_hooks.release_allocation || g_hooks.release_allocation(...)`
unfoldable pub release_allocation : Memory → ℕ → Bool
release_allocation m a = elim m.release_hook [ none ↦ true | some hook ↦ hook a ]

-- A refused release leaves the request where it is.
unfoldable pub req_free : Memory → ℕ → Memory
req_free m a =
    if release_allocation m a
    then request_mem_release (record m { live = remove a m.live }) a
    else m

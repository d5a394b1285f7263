-- ===== src/Core/Completion.antt =====
-- src/core/completion.hpp and completion.cpp: what a backend hands to the host for an operation.
-- An operation is named by a number; the calls made on it are a list of events, which is how the
-- model sees a host that may do anything with them.
use ayafileio.Base.{ℕ, ◌+◌, Bool, true, false, List, [], ◌∷◌, ◌==◌, if◌then◌else◌, ℤ, negsuc}
use ayafileio.Core.Result.{ReqType, read, ErrorKind, none_, IoError, no_error}
use ayafileio.Core.Buffer.{Buffer, no_buffer}

pub record Completion : Type 0 where
  pub type_ : ReqType
  pub value : ℕ
  pub handle : ℤ
  pub buffer : Buffer
  pub error : IoError
  pub return_count : Bool

abbrev pub is_none : ErrorKind → Bool
is_none none_ = true
is_none _ = false

-- `error.kind != ErrorKind::None`
abbrev pub failed : Completion → Bool
failed c = elim (is_none c.error.kind) [ true ↦ false | false ↦ true ]

abbrev pub success_with : ReqType → ℕ → ℤ → Completion
success_with type_ value handle = record {
  type_ = type_;
  value = value;
  handle = handle;
  buffer = no_buffer;
  error = no_error;
  return_count = false;
}

abbrev pub success : ReqType → ℕ → Completion
success type_ value = success_with type_ value (negsuc 0)

abbrev pub counted : ReqType → ℕ → Completion
counted type_ value = record (success type_ value) { return_count = true }

abbrev pub read_done : Buffer → ℕ → Completion
read_done buffer size = record (success read size) { buffer = buffer }

abbrev pub failure : ReqType → IoError → Completion
failure type_ error = record (success type_ 0) { error = error }

-- The calls on an `Operation`, in order.
pub data Event : Type 0 where
  submitted : ℕ → Event
  completes : ℕ → Completion → Event
  completes_inline : ℕ → Completion → Event

-- How often an operation was completed, in either way.
abbrev pub completions : ℕ → List Event → ℕ
completions op [] = 0
completions op (submitted x ∷ es) = completions op es
completions op (completes x c ∷ es) = (if x == op then 1 else 0) + completions op es
completions op (completes_inline x c ∷ es) = (if x == op then 1 else 0) + completions op es

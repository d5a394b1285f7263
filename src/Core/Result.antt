-- ===== src/Core/Result.antt =====
-- src/core/result.hpp: request kinds and errors as values. `Result` stands for a C++ call that
-- returns a value or throws.
use Prim.Native.String.{String}
use ayafileio.Base.{ℕ}

pub data ReqType : Type 0 where
  read write other open_ : ReqType

pub data ErrorKind : Type 0 where
  none_ native value type_ overflow unsupported memory interrupted runtime : ErrorKind

pub record IoError : Type 0 where
  pub kind : ErrorKind
  pub code : ℕ
  pub message : String

abbrev pub no_error : IoError
no_error = record { kind = none_; code = 0; message = "" }

abbrev pub native_error : ℕ → String → IoError
native_error code text = record { kind = native; code = code; message = text }

abbrev pub value_error : String → IoError
value_error text = record { kind = value; code = 0; message = text }

abbrev pub overflow_error : String → IoError
overflow_error text = record { kind = overflow; code = 0; message = text }

abbrev pub unsupported_error : String → IoError
unsupported_error text = record { kind = unsupported; code = 0; message = text }

abbrev pub memory_error : String → IoError
memory_error text = record { kind = memory; code = 0; message = text }

abbrev pub interrupted_error : String → IoError
interrupted_error text = record { kind = interrupted; code = 0; message = text }

abbrev pub runtime_error : String → IoError
runtime_error text = record { kind = runtime; code = 0; message = text }

-- The exceptions that the engine throws.
pub data Exception : Type 0 where
  io_exception : IoError → Exception
  invalid_argument : String → Exception
  bad_alloc : Exception

pub data Result {ℓ} (A : Type ℓ) : Type ℓ where
  ok : A → Result A
  throws : Exception → Result A

-- ===== src/Core/Registry.antt =====
-- src/core/backend_registry.hpp and backend_registry.cpp: which backend opens a file. A backend is
-- any type; a factory is the function that it computes, an exception included, and an availability
-- callback is its answer. The configured kind is an argument of the calls that read it.
pub mod Choice
mod Tests
use Prim.Native.String.{String}
use text.Mathlib.Text.{◌==◌ as str_eq}
use ayafileio.Base.{
  ℕ, Bool, true, false, not, ◌&&◌, List, [], ◌∷◌, Option, none, some, ℤ, if◌then◌else◌,
}
use ayafileio.Core.Result.{Result, ok, throws, Exception, io_exception, runtime_error}
use ayafileio.Core.Config.{BackendKind, auto, iocp, io_uring, dispatch_io, thread_pool}

abbrev pub kind_eq : BackendKind → BackendKind → Bool
kind_eq auto auto = true
kind_eq iocp iocp = true
kind_eq io_uring io_uring = true
kind_eq dispatch_io dispatch_io = true
kind_eq thread_pool thread_pool = true
kind_eq _ _ = false

pub record BackendEntry (B : Type 0) : Type 0 where
  pub open_file : String → List ℕ → Result B
  pub wrap_fd : ℤ → List ℕ → Bool → Result B
  pub is_available : Bool

-- `entries_` as an association list with one entry for each kind, and the order for `auto`.
pub record BackendRegistry (B : Type 0) : Type 0 where
  pub entries : List (BackendKind × BackendEntry B)
  pub auto_order : List BackendKind

abbrev pub not_registered : Exception
not_registered = io_exception (runtime_error "Backend is not registered")

module _ {B : Type 0} where
  abbrev pub find : BackendKind → List (BackendKind × BackendEntry B) → Option (BackendEntry B)
  find kind [] = none
  find kind ((k, e) ∷ rest) = if kind_eq k kind then some e else find kind rest

  -- `entries_[kind] = entry`
  abbrev pub put :
      BackendKind
      → BackendEntry B
      → List (BackendKind × BackendEntry B)
      → List (BackendKind × BackendEntry B)
  put kind entry [] = (kind, entry) ∷ []
  put kind entry ((k, e) ∷ rest) =
      if kind_eq k kind then (k, entry) ∷ rest else (k, e) ∷ put kind entry rest

  unfoldable pub register_backend :
      BackendRegistry B → BackendKind → BackendEntry B → BackendRegistry B
  register_backend r kind entry = record r { entries = put kind entry r.entries }

  unfoldable pub set_auto_order : BackendRegistry B → List BackendKind → BackendRegistry B
  set_auto_order r order = record r { auto_order = order }

  unfoldable pub clear_registry : BackendRegistry B → BackendRegistry B
  clear_registry r = record { entries = []; auto_order = thread_pool ∷ [] }

  -- registered, and its callback says so
  abbrev pub usable : BackendRegistry B → BackendKind → Bool
  usable r kind = elim (find kind r.entries) [ none ↦ false | some e ↦ e.is_available ]

  unfoldable pub available : BackendRegistry B → BackendKind → Bool
  available r kind = if kind_eq kind auto then true else usable r kind

  -- the loop over `auto_order_`
  abbrev pub first_usable : BackendRegistry B → List BackendKind → BackendKind
  first_usable r [] = thread_pool
  first_usable r (kind ∷ rest) = if usable r kind then kind else first_usable r rest

  unfoldable pub effective_backend : BackendRegistry B → BackendKind → BackendKind
  unfolding available
  effective_backend r configured =
      if not (kind_eq configured auto) && available r configured
      then configured
      else first_usable r r.auto_order

  unfoldable pub create : BackendRegistry B → BackendKind → String → List ℕ → Result B
  create r kind path mode = elim (find kind r.entries) [
    | none ↦ throws not_registered
    | some e ↦ e.open_file path mode
  ]

  unfoldable pub create_wrapped : BackendRegistry B → BackendKind → ℤ → List ℕ → Bool → Result B
  create_wrapped r kind fd mode owns_fd = elim (find kind r.entries) [
    | none ↦ throws not_registered
    | some e ↦ e.wrap_fd fd mode owns_fd
  ]

  -- `catch (...) { if (kind == ThreadPool) throw; return second; }`
  abbrev pub fall_back : BackendKind → Result B → Result B → Result B
  fall_back kind (ok b) second = ok b
  fall_back kind (throws e) second = if kind_eq kind thread_pool then throws e else second

  unfoldable pub open_backend : BackendRegistry B → BackendKind → String → List ℕ → Result B
  open_backend r configured path mode =
      let kind = effective_backend r configured in
      fall_back kind (create r kind path mode) (create r thread_pool path mode)

  -- On Windows the kind is fixed.
  unfoldable pub wrap_backend :
      (windows : Bool) → BackendRegistry B → BackendKind → ℤ → List ℕ → Bool → Result B
  wrap_backend windows r configured fd mode owns_fd =
      let kind = if windows then iocp else effective_backend r configured in
      fall_back kind (create_wrapped r kind fd mode owns_fd)
        (create_wrapped r thread_pool fd mode owns_fd)

unfoldable pub backend_name : BackendKind → String
backend_name iocp = "iocp"
backend_name io_uring = "io_uring"
backend_name dispatch_io = "dispatch_io"
backend_name thread_pool = "thread_pool"
backend_name auto = "auto"

unfoldable pub parse_backend_name : String → Option BackendKind
parse_backend_name name =
    if str_eq name "auto"
    then some auto
    else if str_eq name "iocp"
    then some iocp
    else if str_eq name "io_uring"
    then some io_uring
    else if str_eq name "dispatch_io"
    then some dispatch_io
    else if str_eq name "thread_pool"
    then some thread_pool
    else none

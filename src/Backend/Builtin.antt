-- ===== src/Backend/Builtin.antt =====
-- src/backend/builtin.cpp: the backends that a build registers. The factories and the probe of the
-- platform's own backend are given; what they do is the subject of the backends' modules.
pub mod Opening
mod Tests
use Prim.Native.String.{String}
use ayafileio.Base.{ℕ, Bool, true, false, not, List, [], ◌∷◌, ℤ, if◌then◌else◌}
use ayafileio.Core.Result.{Result}
use ayafileio.Core.Config.{BackendKind, auto, iocp, io_uring, dispatch_io, thread_pool}
use ayafileio.Core.Registry.{
  BackendEntry, BackendRegistry, kind_eq, register_backend, set_auto_order, clear_registry,
  effective_backend,
}

-- `_WIN32`, `HAVE_IO_URING`, `__APPLE__` or none of them, tested in this order.
pub data Build : Type 0 where
  windows linux_uring apple plain : Build

-- The constructors of the thread-pool backend and of the build's own one, and its probe.
pub record Factories (B : Type 0) : Type 0 where
  pub thread_open : String → List ℕ → Result B
  pub thread_wrap : ℤ → List ℕ → Bool → Result B
  pub own_open : String → List ℕ → Result B
  pub own_wrap : ℤ → List ℕ → Bool → Result B
  pub probe : Bool

module _ {B : Type 0} where
  abbrev pub thread_entry : Factories B → BackendEntry B
  thread_entry f = record {
    open_file = f.thread_open;
    wrap_fd = f.thread_wrap;
    is_available = true;
  }

  abbrev pub own_entry : Factories B → Bool → BackendEntry B
  own_entry f available = record {
    open_file = f.own_open;
    wrap_fd = f.own_wrap;
    is_available = available;
  }

  -- An entry without a probe is available.
  unfoldable pub register_builtin_backends :
      Build → Factories B → BackendRegistry B → BackendRegistry B
  unfolding register_backend set_auto_order clear_registry
  register_builtin_backends build f r =
      let base = register_backend (clear_registry r) thread_pool (thread_entry f) in
      elim build [
        | windows ↦
            set_auto_order (register_backend base iocp (own_entry f true)) (iocp ∷ thread_pool ∷ [])
        | linux_uring ↦
            set_auto_order (register_backend base io_uring (own_entry f f.probe))
              (io_uring ∷ thread_pool ∷ [])
        | apple ↦
            set_auto_order (register_backend base dispatch_io (own_entry f f.probe))
              (dispatch_io ∷ thread_pool ∷ [])
        | plain ↦ set_auto_order base (thread_pool ∷ [])
      ]

  -- Whether an open was submitted to a ring; `submitted` is what `submit_native_aopen` returns.
  unfoldable pub try_native_aopen : Build → BackendRegistry B → BackendKind → Bool → Bool
  try_native_aopen linux_uring r configured submitted =
      if not (kind_eq (effective_backend r configured) io_uring) then false else submitted
  try_native_aopen _ r configured submitted = false

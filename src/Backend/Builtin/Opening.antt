-- ===== src/Backend/Builtin/Opening.antt =====
-- Which backend is in force after src/backend/builtin.cpp has registered those of a build, and that a
-- file opens.
use Prim.Native.String.{String}
use ayafileio.Base.{ℕ, ◌≡◌, Bool, true, not, ◌||◌, List, if◌then◌else◌, arith, inl, inr}
use ayafileio.Core.Result.{ok}
use ayafileio.Core.Config.{BackendKind, iocp, io_uring, dispatch_io, thread_pool}
use ayafileio.Core.Registry.{BackendRegistry, kind_eq, effective_backend, create, open_backend}
use ayafileio.Core.Registry.Choice.{open_backend_lem}
use ayafileio.Backend.Builtin.{
  Build, windows, linux_uring, apple, plain, Factories, register_builtin_backends,
}

-- The build's own kind, and whether it can be used.
abbrev pub own_kind : Build → BackendKind
own_kind windows = iocp
own_kind linux_uring = io_uring
own_kind apple = dispatch_io
own_kind plain = thread_pool

abbrev pub own_usable : {B : Type 0} → Build → Factories B → Bool
own_usable windows f = true
own_usable linux_uring f = f.probe
own_usable apple f = f.probe
own_usable plain f = true

registered-effective :
    {B : Type 0} (build : Build) (f : Factories B) (r : BackendRegistry B)
    (configured : BackendKind)
    → effective_backend (register_builtin_backends build f r) configured ≡ (
        if kind_eq configured thread_pool || not (own_usable build f)
        then thread_pool
        else own_kind build)
unfolding register_builtin_backends effective_backend
registered-effective windows f r configured = ground arith
registered-effective linux_uring f r configured = ground arith
registered-effective apple f r configured = ground arith
registered-effective plain f r configured = ground arith

thread_pool_opens :
    {B : Type 0} (build : Build) (f : Factories B) (r : BackendRegistry B) (path : String)
    (mode : List ℕ) (b : B)
    → f.thread_open path mode ≡ ok b
    → create (register_builtin_backends build f r) thread_pool path mode ≡ ok b
unfolding register_builtin_backends create
thread_pool_opens windows f r path mode b h = h
thread_pool_opens linux_uring f r path mode b h = h
thread_pool_opens apple f r path mode b h = h
thread_pool_opens plain f r path mode b h = h

module _ {B : Type 0} (build : Build) (f : Factories B) (r : BackendRegistry B) where
  -- After the registration, on every build and whatever was registered before: the kind in force is the
  -- build's own one, unless the thread pool is configured or the own one cannot be used, then it is the
  -- thread pool, so that a kind of another build counts as none; and a file that the thread pool can
  -- open is opened, whatever is configured.
  pub register_builtin_lem :
      (configured : BackendKind) (path : String) (mode : List ℕ) (b : B)
      → f.thread_open path mode ≡ ok b
      → (effective_backend (register_builtin_backends build f r) configured ≡ (
          if kind_eq configured thread_pool || not (own_usable build f)
          then thread_pool
          else own_kind build))
        × ((c : B) × (open_backend (register_builtin_backends build f r) configured path mode
              ≡ ok c))
  register_builtin_lem configured path mode b h = (
    registered-effective build f r configured,
    elim (open_backend_lem (register_builtin_backends build f r) configured path mode b
        (thread_pool_opens build f r path mode b h)) [
          | inl (c, e, o) ↦ (c, o)
          | inr (x, e, o) ↦ (b, o)
        ],
  )

-- ===== src/Backend/Builtin/Tests.antt =====
-- A build with a ring that the probe finds.
use ayafileio.Base.{ℕ, ◌≡◌, refl, [], ◌∷◌, true}
use ayafileio.Core.Result.{ok}
use ayafileio.Core.Config.{io_uring, dispatch_io}
use ayafileio.Core.Registry.{BackendRegistry, effective_backend, open_backend}
use ayafileio.Backend.Builtin.{linux_uring, Factories, register_builtin_backends}
use ayafileio.Backend.Builtin.Opening.{register_builtin_lem}

abbrev factories : Factories ℕ
factories = record {
  thread_open = λ _ _. ok 1;
  thread_wrap = λ _ _ _. ok 1;
  own_open = λ _ _. ok 2;
  own_wrap = λ _ _ _. ok 2;
  probe = true;
}

abbrev before : BackendRegistry ℕ
before = record { entries = []; auto_order = [] }

register_builtin_lem_example :
    (effective_backend (register_builtin_backends linux_uring factories before) dispatch_io
      ≡ io_uring)
    × ((c : ℕ) × (open_backend
            (register_builtin_backends linux_uring factories before)
            dispatch_io
            "a"
            (b'r' ∷ [])
          ≡ ok c))
register_builtin_lem_example =
    register_builtin_lem linux_uring factories before dispatch_io "a" (b'r' ∷ []) 1 refl

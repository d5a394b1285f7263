-- ===== src/Core/Registry/Tests.antt =====
-- A registry as the Linux build makes it, with backends named by numbers.
use ayafileio.Base.{ℕ, ◌≡◌, refl, true, [], ◌∷◌}
use ayafileio.Core.Result.{ok, throws, Exception, io_exception, native_error}
use ayafileio.Core.Config.{auto, io_uring, thread_pool}
use ayafileio.Core.Registry.{BackendRegistry, effective_backend, create, open_backend}

abbrev refused : Exception
refused = io_exception (native_error 1 "Failed to open file")

abbrev linux_registry : BackendRegistry ℕ
linux_registry = record {
  entries =
      (
        thread_pool,
        record { open_file = λ _ _. ok 1; wrap_fd = λ _ _ _. ok 1; is_available = true },
      )
      ∷ (
        io_uring,
        record { open_file = λ _ _. throws refused; wrap_fd = λ _ _ _. ok 2; is_available = true },
      )
      ∷ [];
  auto_order = io_uring ∷ thread_pool ∷ [];
}

thread_pool_opens : create linux_registry thread_pool "a" (b'r' ∷ []) ≡ ok 1
unfolding create
thread_pool_opens = refl

falls_back : open_backend linux_registry auto "a" (b'r' ∷ []) ≡ ok 1
unfolding open_backend effective_backend create
falls_back = refl

-- ===== src/Python/Configure/Shown.antt =====
-- What get_config of src/bindings/python/py_config.cpp shows can be given back to configure.
use Prim.Native.String.{String, ◌++◌ as joined}
use ayafileio.Base.{
  ℕ, ◌^◌, ◌≤◌, ◌<◌, ◌≡◌, refl, sym, ◌∙◌, Bool, true, false, List, Option, none, some, pos, ltb_ℤ,
  to_u64, ltb, ◌⊎◌, inl, inr, arith, not, ◌&&◌, ◌||◌, if◌then◌else◌, Bool-cases,
}
use ayafileio.Core.Config.{effective_io_worker_count, BackendKind, auto, io_uring, Config, update}
use ayafileio.Core.Config.Update.{IsConfig, IsConfig-validate}
use ayafileio.Core.Registry.{
  available, effective_backend, kind_eq, parse_backend_name, backend_name,
}
use ayafileio.Core.Registry.Choice.{name_of}
use ayafileio.Python.Configure.Options.{started_all}
use ayafileio.Python.Configure.{
  grows, Checked, fine, refused, raises_value, set_size, Casts, Platform, Engine, Shows, next,
  check_keys, lookup, cast_option, cast_size_option, set_backend, set_named, set_worker,
  set_timeout, set_depth, set_batch, set_latency, set_adaptive, set_pool_max, set_buffer_size,
  set_sqpoll, read_options, py_configure, py_get_config,
}

-- A value that was made for Python is cast back to itself, numbers within the range of the cast.
pub record CastsBack {V : Type 0} (casts : Casts V) (shows : Shows V) : Type 0 where
  pub texts : (s : String) → casts.as_text (shows.text s) ≡ some s
  pub flags : (b : Bool) → casts.as_bool (shows.flag b) ≡ some b
  pub naturals : (n : ℕ) → n < 2 ^ 32 → casts.as_unsigned (shows.number n) ≡ some n
  pub wholes : (n : ℕ) → n < 2 ^ 63 → casts.as_int64 (shows.number n) ≡ some (pos n)

-- The machine can start threads, and it has the back end in force, and the polling thread where that is
-- asked for.
pub record IsSupported {B : Type 0} (platform : Platform B) (c : Config) : Type 0 where
  pub backend : (c.backend ≡ auto) ⊎ (available platform.registry c.backend ≡ true)
  pub threads : platform.threads_start ≡ true
  pub sqpoll :
      c.io_uring_sqpoll ≡ true
      → (effective_backend platform.registry c.backend ≡ io_uring)
        × (platform.have_io_uring ≡ true)
        × (platform.io_uring_available ≡ true)
        × (platform.io_uring_sqpoll_supported ≡ true)

next-fine :
    (k : Checked) (f : Config → Checked) (c : Config)
    → k ≡ fine c
    → f c ≡ fine c
    → next k f ≡ fine c
next-fine k f c h g = rw h g

then_taken : (y : Checked) {x z : Checked} (b : Bool) → b ≡ true → x ≡ z → (if b then x else y) ≡ z
then_taken y true h e = e
then_taken y false h e = absurd (ground arith)

else_taken : (x : Checked) {y z : Checked} (b : Bool) → b ≡ false → y ≡ z → (if b then x else y) ≡ z
else_taken x true h e = absurd (ground arith)
else_taken x false h e = e

positive : (n : ℕ) → 1 ≤ n → ltb_ℤ (pos 0) (pos n) ≡ true
positive n h = ground arith

same_size : (n : ℕ) → n < 2 ^ 63 → to_u64 (pos n) ≡ n
unfolding to_u64
same_size n h = ground arith

module _ {V : Type 0} (casts : Casts V) where
  given :
      {A : Type 0} (cast : V → Option A) (o : List (Option String × V)) (key : String)
      (use_value : A → Config → Checked) (c : Config) (v : V) (a : A)
      → lookup casts key o ≡ some v
      → cast v ≡ some a
      → use_value a c ≡ fine c
      → cast_option casts cast o key use_value c ≡ fine c
  unfolding cast_option
  given cast o key use_value c v a h g e = rw (h, cast_option, g) e

  stage :
      {A : Type 0} {k : Checked} {c : Config}
      → k ≡ fine c
      → (cast : V → Option A) (o : List (Option String × V)) (key : String)
        (use_value : A → Config → Checked) (v : V) (a : A)
      → lookup casts key o ≡ some v
      → cast v ≡ some a
      → use_value a c ≡ fine c
      → next k (cast_option casts cast o key use_value) ≡ fine c
  stage {A} {k} {c} m cast o key use_value v a h g e =
      next-fine k (cast_option casts cast o key use_value) c m
        (given cast o key use_value c v a h g e)

  given_size :
      (o : List (Option String × V)) (key : String) (set : ℕ → Config → Config) (c : Config) (v : V)
      (n : ℕ)
      → lookup casts key o ≡ some v
      → casts.as_int64 v ≡ some (pos n)
      → 1 ≤ n
      → set n c ≡ c
      → n < 2 ^ 63
      → cast_size_option casts o key set c ≡ fine c
  unfolding cast_size_option
  given_size o key set c v n h g low e high =
      given casts.as_int64 o key (set_size casts key set) c v (pos n) h g (
        then_taken (refused (raises_value (joined key " must be positive"))) (ltb_ℤ (pos 0) (pos n))
          (positive n low) (rw (same_size n high, e) refl))

  module _ {B : Type 0} (platform : Platform B) where
    backend_kept :
        (c : Config)
        → IsSupported platform c
        → set_backend casts platform
            (backend_name c.backend)
            (parse_backend_name (backend_name c.backend))
            c
          ≡ fine c
    backend_kept c v = rw (name_of c.backend) (
        else_taken _ (not (kind_eq c.backend auto) && not (available platform.registry c.backend))
          (elim v.backend [ inl e ↦ rw e refl | inr e ↦ rw e (ground arith) ]) refl)

    kept-effective :
        (kind : BackendKind)
        → kind_eq kind auto ≡ false
        → available platform.registry kind ≡ true
        → effective_backend platform.registry kind ≡ kind
    unfolding effective_backend available
    kept-effective kind k a = let b = rw k at a in rw (k, b) refl

    want_ring :
        (c : Config)
        → IsSupported platform c
        → effective_backend platform.registry c.backend ≡ io_uring
        → not (
            kind_eq
              (if kind_eq c.backend auto
                then effective_backend platform.registry c.backend
                else c.backend)
              io_uring)
          ≡ false
    want_ring c v h = elim (Bool-cases (kind_eq c.backend auto)) [
      | inl k ↦ rw (k, h) refl
      | inr k ↦ elim v.backend [
        | inl e ↦ absurd (let g = rw e at k in ground (arith, g))
        | inr a ↦ rw (k, sym (kept-effective c.backend k a) ∙ h) refl
      ]
    ]

    sqpoll_kept :
        (c : Config)
        → IsSupported platform c
        → set_sqpoll casts platform c c.io_uring_sqpoll c ≡ fine c
    unfolding set_sqpoll
    sqpoll_kept c v = elim (Bool-cases c.io_uring_sqpoll) [
      | inr e ↦ then_taken _ (not c.io_uring_sqpoll) (rw e refl) refl
      | inl e ↦
          let s = v.sqpoll e in
          else_taken _ (not c.io_uring_sqpoll) (rw e refl) (
            else_taken _
              (not (
                kind_eq
                  (if kind_eq c.backend auto
                    then effective_backend platform.registry c.backend
                    else c.backend)
                  io_uring))
              (want_ring c v s.0)
              (else_taken _ (not platform.have_io_uring) (rw (s.1) refl) (
                else_taken _
                  (not platform.io_uring_available || not platform.io_uring_sqpoll_supported)
                  (rw (s.2, s.3) refl) refl)))
    ]

    read_options-py_get_config :
        (shows : Shows V) (c : Config)
        → CastsBack casts shows
        → IsConfig c
        → c.buffer_pool_max < 2 ^ 63
        → c.buffer_size < 2 ^ 63
        → IsSupported platform c
        → read_options casts platform c (py_get_config shows c) ≡ fine c
    unfolding read_options py_get_config
    read_options-py_get_config shows c back v pool size supported =
        let o = py_get_config shows c in
        let worker = back.naturals c.io_worker_count (omega (arith, v.workers)) in
        let timeout = back.naturals c.close_timeout_ms (omega (arith, v.timeout)) in
        let depth = back.naturals c.io_uring_queue_depth (omega (arith, v.depth)) in
        let batch = back.naturals c.iocp_batch_size (omega (arith, v.batch)) in
        let latency = back.naturals c.adaptive_target_latency_us (omega (arith, v.latency)) in
        let k1 =
          given casts.as_text o "backend" (set_named casts platform) c _ _ refl
            (back.texts (backend_name c.backend)) (backend_kept c supported) in
        let k2 =
          stage k1 casts.as_unsigned o "io_worker_count" (set_worker casts platform) _ _ refl worker
            (else_taken _ (ltb 128 c.io_worker_count) (ground (arith, v.workers)) refl) in
        let k3 =
          next-fine _ (cast_size_option casts o "buffer_pool_max" (set_pool_max casts platform)) c
            k2
            (given_size o "buffer_pool_max" (set_pool_max casts platform) c _ c.buffer_pool_max refl
              (back.wholes c.buffer_pool_max pool) v.pool refl pool) in
        let k4 =
          next-fine _ (cast_size_option casts o "buffer_size" (set_buffer_size casts platform)) c k3
            (given_size o "buffer_size" (set_buffer_size casts platform) c _ c.buffer_size refl
              (back.wholes c.buffer_size size) v.buffer refl size) in
        let k5 =
          stage k4 casts.as_unsigned o "close_timeout_ms" (set_timeout casts platform) _ _ refl
            timeout refl in
        let k6 =
          stage k5 casts.as_unsigned o "io_uring_queue_depth" (set_depth casts platform) _ _ refl
            depth refl in
        let k7 =
          stage k6 casts.as_unsigned o "iocp_batch_size" (set_batch casts platform) _ _ refl batch (
            else_taken _ (ltb c.iocp_batch_size 1 || ltb 256 c.iocp_batch_size)
              (ground (arith, v.batch)) refl) in
        let k8 =
          stage k7 casts.as_bool o "io_uring_sqpoll" (set_sqpoll casts platform c) _ _ refl
            (back.flags c.io_uring_sqpoll) (sqpoll_kept c supported) in
        let k9 =
          stage k8 casts.as_bool o "adaptive_batch" (set_adaptive casts platform) _ _ refl
            (back.flags c.adaptive_batch) refl in
        stage k9 casts.as_unsigned o "adaptive_target_latency_us" (set_latency casts platform) _ _
          refl latency
          (else_taken _
            (ltb c.adaptive_target_latency_us 1 || ltb 10000 c.adaptive_target_latency_us)
            (ground (arith, v.latency)) refl)

    -- With casts that undo what the bindings make of a value: on a machine that supports a valid
    -- configuration with sizes below 2^63, `configure` accepts what `get_config` shows of it, and the
    -- configuration in force stays as it was.
    pub py_configure-py_get_config :
        (shows : Shows V) (e : Engine)
        → CastsBack casts shows
        → IsConfig e.config
        → e.config.buffer_pool_max < 2 ^ 63
        → e.config.buffer_size < 2 ^ 63
        → IsSupported platform e.config
        → let (raised, after) = py_configure casts platform e (py_get_config shows e.config) in
          (raised ≡ none) × (after.config ≡ e.config)
    unfolding py_configure check_keys py_get_config update
    py_configure-py_get_config shows e back v pool size supported =
        let n = effective_io_worker_count e.config platform.hardware_concurrency in
        rw
          (
            read_options-py_get_config shows e.config back v pool size supported,
            IsConfig-validate e.config v,
            started_all (grows e.workers n) platform.threads_start supported.threads,
          )
          (refl, refl)

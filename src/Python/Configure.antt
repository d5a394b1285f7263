-- ===== src/Python/Configure.antt =====
-- src/bindings/python/py_config.cpp, and `set_worker_count` of py_globals.cpp: how Python configures the
-- engine. What the bindings make of a Python value is a parameter, `Casts`; a dict is the list of its
-- items in order, a key that is not a string without its name. A call is one step.
pub mod Options
pub mod Calls
pub mod Shown
mod Tests
use Prim.Native.String.{String, ◌++◌ as joined}
use text.Mathlib.Text.{◌==◌ as str_eq}
use ayafileio.Base.{
  ℕ, Bool, true, false, not, ◌&&◌, ◌||◌, List, [], ◌∷◌, Option, none, some, ltb, ◌==◌,
  if◌then◌else◌, ℤ, pos, ltb_ℤ, to_u64,
}
use ayafileio.Core.Result.{Result, ok, throws}
use ayafileio.Core.Config.{
  BackendKind, auto, io_uring, Config, defaults, update, to_unsigned, effective_io_worker_count,
}
use ayafileio.Core.BufferPool.{BufferPool, refresh_config as refresh_pool}
use ayafileio.Core.Pool.{Pool, at_least_one, target_begin, target_workers}
use ayafileio.Core.Registry.{
  BackendRegistry, kind_eq, available, effective_backend, parse_backend_name, backend_name,
}
use ayafileio.Python.Registry.{BatcherRegistry, refresh_config as refresh_batchers}

-- What a call raises: ValueError, TypeError, the refusal of the manager, a key's failed cast, or the
-- failed start of a thread.
pub data Raised : Type 0 where
  raises_value raises_type : String → Raised
  raises_config raises_cast raises_system : Raised

pub data Checked : Type 0 where
  fine : Config → Checked
  refused : Raised → Checked

pub record Casts (V : Type 0) : Type 0 where
  pub as_text : V → Option String
  pub as_int64 : V → Option ℤ
  pub as_unsigned : V → Option ℕ
  pub as_bool : V → Option Bool

-- The build and the machine; `threads_start` says whether threads can be started.
pub record Platform (B : Type 0) : Type 0 where
  pub registry : BackendRegistry B
  pub have_io_uring : Bool
  pub io_uring_available : Bool
  pub io_uring_sqpoll_supported : Bool
  pub hardware_concurrency : ℕ
  pub threads_start : Bool

pub record Engine : Type 0 where
  pub config : Config
  pub pool : BufferPool
  pub batchers : BatcherRegistry
  pub workers : Pool
  pub worker_count : ℕ

abbrev pub known_config_keys : List String
known_config_keys =
    "backend" ∷ "io_worker_count" ∷ "buffer_pool_max" ∷ "buffer_size" ∷ "close_timeout_ms"
    ∷ "io_uring_queue_depth" ∷ "iocp_batch_size" ∷ "io_uring_sqpoll" ∷ "adaptive_batch"
    ∷ "adaptive_target_latency_us" ∷ []

abbrev pub is_known : String → List String → Bool
is_known key [] = false
is_known key (candidate ∷ rest) = if str_eq candidate key then true else is_known key rest

abbrev pub enumerated : Bool → List String → String → String
enumerated first [] message = message
enumerated first (candidate ∷ rest) message =
    enumerated false rest (joined (if first then message else joined message ", ") candidate)

unfoldable pub unknown_key_message : String → String
unknown_key_message key =
    enumerated true known_config_keys
      (joined "unknown config key: '" (joined key "'. Valid keys: "))

-- Whether `target_workers` starts a thread.
abbrev pub grows : Pool → ℕ → Bool
grows p num_workers = not (p.threads == 0) && ltb p.running (at_least_one num_workers)

-- The stages of a check, of which the first that refuses ends it.
abbrev pub next : Checked → (Config → Checked) → Checked
next (fine c) f = f c
next (refused r) f = refused r

module _ {V : Type 0} (casts : Casts V) where
  abbrev pub Options : Type 0
  Options = List (Option String × V)

  unfoldable pub check_keys : Options → Option Raised
  unfolding unknown_key_message
  check_keys [] = none
  check_keys ((none, value) ∷ rest) = some raises_cast
  check_keys ((some key, value) ∷ rest) =
      if is_known key known_config_keys
      then check_keys rest
      else some (raises_value (unknown_key_message key))

  abbrev pub lookup : String → Options → Option V
  lookup key [] = none
  lookup key ((none, value) ∷ rest) = lookup key rest
  lookup key ((some k, value) ∷ rest) = if str_eq k key then some value else lookup key rest

  -- An option that is given is cast and used; one that is not leaves the configuration as it is.
  unfoldable pub cast_option :
      {A : Type 0} → (V → Option A) → Options → String → (A → Config → Checked) → Config → Checked
  cast_option cast options key use_value c = elim (lookup key options) [
    | none ↦ fine c
    | some value ↦ elim (cast value) [
      | none ↦
          refused
            (raises_type (joined "configure(): value for '" (joined key "' has the wrong type")))
      | some a ↦ use_value a c
    ]
  ]

  abbrev pub set_size : String → (ℕ → Config → Config) → ℤ → Config → Checked
  set_size key set value c =
      if ltb_ℤ (pos 0) value
      then fine (set (to_u64 value) c)
      else refused (raises_value (joined key " must be positive"))

  unfoldable pub cast_size_option : Options → String → (ℕ → Config → Config) → Config → Checked
  unfolding cast_option
  cast_size_option options key set = cast_option casts.as_int64 options key (set_size key set)

  abbrev pub in_range : Bool → String → Config → Checked
  in_range outside message c = if outside then refused (raises_value message) else fine c

  module _ {B : Type 0} (platform : Platform B) where
    abbrev pub set_backend : String → Option BackendKind → Config → Checked
    set_backend name none c = refused (
        raises_value
          "backend must be one of: 'auto', 'iocp', 'io_uring', 'dispatch_io', 'thread_pool'")
    set_backend name (some kind) c =
        in_range (not (kind_eq kind auto) && not (available platform.registry kind))
          (joined "backend '" (joined name "' is not available on this platform"))
          (record c { backend = kind })

    -- `effective_backend` reads the configuration in force, not the one that is being checked.
    unfoldable pub set_sqpoll : Config → Bool → Config → Checked
    set_sqpoll in_force value c =
        let want =
          if kind_eq c.backend auto
          then effective_backend platform.registry in_force.backend
          else c.backend in
        if not value
        then fine (record c { io_uring_sqpoll = value })
        else if not (kind_eq want io_uring)
        then refused (raises_value "io_uring_sqpoll=True requires the io_uring backend")
        else if not platform.have_io_uring
        then refused
            (raises_value "io_uring_sqpoll is only meaningful on the Linux io_uring backend")
        else if not platform.io_uring_available || not platform.io_uring_sqpoll_supported
        then refused (raises_value "io_uring_sqpoll=True is unavailable on this system")
        else fine (record c { io_uring_sqpoll = value })

    abbrev pub set_worker : ℕ → Config → Checked
    set_worker n c =
        in_range (ltb 128 n) "io_worker_count must be 0-128" (record c { io_worker_count = n })

    abbrev pub set_timeout : ℕ → Config → Checked
    set_timeout n c = fine (record c { close_timeout_ms = n })

    abbrev pub set_depth : ℕ → Config → Checked
    set_depth n c = fine (record c { io_uring_queue_depth = n })

    abbrev pub set_batch : ℕ → Config → Checked
    set_batch n c =
        in_range (ltb n 1 || ltb 256 n) "iocp_batch_size must be 1-256"
          (record c { iocp_batch_size = n })

    abbrev pub set_latency : ℕ → Config → Checked
    set_latency n c =
        in_range (ltb n 1 || ltb 10000 n) "adaptive_target_latency_us must be 1-10000"
          (record c { adaptive_target_latency_us = n })

    abbrev pub set_adaptive : Bool → Config → Checked
    set_adaptive b c = fine (record c { adaptive_batch = b })

    abbrev pub set_named : String → Config → Checked
    set_named name = set_backend name (parse_backend_name name)

    abbrev pub set_pool_max : ℕ → Config → Config
    set_pool_max n c = record c { buffer_pool_max = n }

    abbrev pub set_buffer_size : ℕ → Config → Config
    set_buffer_size n c = record c { buffer_size = n }

    -- The options, in the order in which they are looked up.
    unfoldable pub read_options : Config → Options → Checked
    unfolding cast_option cast_size_option set_sqpoll
    read_options in_force o =
        let c1 = cast_option casts.as_text o "backend" set_named in_force in
        let c2 = next c1 (cast_option casts.as_unsigned o "io_worker_count" set_worker) in
        let c3 = next c2 (cast_size_option o "buffer_pool_max" set_pool_max) in
        let c4 = next c3 (cast_size_option o "buffer_size" set_buffer_size) in
        let c5 = next c4 (cast_option casts.as_unsigned o "close_timeout_ms" set_timeout) in
        let c6 = next c5 (cast_option casts.as_unsigned o "io_uring_queue_depth" set_depth) in
        let c7 = next c6 (cast_option casts.as_unsigned o "iocp_batch_size" set_batch) in
        let c8 = next c7 (cast_option casts.as_bool o "io_uring_sqpoll" (set_sqpoll in_force)) in
        let c9 = next c8 (cast_option casts.as_bool o "adaptive_batch" set_adaptive) in
        next c9 (cast_option casts.as_unsigned o "adaptive_target_latency_us" set_latency)

    -- The number of workers, and its store. The constructor of a thread may throw, after all that was
    -- stored before.
    abbrev pub resized : ℕ → Engine → Option Raised × Engine
    resized count e =
        let n = effective_io_worker_count e.config platform.hardware_concurrency in
        if grows e.workers n && not platform.threads_start
        then (
          some raises_system,
          record e { workers = record (target_begin e.workers n) { stop = false } },
        )
        else (none, record e { workers = target_workers e.workers n; worker_count = count })

    -- What follows the update of the manager, if that did not throw.
    abbrev pub refreshed : Engine → ℕ → Result (Unit {0}) × Config → Option Raised × Engine
    refreshed e count (throws x, c) = (some raises_config, record e { config = c })
    refreshed e count (ok u, c) = resized count (record e {
      config = c;
      pool = refresh_pool e.pool c.buffer_pool_max;
      batchers = refresh_batchers c e.batchers;
    })

    abbrev pub configured : Engine → Checked → Option Raised × Engine
    configured e (refused r) = (some r, e)
    configured e (fine c) = refreshed e c.io_worker_count (update e.config c)

    unfoldable pub py_configure : Engine → Options → Option Raised × Engine
    py_configure e options = elim (check_keys options) [
      | some r ↦ (some r, e)
      | none ↦ configured e (read_options e.config options)
    ]

    unfoldable pub py_reset_config : Engine → Option Raised × Engine
    py_reset_config e = refreshed e 0 (update e.config defaults)

    abbrev pub recounted : Engine → ℕ → Result (Unit {0}) × Config → Option Raised × Engine
    recounted e count (throws x, c) = (some raises_config, record e { config = c })
    recounted e count (ok u, c) = resized count (record e { config = c })

    unfoldable pub set_worker_count : Engine → ℕ → Option Raised × Engine
    set_worker_count e count =
        if not (count == 0 || (not (ltb count 1) && not (ltb 128 count)))
        then (some (raises_value "worker count must be 0 (auto) or 1-128"), e)
        else recounted e count (update e.config (record (e.config) { io_worker_count = count }))

    unfoldable pub py_set_worker_count : Engine → ℤ → Option Raised × Engine
    unfolding set_worker_count
    py_set_worker_count e count = set_worker_count e (to_unsigned (to_u64 count))

-- What the bindings make of a value for Python.
pub record Shows (V : Type 0) : Type 0 where
  pub text : String → V
  pub number : ℕ → V
  pub flag : Bool → V

unfoldable pub py_get_config : {V : Type 0} → Shows V → Config → List (Option String × V)
py_get_config shows cfg =
    (some "backend", shows.text (backend_name cfg.backend))
    ∷ (some "io_worker_count", shows.number cfg.io_worker_count)
    ∷ (some "buffer_pool_max", shows.number cfg.buffer_pool_max)
    ∷ (some "buffer_size", shows.number cfg.buffer_size)
    ∷ (some "close_timeout_ms", shows.number cfg.close_timeout_ms)
    ∷ (some "iocp_batch_size", shows.number cfg.iocp_batch_size)
    ∷ (some "io_uring_queue_depth", shows.number cfg.io_uring_queue_depth)
    ∷ (some "io_uring_sqpoll", shows.flag cfg.io_uring_sqpoll)
    ∷ (some "adaptive_batch", shows.flag cfg.adaptive_batch)
    ∷ (some "adaptive_target_latency_us", shows.number cfg.adaptive_target_latency_us)
    ∷ []

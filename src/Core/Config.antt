-- ===== src/Core/Config.antt =====
-- src/core/config.hpp: the configuration, its validation and the manager that keeps the one in force.
-- A method of the manager runs under its lock. The number of processors is an argument.
pub mod Update
mod Tests
use Prim.Native.String.{String}
use text.Mathlib.Text.{◌==◌ as str_eq}
use ayafileio.Base.{
  ℕ, ◌*◌, ◌%◌, ◌^◌, min, max, Bool, true, false, not, ◌&&◌, ◌||◌, List, [], ◌∷◌, ltb, ◌==◌,
  if◌then◌else◌,
}
use ayafileio.Core.Result.{Result, ok, throws, invalid_argument}

pub data BackendKind : Type 0 where
  auto iocp io_uring dispatch_io thread_pool : BackendKind

pub record Config : Type 0 where
  pub backend : BackendKind
  pub io_worker_count : ℕ  -- unsigned
  pub buffer_pool_max : ℕ  -- size_t
  pub buffer_size : ℕ  -- size_t
  pub close_timeout_ms : ℕ  -- unsigned
  pub iocp_batch_size : ℕ  -- unsigned
  pub io_uring_queue_depth : ℕ  -- unsigned
  pub io_uring_flags : ℕ  -- unsigned
  pub io_uring_sqpoll : Bool
  pub io_uring_sqpoll_idle_ms : ℕ  -- unsigned
  pub adaptive_batch : Bool
  pub adaptive_target_latency_us : ℕ  -- unsigned

abbrev pub defaults : Config
defaults = record {
  backend = auto;
  io_worker_count = 0;
  buffer_pool_max = 512;
  buffer_size = 64 * 1024;
  close_timeout_ms = 4000;
  iocp_batch_size = 64;
  io_uring_queue_depth = 256;
  io_uring_flags = 0;
  io_uring_sqpoll = false;
  io_uring_sqpoll_idle_ms = 1000;
  adaptive_batch = true;
  adaptive_target_latency_us = 1000;
}

unfoldable pub validate : Config → Bool
validate c =
    if ltb 128 c.io_worker_count
    then false
    else if c.buffer_pool_max == 0 || c.buffer_size == 0
    then false
    else if c.close_timeout_ms == 0 || ltb 30000 c.close_timeout_ms
    then false
    else if ltb c.iocp_batch_size 1 || ltb 256 c.iocp_batch_size
    then false
    else if c.io_uring_queue_depth == 0 || ltb 4096 c.io_uring_queue_depth
    then false
    else if ltb c.adaptive_target_latency_us 1 || ltb 10000 c.adaptive_target_latency_us
    then false
    else true

-- The manager holds one configuration; a call returns what it throws, if anything, and what it
-- leaves behind.
unfoldable pub update : Config → Config → Result (Unit {0}) × Config
update current new_config =
    if not (validate new_config)
    then (throws (invalid_argument "Invalid configuration"), current)
    else (ok tt, new_config)

-- static_cast to unsigned
abbrev pub to_unsigned : ℕ → ℕ
to_unsigned n = n % 2 ^ 32

unfoldable pub set_key : Config → String → ℕ → Config
set_key c key value =
    if str_eq key "io_worker_count"
    then record c { io_worker_count = to_unsigned value }
    else if str_eq key "buffer_pool_max"
    then record c { buffer_pool_max = value }
    else if str_eq key "buffer_size"
    then record c { buffer_size = value }
    else if str_eq key "close_timeout_ms"
    then record c { close_timeout_ms = to_unsigned value }
    else if str_eq key "iocp_batch_size"
    then record c { iocp_batch_size = to_unsigned value }
    else if str_eq key "io_uring_queue_depth"
    then record c { io_uring_queue_depth = to_unsigned value }
    else c

-- The entries in the order in which the map gives them.
unfoldable pub set_keys : Config → List (String × ℕ) → Config
set_keys c [] = c
set_keys c ((key, value) ∷ updates) = set_keys (set_key c key value) updates

unfoldable pub update_partial : Config → List (String × ℕ) → Result (Unit {0}) × Config
update_partial current updates =
    let c = set_keys current updates in
    if not (validate c)
    then (throws (invalid_argument "Invalid configuration after update"), c)
    else (ok tt, c)

unfoldable pub effective_io_worker_count : Config → ℕ → ℕ
effective_io_worker_count c hardware_concurrency =
    let hc = if hardware_concurrency == 0 then 1 else hardware_concurrency in
    if c.io_worker_count == 0 then max 1 (min (to_unsigned (hc * 2)) 16) else c.io_worker_count

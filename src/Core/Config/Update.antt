-- ===== src/Core/Config/Update.antt =====
-- What the manager keeps in force, and how many workers that means.
use Prim.Native.String.{String}
use ayafileio.Base.{
  ℕ, ◌*◌, ◌^◌, ◌≤◌, ◌<◌, min, max, true, List, ◌≡◌, refl, ◌⊎◌, inl, inr, arith, Bool-cases, ◌≢◌,
}
use ayafileio.Core.Result.{ok, throws, invalid_argument}
use ayafileio.Core.Config.{
  Config, validate, update, set_keys, update_partial, effective_io_worker_count,
}

-- The ranges that the configuration's comments give.
pub record IsConfig (c : Config) : Type 0 where
  pub workers : c.io_worker_count ≤ 128
  pub pool : 1 ≤ c.buffer_pool_max
  pub buffer : 1 ≤ c.buffer_size
  pub timeout : (1 ≤ c.close_timeout_ms) × (c.close_timeout_ms ≤ 30000)
  pub batch : (1 ≤ c.iocp_batch_size) × (c.iocp_batch_size ≤ 256)
  pub depth : (1 ≤ c.io_uring_queue_depth) × (c.io_uring_queue_depth ≤ 4096)
  pub latency : (1 ≤ c.adaptive_target_latency_us) × (c.adaptive_target_latency_us ≤ 10000)

pub validate-IsConfig : (c : Config) → validate c ≡ true → IsConfig c
unfolding validate
validate-IsConfig c h = ground arith

pub IsConfig-validate : (c : Config) → IsConfig c → validate c ≡ true
unfolding validate
IsConfig-validate c v = ground arith

-- An update of a valid configuration leaves a valid one in force, whatever it is given: the new one
-- exactly when that lies in the documented ranges, and otherwise the old one beside an exception.
pub update-IsConfig :
    (current new_config : Config)
    → IsConfig current
    → let (r, c) = update current new_config in
      IsConfig c
      × (((r ≡ ok tt) × IsConfig new_config × (c ≡ new_config))
          ⊎ ((r ≡ throws (invalid_argument "Invalid configuration"))
              × (¬ IsConfig new_config)
              × (c ≡ current)))
unfolding update
update-IsConfig current new_config v = elim (Bool-cases (validate new_config)) [
  | inl e ↦ let w = validate-IsConfig new_config e in rw e (w, inl (refl, w, refl))
  | inr e ↦ rw e (v, inr (refl, (λ w. cc (IsConfig-validate new_config w)), refl))
]

-- A partial update that throws has already stored what it refuses: the configuration in force is
-- then not valid, whatever it was before.
pub update_partial-throws :
    (current : Config) (updates : List (String × ℕ))
    → (update_partial current updates).0 ≢ ok tt
    → ¬ IsConfig (update_partial current updates).1
unfolding update_partial
update_partial-throws current updates h v =
    elim (Bool-cases (validate (set_keys current updates))) [
      | inl e ↦ h (rw e refl)
      | inr e ↦ cc (IsConfig-validate (set_keys current updates) (rw e at v))
    ]

-- For a valid configuration the pool has the configured number of workers where that is not 0, and
-- otherwise twice the number of processors, at least 1 and at most 16; in both cases between 1 and
-- 128. The number of processors is below 2^31.
pub effective_io_worker_count_lem :
    (c : Config) (hc : ℕ)
    → IsConfig c
    → hc < 2 ^ 31
    → let n = effective_io_worker_count c hc in
      ((c.io_worker_count ≢ 0 → n ≡ c.io_worker_count)
        × (c.io_worker_count ≡ 0 → n ≡ min (max 2 (2 * hc)) 16)
        × (1 ≤ n)
        × (n ≤ 128))
unfolding effective_io_worker_count
effective_io_worker_count_lem c hc v h =
    (λ e. ground arith, λ e. ground arith, ground arith, ground arith)

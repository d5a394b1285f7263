-- ===== src/Python/Configure/Calls.antt =====
-- The calls of src/bindings/python/py_config.cpp that change the configuration: all of a dict or
-- nothing of it, and the engine follows what is in force.
use Prim.Native.String.{String}
use ayafileio.Base.{
  ℕ, true, not, ◌||◌, ◌&&◌, ltb, ◌==◌, List, [], ◌∷◌, Option, none, some, ℤ, ◌≡◌, ◌≢◌, ◌≤◌, ap, sym,
  All, ==_refl, if◌then◌else◌, refl, ◌⊎◌, inl, inr, arith, Bool-cases, Option-cases, if-elim,
  to_u64,
}
use ayafileio.Core.BufferPool.{refresh_config as refresh_pool}
use ayafileio.Core.Config.{
  Config, validate, defaults, update, to_unsigned, effective_io_worker_count,
}
use ayafileio.Core.Config.Update.{IsConfig, validate-IsConfig}
use ayafileio.Core.Pool.{Pool, target_begin, target_end, target_workers}
use ayafileio.Python.Batcher.{Batcher, set_threshold_max}
use ayafileio.Python.Registry.{
  snapshot, each, put_batcher, refreshed_batcher, refresh_config as refresh_batchers,
}
use ayafileio.Python.Configure.Options.{Follows, started_all, read_options-Follows}
use ayafileio.Python.Configure.{
  Raised, Checked, fine, refused, Casts, Platform, Engine, known_config_keys, is_known, check_keys,
  read_options, grows, resized, refreshed, configured, py_configure, py_reset_config, recounted,
  set_worker_count, py_set_worker_count,
}

-- What a configuration asks of a batcher.
abbrev pub Matches : Config → Batcher → Type 0
Matches c b =
    (b.threshold_max ≡ c.iocp_batch_size)
    × (b.adaptive ≡ c.adaptive_batch)
    × (b.target_latency_us ≡ c.adaptive_target_latency_us)

-- The configuration in force is valid, and the engine is as it asks for on a machine with so many
-- processors: the maximum of the buffer pool, every batcher that serves a loop, and, if the pool has
-- threads, its target.
pub record IsSynced (hardware_concurrency : ℕ) (e : Engine) : Type 0 where
  pub valid : IsConfig e.config
  pub cached : e.pool.cached_max ≡ e.config.buffer_pool_max
  pub matching : All (λ b. Matches e.config (e.batchers.objects b)) (snapshot e.batchers)
  pub targeted :
      (e.workers.threads ≡ 0)
      ⊎ (e.workers.target ≡ effective_io_worker_count e.config hardware_concurrency)
  pub workers_match : e.worker_count ≡ e.config.io_worker_count

refreshed-Matches : (c : Config) (b : Batcher) → IsConfig c → Matches c (refreshed_batcher c b)
unfolding set_threshold_max
refreshed-Matches c b v = (ground (arith, v.batch), refl, refl)

each-kept :
    (c : Config) (bs : List ℕ) (objects : ℕ → Batcher) (b : ℕ)
    → IsConfig c
    → Matches c (objects b)
    → Matches c (each (refreshed_batcher c) bs objects b)
each-kept c [] objects b v m = m
each-kept c (x ∷ xs) objects b v m =
    each-kept c xs (put_batcher x (refreshed_batcher c (objects x)) objects) b v
      (if-elim {A = Batcher} (Matches c) (b == x) (refreshed-Matches c (objects x) v) m)

each-Matches :
    (c : Config) (bs : List ℕ) (objects : ℕ → Batcher)
    → IsConfig c
    → All (λ b. Matches c (each (refreshed_batcher c) bs objects b)) bs
each-Matches c [] objects v = tt
each-Matches c (x ∷ xs) objects v =
    let objects' = put_batcher x (refreshed_batcher c (objects x)) objects in
    (
      each-kept c xs objects' x v (rw (==_refl x) (refreshed-Matches c (objects x) v)),
      each-Matches c xs objects' v,
    )

effective-positive : (c : Config) (n : ℕ) → 1 ≤ effective_io_worker_count c n
unfolding effective_io_worker_count
effective-positive c n = ground arith

-- The workers are set to a positive number.
targeted_lem :
    (p : Pool) (n : ℕ)
    → 1 ≤ n
    → ((target_workers p n).threads ≡ 0) ⊎ ((target_workers p n).target ≡ n)
unfolding target_workers target_begin target_end
targeted_lem p n h = elim (Bool-cases (p.threads == 0)) [
  | inl e ↦ rw (e, target_workers) (inl (ground (arith, e)))
  | inr e ↦
      rw (e, target_workers)
        (inr (
          if-elim {A = Pool} (λ q. q.target ≡ n) (ltb p.running (if n == 0 then 1 else n))
            (ground (arith, h)) (ground (arith, h))))
]

pub data ConfigCall (V : Type 0) : Type 0 where
  configures : List (Option String × V) → ConfigCall V
  resets : ConfigCall V
  counts_workers : ℤ → ConfigCall V

module _ {V : Type 0} (casts : Casts V) where
  -- Every key is a string and one of those that are known.
  abbrev pub KnownKeys : List (Option String × V) → Type 0
  KnownKeys [] = Unit {0}
  KnownKeys ((none, value) ∷ rest) = ⊥
  KnownKeys ((some key, value) ∷ rest) = (is_known key known_config_keys ≡ true) × KnownKeys rest

  check_keys-KnownKeys :
      (options : List (Option String × V)) → check_keys casts options ≡ none → KnownKeys options
  unfolding check_keys
  check_keys-KnownKeys [] h = tt
  check_keys-KnownKeys ((none, value) ∷ rest) h = absurd (ground arith)
  check_keys-KnownKeys ((some key, value) ∷ rest) h =
      elim (Bool-cases (is_known key known_config_keys)) [
        | inl e ↦ (e, check_keys-KnownKeys rest (rw e at h))
        | inr e ↦ absurd (let g = rw e at h in ground (arith, g))
      ]

  module _ {B : Type 0} (platform : Platform B) where
    -- A call returned, with a condition, or it raised and left everything as it was.
    abbrev pub AllOrNothing : Engine → (Config → Type 0) → Option Raised × Engine → Type 0
    AllOrNothing e Accepted (raised, e') =
        IsSynced platform.hardware_concurrency e'
        × (((raised ≡ none) × Accepted e'.config) ⊎ ((raised ≢ none) × (e' ≡ e)))

    resized_lem :
        (e : Engine) (count : ℕ)
        → platform.threads_start ≡ true
        → IsConfig e.config
        → e.pool.cached_max ≡ e.config.buffer_pool_max
        → All (λ b. Matches e.config (e.batchers.objects b)) (snapshot e.batchers)
        → count ≡ e.config.io_worker_count
        → let r = resized casts platform count e in
          (r.0 ≡ none) × IsSynced platform.hardware_concurrency r.1 × (r.1.config ≡ e.config)
    resized_lem e count start v cached matching same =
        let n = effective_io_worker_count e.config platform.hardware_concurrency in
        rw (started_all (grows e.workers n) platform.threads_start start) (
          refl,
          record {
            valid = v;
            cached = cached;
            matching = matching;
            targeted =
                targeted_lem e.workers n
                  (effective-positive e.config platform.hardware_concurrency);
            workers_match = same;
          },
          refl,
        )

    refreshed-AllOrNothing :
        (e : Engine) (c : Config) (count : ℕ)
        → platform.threads_start ≡ true
        → count ≡ c.io_worker_count
        → IsSynced platform.hardware_concurrency e
        → AllOrNothing e (λ d. d ≡ c) (refreshed casts platform e count (update e.config c))
    unfolding update refresh_pool refresh_batchers
    refreshed-AllOrNothing e c count start same v = elim (Bool-cases (validate c)) [
      | inl h ↦
          let w = validate-IsConfig c h in
          let t = record e {
            config = c;
            pool = refresh_pool e.pool c.buffer_pool_max;
            batchers = refresh_batchers c e.batchers;
          } in
          let (a, b, d) =
            resized_lem t count start w refl
              (each-Matches c (snapshot e.batchers) e.batchers.objects w) same in
          rw h (b, inl (a, d))
      | inr h ↦ rw h (v, inr ((λ q. ground (arith, q)), refl))
    ]

    recounted-AllOrNothing :
        (e : Engine) (count : ℕ)
        → platform.threads_start ≡ true
        → IsSynced platform.hardware_concurrency e
        → let c : Config = record (e.config) { io_worker_count = count } in
          AllOrNothing e (λ d. d ≡ c) (recounted casts platform e count (update e.config c))
    unfolding update
    recounted-AllOrNothing e count start v =
        let c : Config = record (e.config) { io_worker_count = count } in
        elim (Bool-cases (validate c)) [
          | inl h ↦
              let (a, b, d) =
                resized_lem (record e { config = c }) count start (validate-IsConfig c h) v.cached
                  v.matching refl in
              rw h (b, inl (a, d))
          | inr h ↦ rw h (v, inr ((λ q. ground (arith, q)), refl))
        ]

    -- The check did not refuse, with this configuration.
    abbrev pub Reads : Checked → Config → Type 0
    Reads k c = k ≡ fine c

    configured-AllOrNothing :
        (e : Engine) (k : Checked)
        → platform.threads_start ≡ true
        → IsSynced platform.hardware_concurrency e
        → AllOrNothing e (Reads k) (configured casts platform e k)
    configured-AllOrNothing e (refused r) start v = (v, inr ((λ q. ground (arith, q)), refl))
    configured-AllOrNothing e (fine c) start v =
        let (w, r) = refreshed-AllOrNothing e c c.io_worker_count start refl v in
        (w, elim r [ inl (q, d) ↦ inl (q, ap fine (sym d)) | inr q ↦ inr q ])

    -- From an engine in step with a valid configuration, on a machine where threads can be started,
    -- `configure` leaves such an engine for any dict. Either it returned: then every key of the dict is
    -- one of those that are known, each option of the dict was cast and is in force as it was cast, and
    -- each field without an option is as it was. Or it raised and changed nothing at all.
    pub py_configure-AllOrNothing :
        (e : Engine) (options : List (Option String × V))
        → platform.threads_start ≡ true
        → IsSynced platform.hardware_concurrency e
        → let (raised, after) = py_configure casts platform e options in
          IsSynced platform.hardware_concurrency after
          × (((raised ≡ none) × KnownKeys options × Follows casts options e.config after.config)
              ⊎ ((raised ≢ none) × (after ≡ e)))
    unfolding py_configure
    py_configure-AllOrNothing e options start v = elim (Option-cases (check_keys casts options)) [
      | inr (r, h) ↦ rw (h, py_configure) (v, inr ((λ q. ground (arith, q)), refl))
      | inl h ↦
          let k = read_options casts platform e.config options in
          let (w, r) = configured-AllOrNothing e k start v in
          rw (h, py_configure)
            (
              w,
              elim r [
                | inl (q, d) ↦ inl (
                  q,
                  check_keys-KnownKeys options h,
                  read_options-Follows casts platform e.config _ options d,
                )
                | inr q ↦ inr q
              ],
            )
    ]

    unfoldable pub run_config_call : Engine → ConfigCall V → Engine
    run_config_call e (configures options) = (py_configure casts platform e options).1
    run_config_call e resets = (py_reset_config casts platform e).1
    run_config_call e (counts_workers count) = (py_set_worker_count casts platform e count).1

    unfoldable pub run_config_calls : Engine → List (ConfigCall V) → Engine
    run_config_calls e [] = e
    run_config_calls e (c ∷ cs) = run_config_calls (run_config_call e c) cs

    run_config_call-IsSynced :
        (e : Engine) (c : ConfigCall V)
        → platform.threads_start ≡ true
        → IsSynced platform.hardware_concurrency e
        → IsSynced platform.hardware_concurrency (run_config_call e c)
    unfolding run_config_call py_reset_config py_set_worker_count set_worker_count
    run_config_call-IsSynced e (configures options) start v =
        (py_configure-AllOrNothing e options start v).0
    run_config_call-IsSynced e resets start v = (refreshed-AllOrNothing e defaults 0 start refl v).0
    run_config_call-IsSynced e (counts_workers count) start v =
        let n = to_unsigned (to_u64 count) in
        if-elim {A = Option Raised × Engine} (λ r. IsSynced platform.hardware_concurrency r.1)
          (not (n == 0 || (not (ltb n 1) && not (ltb 128 n)))) v
          (recounted-AllOrNothing e n start v).0

    -- Where threads can be started, any sequence of `configure`, `reset_config` and
    -- `set_worker_count`, whatever of it raises, keeps the configuration valid and the engine in step
    -- with it: the maximum of the buffer pool, the limits of every batcher that serves a loop, the target
    -- of a pool that has threads, and the count of workers are those in force.
    pub run_config_calls-IsSynced :
        (e : Engine) (cs : List (ConfigCall V))
        → platform.threads_start ≡ true
        → IsSynced platform.hardware_concurrency e
        → IsSynced platform.hardware_concurrency (run_config_calls e cs)
    unfolding run_config_calls
    run_config_calls-IsSynced e [] start v = v
    run_config_calls-IsSynced e (c ∷ cs) start v =
        run_config_calls-IsSynced (run_config_call e c) cs start
          (run_config_call-IsSynced e c start v)

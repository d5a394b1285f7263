-- ===== src/Python/Configure/Tests.antt =====
-- An engine with a ring: a dict that is taken, one with an unknown key, a reset and a count of workers
-- that is out of range.
use Prim.Native.String.{String}
use ayafileio.Base.{
  ℕ, ◌≡◌, ◌≢◌, ◌⊎◌, refl, inl, Bool, true, false, List, [], ◌∷◌, Option, none, some, ℤ, pos, negsuc,
  arith,
}
use ayafileio.Core.Result.{ok}
use ayafileio.Core.Config.{defaults, io_uring}
use ayafileio.Core.Config.Update.{IsConfig}
use ayafileio.Core.Registry.{effective_backend}
use ayafileio.Core.Pool.{new_pool}
use ayafileio.Python.Registry.{candidate}
use ayafileio.Python.Configure.{Casts, Shows, Platform, Engine, py_configure, py_get_config}
use ayafileio.Python.Configure.Options.{Follows}
use ayafileio.Python.Configure.Calls.{
  IsSynced, KnownKeys, ConfigCall, configures, resets, counts_workers, run_config_calls,
  py_configure-AllOrNothing, run_config_calls-IsSynced,
}
use ayafileio.Python.Configure.Shown.{CastsBack, IsSupported, py_configure-py_get_config}

data Value : Type 0 where
  text : String → Value
  number : ℤ → Value
  flag : Bool → Value

abbrev as_text : Value → Option String
as_text (text s) = some s
as_text _ = none

abbrev as_int64 : Value → Option ℤ
as_int64 (number n) = some n
as_int64 _ = none

abbrev as_unsigned : Value → Option ℕ
as_unsigned (number (pos n)) = some n
as_unsigned _ = none

abbrev as_bool : Value → Option Bool
as_bool (flag b) = some b
as_bool _ = none

abbrev casts : Casts Value
casts = record {
  as_text = as_text;
  as_int64 = as_int64;
  as_unsigned = as_unsigned;
  as_bool = as_bool;
}

abbrev shows : Shows Value
shows = record { text = text; number = λ n. number (pos n); flag = flag }

abbrev platform : Platform ℕ
platform = record {
  registry = record {
    entries =
        (io_uring, record { open_file = λ _ _. ok 1; wrap_fd = λ _ _ _. ok 1; is_available = true })
        ∷ [];
    auto_order = io_uring ∷ [];
  };
  have_io_uring = true;
  io_uring_available = true;
  io_uring_sqpoll_supported = true;
  hardware_concurrency = 8;
  threads_start = true;
}

abbrev engine : Engine
engine = record {
  config = record defaults { io_uring_sqpoll = true };
  pool = record { pools = []; total = 0; cached_max = 512 };
  batchers = record { active = []; retired = []; objects = λ b. candidate defaults };
  workers = new_pool;
  worker_count = 0;
}

engine-IsConfig : IsConfig engine.config
engine-IsConfig = record {
  workers = omega arith;
  pool = omega arith;
  buffer = omega arith;
  timeout = (omega arith, omega arith);
  batch = (omega arith, omega arith);
  depth = (omega arith, omega arith);
  latency = (omega arith, omega arith);
}

engine-IsSynced : IsSynced 8 engine
engine-IsSynced = record {
  valid = engine-IsConfig;
  cached = refl;
  matching = tt;
  targeted = inl refl;
  workers_match = refl;
}

abbrev options : List (Option String × Value)
options = (some "buffer_size", number (pos 4096)) ∷ (some "adaptive_batch", flag false) ∷ []

abbrev misspelt : List (Option String × Value)
misspelt = (some "buffer_size", number (pos 4096)) ∷ (some "bufer_size", number (pos 4096)) ∷ []

py_configure-AllOrNothing_example :
    let (raised, after) = py_configure casts platform engine misspelt in
    IsSynced 8 after
    × (((raised ≡ none)
          × KnownKeys casts misspelt
          × Follows casts misspelt engine.config after.config)
        ⊎ ((raised ≢ none) × (after ≡ engine)))
py_configure-AllOrNothing_example =
    py_configure-AllOrNothing casts platform engine misspelt refl engine-IsSynced

abbrev history : List (ConfigCall Value)
history =
    configures options
    ∷ configures misspelt
    ∷ counts_workers (negsuc 0)
    ∷ resets
    ∷ counts_workers (pos 4)
    ∷ []

run_config_calls-IsSynced_example : IsSynced 8 (run_config_calls casts platform engine history)
run_config_calls-IsSynced_example =
    run_config_calls-IsSynced casts platform engine history refl engine-IsSynced

casts_back : CastsBack casts shows
casts_back = record {
  texts = λ s. refl;
  flags = λ b. refl;
  naturals = λ n h. refl;
  wholes = λ n h. refl;
}

supported : IsSupported platform engine.config
unfolding effective_backend
supported = record { backend = inl refl; threads = refl; sqpoll = λ h. (refl, refl, refl, refl) }

py_configure-py_get_config_example :
    let (raised, after) = py_configure casts platform engine (py_get_config shows engine.config) in
    (raised ≡ none) × (after.config ≡ engine.config)
py_configure-py_get_config_example =
    py_configure-py_get_config casts platform shows engine casts_back engine-IsConfig (omega arith)
      (omega arith) supported

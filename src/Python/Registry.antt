-- ===== src/Python/Registry.antt =====
-- src/bindings/python/batcher_registry.cpp: which batcher serves which event loop. Batchers and loops
-- are named by their addresses; `target` says which loop object a batcher's weak reference still
-- reaches. A method holds the lock throughout, but for `get_or_create`, which makes a batcher between
-- two sections under the lock.
pub mod Loops
mod Tests
use ayafileio.Base.{
  ℕ, Bool, true, false, List, [], ◌∷◌, ◌++◌, map, Option, none, some, ltb, ◌==◌, if◌then◌else◌,
}
use ayafileio.Core.Config.{Config}
use ayafileio.Python.Batcher.{
  Batcher, new_batcher, set_threshold_max, flush_if_idle, get_timeout_ms,
}

-- An entry of `active_`; one that was retired is null in both places.
pub record Slot : Type 0 where
  pub loop : Option ℕ
  pub batcher : Option ℕ

pub record BatcherRegistry : Type 0 where
  pub active : List Slot
  pub retired : List ℕ
  pub objects : ℕ → Batcher

abbrev pub is_loop : Option ℕ → ℕ → Bool
is_loop none loop = false
is_loop (some l) loop = l == loop

-- `active_` and `retired_` after the search, and the batcher that was found.
unfoldable pub search : (ℕ → Option ℕ) → ℕ → List Slot → List ℕ → Option ℕ × List Slot × List ℕ
search target loop [] retired = (none, [], retired)
search target loop (s ∷ ss) retired =
    let skipped = search target loop ss retired in
    elim s.batcher [
      | none ↦ (skipped.0, s ∷ skipped.1, skipped.2)
      | some b ↦
          let dead = search target loop ss (retired ++ b ∷ []) in
          if is_loop s.loop loop
          then (if is_loop (target b) loop
              then (some b, s ∷ ss, retired)
              else (dead.0, record { loop = none; batcher = none } ∷ dead.1, dead.2))
          else (skipped.0, s ∷ skipped.1, skipped.2)
    ]

unfoldable pub find_live_locked : (ℕ → Option ℕ) → ℕ → BatcherRegistry → Option ℕ × BatcherRegistry
find_live_locked target loop r =
    let found = search target loop r.active r.retired in
    (found.0, record r { active = found.1; retired = found.2 })

abbrev pub without_nulls : List Slot → List Slot
without_nulls [] = []
without_nulls (s ∷ ss) = elim s.batcher [ none ↦ without_nulls ss | some b ↦ s ∷ without_nulls ss ]

abbrev pub candidate : Config → Batcher
candidate cfg = record (new_batcher cfg.iocp_batch_size 5) {
  adaptive = cfg.adaptive_batch;
  target_latency_us = cfg.adaptive_target_latency_us;
}

abbrev pub put_batcher : ℕ → Batcher → (ℕ → Batcher) → ℕ → Batcher
put_batcher b x objects i = if i == b then x else objects i

-- The second section under the lock: a batcher that another thread made in between is taken.
abbrev pub placed : ℕ → ℕ → Batcher → Option ℕ × BatcherRegistry → ℕ × BatcherRegistry
placed loop fresh made (some hit, r) = (hit, record r { active = without_nulls r.active })
placed loop fresh made (none, r) = (
  fresh,
  record r {
    active = without_nulls (r.active ++ record { loop = some loop; batcher = some fresh } ∷ []);
    objects = put_batcher fresh made r.objects;
  },
)

abbrev pub second :
    (ℕ → Option ℕ)
    → ℕ
    → ℕ
    → Config
    → (BatcherRegistry → BatcherRegistry)
    → Option ℕ × BatcherRegistry
    → ℕ × BatcherRegistry
second target loop fresh cfg meanwhile (some hit, r) = (hit, r)
second target loop fresh cfg meanwhile (none, r) =
    placed loop fresh (candidate cfg) (find_live_locked target loop (meanwhile r))

-- `fresh` is the address of the batcher that is made, `meanwhile` what other threads do while it is.
unfoldable pub get_or_create :
    (ℕ → Option ℕ)
    → ℕ
    → ℕ
    → Config
    → (BatcherRegistry → BatcherRegistry)
    → BatcherRegistry
    → ℕ × BatcherRegistry
get_or_create target loop fresh cfg meanwhile r =
    second target loop fresh cfg meanwhile (find_live_locked target loop r)

abbrev pub batchers : List Slot → List ℕ
batchers [] = []
batchers (s ∷ ss) = elim s.batcher [ none ↦ batchers ss | some b ↦ b ∷ batchers ss ]

abbrev pub snapshot : BatcherRegistry → List ℕ
snapshot r = batchers r.active

-- What is deleted, and the registry that is left.
unfoldable pub clear : BatcherRegistry → List ℕ × BatcherRegistry
clear r = (batchers r.active ++ r.retired, record r { active = []; retired = [] })

-- A change of each batcher of a snapshot.
abbrev pub each : (Batcher → Batcher) → List ℕ → (ℕ → Batcher) → ℕ → Batcher
each f [] objects = objects
each f (b ∷ bs) objects = each f bs (put_batcher b (f (objects b)) objects)

abbrev pub refreshed_batcher : Config → Batcher → Batcher
refreshed_batcher cfg b = record (set_threshold_max b cfg.iocp_batch_size) {
  adaptive = cfg.adaptive_batch;
  target_latency_us = cfg.adaptive_target_latency_us;
}

unfoldable pub refresh_config : Config → BatcherRegistry → BatcherRegistry
refresh_config cfg r = record r { objects = each (refreshed_batcher cfg) (snapshot r) r.objects }

unfoldable pub least_timeout : (ℕ → Batcher) → ℕ → List ℕ → ℕ → ℕ
least_timeout objects now [] result = result
least_timeout objects now (b ∷ bs) result =
    let timeout = get_timeout_ms (objects b) now in
    least_timeout objects now bs (if ltb timeout result then timeout else result)

unfoldable pub next_timeout_ms : BatcherRegistry → ℕ → ℕ
next_timeout_ms r now = least_timeout r.objects now (snapshot r) 4294967295

unfoldable pub flush_idle : BatcherRegistry → ℕ → BatcherRegistry
flush_idle r now = record r { objects = each (λ b. flush_if_idle b now) (snapshot r) r.objects }

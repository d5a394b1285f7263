-- ===== src/Python/Batcher/Tests.antt =====
-- A batcher that is given two results, told to flush, and drained.
use ayafileio.Base.{◌≤◌, refl, List, [], ◌∷◌, some, false, true, pos, arith}
use ayafileio.Python.Batcher.{
  BatchEntry, Batcher, push, takes, set_threshold_max, set_idle_timeout_max_ms, median_us,
}
use ayafileio.Python.Batcher.Median.{Within, median_us-Within}
use ayafileio.Python.Batcher.Delivery.{
  Action, pushes, flushes, schedules, drains, Delivers, Drained, run, run-Delivers, flush-drain_cb,
}
use ayafileio.Python.Batcher.Tuning.{IsTuned, push-IsTuned, set_maxima-IsTuned}

abbrev empty : Batcher
empty = record {
  batch = [];
  dispatch_pending = false;
  first_push = 0;
  last_push = 0;
  has_pending = false;
  threshold_max = 64;
  idle_timeout_max_ms = 5;
  adaptive = true;
  target_latency_us = 1000;
  current_threshold = 64;
  current_idle_ms = 5;
  outstanding = pos 0;
  intervals_us = λ i. 0;
  ring_pos = 0;
  ring_count = 0;
  pushes_since_update = 0;
  scheduling = 0;
  scheduled = 0;
  log = [];
}

empty-Delivers : Delivers empty []
empty-Delivers = record { in_order = refl; one_dispatch = refl; marked = refl }

empty-IsTuned : IsTuned empty
empty-IsTuned = record {
  threshold_low = omega arith;
  threshold_high = omega arith;
  idle_low = omega arith;
  idle_high = omega arith;
  capped = λ i. omega arith;
  place = omega arith;
  count = omega arith;
}

abbrev first : BatchEntry
first = record { set_fn = 1; val = 10 }

abbrev last : BatchEntry
last = record { set_fn = 2; val = 20 }

abbrev history : List Action
history = pushes 1000 first ∷ flushes ∷ pushes 2000 last ∷ flushes ∷ schedules takes ∷ drains ∷ []

run-Delivers_example : Delivers (run empty [] history).0 (run empty [] history).1
run-Delivers_example = run-Delivers empty [] history empty-Delivers

abbrev one_waits : Batcher
one_waits = record empty { batch = first ∷ []; has_pending = true; first_push = 500 }

one_waits-Delivers : Delivers one_waits (first ∷ [])
one_waits-Delivers = record { in_order = refl; one_dispatch = refl; marked = refl }

flush-drain_cb_example : Drained one_waits
flush-drain_cb_example = flush-drain_cb one_waits (first ∷ []) one_waits-Delivers refl

push-IsTuned_example : IsTuned (push empty 3000 (some 1) (some 10)).1
push-IsTuned_example = push-IsTuned empty 3000 (some 1) (some 10) empty-IsTuned

set_maxima-IsTuned_example :
    let c = set_idle_timeout_max_ms (set_threshold_max empty 1000) 0 in
    IsTuned c × (1 ≤ c.threshold_max) × (c.threshold_max ≤ 256)
set_maxima-IsTuned_example = set_maxima-IsTuned empty 1000 0 empty-IsTuned

median_us-Within_example : Within 10 1000 (median_us (1000 ∷ 10 ∷ 30 ∷ 20 ∷ []))
median_us-Within_example = median_us-Within 10 1000 (1000 ∷ 10 ∷ 30 ∷ 20 ∷ []) (omega arith) (
  (omega arith, omega arith),
  ((omega arith, omega arith), ((omega arith, omega arith), ((omega arith, omega arith), tt))),
)

-- ===== src/Python/Batcher.antt =====
-- src/bindings/python/result_batcher.hpp and result_batcher.cpp: the results of one event loop, held
-- back until there are enough of them or the oldest has waited long enough. Python objects are
-- numbers, times are nanoseconds of a steady clock. Each method is one step, as it holds the lock;
-- the call on the loop is a step of its own, outside of the lock.
pub mod Median
pub mod Delivery
pub mod Tuning
mod Tests
use ayafileio.Base.{
  ℕ, zero, suc, ◌+◌, ◌-◌, ◌*◌, ◌/◌, ◌%◌, ◌^◌, Bool, true, false, not, ◌&&◌, ◌||◌, List, [], ◌∷◌,
  ◌++◌, map, Option, none, some, ltb, leb, ◌==◌, min, if◌then◌else◌, length, get_elem?, ℤ, pos,
  negsuc, ◌+ℤ◌, ◌-ℤ◌,
}

pub record BatchEntry : Type 0 where
  pub set_fn : ℕ
  pub val : ℕ

-- What became of an entry: its call was made, or it was dropped with its loop.
pub data Fate : Type 0 where
  resolves : BatchEntry → Fate
  drops : BatchEntry → Fate

abbrev pub ring_size : ℕ
ring_size = 128

abbrev pub adaptive_update_interval : ℕ
adaptive_update_interval = 16

-- `log` are the fates in order. `scheduling` and `scheduled` count the calls of `schedule_drain` that
-- are under way, and the drains that the loop was handed and has not run.
pub record Batcher : Type 0 where
  pub batch : List BatchEntry
  pub dispatch_pending : Bool
  pub first_push : ℕ
  pub last_push : ℕ
  pub has_pending : Bool
  pub threshold_max : ℕ
  pub idle_timeout_max_ms : ℕ
  pub adaptive : Bool
  pub target_latency_us : ℕ
  pub current_threshold : ℕ
  pub current_idle_ms : ℕ
  pub outstanding : ℤ
  pub intervals_us : ℕ → ℕ
  pub ring_pos : ℕ
  pub ring_count : ℕ
  pub pushes_since_update : ℕ
  pub scheduling : ℕ
  pub scheduled : ℕ
  pub log : List Fate

unfoldable pub new_batcher : ℕ → ℕ → Batcher
new_batcher threshold idle_timeout_ms = record {
  batch = [];
  dispatch_pending = false;
  first_push = 0;
  last_push = 0;
  has_pending = false;
  threshold_max = threshold;
  idle_timeout_max_ms = idle_timeout_ms;
  adaptive = true;
  target_latency_us = 1000;
  current_threshold = threshold;
  current_idle_ms = idle_timeout_ms;
  outstanding = pos 0;
  intervals_us = λ i. 0;
  ring_pos = 0;
  ring_count = 0;
  pushes_since_update = 0;
  scheduling = 0;
  scheduled = 0;
  log = [];
}

unfoldable pub set_threshold_max : Batcher → ℕ → Batcher
set_threshold_max b value =
    let v = if ltb value 1 then 1 else if ltb 256 value then 256 else value in
    record b {
      threshold_max = v;
      current_threshold = if ltb v b.current_threshold then v else b.current_threshold;
    }

unfoldable pub set_idle_timeout_max_ms : Batcher → ℕ → Batcher
set_idle_timeout_max_ms b value =
    let v = if ltb value 1 then 1 else value in
    record b {
      idle_timeout_max_ms = v;
      current_idle_ms = if ltb v b.current_idle_ms then v else b.current_idle_ms;
    }

-- `std::nth_element` puts the elements before a place below the one at it and the others above, so
-- that the place, and the greatest before it, are those of the sorted values.
abbrev pub insert : ℕ → List ℕ → List ℕ
insert x [] = x ∷ []
insert x (y ∷ ys) = if leb x y then x ∷ y ∷ ys else y ∷ insert x ys

unfoldable pub sort : List ℕ → List ℕ
sort [] = []
sort (x ∷ xs) = insert x (sort xs)

-- The values at the places below a number.
unfoldable pub values : (ℕ → ℕ) → ℕ → List ℕ
values f zero = []
values f (suc n) = values f n ++ f n ∷ []

abbrev pub at : List ℕ → ℕ → ℕ
at xs i = elim (get_elem? xs i) [ none ↦ 0 | some x ↦ x ]

-- The middle, or the mean of the two of them.
unfoldable pub median_us : List ℕ → ℕ
median_us xs =
    let n = length xs in
    let sorted = sort xs in
    let middle = at sorted (n / 2) in
    let both = (middle + at sorted (n / 2 - 1)) / 2 in
    if (n % 2 == 0) && ltb 1 n then both else middle

-- `std::llround` of the quotient of two doubles. The target is at most 10000 and the median at most
-- 10^6, where the doubles are exact enough for the rounding to be that of the fraction.
unfoldable pub round_quotient : ℕ → ℕ → ℕ
round_quotient a b = (2 * a + b) / (2 * b)

-- `if (x < 1) x = 1; if (x > cap) x = cap;`
abbrev pub clamp : ℕ → ℕ → ℕ
clamp cap x = let low = if ltb x 1 then 1 else x in if ltb cap low then cap else low

-- The threshold and the idle time for a median.
abbrev pub adapted : Batcher → ℕ → Batcher
adapted b median = record b {
  current_threshold = clamp b.threshold_max (round_quotient b.target_latency_us median);
  current_idle_ms = clamp b.idle_timeout_max_ms (median * 4 / 1000 % 2 ^ 32);
}

unfoldable pub update_adaptive_locked : Batcher → Batcher
update_adaptive_locked b =
    let raw = median_us (values b.intervals_us (min b.ring_count ring_size)) in
    let median = if raw == 0 then 1 else raw in
    if not b.adaptive then b else if ltb b.ring_count 4 then b else adapted b median

-- The interval since the last push, at most a second; the first one is taken to be a millisecond.
unfoldable pub record_interval : Batcher → ℕ → Batcher
record_interval b now =
    let delta_us = (now - b.last_push) / 1000 in
    let capped = if ltb 1000000 delta_us then 1000000 else delta_us in
    if ltb 0 b.ring_count
    then record b {
      intervals_us = λ i. if i == b.ring_pos then capped else b.intervals_us i;
      ring_pos = (b.ring_pos + 1) % ring_size;
      ring_count = if ltb b.ring_count ring_size then b.ring_count + 1 else b.ring_count;
      last_push = now;
    }
    else record b {
      intervals_us = λ i. if i == 0 then 1000 else b.intervals_us i;
      ring_pos = 1;
      ring_count = 1;
      last_push = now;
    }

abbrev pub effective_threshold : Batcher → ℕ
effective_threshold b = if b.adaptive then b.current_threshold else b.threshold_max

abbrev pub effective_idle_ms : Batcher → ℕ
effective_idle_ms b = if b.adaptive then b.current_idle_ms else b.idle_timeout_max_ms

-- A missing function or value is not taken. The Boolean says that the threshold is reached.
unfoldable pub push : Batcher → ℕ → Option ℕ → Option ℕ → Bool × Batcher
push b now none val = (false, b)
push b now (some set_fn) none = (false, b)
push b now (some set_fn) (some val) =
    let timed = record_interval b now in
    let entry : BatchEntry = record { set_fn = set_fn; val = val } in
    let pushed = record timed {
      first_push = if timed.has_pending then timed.first_push else now;
      has_pending = true;
      batch = timed.batch ++ entry ∷ [];
      pushes_since_update = timed.pushes_since_update + 1;
    } in
    let tuned =
      if leb adaptive_update_interval pushed.pushes_since_update
      then update_adaptive_locked (record pushed { pushes_since_update = 0 })
      else pushed in
    (leb (effective_threshold tuned) (length tuned.batch), tuned)

abbrev pub is_empty : List BatchEntry → Bool
is_empty [] = true
is_empty (e ∷ es) = false

-- The lines that `flush` and `flush_if_idle` share: one dispatch at a time.
abbrev pub claim_dispatch : Batcher → Batcher
claim_dispatch b =
    if b.dispatch_pending
    then b
    else record b { dispatch_pending = true; scheduling = b.scheduling + 1 }

unfoldable pub flush : Batcher → Batcher
flush b = if is_empty b.batch then b else claim_dispatch b

abbrev pub elapsed_ms : Batcher → ℕ → ℕ
elapsed_ms b now = (now - b.first_push) / 1000000

unfoldable pub flush_if_idle : Batcher → ℕ → Batcher
flush_if_idle b now =
    if not b.has_pending || is_empty b.batch
    then b
    else if ltb (elapsed_ms b now) (effective_idle_ms b)
    then b
    else claim_dispatch b

-- What the loop does with `call_soon_threadsafe`: it is gone, takes the call, or raises, when it is
-- asked whether it is closed.
pub data LoopAnswer : Type 0 where
  gone takes : LoopAnswer
  raises : (is_closed : Bool) → LoopAnswer

abbrev pub discard : Batcher → Batcher
discard b = record b {
  batch = [];
  has_pending = false;
  dispatch_pending = false;
  log = b.log ++ map drops b.batch;
}

unfoldable pub schedule_drain : Batcher → LoopAnswer → Batcher
schedule_drain b answer =
    let over = record b { scheduling = b.scheduling - 1 } in
    elim answer [
      | gone ↦ discard over
      | takes ↦ record over { scheduled = over.scheduled + 1 }
      | raises is_closed ↦
          if is_closed then discard over else record over { dispatch_pending = false }
    ]

-- `m_drain_cb`, run by the loop: whether a call raises or not, the next is made.
unfoldable pub drain_cb : Batcher → Batcher
drain_cb b = record b {
  batch = [];
  has_pending = false;
  dispatch_pending = false;
  scheduled = b.scheduled - 1;
  log = b.log ++ map resolves b.batch;
}

abbrev pub has_pending_results : Batcher → Bool
has_pending_results b = b.has_pending && not (is_empty b.batch)

unfoldable pub idle_expired : Batcher → ℕ → Bool
idle_expired b now =
    if not b.has_pending || is_empty b.batch
    then false
    else leb (effective_idle_ms b) (elapsed_ms b now)

unfoldable pub get_timeout_ms : Batcher → ℕ → ℕ
get_timeout_ms b now =
    let remaining = effective_idle_ms b - elapsed_ms b now in
    if not b.has_pending || is_empty b.batch
    then 4294967295
    else if leb (effective_idle_ms b) (elapsed_ms b now)
    then 0
    else if ltb 4294967294 remaining
    then 4294967294
    else remaining

abbrev pub op_submitted : Batcher → Batcher
op_submitted b = record b { outstanding = b.outstanding +ℤ pos 1 }

-- Whether it was the last one.
abbrev pub op_completed : Batcher → Bool × Batcher
op_completed b = (
  elim b.outstanding [ pos n ↦ n == 1 | negsuc n ↦ false ],
  record b { outstanding = b.outstanding -ℤ pos 1 },
)

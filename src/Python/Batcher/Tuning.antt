-- ===== src/Python/Batcher/Tuning.antt =====
-- The bounds that the batcher of src/bindings/python/result_batcher.cpp keeps while it adapts, and the
-- times it waits.
use ayafileio.Base.{
  ℕ, ◌+◌, ◌*◌, ◌/◌, ◌%◌, ◌^◌, ◌≤◌, ◌<◌, ◌≡◌, true, not, List, Option, none, some, ltb, leb, ◌==◌,
  if-elim, arith,
}
use ayafileio.Python.Batcher.{
  BatchEntry, Batcher, new_batcher, clamp, adapted, round_quotient, record_interval,
  update_adaptive_locked, push, set_threshold_max, set_idle_timeout_max_ms, effective_idle_ms,
  idle_expired, get_timeout_ms, adaptive_update_interval, has_pending_results,
}

-- Both limits in use lie between 1 and their greatest value, no interval is above a second, and the
-- ring's place and count are those of 128 entries.
pub record IsTuned (b : Batcher) : Type 0 where
  pub threshold_low : 1 ≤ b.current_threshold
  pub threshold_high : b.current_threshold ≤ b.threshold_max
  pub idle_low : 1 ≤ b.current_idle_ms
  pub idle_high : b.current_idle_ms ≤ b.idle_timeout_max_ms
  pub capped : (i : ℕ) → b.intervals_us i ≤ 1000000
  pub place : b.ring_pos < 128
  pub count : b.ring_count ≤ 128

clamp-low : (cap x : ℕ) → 1 ≤ cap → 1 ≤ clamp cap x
clamp-low cap x h = ground arith

clamp-high : (cap x : ℕ) → 1 ≤ cap → clamp cap x ≤ cap
clamp-high cap x h = ground arith

new_batcher-IsTuned :
    (threshold idle : ℕ) → 1 ≤ threshold → 1 ≤ idle → IsTuned (new_batcher threshold idle)
unfolding new_batcher
new_batcher-IsTuned threshold idle h k = record {
  threshold_low = h;
  threshold_high = omega arith;
  idle_low = k;
  idle_high = omega arith;
  capped = λ i. omega arith;
  place = omega arith;
  count = omega arith;
}

adapted-IsTuned : (b : Batcher) (median : ℕ) → IsTuned b → IsTuned (adapted b median)
adapted-IsTuned b median v =
    let cap : 1 ≤ b.threshold_max = omega (arith, v.threshold_low, v.threshold_high) in
    let idle_cap : 1 ≤ b.idle_timeout_max_ms = omega (arith, v.idle_low, v.idle_high) in
    let threshold = round_quotient b.target_latency_us median in
    let idle : ℕ = median * 4 / 1000 % 2 ^ 32 in
    record {
      threshold_low = clamp-low b.threshold_max threshold cap;
      threshold_high = clamp-high b.threshold_max threshold cap;
      idle_low = clamp-low b.idle_timeout_max_ms idle idle_cap;
      idle_high = clamp-high b.idle_timeout_max_ms idle idle_cap;
      capped = v.capped;
      place = v.place;
      count = v.count;
    }

update_adaptive_locked-IsTuned : (b : Batcher) → IsTuned b → IsTuned (update_adaptive_locked b)
unfolding update_adaptive_locked
update_adaptive_locked-IsTuned b v =
    if-elim {A = Batcher} IsTuned (not b.adaptive) v
      (if-elim {A = Batcher} IsTuned (ltb b.ring_count 4) v (adapted-IsTuned b _ v))

record_interval-IsTuned : (b : Batcher) (now : ℕ) → IsTuned b → IsTuned (record_interval b now)
unfolding record_interval
record_interval-IsTuned b now v =
    if-elim {A = Batcher} IsTuned (ltb 0 b.ring_count)
      (record {
        threshold_low = v.threshold_low;
        threshold_high = v.threshold_high;
        idle_low = v.idle_low;
        idle_high = v.idle_high;
        capped = λ i. ground (arith, v.capped i);
        place = omega arith;
        count = ground (arith, v.count);
      })
      (record {
        threshold_low = v.threshold_low;
        threshold_high = v.threshold_high;
        idle_low = v.idle_low;
        idle_high = v.idle_high;
        capped = λ i. ground (arith, v.capped i);
        place = omega arith;
        count = omega arith;
      })

pushed-IsTuned :
    (b : Batcher) (first n : ℕ) (batch : List BatchEntry)
    → IsTuned b
    → IsTuned (record b {
      first_push = first;
      has_pending = true;
      batch = batch;
      pushes_since_update = n;
    })
pushed-IsTuned b first n batch v = record {
  threshold_low = v.threshold_low;
  threshold_high = v.threshold_high;
  idle_low = v.idle_low;
  idle_high = v.idle_high;
  capped = v.capped;
  place = v.place;
  count = v.count;
}

-- A push keeps the bounds: the threshold and the idle time in use stay between 1 and their greatest
-- values, no recorded interval is above a second, and the ring's place and count stay those of 128
-- entries.
pub push-IsTuned :
    (b : Batcher) (now : ℕ) (set_fn val : Option ℕ) → IsTuned b → IsTuned (push b now set_fn val).1
unfolding push
push-IsTuned b now none val v = v
push-IsTuned b now (some f) none v = v
push-IsTuned b now (some f) (some x) v =
    let timed = record_interval b now in
    let t = record_interval-IsTuned b now v in
    let n = timed.pushes_since_update + 1 in
    if-elim {A = Batcher} IsTuned (leb adaptive_update_interval n)
      (update_adaptive_locked-IsTuned _ (pushed-IsTuned timed _ 0 _ t))
      (pushed-IsTuned timed _ n _ t)

-- New greatest values keep the bounds, whatever they are, and lie between 1 and 256, or above 0.
pub set_maxima-IsTuned :
    (b : Batcher) (threshold idle : ℕ)
    → IsTuned b
    → let c = set_idle_timeout_max_ms (set_threshold_max b threshold) idle in
      IsTuned c × (1 ≤ c.threshold_max) × (c.threshold_max ≤ 256)
unfolding set_threshold_max set_idle_timeout_max_ms
set_maxima-IsTuned b threshold idle v = (
  record {
    threshold_low = ground (arith, v.threshold_low);
    threshold_high = ground arith;
    idle_low = ground (arith, v.idle_low);
    idle_high = ground arith;
    capped = v.capped;
    place = v.place;
    count = v.count;
  },
  ground arith,
  ground arith,
)

-- For a batcher whose oldest result was pushed at or before `now`, and an idle time in use that is
-- neither 0 nor above the largest wait, the time to wait is 0 exactly where the results have waited
-- long enough; and where some wait, they have waited long enough after it.
pub get_timeout_ms-idle_expired :
    (b : Batcher) (now : ℕ)
    → b.first_push ≤ now
    → effective_idle_ms b ≤ 4294967294
    → let wait = get_timeout_ms b now in
      ((wait == 0) ≡ idle_expired b now)
      × (idle_expired b (now + wait * 1000000) ≡ has_pending_results b)
unfolding get_timeout_ms idle_expired
get_timeout_ms-idle_expired b now h k = (ground arith, ground arith)

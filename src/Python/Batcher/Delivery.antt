-- ===== src/Python/Batcher/Delivery.antt =====
-- What src/bindings/python/result_batcher.cpp does with the results that it is given: each is taken up
-- once, in the order of the pushes, and one dispatch is under way at a time.
use ayafileio.Base.{
  ℕ, ◌+◌, ◌-◌, ◌≡◌, refl, ap, sym, subst, ◌∙◌, Bool, true, false, not, ◌&&◌, ◌||◌, List, [], ◌∷◌,
  ◌++◌, map, append-nil, append_assoc, some, ltb, leb, if◌then◌else◌, if-elim, arith,
}
use ayafileio.Python.Batcher.{
  BatchEntry, Fate, resolves, drops, Batcher, record_interval, update_adaptive_locked, push, flush,
  flush_if_idle, claim_dispatch, LoopAnswer, gone, takes, raises, discard, schedule_drain, drain_cb,
  is_empty, idle_expired, effective_idle_ms, elapsed_ms, has_pending_results,
  adaptive_update_interval,
}

-- The steps on a batcher, with the time where one is read.
pub data Action : Type 0 where
  pushes : (now : ℕ) → BatchEntry → Action
  flushes : Action
  flushes_if_idle : (now : ℕ) → Action
  schedules : LoopAnswer → Action
  drains : Action

abbrev pub entry_of : Fate → BatchEntry
entry_of (resolves e) = e
entry_of (drops e) = e

unfoldable pub step : Batcher → Action → Batcher
step b (pushes now e) = (push b now (some e.set_fn) (some e.val)).1
step b flushes = flush b
step b (flushes_if_idle now) = flush_if_idle b now
step b (schedules answer) = if ltb 0 b.scheduling then schedule_drain b answer else b
step b drains = if ltb 0 b.scheduled then drain_cb b else b

abbrev pub pushed_by : Action → List BatchEntry
pushed_by (pushes now e) = e ∷ []
pushed_by _ = []

-- The state, and the entries that were pushed, in order.
unfoldable pub run : Batcher → List BatchEntry → List Action → Batcher × List BatchEntry
run b pushed [] = (b, pushed)
run b pushed (a ∷ actions) = run (step b a) (pushed ++ pushed_by a) actions

abbrev pub one_if : Bool → ℕ
one_if b = if b then 1 else 0

-- What was taken up, and then what waits, are the pushes in their order; the flag says whether a
-- dispatch is under way, of which there is one; and something is marked as waiting when it is.
pub record Delivers (b : Batcher) (pushed : List BatchEntry) : Type 0 where
  pub in_order : map entry_of b.log ++ b.batch ≡ pushed
  pub one_dispatch : b.scheduling + b.scheduled ≡ one_if b.dispatch_pending
  pub marked : b.has_pending ≡ not (is_empty b.batch)

-- Tuning leaves alone what is delivered.
tuned-Delivers :
    (b : Batcher) (pushed : List BatchEntry)
    → Delivers b pushed
    → Delivers (update_adaptive_locked b) pushed
unfolding update_adaptive_locked
tuned-Delivers b pushed v =
    if-elim {A = Batcher} (λ c. Delivers c pushed) (not b.adaptive) v
      (if-elim {A = Batcher} (λ c. Delivers c pushed) (ltb b.ring_count 4) v
        (record { in_order = v.in_order; one_dispatch = v.one_dispatch; marked = v.marked }))

timed-Delivers :
    (b : Batcher) (now : ℕ) (pushed : List BatchEntry)
    → Delivers b pushed
    → Delivers (record_interval b now) pushed
unfolding record_interval
timed-Delivers b now pushed v =
    if-elim {A = Batcher} (λ c. Delivers c pushed) (ltb 0 b.ring_count)
      (record { in_order = v.in_order; one_dispatch = v.one_dispatch; marked = v.marked })
      (record { in_order = v.in_order; one_dispatch = v.one_dispatch; marked = v.marked })

claimed-Delivers :
    (b : Batcher) (pushed : List BatchEntry)
    → Delivers b pushed
    → Delivers (claim_dispatch b) pushed
claimed-Delivers b pushed v = go b.dispatch_pending v
  where
    go :
        (d : Bool)
        → Delivers (record b { dispatch_pending = d }) pushed
        → Delivers (claim_dispatch (record b { dispatch_pending = d })) pushed
    go true w = w
    go false w = record {
      in_order = w.in_order;
      one_dispatch = omega (arith, w.one_dispatch);
      marked = w.marked;
    }

not-empty : (xs : List BatchEntry) (e : BatchEntry) → is_empty (xs ++ e ∷ []) ≡ false
not-empty [] e = refl
not-empty (x ∷ xs) e = refl

map-entry_of :
    (f : BatchEntry → Fate)
    → ((e : BatchEntry) → entry_of (f e) ≡ e)
    → (xs : List BatchEntry) → map entry_of (map f xs) ≡ xs
map-entry_of f h [] = refl
map-entry_of f h (x ∷ xs) = rw (h x, map-entry_of f h xs) refl

map-append-entry_of :
    (xs ys : List Fate) → map entry_of (xs ++ ys) ≡ map entry_of xs ++ map entry_of ys
map-append-entry_of [] ys = refl
map-append-entry_of (x ∷ xs) ys = rw (map-append-entry_of xs ys) refl

-- The batch becomes part of the log.
taken-up :
    (b : Batcher) (f : BatchEntry → Fate) (pushed : List BatchEntry)
    → ((e : BatchEntry) → entry_of (f e) ≡ e)
    → map entry_of b.log ++ b.batch ≡ pushed
    → map entry_of (b.log ++ map f b.batch) ++ [] ≡ pushed
taken-up b f pushed h e =
    rw
      (
        append-nil (map entry_of (b.log ++ map f b.batch)),
        map-append-entry_of b.log (map f b.batch),
        map-entry_of f h b.batch,
      )
      e

dropped-Delivers :
    (b : Batcher) (pushed : List BatchEntry)
    → ltb 0 b.scheduling ≡ true
    → Delivers b pushed
    → Delivers (discard (record b { scheduling = b.scheduling - 1 })) pushed
dropped-Delivers b pushed h v = record {
  in_order = taken-up b drops pushed (λ e. refl) v.in_order;
  one_dispatch = ground (arith, v.one_dispatch);
  marked = refl;
}

push-Delivers :
    (b : Batcher) (now : ℕ) (e : BatchEntry) (pushed : List BatchEntry)
    → Delivers b pushed
    → Delivers (push b now (some e.set_fn) (some e.val)).1 (pushed ++ e ∷ [])
unfolding push
push-Delivers b now e pushed v =
    let timed = record_interval b now in
    let t = timed-Delivers b now pushed v in
    let first : ℕ = if timed.has_pending then timed.first_push else now in
    let taken : (n : ℕ)
        → Delivers
            (record timed {
              first_push = first;
              has_pending = true;
              batch = timed.batch ++ e ∷ [];
              pushes_since_update = n;
            })
            (pushed ++ e ∷ []) =
      λ n. record {
        in_order =
            rw⁻¹ (append_assoc (map entry_of timed.log) timed.batch (e ∷ []))
              (ap (λ xs. xs ++ e ∷ []) t.in_order);
        one_dispatch = t.one_dispatch;
        marked = rw (not-empty timed.batch e) refl;
      } in
    if-elim {A = Batcher} (λ c. Delivers c (pushed ++ e ∷ []))
      (leb adaptive_update_interval (timed.pushes_since_update + 1))
      (tuned-Delivers _ (pushed ++ e ∷ []) (taken 0)) (taken (timed.pushes_since_update + 1))

schedule-Delivers :
    (b : Batcher) (answer : LoopAnswer) (pushed : List BatchEntry)
    → ltb 0 b.scheduling ≡ true
    → Delivers b pushed
    → Delivers (schedule_drain b answer) pushed
unfolding schedule_drain
schedule-Delivers b gone pushed h v = dropped-Delivers b pushed h v
schedule-Delivers b takes pushed h v = record {
  in_order = v.in_order;
  one_dispatch = ground (arith, v.one_dispatch);
  marked = v.marked;
}
schedule-Delivers b (raises true) pushed h v = dropped-Delivers b pushed h v
schedule-Delivers b (raises false) pushed h v = record {
  in_order = v.in_order;
  one_dispatch = ground (arith, v.one_dispatch);
  marked = v.marked;
}

drain-Delivers :
    (b : Batcher) (pushed : List BatchEntry)
    → ltb 0 b.scheduled ≡ true
    → Delivers b pushed
    → Delivers (drain_cb b) pushed
unfolding drain_cb
drain-Delivers b pushed h v = record {
  in_order = taken-up b resolves pushed (λ e. refl) v.in_order;
  one_dispatch = ground (arith, v.one_dispatch);
  marked = refl;
}

flush_if_idle-Delivers :
    (b : Batcher) (now : ℕ) (pushed : List BatchEntry)
    → Delivers b pushed
    → Delivers (flush_if_idle b now) pushed
unfolding flush_if_idle
flush_if_idle-Delivers b now pushed v =
    if-elim {A = Batcher} (λ c. Delivers c pushed) (not b.has_pending || is_empty b.batch) v
      (if-elim {A = Batcher} (λ c. Delivers c pushed) (ltb (elapsed_ms b now) (effective_idle_ms b))
        v (claimed-Delivers b pushed v))

-- Behind the test of a step, what the test says is known.
guarded :
    (test : Bool) (b c : Batcher) (pushed : List BatchEntry)
    → (test ≡ true → Delivers c pushed)
    → Delivers b pushed
    → Delivers (if test then c else b) pushed
guarded true b c pushed f v = f refl
guarded false b c pushed f v = v

step-Delivers :
    (b : Batcher) (a : Action) (pushed : List BatchEntry)
    → Delivers b pushed
    → Delivers (step b a) (pushed ++ pushed_by a)
unfolding step flush
step-Delivers b (pushes now e) pushed v = push-Delivers b now e pushed v
step-Delivers b flushes pushed v = rw (append-nil pushed) (
    if-elim {A = Batcher} (λ c. Delivers c pushed) (is_empty b.batch) v
      (claimed-Delivers b pushed v))
step-Delivers b (flushes_if_idle now) pushed v =
    rw (append-nil pushed) (flush_if_idle-Delivers b now pushed v)
step-Delivers b (schedules answer) pushed v = rw (append-nil pushed) (
    guarded (ltb 0 b.scheduling) b (schedule_drain b answer) pushed
      (λ h. schedule-Delivers b answer pushed h v) v)
step-Delivers b drains pushed v =
    rw (append-nil pushed)
      (guarded (ltb 0 b.scheduled) b (drain_cb b) pushed (λ h. drain-Delivers b pushed h v) v)

-- Over any history of pushes, flushes, answers of the loop and drains, from a state in which this
-- holds: the results that were taken up, by a call or with their loop, and then those that wait, are
-- the pushed ones in their order, each once; at most one dispatch is under way, and the flag tells
-- whether; and the batch is marked as waiting exactly where it is not empty.
pub run-Delivers :
    (b : Batcher) (pushed : List BatchEntry) (actions : List Action)
    → Delivers b pushed
    → Delivers (run b pushed actions).0 (run b pushed actions).1
unfolding run
run-Delivers b pushed [] v = v
run-Delivers b pushed (a ∷ actions) v =
    run-Delivers (step b a) (pushed ++ pushed_by a) actions (step-Delivers b a pushed v)

-- The results that wait are called, in their order, and none is left.
abbrev pub Drained : Batcher → Type 0
Drained b =
    let done = step (step (step b flushes) (schedules takes)) drains in
    (done.batch ≡ []) × (done.log ≡ b.log ++ map resolves b.batch)

idle-Drained :
    (b : Batcher) (xs : List BatchEntry)
    → Drained (record b { batch = xs; dispatch_pending = false; scheduling = 0; scheduled = 0 })
unfolding step flush schedule_drain drain_cb
idle-Drained b [] = (refl, sym (append-nil b.log))
idle-Drained b (x ∷ xs) = (refl, refl)

-- Where no dispatch is under way, as in a state that a history leads to, a flush, the loop taking the
-- call, and the drain make the calls of all results that wait, in their order, and leave none.
pub flush-drain_cb :
    (b : Batcher) (pushed : List BatchEntry)
    → Delivers b pushed
    → b.dispatch_pending ≡ false
    → Drained b
flush-drain_cb b pushed v h =
    let free : b.scheduling + b.scheduled ≡ 0 = v.one_dispatch ∙ ap one_if h in
    let s : b.scheduling ≡ 0 = omega arith in
    let d : b.scheduled ≡ 0 = omega arith in
    subst (λ x. Drained (record b { dispatch_pending = x })) (sym h)
      (subst (λ x. Drained (record b { dispatch_pending = false; scheduling = x })) (sym s)
        (subst (λ x. Drained (record b { dispatch_pending = false; scheduling = 0; scheduled = x }))
          (sym d) (idle-Drained b b.batch)))

-- flush_if_idle does what a caller that asks has_pending and idle_expired, and then flushes, does.
pub flush_if_idle_lem :
    (b : Batcher) (now : ℕ)
    → flush_if_idle b now ≡ (if has_pending_results b && idle_expired b now then flush b else b)
unfolding flush_if_idle idle_expired flush
flush_if_idle_lem b now = ground arith

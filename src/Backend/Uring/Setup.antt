-- ===== src/Backend/Uring/Setup.antt =====
-- `UringManager` of src/backend/linux/uring_pool.cpp: one ring for each scheduler, set up by calls that
-- may fail. What the calls answer is an argument; the resources they make and give back are a log.
use ayafileio.Base.{
  ℕ, ◌+◌, ◌≡◌, Bool, true, false, not, ◌&&◌, ◌||◌, List, [], ◌∷◌, ◌++◌, Option, none, some, ◌==◌,
  if◌then◌else◌, arith,
}

pub data Resource : Type 0 where
  makes_eventfd closes_eventfd : Resource
  makes_ring exits_ring : Resource
  stops_reaper : ℕ → Resource  -- of the instance with that number

pub record Instance : Type 0 where
  pub id : ℕ
  pub running : Bool
  pub expired : Bool  -- `scheduler.owner.expired()`
  pub ring_ready : Bool
  pub event_fd : Option ℕ

-- What the calls of one set-up answer.
pub record Answers : Type 0 where
  pub eventfd : Option ℕ
  pub init_with_flags : Bool
  pub init_plain : Bool
  pub get_sqe : Bool
  pub submit : Bool

-- The result, the instance and the log, newest first.
unfoldable pub setup_instance : Answers → Instance → Bool × Instance × List Resource
setup_instance a i = elim a.eventfd [
  | none ↦ (false, record i { event_fd = none }, [])
  | some fd ↦
      let opened = record i { event_fd = some fd } in
      let closed = record i { event_fd = none } in
      if not (a.init_with_flags || a.init_plain)
      then (false, closed, closes_eventfd ∷ makes_eventfd ∷ [])
      else if not a.get_sqe || not a.submit
      then (
        false,
        record closed { ring_ready = false },
        closes_eventfd ∷ exits_ring ∷ makes_ring ∷ makes_eventfd ∷ [],
      )
      else (true, record opened { ring_ready = true }, makes_ring ∷ makes_eventfd ∷ [])
]

abbrev pub Instances : Type 0
Instances = List (ℕ × Instance)

abbrev pub lookup : ℕ → Instances → Option Instance
lookup key [] = none
lookup key ((k, i) ∷ rest) = if k == key then some i else lookup key rest

abbrev pub erase : ℕ → Instances → Instances
erase key [] = []
erase key ((k, i) ∷ rest) = if k == key then rest else (k, i) ∷ erase key rest

-- `std::make_shared<UringInstance>()` under a new number, with the scheduler of the caller, whose owner
-- may have expired or may never have been
abbrev pub new_instance : ℕ → Bool → Instance
new_instance id owner_expired = record {
  id = id;
  running = true;
  expired = owner_expired;
  ring_ready = false;
  event_fd = none;
}

-- The lines after the look-up.
unfoldable pub create_instance :
    Answers → ℕ → Bool → ℕ → Instances → Option Instance × Instances × List Resource
create_instance a key owner_expired id instances =
    let (done, i, log) = setup_instance a (new_instance id owner_expired) in
    if done then (some i, (key, i) ∷ instances, log) else (none, instances, log)

unfoldable pub acquire :
    Answers → ℕ → Bool → ℕ → Instances → Option Instance × Instances × List Resource
acquire a key owner_expired id instances = elim (lookup key instances) [
  | none ↦ create_instance a key owner_expired id instances
  | some i ↦
      let (got, rest, log) = create_instance a key owner_expired id (erase key instances) in
      if i.running && not i.expired
      then (some i, instances, [])
      else (got, rest, log ++ stops_reaper i.id ∷ [])
]

abbrev pub stop_all : Instances → List Resource
stop_all [] = []
stop_all ((k, i) ∷ rest) = stop_all rest ++ stops_reaper i.id ∷ []

unfoldable pub cleanup_all : Instances → Instances × List Resource
cleanup_all instances = ([], stop_all instances)

abbrev pub count : (Resource → Bool) → List Resource → ℕ
count p [] = 0
count p (x ∷ xs) = (if p x then 1 else 0) + count p xs

abbrev pub is_made : Resource → Bool
is_made makes_eventfd = true
is_made makes_ring = true
is_made _ = false

abbrev pub is_returned : Resource → Bool
is_returned closes_eventfd = true
is_returned exits_ring = true
is_returned _ = false

-- A set-up that fails gives back all that it made and leaves an instance with no ring and no
-- descriptor; one that succeeds keeps a ring and a descriptor.
pub setup_instance-Clean :
    (a : Answers) (i : Instance)
    → i.ring_ready ≡ false
    → let (done, i', log) = setup_instance a i in
      (count is_made log ≡ count is_returned log + (if done then 2 else 0))
      × (i'.ring_ready ≡ done)
      × ((if done then a.eventfd else none) ≡ i'.event_fd)
unfolding setup_instance
setup_instance-Clean a i h = ground arith

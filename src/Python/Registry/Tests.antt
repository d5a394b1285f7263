-- ===== src/Python/Registry/Tests.antt =====
-- A loop whose address an older loop had: the batcher of the older one is retired.
use ayafileio.Base.{
  ℕ, ◌≤◌, ◌≡◌, refl, [], ◌∷◌, Option, some, none, ◌==◌, if◌then◌else◌, All, count, arith,
}
use ayafileio.Core.Config.{defaults}
use ayafileio.Python.Batcher.{get_timeout_ms}
use ayafileio.Python.Registry.{
  BatcherRegistry, candidate, get_or_create, next_timeout_ms, snapshot, clear,
}
use ayafileio.Python.Registry.Loops.{
  IsSingle, Serves, held, get_or_create-Serves, next_timeout_ms-le, clear-held,
}

abbrev registry : BatcherRegistry
registry = record {
  active = record { loop = some 7; batcher = some 1 } ∷ [];
  retired = [];
  objects = λ b. candidate defaults;
}

-- Batcher 1 was the old loop's, batcher 2 will be the new one's.
abbrev target : ℕ → Option ℕ
target b = if b == 2 then some 7 else none

registry-IsSingle : IsSingle target registry
registry-IsSingle = record { one_live = λ x. ground arith; once = λ b. ground arith }

abbrev after : BatcherRegistry
after = record {
  active = record { loop = none; batcher = none } ∷ [];
  retired = 1 ∷ [];
  objects = λ b. candidate defaults;
}

after-IsSingle : IsSingle target after
after-IsSingle = record { one_live = λ x. ground arith; once = λ b. ground arith }

get_or_create-Serves_example :
    Serves target 7 (get_or_create target 7 2 defaults (λ r. after) registry)
get_or_create-Serves_example =
    get_or_create-Serves target 7 2 refl defaults (λ r. after) registry registry-IsSingle
      after-IsSingle refl

next_timeout_ms-le_example :
    (next_timeout_ms registry 0 ≤ 4294967295)
    × All
        (λ b. next_timeout_ms registry 0 ≤ get_timeout_ms (registry.objects b) 0)
        (snapshot registry)
next_timeout_ms-le_example = next_timeout_ms-le registry 0

clear-held_example : (count 1 (clear after).0 ≡ held 1 after) × (held 1 (clear after).1 ≡ 0)
clear-held_example = clear-held after 1

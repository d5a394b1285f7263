-- ===== src/Core/Request/Tests.antt =====
-- A request made in reused memory, and given back.
use mathlib.Core.List.{Mem, Nodup-cons, Nodup-nil, not-mem-nil, mem-cons}
use mathlib.Core.Logic.Or
use mathlib.Core.HLevel.{⊥_prop}
use ayafileio.Base.{ℕ, ◌≡◌, [], ◌∷◌, none, arith}
use ayafileio.Core.Request.{Memory, req_alloc}
use ayafileio.Core.Request.Sharing.{IsSound, req_alloc-IsSound}

-- One free address, nothing in use.
abbrev reusing : Memory
reusing = record { freelist = 7 ∷ []; live = []; deleted = []; release_hook = none }

abbrev in_use : Memory
in_use = record { freelist = []; live = 7 ∷ []; deleted = []; release_hook = none }

reusing-IsSound : IsSound reusing
reusing-IsSound = record { distinct = Nodup-cons.1 (not-mem-nil, Nodup-nil); short = omega arith }

in_use-IsSound : IsSound in_use
in_use-IsSound = record { distinct = Nodup-cons.1 (not-mem-nil, Nodup-nil); short = omega arith }

not_seven : ¬ Mem {A = ℕ} 8 (7 ∷ [])
not_seven h = Or.elim ⊥_prop (mem-cons.0 h) (λ e. absurd (omega arith)) not-mem-nil

req_alloc-IsSound_example :
    let (request, m') = req_alloc reusing 8 in
    IsSound m' × (¬ Mem request.address []) × (m'.live ≡ request.address ∷ [])
req_alloc-IsSound_example = req_alloc-IsSound reusing 8 reusing-IsSound not_seven

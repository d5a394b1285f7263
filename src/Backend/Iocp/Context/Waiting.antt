-- ===== src/Backend/Iocp/Context/Waiting.antt =====
-- The waits of src/backend/windows/iocp_context.cpp end.
use ayafileio.Base.{
  ℕ, zero, suc, ◌+◌, ◌*◌, ◌≤◌, ◌<◌, ◌≡◌, refl, false, not, ◌&&◌, List, [], ◌∷◌, Option, none, some,
  ltb, min, if-elim, Bool-cases, inl, inr, pos, ltb_ℤ, arith,
}
use ayafileio.Backend.Iocp.{Iocp}
use ayafileio.Backend.Iocp.Submit.{Windows}
use ayafileio.Backend.Iocp.Submit.Closing.{Step, run_steps, has_handle, cancel, stopped}
use ayafileio.Backend.Iocp.Context.{
  wait_loop, wait_fuel, close_waited, close_one, and_then, close_snapshot, cleared,
  close_all_sessions,
}

-- A wait that returned within 531 ms: either nothing is pending any more, or 500 ms are over.
abbrev pub Ends : {W : Type 0} → ℕ → Option (ℕ × Iocp W) → Type 0
Ends id none = ⊥
Ends id (some (elapsed, i)) =
    (elapsed ≤ 531) × ((ltb elapsed 500 && ltb_ℤ (pos 0) (i.objects id).pending) ≡ false)

module _ {W : Type 0} (k : Windows W) where
  wait_loop-Ends :
      (fuel : ℕ) (steps : ℕ → List Step) (id elapsed wait_ms : ℕ) (i : Iocp W)
      → 1 ≤ fuel
      → 500 < fuel + elapsed
      → 1 ≤ wait_ms
      → wait_ms ≤ 32
      → elapsed ≤ 531
      → Ends id (wait_loop k fuel steps id elapsed wait_ms i)
  unfolding wait_loop
  wait_loop-Ends zero steps id elapsed wait_ms i f h a b c = absurd (omega arith)
  wait_loop-Ends (suc fuel) steps id elapsed wait_ms i f h a b c =
      elim (Bool-cases (ltb elapsed 500 && ltb_ℤ (pos 0) (i.objects id).pending)) [
        | inr e ↦ rw (e, wait_loop) (c, e)
        | inl e ↦
            let short : elapsed < 500 = ground arith in
            rw (e, wait_loop)
              (wait_loop-Ends fuel steps id (elapsed + wait_ms) (min (wait_ms * 2) 32)
                (run_steps k i (steps elapsed)) (omega arith) (omega arith) (omega arith)
                (omega arith) (omega arith))
      ]

  -- Whatever the other threads do meanwhile, the wait for one session that starts with a sleep of a
  -- millisecond returns within its 501 turns and within 531 ms of sleep, and then nothing of the
  -- session is pending any more or at least 500 ms were slept.
  pub wait_loop_lem :
      (steps : ℕ → List Step) (id : ℕ) (i : Iocp W) → Ends id (wait_loop k wait_fuel steps id 0 1 i)
  wait_loop_lem steps id i =
      wait_loop-Ends wait_fuel steps id 0 1 i (omega arith) (omega arith) (omega arith)
        (omega arith) (omega arith)

  -- close_all_sessions and shutdown return.
  abbrev pub Returns : Option (Iocp W) → Type 0
  Returns none = ⊥
  Returns (some i) = Unit

  close_waited-Returns :
      (id : ℕ) (o : Option (ℕ × Iocp W)) → Ends id o → Returns (close_waited k id o)
  close_waited-Returns id none h = h
  close_waited-Returns id (some (elapsed, i)) h = tt

  close_one-Returns :
      (i : Iocp W) (id : ℕ) (steps : ℕ → List Step) → Returns (close_one k i id steps)
  unfolding close_one
  close_one-Returns i id steps =
      let s = i.objects id in
      let stop = stopped k i id in
      if-elim {A = Option (Iocp W)} Returns (not s.running) tt (
        if-elim {A = Option (Iocp W)} Returns (not (has_handle k s)) tt (
          if-elim {A = Option (Iocp W)} Returns (ltb_ℤ (pos 0) s.pending)
            (close_waited-Returns id _ (wait_loop_lem steps id (cancel k stop id))) tt))

  close_snapshot-Returns :
      (ids : List ℕ) (steps : ℕ → ℕ → List Step) (i : Iocp W)
      → Returns (close_snapshot k ids steps i)
  unfolding close_snapshot
  close_snapshot-Returns [] steps i = tt
  close_snapshot-Returns (id ∷ ids) steps i =
      go (close_snapshot-Returns ids steps) (close_one k i id (steps id))
        (close_one-Returns i id (steps id))
    where
      go :
          ((j : Iocp W) → Returns (close_snapshot k ids steps j))
          → (o : Option (Iocp W)) → Returns o
          → Returns (and_then k o (close_snapshot k ids steps))
      go f none h = h
      go f (some j) h = f j

  -- The table is empty at the end.
  abbrev pub Emptied : Option (Iocp W) → Type 0
  Emptied none = ⊥
  Emptied (some i) = i.table ≡ []

  cleared-Emptied : (o : Option (Iocp W)) → Returns o → Emptied (cleared k o)
  cleared-Emptied none h = h
  cleared-Emptied (some i) h = refl

  -- Whatever the sessions of the table have pending and whatever the other threads do, closing all
  -- sessions returns, and the table is then empty.
  pub close_all_sessions-Emptied :
      (i : Iocp W) (steps : ℕ → ℕ → List Step) → Emptied (close_all_sessions k i steps)
  unfolding close_all_sessions
  close_all_sessions-Emptied i steps =
      cleared-Emptied (close_snapshot k i.table steps i) (close_snapshot-Returns i.table steps i)

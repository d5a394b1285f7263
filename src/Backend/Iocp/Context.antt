-- ===== src/Backend/Iocp/Context.antt =====
-- The life of the context of src/backend/windows/iocp_context.cpp: its ports and workers, and the
-- sessions that it makes and closes. The workers are threads of the state: they are started and joined
-- outside of it.
pub mod Waiting
use ayafileio.Base.{
  ℕ, zero, suc, ◌+◌, ◌*◌, Bool, true, false, not, ◌&&◌, List, [], ◌∷◌, Option, none, some, ltb, min,
  if◌then◌else◌, ℤ, pos, ltb_ℤ,
}
use ayafileio.Core.Result.{runtime_error, native_error, Result, ok, throws, io_exception}
use ayafileio.Core.Config.{Config}
use ayafileio.Core.FileState.{initial_state, set_cached_size, set_file_pos}
use ayafileio.Platform.NativeFile.{Sys, returned, failed}
use ayafileio.Backend.Iocp.{Session, Iocp, put}
use ayafileio.Backend.Iocp.Worker.{set_session}
use ayafileio.Backend.Iocp.Submit.{Windows, modify_session}
use ayafileio.Backend.Iocp.Submit.Methods.{refresh_session_size}
use ayafileio.Backend.Iocp.Submit.Closing.{
  Step, run_steps, has_handle, cancel, close_handle, stopped,
}

-- 501 turns are enough: each sleeps for at least a millisecond.
abbrev pub wait_fuel : ℕ
wait_fuel = 501

module _ {W : Type 0} (k : Windows W) where
  -- The ports, read before write; without the second the first is closed again.
  abbrev pub second_port : Iocp W → Option ℕ → Option ℕ × W → Result (Unit {0}) × Iocp W
  second_port i read_port (none, w) = (
    throws (io_exception (runtime_error "Failed to create write IOCP")),
    record i { world = k.close_handle w read_port; read_iocp = none; write_iocp = none },
  )
  second_port i read_port (some h, w) =
      (ok tt, record i { world = w; read_iocp = read_port; write_iocp = some h; running = true })

  abbrev pub first_port : Iocp W → Option ℕ × W → Result (Unit {0}) × Iocp W
  first_port i (none, w) = (
    throws (io_exception (runtime_error "Failed to create read IOCP")),
    record i { world = w; read_iocp = none },
  )
  first_port i (some h, w) = second_port i (some h) (k.create_port w)

  unfoldable pub init : Iocp W → Result (Unit {0}) × Iocp W
  init i = if i.running then (ok tt, i) else first_port i (k.create_port i.world)

  abbrev pub port_of : Session → Iocp W → Option ℕ
  port_of s i = if s.generic_write && not s.generic_read then i.write_iocp else i.read_iocp

  unfoldable pub iocp_for_session : Iocp W → ℕ → Option ℕ
  iocp_for_session i id = port_of (i.objects id) i

  abbrev pub new_session : Config → ℕ → Option ℕ → Bool → Bool → Bool → Bool → Session
  new_session cfg id handle append generic_read generic_write owns_fd = record {
    id = id;
    handle = handle;
    running = false;
    state = initial_state append;
    append_mode = append;
    pending = pos 0;
    close_wake = 0;
    owns_fd = owns_fd;
    generic_read = generic_read;
    generic_write = generic_write;
    skip_cp_on_success = false;
    cached_buffer_size = cfg.buffer_size;
    cached_buffer_pool_max = cfg.buffer_pool_max;
    cached_close_timeout_ms = cfg.close_timeout_ms;
  }

  abbrev pub positioned : Iocp W → ℕ → Iocp W
  positioned i id = elim (refresh_session_size k i id) [
    | none ↦ i
    | some size ↦
        modify_session i id
          (λ s. record s { state = set_file_pos (set_cached_size s.state size) size })
  ]

  -- A session whose handle is associated with its port, and put into the table.
  abbrev pub associated : Iocp W → Session → Bool → Sys × W → Result ℕ × Iocp W
  associated i s skip_disabled (failed e, w) = (
    throws (io_exception (native_error e "Failed to associate handle with IOCP")),
    record i { world = w },
  )
  associated i s skip_disabled (returned n, w) =
      let skip = not skip_disabled && k.skip_completion_port w s.handle in
      let made =
        set_session (record i { world = w }) s.id (record s { skip_cp_on_success = skip }) in
      let placed = if s.append_mode then positioned made s.id else made in
      let up = modify_session placed s.id (λ x. record x { running = true }) in
      (ok s.id, record up { table = s.id ∷ up.table })

  -- `skip_disabled` says that AYAFILEIO_NO_SKIP_CP is set.
  unfoldable pub create_session :
      Iocp W
      → Config
      → Bool
      → (handle : Option ℕ) (append generic_read generic_write owns_fd : Bool) → Result ℕ × Iocp W
  create_session i cfg skip_disabled handle append generic_read generic_write owns_fd =
      let s = new_session cfg i.next_session_id handle append generic_read generic_write owns_fd in
      associated (record i { next_session_id = i.next_session_id + 1 }) s skip_disabled
        (k.associate i.world s.handle (port_of s i) s.id)

  -- The wait of `close_all_sessions`. `steps` are the steps of the other threads in each sleep. The
  -- milliseconds slept are returned, or `none` where the fuel does not suffice.
  unfoldable pub wait_loop :
      ℕ → (ℕ → List Step) → ℕ → (elapsed wait_ms : ℕ) → Iocp W → Option (ℕ × Iocp W)
  wait_loop zero steps id elapsed wait_ms i = none
  wait_loop (suc fuel) steps id elapsed wait_ms i =
      let rest =
        wait_loop fuel steps id (elapsed + wait_ms) (min (wait_ms * 2) 32)
          (run_steps k i (steps elapsed)) in
      if ltb elapsed 500 && ltb_ℤ (pos 0) (i.objects id).pending then rest else some (elapsed, i)

  abbrev pub close_waited : ℕ → Option (ℕ × Iocp W) → Option (Iocp W)
  close_waited id none = none
  close_waited id (some (elapsed, i)) = some (close_handle k i id)

  unfoldable pub close_one : Iocp W → ℕ → (ℕ → List Step) → Option (Iocp W)
  close_one i id steps =
      let i' = stopped k i id in
      if not (i.objects id).running
      then some i
      else if not (has_handle k (i.objects id))
      then some i'
      else if ltb_ℤ (pos 0) (i.objects id).pending
      then close_waited id (wait_loop wait_fuel steps id 0 1 (cancel k i' id))
      else some (close_handle k i' id)

  abbrev pub and_then : Option (Iocp W) → (Iocp W → Option (Iocp W)) → Option (Iocp W)
  and_then none f = none
  and_then (some i) f = f i

  -- For each session of the snapshot, with the steps that happen while it is waited for.
  unfoldable pub close_snapshot : List ℕ → (ℕ → ℕ → List Step) → Iocp W → Option (Iocp W)
  close_snapshot [] steps i = some i
  close_snapshot (id ∷ ids) steps i =
      and_then (close_one i id (steps id)) (close_snapshot ids steps)

  abbrev pub cleared : Option (Iocp W) → Option (Iocp W)
  cleared none = none
  cleared (some i) = some (record i { table = [] })

  unfoldable pub close_all_sessions : Iocp W → (ℕ → ℕ → List Step) → Option (Iocp W)
  close_all_sessions i steps = cleared (close_snapshot i.table steps i)

  abbrev pub close_port : Iocp W → Option ℕ → W
  close_port i port = elim port [ none ↦ i.world | some h ↦ k.close_handle i.world (some h) ]

  abbrev pub ports_closed : Iocp W → Iocp W
  ports_closed i =
      let i' = record i { world = close_port i i.read_iocp; read_iocp = none } in
      record i' { world = close_port i' i'.write_iocp; write_iocp = none; table = [] }

  abbrev pub shut_down : Option (Iocp W) → Option (Iocp W)
  shut_down none = none
  shut_down (some i) = some (ports_closed (record i { running = false }))

  -- The empty packets that wake the workers, and the joins, are not on this state.
  unfoldable pub shutdown : Iocp W → (ℕ → ℕ → List Step) → Option (Iocp W)
  shutdown i steps = if not i.running then some i else shut_down (close_all_sessions i steps)

-- ===== src/Backend/Iocp/Quarantine.antt =====
-- The quarantine of src/backend/windows/iocp_worker.cpp: the memory of a finished request waits for a
-- second before it can be used anew.
pub mod Laws
pub mod Kept
use ayafileio.Base.{
  ℕ, ◌+◌, ◌-◌, ◌*◌, ◌/◌, ◌%◌, ◌^◌, Bool, true, false, List, [], ◌∷◌, ◌++◌, Option, none, some, ltb,
  leb, ◌==◌, if◌then◌else◌,
}
use ayafileio.Core.Request.{IoRequest}
use ayafileio.Backend.Iocp.{
  IocpRequest, QuarantineEntry, Thread, QuarantineStats, Iocp, iocp_req_free_impl, find_request,
  put_request,
}

abbrev pub quarantine_ms : ℕ
quarantine_ms = 1000

-- nanoseconds of a millisecond
abbrev pub ms : ℕ
ms = 1000000

-- INFINITE of the Windows API, the largest DWORD
abbrev pub infinite : ℕ
infinite = 4294967295

unfoldable pub note_push : QuarantineStats → QuarantineStats
note_push s =
    let live = (s.live + 1) % 2 ^ 64 in
    record s {
      live = live;
      pushes = (s.pushes + 1) % 2 ^ 64;
      peak = if ltb s.peak live then live else s.peak;
    }

-- `now - when >= milliseconds(quarantine_ms)`
abbrev pub expired : ℕ → QuarantineEntry → Bool
expired now e = leb (quarantine_ms * ms) (now - e.when)

-- The loop of `quarantine_drain`, with `expired` counted.
unfoldable pub drain_loop : ℕ → List QuarantineEntry → Thread → ℕ → Thread × ℕ
drain_loop now [] t count = (record t { quarantine = [] }, count)
drain_loop now (e ∷ es) t count =
    let rest =
      drain_loop now es (record t { memory = iocp_req_free_impl t.memory e.request }) (count + 1) in
    if expired now e then rest else (record t { quarantine = e ∷ es }, count)

unfoldable pub quarantine_drain : ℕ → Thread × QuarantineStats → Thread × QuarantineStats
quarantine_drain now (t, s) =
    let (t', count) = drain_loop now t.quarantine t 0 in
    (
      t',
      record s {
        live = (s.live + 2 ^ 64 - count % 2 ^ 64) % 2 ^ 64;
        scanned = (s.scanned + count) % 2 ^ 64;
        drains = (s.drains + 1) % 2 ^ 64;
      },
    )

unfoldable pub quarantine_push : ℕ → ℕ → Thread × QuarantineStats → Thread × QuarantineStats
quarantine_push now a (t, s) =
    quarantine_drain now (
      record t { quarantine = t.quarantine ++ record { request = a; when = now } ∷ [] },
      note_push s,
    )

-- The milliseconds to wait for the front of the queue, in a DWORD.
unfoldable pub quarantine_timeout : ℕ → List QuarantineEntry → ℕ
quarantine_timeout now [] = infinite
quarantine_timeout now (e ∷ es) =
    let deadline = e.when + quarantine_ms * ms in
    let remaining = (deadline - now) / ms in
    if leb deadline now then 0 else (if ltb remaining 1 then 1 else remaining) + 1

-- `request->reaped.exchange(true)`, and the push of the one that comes first
unfoldable pub release_request : {W : Type 0} → Iocp W → ℕ → IocpRequest → Iocp W
release_request i now r =
    let (t, s) = quarantine_push now r.request.address (i.here, i.stats) in
    let marked =
      put_request (record r { request = record (r.request) { reaped = true } }) i.requests in
    if r.request.reaped then i else record i { requests = marked; here = t; stats = s }

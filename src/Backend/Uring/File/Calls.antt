-- ===== src/Backend/Uring/File/Calls.antt =====
-- The history of a file of src/backend/linux/io_uring_backend.cpp: calls, and completions that its
-- reaper handles, in any order.
use ayafileio.Base.{ℕ, List, [], ◌∷◌, ℤ}
use ayafileio.Core.Result.{Result, ok, throws}
use ayafileio.Core.Buffer.{Buffer}
use ayafileio.Platform.NativeFile.{Kernel}
use ayafileio.Backend.Uring.File.{UringFile, Env, reap}
use ayafileio.Backend.Uring.File.Methods.{
  read_file, read_at, write_file, seek_file, flush_file, tell_file, truncate_file, readinto_file,
  close_file,
}

pub data Call : Type 0 where
  reads : ℤ → Call
  reads_at : (offset size : ℤ) → Call
  writes : Buffer → ℤ → Call
  seeks : (offset whence : ℤ) → Call
  flushes tells : Call
  truncates : ℤ → Call
  reads_into : Buffer → Call
  closes : List (ℕ × ℤ) → Call

pub data Action : Type 0 where
  calls : (op : ℕ) → Env → Call → Action
  reaps : ℕ → ℤ → Action

-- A call that returns was accepted.
abbrev pub accepted : Result (Unit {0}) → ℕ → List ℕ → List ℕ
accepted (ok u) op acc = op ∷ acc
accepted (throws e) op acc = acc

module _ {W : Type 0} (k : Kernel W) where
  unfoldable pub call : UringFile W → ℕ → Env → Call → Result (Unit {0}) × UringFile W
  call t op env (reads size) = read_file k t size op env
  call t op env (reads_at offset size) = read_at k t offset size op env
  call t op env (writes view position) = write_file k t view position op env
  call t op env (seeks offset whence) = (ok tt, seek_file k t offset whence op)
  call t op env flushes = flush_file k t op env
  call t op env tells = (ok tt, tell_file k t op)
  call t op env (truncates size) = (ok tt, truncate_file k t size op)
  call t op env (reads_into buffer) = readinto_file k t buffer op env
  call t op env (closes waited) = (ok tt, close_file k t waited op)

  -- The file, and the operations of the calls that returned.
  unfoldable pub run_actions : UringFile W → List ℕ → List Action → UringFile W × List ℕ
  run_actions t acc [] = (t, acc)
  run_actions t acc (calls op env c ∷ actions) =
      let (result, u) = call t op env c in run_actions u (accepted result op acc) actions
  run_actions t acc (reaps i result ∷ actions) = run_actions (reap k t i result) acc actions

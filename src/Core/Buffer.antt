-- ===== src/Core/Buffer.antt =====
-- src/core/buffer.hpp and buffer.cpp: a buffer that owns pooled, allocated or foreign memory. A
-- method returns the buffer beside the list of what it gave back; addresses, owners and handles are
-- numbers, and what `malloc` returns is an argument. `pool_release` of the thread's cache is
-- BufferPool's; here it is the effect that the buffer asks for.
use ayafileio.Base.{ℕ, Bool, true, false, List, [], ◌∷◌, ◌++◌, Option, none, some}
use ayafileio.Core.Result.{Result, ok, throws, bad_alloc}
use ayafileio.Core.BufferPool.{PoolBuf, Caches, pool_acquire_with_size}

pub record Buffer : Type 0 where
  pub address : Option ℕ
  pub size : ℕ
  pub pooled : Option PoolBuf
  pub heap_owned : Bool
  pub owner : Option ℕ
  pub result_handle : Option ℕ

-- What a buffer gives back.
pub data Effect : Type 0 where
  returns : PoolBuf → Effect  -- pool_release
  frees : Option ℕ → Effect  -- std::free
  drops : ℕ → Effect  -- one reference to an owner
  deletes_shell : Effect  -- delete of a PoolBuf whose memory was taken out

-- `Buffer{}`
abbrev pub no_buffer : Buffer
no_buffer = record {
  address = none;
  size = 0;
  pooled = none;
  heap_owned = false;
  owner = none;
  result_handle = none;
}

abbrev pub is_set : Buffer → Bool
is_set b = elim b.address [ none ↦ false | some _ ↦ true ]

abbrev pub has_result : Buffer → Bool
has_result b = elim b.result_handle [ none ↦ false | some _ ↦ true ]

unfoldable pub pool : Caches → ℕ → Option ℕ → Result Buffer × Caches
pool c size malloc =
    let (got, c') = pool_acquire_with_size c size malloc in
    (
      elim got [
        | ok b ↦ ok (record no_buffer { address = some b.address; size = b.size; pooled = some b })
        | throws e ↦ throws e
      ],
      c',
    )

unfoldable pub heap : ℕ → Option ℕ → Result Buffer
heap size none = throws bad_alloc
heap size (some a) = ok (record no_buffer { address = some a; size = size; heap_owned = true })

unfoldable pub external : Option ℕ → ℕ → Option ℕ → Option ℕ → Buffer
external address size owner result_handle = record no_buffer {
  address = address;
  size = size;
  owner = owner;
  result_handle = result_handle;
}

abbrev pub drop_owner : Option ℕ → List Effect
drop_owner none = []
drop_owner (some o) = drops o ∷ []

abbrev pub give_back : Option PoolBuf → Bool → Option ℕ → List Effect
give_back (some b) heap_owned address = returns b ∷ []
give_back none true address = frees address ∷ []
give_back none false address = []

-- `reset`, which the destructor calls
unfoldable pub reset : Buffer → List Effect × Buffer
reset b = (give_back b.pooled b.heap_owned b.address ++ drop_owner b.owner, no_buffer)

-- The move constructor: what was moved, and what is left of the source.
unfoldable pub move : Buffer → Buffer × Buffer
move b = (b, no_buffer)

-- Move assignment between two objects: the target, the source, and what the target gave back.
unfoldable pub move_assign : Buffer → Buffer → Buffer × Buffer × List Effect
unfolding reset
move_assign target source = (source, no_buffer, (reset target).0)

abbrev pub take_out : Option PoolBuf → List Effect
take_out none = []
take_out (some _) = deletes_shell ∷ []

-- `release_ownership`: the address goes to the caller, and only the shell and the owner go.
unfoldable pub release_ownership : Buffer → Option ℕ × List Effect × Buffer
release_ownership b = (b.address, take_out b.pooled ++ drop_owner b.owner, no_buffer)

-- ===== src/Handles/Pool.antt =====
-- odpi/src/dpiHandlePool.c. Each function runs under the pool's mutex, and so is one step. A slot
-- is `none` for NULL. Whether an allocation succeeds is an argument.
use godror.Base.{
  ℕ, ◌+◌, Bool, Option, none, List, ◌++◌, ◌==◌, ltb, not, if◌then◌else◌, get_or, set, replicate,
  Result, ok, err, no_memory,
}
use godror.Handles.Cursor.{next_slot}

pub record HandlePool : Type 0 where
  pub handles : List (Option ℕ)
  pub num_slots : ℕ
  pub num_used_slots : ℕ
  pub acquire_pos : ℕ
  pub release_pos : ℕ

-- a new array of `numSlots + 8` cleared slots, with the old ones copied into it
abbrev pub grow : HandlePool → HandlePool
grow p = record p { handles = p.handles ++ replicate 8 none; num_slots = p.num_slots + 8 }

-- `dpiHandlePool__acquire`, given whether an allocation succeeds. The handle is `none` where the
-- caller has to make a new one.
unfoldable pub acquire : Bool → HandlePool → Result (Option ℕ) × HandlePool
acquire allocates p =
    let used = record p { num_used_slots = p.num_used_slots + 1 } in
    if not (p.acquire_pos == p.release_pos)
    then (
      ok (get_or p.handles p.acquire_pos none),
      record p {
        handles = set p.handles p.acquire_pos none;
        acquire_pos = next_slot p.num_slots p.acquire_pos;
      },
    )
    else if not (ltb p.num_slots (p.num_used_slots + 1))
    then (ok none, used)
    else if allocates
    then (ok none, grow used)
    else (err no_memory, used)

-- `dpiHandlePool__create`, given whether its two allocations succeed
unfoldable pub create : Bool → Bool → Result HandlePool
create allocates_pool allocates_slots =
    if not allocates_pool
    then err no_memory
    else if not allocates_slots
    then err no_memory
    else ok (record {
      handles = replicate 8 none;
      num_slots = 8;
      num_used_slots = 0;
      acquire_pos = 0;
      release_pos = 0;
    })

-- `dpiHandlePool__release`: the pool, and the caller's handle, which is made NULL
unfoldable pub release : HandlePool → Option ℕ → HandlePool × Option ℕ
release p handle = (
  record p {
    handles = set p.handles p.release_pos handle;
    release_pos = next_slot p.num_slots p.release_pos;
  },
  none,
)

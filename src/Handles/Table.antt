-- ===== src/Handles/Table.antt =====
-- odpi/src/dpiHandleList.c. Each function runs under the list's mutex, and so is one step. A slot
-- is `none` for NULL. Whether an allocation succeeds is an argument.
use godror.Base.{
  ℕ, zero, suc, ◌+◌, ◌-◌, Bool, true, false, Option, none, some, List, ◌++◌, ◌==◌, not,
  if◌then◌else◌, get_or, set, replicate, Result, ok, err, no_memory,
}
use godror.Handles.Cursor.{next_slot}

pub record HandleList : Type 0 where
  pub handles : List (Option ℕ)
  pub num_slots : ℕ
  pub num_used_slots : ℕ
  pub current_pos : ℕ

abbrev pub is_free : Option ℕ → Bool
is_free none = true
is_free (some h) = false

-- The loop that looks for an empty slot, `rounds` of it left: where `currentPos` stands in the end.
unfoldable pub find_slot : ℕ → List (Option ℕ) → ℕ → ℕ → ℕ
find_slot zero handles n pos = pos
find_slot (suc rounds) handles n pos =
    let rest = find_slot rounds handles n (next_slot n pos) in
    if is_free (get_or handles pos none) then pos else rest

-- `dpiHandleList__addHandle`, given whether an allocation succeeds: the slot, and the list.
unfoldable pub add_handle : Bool → HandleList → Option ℕ → Result ℕ × HandleList
unfolding find_slot
add_handle allocates l handle =
    let slot = find_slot l.num_slots l.handles l.num_slots l.current_pos in
    if l.num_used_slots == l.num_slots
    then if allocates
      then (
        ok l.num_used_slots,
        record {
          handles = set (l.handles ++ replicate 8 none) l.num_used_slots handle;
          num_slots = l.num_slots + 8;
          num_used_slots = l.num_used_slots + 1;
          current_pos = l.num_used_slots + 1;
        },
      )
      else (err no_memory, l)
    else (
      ok slot,
      record l {
        handles = set l.handles slot handle;
        num_used_slots = l.num_used_slots + 1;
        current_pos = next_slot l.num_slots slot;
      },
    )

-- `dpiHandleList__create`, given whether its two allocations succeed
unfoldable pub create_list : Bool → Bool → Result HandleList
create_list allocates_list allocates_slots =
    if not allocates_list
    then err no_memory
    else if not allocates_slots
    then err no_memory
    else ok
        (record { handles = replicate 8 none; num_slots = 8; num_used_slots = 0; current_pos = 0 })

-- `dpiHandleList__removeHandle`; the count is a `uint32_t`
unfoldable pub remove_handle : HandleList → ℕ → HandleList
remove_handle l slot = record l {
  handles = set l.handles slot none;
  num_used_slots = if l.num_used_slots == 0 then 4_294_967_295 else l.num_used_slots - 1;
}

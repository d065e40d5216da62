-- ===== src/Stmt/Scroll.antt =====
-- `dpiStmt_scroll` of odpi/src/dpiStmt.c.
use godror.Base.{
  ℕ, zero, suc, ◌+◌, ◌-◌, ◌%◌, Bool, true, false, ◌&&◌, not, Option, none, some, ltb, leb,
  if◌then◌else◌, ℤ, pos, negsuc, pos_part, neg_part, not_supported, scroll_out_of_rs,
}
use godror.Stmt.State.{
  FetchMode, fetch_next, fetch_first, fetch_last, fetch_prior, fetch_absolute, fetch_relative, Oci,
  Stmt, Action, ◌>>=◌, ◌>>◌, fail, get_stmt, get_cursor, update,
}
use godror.Stmt.Fetch.{attr_get, check, before_fetch, stmt_fetch2, post_fetch}

-- `uint64_t` arithmetic with a signed operand
unfoldable pub add_u64 : ℕ → ℤ → ℕ
add_u64 n k = (n + pos_part k + (18446744073709551616 - neg_part k)) % 18446744073709551616

-- `(int32_t) n` of a `uint64_t`
unfoldable pub to_int32 : ℕ → ℤ
to_int32 n =
    let low = n % 4294967296 in if ltb low 2147483648 then pos low else negsuc (4294967295 - low)

-- `desiredRow`
unfoldable pub desired_row : FetchMode → ℤ → ℤ → Stmt → ℕ
desired_row fetch_next offset count_offset s = add_u64 (add_u64 s.row_count count_offset) (pos 1)
desired_row fetch_prior offset count_offset s =
    add_u64 (add_u64 s.row_count count_offset) (negsuc 0)
desired_row fetch_first offset count_offset s = 1
desired_row fetch_last offset count_offset s = 0
desired_row fetch_absolute offset count_offset s = add_u64 0 offset
desired_row fetch_relative offset count_offset s = add_u64 (add_u64 s.row_count count_offset) offset

-- the last row of the buffer, `stmt->bufferMinRow + stmt->bufferRowCount - 1`
unfoldable pub last_row : Stmt → ℕ
last_row s = (s.buffer_min_row + s.buffer_row_count + 18446744073709551615) % 18446744073709551616

-- the offset that is passed to OCI
unfoldable pub fetch_offset : FetchMode → ℤ → ℕ → Stmt → ℤ
fetch_offset fetch_relative offset desired s =
    to_int32 ((desired + (18446744073709551616 - last_row s)) % 18446744073709551616)
fetch_offset mode offset desired s = offset

abbrev pub is_last : FetchMode → Bool
is_last fetch_last = true
is_last mode = false

abbrev pub is_first : FetchMode → Bool
is_first fetch_first = true
is_first mode = false

-- `desiredRow` is in the buffer
unfoldable pub in_buffer : ℕ → Stmt → Bool
in_buffer desired s =
    leb s.buffer_min_row desired
    && ltb desired ((s.buffer_min_row + s.buffer_row_count) % 18446744073709551616)

-- the move within the buffer
unfoldable pub move_to : ℕ → Stmt → Stmt
move_to desired s = record s {
  buffer_row_index = (desired - s.buffer_min_row) % 4294967296;
  row_count = (desired + 18446744073709551615) % 18446744073709551616;
}

module _ {C : Type 0} (o : Oci C) where
  -- what follows the fetch: the rows that it brought
  unfoldable pub place_rows : FetchMode → ℕ → Action C (Unit {0})
  place_rows mode zero =
      if not (is_first mode) && not (is_last mode)
      then fail scroll_out_of_rs
      else update (λ s. record s {
        has_rows_to_fetch = false;
        row_count = 0;
        buffer_row_index = 0;
        buffer_min_row = 0;
      })
  place_rows mode (suc n) = do
    c ← get_cursor
    position ← attr_get (o.current_position c)
    let count = (position + (4294967296 - suc n)) % 4294967296
    update (λ s. record s { row_count = count; buffer_min_row = count + 1; buffer_row_index = 0 })
    post_fetch o

  -- the fetch for a row that is not in the buffer
  unfoldable pub scroll_fetch : FetchMode → ℤ → Action C (Unit {0})
  scroll_fetch mode offset = do
    before_fetch o
    s ← get_stmt
    stmt_fetch2 o (if is_last mode then 1 else s.fetch_array_size) mode offset
    c ← get_cursor
    n ← attr_get (o.rows_fetched c)
    update (λ s. record s { buffer_row_count = n })
    place_rows mode n

  -- `dpiStmt_scroll` in a valid mode, on an open statement
  unfoldable pub scroll_to : FetchMode → ℤ → ℤ → Action C (Unit {0})
  scroll_to mode offset count_offset = do
    s ← get_stmt
    let desired = desired_row mode offset count_offset s
    if not (is_last mode) && in_buffer desired s
        then update (move_to desired)
        else scroll_fetch mode (fetch_offset mode offset desired s)

  abbrev pub scroll_mode : Option FetchMode → ℤ → ℤ → Action C (Unit {0})
  scroll_mode none offset count_offset = fail not_supported
  scroll_mode (some mode) offset count_offset = scroll_to mode offset count_offset

  -- `dpiStmt_scroll`; the mode is `none` for a value that is no `dpiFetchMode`
  unfoldable pub scroll : Option FetchMode → ℤ → ℤ → Action C (Unit {0})
  scroll mode offset count_offset = do check; scroll_mode mode offset count_offset

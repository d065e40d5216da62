-- ===== src/Stmt/Positions.antt =====
-- Scrolling within the buffer: `dpiStmt_scroll`.
use godror.Base.{
  ℕ, ◌+◌, ◌-◌, ◌%◌, ◌<◌, ◌≤◌, ◌≡◌, refl, ap, ◌∙◌, true, false, ◌&&◌, some, ltb, leb, ℤ, Result, ok,
  arith,
}
use godror.Stmt.State.{FetchMode, Oci, Session, update}
use godror.Stmt.Fetch.{refill, take_row, fetch}
use godror.Stmt.Scroll.{desired_row, in_buffer, is_last, move_to, scroll_to, scroll}
use godror.Stmt.Refill.{check_open}

module _ {C : Type 0} (o : Oci C) where
  -- what a scroll within the buffer and the fetch after it leave
  pub record Moved (s : Session C) (row : ℕ) (r : Result (Unit {0}) × Session C) : Type 0 where
    pub done : r.0 ≡ ok tt
    pub same_cursor : r.1.cursor ≡ s.cursor
    pub fetched :
        (fetch o r.1).0
        ≡ ok (record { found = true; buffer_row_index = row - s.stmt.buffer_min_row })
    pub counted : (fetch o r.1).1.stmt.row_count ≡ row
    pub still : (fetch o r.1).1.cursor ≡ s.cursor

  -- a fetch that finds its row in the buffer
  fetch_buffered :
      (q : Session C)
      → q.stmt.is_open ≡ true
      → q.stmt.buffer_row_index < q.stmt.buffer_row_count
      → fetch o q ≡ (
        ok (record { found = true; buffer_row_index = q.stmt.buffer_row_index }),
        record q {
          stmt = record (q.stmt) {
            buffer_row_index = q.stmt.buffer_row_index + 1;
            row_count = q.stmt.row_count + 1;
          };
        },
      )
  unfolding fetch refill take_row
  fetch_buffered q h lt =
      let full : leb q.stmt.buffer_row_count q.stmt.buffer_row_index ≡ false = ground arith in
      rw (check_open q h, full, full) refl

  move_to-Moved :
      (s : Session C) (row : ℕ)
      → s.stmt.is_open ≡ true
      → 1 ≤ s.stmt.buffer_min_row
      → s.stmt.buffer_min_row ≤ row
      → row < s.stmt.buffer_min_row + s.stmt.buffer_row_count
      → s.stmt.buffer_row_count < 4294967296
      → s.stmt.buffer_min_row + s.stmt.buffer_row_count < 18446744073709551616
      → Moved s row (update (move_to row) s)
  unfolding move_to
  move_to-Moved s row h one le lt count bound =
      let index : (row - s.stmt.buffer_min_row) % 4294967296 ≡ row - s.stmt.buffer_min_row =
        omega arith in
      let before : (row + 18446744073709551615) % 18446744073709551616 ≡ row - 1 = omega arith in
      let next =
        fetch_buffered
          (record s {
            stmt = record (s.stmt) {
              buffer_row_index = row - s.stmt.buffer_min_row;
              row_count = row - 1;
            };
          })
          h (omega arith) in
      rw (index, before)
        (record {
          done = refl;
          same_cursor = refl;
          fetched = ap (λ p. p.0) next;
          counted = ap (λ p. p.1.stmt.row_count) next ∙ omega arith;
          still = ap (λ p. p.1.cursor) next;
        })

  -- Scrolling, not to the last row, to a row that is in the buffer of an open statement succeeds
  -- and does not touch the cursor, and the next fetch takes the row from the buffer, does not touch
  -- the cursor either, and counts up to that row; the sizes are those of the C types.
  pub scroll-Moved :
      (s : Session C) (mode : FetchMode) (offset count_offset : ℤ) (row : ℕ)
      → s.stmt.is_open ≡ true
      → is_last mode ≡ false
      → desired_row mode offset count_offset s.stmt ≡ row
      → 1 ≤ s.stmt.buffer_min_row
      → s.stmt.buffer_min_row ≤ row
      → row < s.stmt.buffer_min_row + s.stmt.buffer_row_count
      → s.stmt.buffer_row_count < 4294967296
      → s.stmt.buffer_min_row + s.stmt.buffer_row_count < 18446744073709551616
      → Moved s row (scroll o (some mode) offset count_offset s)
  unfolding scroll scroll_to in_buffer
  scroll-Moved s mode offset count_offset row h last desired one le lt count bound =
      let inside : (leb s.stmt.buffer_min_row row
            && ltb row ((s.stmt.buffer_min_row + s.stmt.buffer_row_count) % 18446744073709551616))
          ≡ true =
        ground arith in
      rw (check_open s h, last, desired, inside) (move_to-Moved s row h one le lt count bound)

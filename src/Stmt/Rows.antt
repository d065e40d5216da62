-- ===== src/Stmt/Rows.antt =====
-- Fetching delivers every row of a query once, in order: `dpiStmt_fetch` and `dpiStmt_fetchRows`.
use godror.Base.{
  ℕ, ◌+◌, ◌-◌, ◌<◌, ◌≤◌, ◌≡◌, refl, true, false, Bool-cases, inl, inr, ltb, leb, if◌then◌else◌,
  Result, ok, arith,
}
use godror.Stmt.State.{Oci, Session}
use godror.Stmt.Fetch.{Fetched, Rows, take_row, take_rows, fetch, fetch_rows}
use godror.Stmt.Refill.{check_open, IsForward, IsFetching, refill-Refilled}

module _ {C : Type 0} (o : Oci C) (remaining : C → ℕ) where
  -- what a fetch of a row leaves
  pub record Took (total : ℕ) (s : Session C) (r : Result Fetched × Session C) : Type 0 where
    pub fetched : Fetched
    pub done : r.0 ≡ ok fetched
    pub fetching : IsFetching o remaining total r.1
    -- a row is found just if one is left
    pub found : fetched.found ≡ ltb s.stmt.row_count total
    pub counted : r.1.stmt.row_count ≡ (if fetched.found then s.stmt.row_count + 1 else total)
    -- the position handed over is that of the next row
    pub place :
        fetched.found ≡ true
        → r.1.stmt.buffer_min_row + fetched.buffer_row_index ≡ s.stmt.row_count + 1

  -- Rows of the buffer are handed over.
  advanced-IsFetching :
      (total k : ℕ) (q : Session C)
      → IsFetching o remaining total q
      → k ≤ q.stmt.buffer_row_count - q.stmt.buffer_row_index
      → q.stmt.buffer_row_index < q.stmt.buffer_row_count
      → IsFetching o remaining total (record q {
        stmt = record (q.stmt) {
          buffer_row_index = q.stmt.buffer_row_index + k;
          row_count = q.stmt.row_count + k;
        };
      })
  advanced-IsFetching total k q h le lt = record {
    open_stmt = h.open_stmt;
    described = h.described;
    size = h.size;
    vars = h.vars;
    counted = omega (arith, h.counted);
    ended = h.ended;
    placed = λ p. omega (arith, h.placed lt);
  }

  take_row-Took :
      (total : ℕ) (s q : Session C)
      → IsFetching o remaining total q
      → q.stmt.row_count ≡ s.stmt.row_count
      → (q.stmt.buffer_row_count ≤ q.stmt.buffer_row_index → remaining q.cursor ≡ 0)
      → Took total s (take_row q)
  unfolding take_row
  take_row-Took total s q h c k =
      elim (Bool-cases (leb q.stmt.buffer_row_count q.stmt.buffer_row_index)) [
        | inl empty ↦ rw empty (record {
          fetched = record { found = false; buffer_row_index = 0 };
          done = refl;
          fetching = h;
          found = ground (arith, h.counted, c, k);
          counted = ground (arith, h.counted, c, k);
          place = λ p. ground arith;
        })
        | inr full ↦ rw full (record {
          fetched = record { found = true; buffer_row_index = q.stmt.buffer_row_index };
          done = refl;
          fetching = advanced-IsFetching total 1 q h (ground arith) (ground arith);
          found = ground (arith, h.counted, c);
          counted = omega (arith, c);
          place = λ p. ground (arith, h.placed, c);
        })
      ]

  -- Fetching a row from a statement that is in the course of fetching `total` rows, where OCI hands
  -- rows over in order and no variable fails, succeeds and leaves the statement in that course; it
  -- finds a row just if fewer than `total` have been handed over, then counts it and points to its
  -- place in the buffer, and otherwise all of them are counted.
  pub fetch-Took :
      (total : ℕ) (s : Session C)
      → IsForward o remaining
      → IsFetching o remaining total s
      → Took total s (fetch o s)
  unfolding fetch
  fetch-Took total s f h =
      let r = refill-Refilled o remaining total s f h in
      rw (check_open s h.open_stmt, r.done)
        (take_row-Took total s _ r.fetching r.same_count r.no_rows)

  -- what a fetch of at most `max_rows` rows leaves
  pub record TookRows (total max_rows : ℕ) (s : Session C) (r : Result Rows × Session C)
      : Type 0 where
    pub rows : Rows
    pub done : r.0 ≡ ok rows
    pub fetching : IsFetching o remaining total r.1
    pub bounded : rows.num_rows_fetched ≤ max_rows
    pub counted : r.1.stmt.row_count ≡ s.stmt.row_count + rows.num_rows_fetched
    -- Some row is handed over where one was asked for and one is left.
    pub progress : 0 < max_rows → s.stmt.row_count < total → 0 < rows.num_rows_fetched
    -- Where no more rows are announced, all of them have been handed over.
    pub complete : rows.more_rows ≡ false → r.1.stmt.row_count ≡ total
    -- the position handed over is that of the next row
    pub place :
        0 < rows.num_rows_fetched
        → r.1.stmt.buffer_min_row + rows.buffer_row_index ≡ s.stmt.row_count + 1

  take_rows-TookRows :
      (total max_rows : ℕ) (s q : Session C)
      → IsFetching o remaining total q
      → q.stmt.row_count ≡ s.stmt.row_count
      → (q.stmt.buffer_row_count ≤ q.stmt.buffer_row_index → remaining q.cursor ≡ 0)
      → TookRows total max_rows s (take_rows max_rows q)
  unfolding take_rows
  take_rows-TookRows total max_rows s q h c k =
      elim (Bool-cases (leb q.stmt.buffer_row_count q.stmt.buffer_row_index)) [
        | inl empty ↦ rw empty (record {
          rows = record { buffer_row_index = 0; num_rows_fetched = 0; more_rows = false };
          done = refl;
          fetching = h;
          bounded = omega arith;
          counted = omega (arith, c);
          progress = λ p l. ground (arith, h.counted, c, k);
          complete = λ p. ground (arith, h.counted, c, k);
          place = λ p. absurd (omega arith);
        })
        | inr full ↦ rw full (record {
          rows = _;
          done = refl;
          fetching = advanced-IsFetching total _ q h (ground arith) (ground arith);
          bounded = ground arith;
          counted = omega (arith, c);
          progress = λ p l. ground arith;
          complete = λ p. ground (arith, h.counted, c, h.ended);
          place = λ p. ground (arith, h.placed, c);
        })
      ]

  -- Fetching at most `max_rows` rows from a statement that is in the course of fetching `total`
  -- rows, where OCI hands rows over in order and no variable fails, succeeds and leaves the statement
  -- in that course; it hands over at most `max_rows` rows and counts them, starting from the next row,
  -- at least one where one was asked for and is left, and says that there are no more rows only
  -- where all `total` are counted.
  pub fetch_rows-TookRows :
      (total max_rows : ℕ) (s : Session C)
      → IsForward o remaining
      → IsFetching o remaining total s
      → TookRows total max_rows s (fetch_rows o max_rows s)
  unfolding fetch_rows
  fetch_rows-TookRows total max_rows s f h =
      let r = refill-Refilled o remaining total s f h in
      rw (check_open s h.open_stmt, r.done)
        (take_rows-TookRows total max_rows s _ r.fetching r.same_count r.no_rows)

-- ===== src/Stmt/Fetch.antt =====
-- `dpiStmt__createQueryVars`, `dpiStmt__beforeFetch`, `dpiStmt__fetch`, `dpiStmt__postFetch`,
-- `dpiStmt_fetch`, `dpiStmt_fetchRows` and `dpiStmt_setFetchArraySize` of odpi/src/dpiStmt.c, and
-- `dpiOci__stmtFetch2` of odpi/src/dpiOci.c.
use godror.Base.{
  ℕ, ◌+◌, ◌-◌, Bool, true, false, ◌&&◌, ◌||◌, not, Option, none, some, List, [], ◌∷◌, ◌==◌, ltb,
  leb, if◌then◌else◌, length, replicate, ℤ, pos, Result, ok, err, oci, array_size_too_small,
  array_size_too_big, stmt_closed,
}
use godror.Stmt.State.{
  FetchMode, fetch_next, fetch_last, Status, success, no_data, error, Oci, Action, ◌>>=◌, ◌>>◌,
  return, fail, get_stmt, get_cursor, update,
}

-- DPI_DEFAULT_FETCH_ARRAY_SIZE
abbrev pub default_fetch_array_size : ℕ
default_fetch_array_size = 100

-- what `dpiStmt_fetch` and `dpiStmt_fetchRows` return by their pointers
pub record Fetched : Type 0 where
  pub found : Bool
  pub buffer_row_index : ℕ

pub record Rows : Type 0 where
  pub buffer_row_index : ℕ
  pub num_rows_fetched : ℕ
  pub more_rows : Bool

-- a variable that is there cannot hold `n` rows
unfoldable pub is_too_small : ℕ → List (Option ℕ) → Bool
is_too_small n [] = false
is_too_small n (none ∷ vars) = is_too_small n vars
is_too_small n (some size ∷ vars) = ltb size n || is_too_small n vars

module _ {C : Type 0} where
  -- `if (test) return dpiError__set(...)`
  abbrev pub fail_when : Bool → Result (Unit {0}) → Action C (Unit {0})
  fail_when b r s = if b then (r, s) else (ok tt, s)

  -- an attribute of the statement handle
  abbrev pub attr_get : Option ℕ → Action C ℕ
  attr_get none s = (err oci, s)
  attr_get (some n) s = (ok n, s)

  -- `dpiStmt__check` on a statement that is initialised and whose connection is up
  unfoldable pub check : Action C (Unit {0})
  check s = if s.stmt.is_open then (ok tt, s) else (err stmt_closed, s)

  -- `dpiStmt_setFetchArraySize`
  unfoldable pub set_fetch_array_size : ℕ → Action C (Unit {0})
  unfolding check is_too_small
  set_fetch_array_size n = do
    check
    s ← get_stmt
    let size = if n == 0 then default_fetch_array_size else n
    fail_when (is_too_small size s.query_vars) (err array_size_too_big)
    update (λ s. record s { fetch_array_size = size })

  -- the end of `dpiStmt_fetch`
  unfoldable pub take_row : Action C Fetched
  take_row s =
      if leb s.stmt.buffer_row_count s.stmt.buffer_row_index
      then (ok (record { found = false; buffer_row_index = 0 }), s)
      else (
        ok (record { found = true; buffer_row_index = s.stmt.buffer_row_index }),
        record s {
          stmt = record (s.stmt) {
            buffer_row_index = s.stmt.buffer_row_index + 1;
            row_count = s.stmt.row_count + 1;
          };
        },
      )

  -- the end of `dpiStmt_fetchRows`
  unfoldable pub take_rows : ℕ → Action C Rows
  take_rows max_rows s =
      let available = s.stmt.buffer_row_count - s.stmt.buffer_row_index in
      let limited = ltb max_rows available in
      let taken = if limited then max_rows else available in
      if leb s.stmt.buffer_row_count s.stmt.buffer_row_index
      then (ok (record { buffer_row_index = 0; num_rows_fetched = 0; more_rows = false }), s)
      else (
        ok (record {
          buffer_row_index = s.stmt.buffer_row_index;
          num_rows_fetched = taken;
          more_rows = limited || s.stmt.has_rows_to_fetch;
        }),
        record s {
          stmt = record (s.stmt) {
            buffer_row_index = s.stmt.buffer_row_index + taken;
            row_count = s.stmt.row_count + taken;
          };
        },
      )

module _ {C : Type 0} (o : Oci C) where
  -- space for `n` query variables, where their number has changed; the previous ones are cleared first
  unfoldable pub renew_query_vars : C → ℕ → Action C (Unit {0})
  renew_query_vars c n s =
      let cleared = record (s.stmt) { query_vars = []; has_query_info = false } in
      if n == length s.stmt.query_vars then (ok tt, s) else elim (o.describe c) [
        | err e ↦ (err e, record s { stmt = cleared })
        | ok u ↦ (
          ok tt,
          record s {
            stmt = record cleared { query_vars = replicate n none; has_query_info = true };
          },
        )
      ]

  -- `dpiStmt__createQueryVars`
  unfoldable pub create_query_vars : Action C (Unit {0})
  unfolding renew_query_vars
  create_query_vars = do
    c ← get_cursor
    n ← attr_get (o.param_count c)
    renew_query_vars c n
    update (λ s. record s { buffer_row_index = s.fetch_array_size; has_rows_to_fetch = true })

  -- the loop over the variables: what it returns, and the variables after it
  unfoldable pub prepare_vars : C → ℕ → List (Option ℕ) → Result (Unit {0}) × List (Option ℕ)
  prepare_vars c n [] = (ok tt, [])
  prepare_vars c n (none ∷ vars) =
      let (r, rest) = prepare_vars c n vars in
      if not (o.defines c)
      then (err oci, none ∷ vars)
      else if not (o.pre_fetches c)
      then (err oci, some n ∷ vars)
      else (r, some n ∷ rest)
  prepare_vars c n (some size ∷ vars) =
      let (r, rest) = prepare_vars c n vars in
      if ltb size n
      then (err array_size_too_small, some size ∷ vars)
      else if not (o.pre_fetches c)
      then (err oci, some size ∷ vars)
      else (r, some size ∷ rest)

  abbrev pub prepare_all : Action C (Unit {0})
  prepare_all s = (
    (prepare_vars s.cursor s.stmt.fetch_array_size s.stmt.query_vars).0,
    record s {
      stmt = record (s.stmt) {
        query_vars = (prepare_vars s.cursor s.stmt.fetch_array_size s.stmt.query_vars).1;
      };
    },
  )

  -- `dpiStmt__beforeFetch`
  unfoldable pub before_fetch : Action C (Unit {0})
  unfolding create_query_vars
  before_fetch s =
      (if s.stmt.has_query_info then prepare_all else create_query_vars >> prepare_all) s

  -- what `dpiOci__stmtFetch2` does with the status
  abbrev pub after_fetch2 : FetchMode → Status → Action C (Unit {0})
  after_fetch2 mode no_data = update (λ s. record s { has_rows_to_fetch = false })
  after_fetch2 fetch_last status = update (λ s. record s { has_rows_to_fetch = false })
  after_fetch2 mode error = fail oci
  after_fetch2 mode success = update (λ s. record s { has_rows_to_fetch = true })

  -- `dpiOci__stmtFetch2`
  unfoldable pub stmt_fetch2 : ℕ → FetchMode → ℤ → Action C (Unit {0})
  stmt_fetch2 n mode offset s =
      let (status, c) = o.stmt_fetch2 s.cursor n mode offset in
      after_fetch2 mode status (record s { cursor = c })

  -- `dpiStmt__postFetch`
  unfoldable pub post_fetch : Action C (Unit {0})
  post_fetch = do c ← get_cursor; if o.converts c then return tt else fail oci

  -- `dpiStmt__fetch`
  unfoldable pub fetch_buffer : Action C (Unit {0})
  unfolding before_fetch stmt_fetch2 post_fetch
  fetch_buffer = do
    before_fetch
    s ← get_stmt
    stmt_fetch2 s.fetch_array_size fetch_next (pos 0)
    c ← get_cursor
    n ← attr_get (o.rows_fetched c)
    update (λ s. record s {
      buffer_row_count = n;
      buffer_min_row = s.row_count + 1;
      buffer_row_index = 0;
    })
    post_fetch

  -- `if (stmt->hasRowsToFetch && dpiStmt__fetch(stmt, &error) < 0)` under the test for an empty buffer
  unfoldable pub refill : Action C (Unit {0})
  unfolding fetch_buffer
  refill s =
      (if leb s.stmt.buffer_row_count s.stmt.buffer_row_index && s.stmt.has_rows_to_fetch
          then fetch_buffer
          else return tt)
        s

  -- `dpiStmt_fetch`; its index is not written where no row is found
  unfoldable pub fetch : Action C Fetched
  fetch = do check; refill; take_row

  -- `dpiStmt_fetchRows`
  unfoldable pub fetch_rows : ℕ → Action C Rows
  fetch_rows max_rows = do check; refill; take_rows max_rows

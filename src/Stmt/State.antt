-- ===== src/Stmt/State.antt =====
-- The fields of a `dpiStmt` that fetching uses, what it calls of OCI, and the steps of its functions.
use godror.Base.{ℕ, ℤ, Bool, Option, List, Result, ok, err, Error}

-- dpiFetchMode
pub data FetchMode : Type 0 where
  fetch_next fetch_first fetch_last fetch_prior fetch_absolute fetch_relative : FetchMode

-- what OCIStmtFetch2 returns: OCI_SUCCESS, OCI_NO_DATA or an error
pub data Status : Type 0 where
  success no_data error : Status

-- The Oracle client library and the database behind a statement handle, in the state `C`. The
-- conversions of dpiVar.c, `dpiVar__extendedPreFetch` and `dpiVar__getValue`, move data between
-- buffers that are not modelled: only whether they succeed is here.
pub record Oci (C : Type 0) : Type 0 where
  pub stmt_fetch2 : C → ℕ → FetchMode → ℤ → Status × C
  -- the attributes ROWS_FETCHED, CURRENT_POSITION and PARAM_COUNT
  pub rows_fetched : C → Option ℕ
  pub current_position : C → Option ℕ
  pub param_count : C → Option ℕ
  -- whether memory is found for the query variables, and their columns are described
  pub describe : C → Result (Unit {0})
  -- whether a variable can be allocated and defined
  pub defines : C → Bool
  pub pre_fetches : C → Bool
  pub converts : C → Bool

-- A query variable is `none` for NULL, and its `buffer.maxArraySize` otherwise.
pub record Stmt : Type 0 where
  -- `handle`, and that of `parentStmt` where there is one, are not NULL
  pub is_open : Bool
  pub fetch_array_size : ℕ
  pub buffer_row_count : ℕ
  pub buffer_row_index : ℕ
  -- `queryInfo` is not NULL
  pub has_query_info : Bool
  pub query_vars : List (Option ℕ)
  pub row_count : ℕ
  pub buffer_min_row : ℕ
  pub has_rows_to_fetch : Bool

-- the statement and the database
pub record Session (C : Type 0) : Type 0 where
  pub stmt : Stmt
  pub cursor : C

-- A function changes the session also where it fails.
abbrev pub Action : Type 0 → Type 0 → Type 0
Action C A = Session C → Result A × Session C

abbrev pub then_with : {C A B : Type 0} → Result A → (A → Action C B) → Action C B
then_with (err e) f s = (err e, s)
then_with (ok a) f s = f a s

infixl 5 ◌>>=◌
abbrev pub ◌>>=◌ : {C A B : Type 0} → Action C A → (A → Action C B) → Action C B
◌>>=◌ m f s = then_with (m s).0 f (m s).1

infixl 5 ◌>>◌
abbrev pub ◌>>◌ : {C B : Type 0} → Action C (Unit {0}) → Action C B → Action C B
m >> k = m >>= λ u. k

abbrev pub return : {C A : Type 0} → A → Action C A
return a s = (ok a, s)

abbrev pub fail : {C A : Type 0} → Error → Action C A
fail e s = (err e, s)

abbrev pub get_stmt : {C : Type 0} → Action C Stmt
get_stmt s = (ok s.stmt, s)

abbrev pub get_cursor : {C : Type 0} → Action C C
get_cursor s = (ok s.cursor, s)

abbrev pub update : {C : Type 0} → (Stmt → Stmt) → Action C (Unit {0})
update f s = (ok tt, record s { stmt = f s.stmt })

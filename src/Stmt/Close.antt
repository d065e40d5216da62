-- ===== src/Stmt/Close.antt =====
-- `dpiStmt__close` of odpi/src/dpiStmt.c, with its clearing of batch errors and variables and its use
-- of the connection's list of open statements.
use godror.Base.{
  ℕ, Bool, true, false, ◌&&◌, not, Option, none, some, List, [], ◌∷◌, ◌++◌, if◌then◌else◌, Result,
  ok, err, oci,
}
use godror.Handles.Table.{HandleList, remove_handle}

-- The calls that closing makes of other components, in order: a reference released by
-- `dpiGen__setRefCount`, and the calls of OCI for the statement's handle.
pub data Event : Type 0 where
  drop_ref : ℕ → Event
  handle_free stmt_release : Event

-- The fields of a `dpiStmt` that closing uses. References are numbers, and `none` is NULL; a query
-- variable stands with the object type of its column.
pub record Closable : Type 0 where
  pub closing : Bool
  pub num_batch_errors : ℕ
  pub bind_vars : List (Option ℕ)
  pub query_vars : List (Option ℕ × Option ℕ)
  pub last_rowid : Option ℕ
  pub has_handle : Bool
  pub parent_stmt : Option ℕ
  pub is_owned : Bool
  pub open_slot_num : ℕ

-- The fields of its `dpiConn`.
pub record Conn : Type 0 where
  pub dead_session : Bool
  pub has_handle : Bool
  pub closing : Bool
  pub open_stmts : HandleList

pub record Closing : Type 0 where
  pub stmt : Closable
  pub conn : Conn
  pub events : List Event

abbrev pub drop_if : Option ℕ → List Event
drop_if none = []
drop_if (some h) = drop_ref h ∷ []

-- the loops of `dpiStmt__clearBindVars` and `dpiStmt__clearQueryVars`
unfoldable pub drop_bind_vars : List (Option ℕ) → List Event
drop_bind_vars [] = []
drop_bind_vars (var ∷ vars) = drop_if var ++ drop_bind_vars vars

unfoldable pub drop_query_vars : List (Option ℕ × Option ℕ) → List Event
drop_query_vars [] = []
drop_query_vars ((var, object_type) ∷ vars) =
    drop_if var ++ drop_if object_type ++ drop_query_vars vars

-- `dpiStmt__clearBatchErrors`
unfoldable pub clear_batch_errors : Closing → Closing
clear_batch_errors s = record s { stmt = record (s.stmt) { num_batch_errors = 0 } }

-- `dpiStmt__clearBindVars`
unfoldable pub clear_bind_vars : Closing → Closing
clear_bind_vars s = record s {
  stmt = record (s.stmt) { bind_vars = [] };
  events = s.events ++ drop_bind_vars s.stmt.bind_vars;
}

-- `dpiStmt__clearQueryVars`
unfoldable pub clear_query_vars : Closing → Closing
clear_query_vars s = record s {
  stmt = record (s.stmt) { query_vars = [] };
  events = s.events ++ drop_query_vars s.stmt.query_vars;
}

-- the reference to the last rowid
unfoldable pub drop_last_rowid : Closing → Closing
drop_last_rowid s = record s { events = s.events ++ drop_if s.stmt.last_rowid }

-- The handle itself is given up: the status, and what is left. `releases` is whether
-- `dpiOci__stmtRelease` succeeds.
unfoldable pub give_up : Bool → Closing → Bool × Closing
give_up releases s = elim s.stmt.parent_stmt [
  | some parent ↦ (
    true,
    record s {
      stmt = record (s.stmt) { parent_stmt = none };
      events = s.events ++ drop_ref parent ∷ [];
    },
  )
  | none ↦
      if not s.conn.dead_session && s.conn.has_handle
      then if s.stmt.is_owned
        then (true, record s { events = s.events ++ handle_free ∷ [] })
        else (releases, record s { events = s.events ++ stmt_release ∷ [] })
      else (true, s)
]

abbrev pub is_none : Option ℕ → Bool
is_none none = true
is_none (some h) = false

-- the entry in the list of open statements, and the handle
unfoldable pub leave_list : Closing → Closing
leave_list s = record s {
  stmt = record (s.stmt) { has_handle = false };
  conn =
      if not s.conn.closing && is_none s.stmt.parent_stmt
      then record (s.conn) { open_stmts = remove_handle s.conn.open_stmts s.stmt.open_slot_num }
      else s.conn;
}

-- what is done for a statement whose handle is not NULL
unfoldable pub close_handle : Bool → Closing → Bool × Closing
close_handle releases s =
    let (status, next) = give_up releases s in
    if s.stmt.has_handle then (status, leave_list next) else (true, s)

-- the actual work of closing
unfoldable pub close_work : Bool → Closing → Bool × Closing
close_work releases s =
    close_handle releases
      (drop_last_rowid (clear_query_vars (clear_bind_vars (clear_batch_errors s))))

-- `dpiStmt__close`
unfoldable pub close : Bool → Closing → Result (Unit {0}) × Closing
close releases s =
    let (status, next) =
      close_work releases (record s { stmt = record (s.stmt) { closing = true } }) in
    if s.stmt.closing
    then (ok tt, s)
    else if status
    then (ok tt, next)
    else (err oci, record next { stmt = record (next.stmt) { closing = false } })

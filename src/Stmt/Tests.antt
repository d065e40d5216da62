-- ===== src/Stmt/Tests.antt =====
-- A query of five rows behind a scrollable cursor, and the theorems applied to it.
use Prim.Native.Nat.{min}
use godror.Base.{
  ℕ, ◌+◌, ◌-◌, ◌≡◌, refl, ok, ap, true, some, [], ◌∷◌, ltb, if◌then◌else◌, ℤ, pos, pos_part, ◌+ℤ◌,
  err, scroll_out_of_rs, array_size_too_big, arith, ◌≢◌, get_or, none, false,
}
use godror.Handles.Table.{HandleList}
use godror.Handles.Slots.{IsValid}
use godror.Stmt.Close.{Conn, Closing, close}
use godror.Stmt.Closed.{close_leaves_list}
use godror.Stmt.State.{
  Status, success, no_data, FetchMode, fetch_next, fetch_first, fetch_last, fetch_prior,
  fetch_absolute, fetch_relative, Oci, Session,
}
use godror.Stmt.Fetch.{
  set_fetch_array_size, fetch_rows, is_too_small, check, before_fetch, stmt_fetch2, prepare_vars,
}
use godror.Stmt.Scroll.{
  scroll, scroll_to, scroll_fetch, place_rows, fetch_offset, in_buffer, desired_row, add_u64,
}
use godror.Stmt.All.{found_none, fetched_rows, fetched_rows_lem}
use godror.Stmt.Refill.{IsForward, IsFetching}
use godror.Stmt.Rows.{TookRows, fetch_rows-TookRows}
use godror.Stmt.Positions.{Moved, scroll-Moved}
use godror.Stmt.Relative.{scroll_relative}

record Query : Type 0 where
  position : ℕ
  fetched : ℕ

-- the rows from `first` on, at most `n`
abbrev from_row : ℕ → ℕ → Status × Query
from_row first n =
    let rows = min n (6 - first) in
    (
      if ltb (6 - first) n then no_data else success,
      record { position = first - 1 + rows; fetched = rows },
    )

abbrev query_fetch : Query → ℕ → FetchMode → ℤ → Status × Query
query_fetch q n fetch_next k = from_row (q.position + 1) n
query_fetch q n fetch_first k = from_row 1 n
query_fetch q n fetch_last k = from_row 5 n
query_fetch q n fetch_prior k = from_row (q.position - 1) n
query_fetch q n fetch_absolute k = from_row (pos_part k) n
query_fetch q n fetch_relative k = from_row (pos_part (pos q.position +ℤ k)) n

abbrev query : Oci Query
query = record {
  stmt_fetch2 = query_fetch;
  rows_fetched = λ q. some q.fetched;
  current_position = λ q. some q.position;
  param_count = λ q. some 1;
  describe = λ q. ok tt;
  defines = λ q. true;
  pre_fetches = λ q. true;
  converts = λ q. true;
}

abbrev left_of : Query → ℕ
left_of q = 5 - q.position

after_next : (c : Query) → 6 - (c.position + 1) ≡ left_of c
after_next c = omega arith

query-IsForward : IsForward query left_of
query-IsForward = record {
  rows = λ c n. ap (λ r. some (min n r)) (after_next c);
  left = λ c n. omega arith;
  status = λ c n. ap (λ r. if ltb r n then no_data else success) (after_next c);
  defines = λ c. refl;
  pre_fetches = λ c. refl;
  converts = λ c. refl;
}

-- a statement after the fetch of rows 1 and 2, of which one has been handed over
abbrev mid : Session Query
mid = record {
  stmt = record {
    is_open = true;
    fetch_array_size = 2;
    buffer_row_count = 2;
    buffer_row_index = 1;
    has_query_info = true;
    query_vars = some 2 ∷ [];
    row_count = 1;
    buffer_min_row = 1;
    has_rows_to_fetch = true;
  };
  cursor = record { position = 2; fetched = 2 };
}

mid-IsFetching : IsFetching query left_of 5 mid
unfolding is_too_small
mid-IsFetching = record {
  open_stmt = refl;
  described = refl;
  size = omega arith;
  vars = refl;
  counted = refl;
  ended = λ e. ground arith;
  placed = λ e. refl;
}

-- row 9 of 5
scroll_beyond : (scroll query (some fetch_absolute) (pos 9) (pos 0) mid).0 ≡ err scroll_out_of_rs
unfolding scroll scroll_to scroll_fetch place_rows check in_buffer before_fetch stmt_fetch2
    prepare_vars fetch_offset desired_row add_u64
scroll_beyond = refl

-- The buffer of a variable does not grow.
set_fetch_array_size_large : (set_fetch_array_size 3 mid).0 ≡ err array_size_too_big
unfolding set_fetch_array_size check is_too_small
set_fetch_array_size_large = refl

fetched_rows_lem_example : fetched_rows query 5 mid ≡ (2 ∷ 3 ∷ 4 ∷ 5 ∷ [], found_none)
fetched_rows_lem_example = fetched_rows_lem query left_of 5 5 mid query-IsForward mid-IsFetching

fetch_rows-TookRows_example : TookRows query left_of 5 3 mid (fetch_rows query 3 mid)
fetch_rows-TookRows_example =
    fetch_rows-TookRows query left_of 5 3 mid query-IsForward mid-IsFetching

scroll-Moved_example : Moved query mid 1 (scroll query (some fetch_absolute) (pos 1) (pos 0) mid)
unfolding desired_row add_u64
scroll-Moved_example =
    scroll-Moved query mid fetch_absolute (pos 1) (pos 0) 1 refl refl refl (omega arith)
      (omega arith) (omega arith) (omega arith) (omega arith)

scroll_relative_example :
    scroll query (some fetch_relative) (pos 3) (pos 0) mid
    ≡ scroll query (some fetch_absolute) (pos 4) (pos 0) mid
unfolding desired_row add_u64
scroll_relative_example =
    scroll_relative query mid (pos 3) (pos 0) 4 refl (omega arith) (omega arith) (omega arith)
      (λ n k. refl)

-- two statements in the list of a connection, and an implicit result of the second one
abbrev two_open : HandleList
two_open = record {
  handles = some 7 ∷ some 8 ∷ none ∷ none ∷ none ∷ none ∷ none ∷ none ∷ [];
  num_slots = 8;
  num_used_slots = 2;
  current_pos = 2;
}

abbrev connection : Conn
connection = record {
  dead_session = false;
  has_handle = true;
  closing = false;
  open_stmts = two_open;
}

abbrev implicit_result : Closing
implicit_result = record {
  stmt = record {
    closing = false;
    num_batch_errors = 0;
    bind_vars = some 1 ∷ [];
    query_vars = [];
    last_rowid = none;
    has_handle = true;
    parent_stmt = some 8;
    is_owned = false;
    open_slot_num = 0;
  };
  conn = connection;
  events = [];
}

two_open-IsValid : IsValid two_open
two_open-IsValid = record { sized = refl; counted = refl; pos_in = omega arith }

-- The entry of statement 7 is gone.
close_leaves_list_example :
    let l = (close true implicit_result).1.conn.open_stmts in
    (get_or l.handles 0 none ≡ none)
    × ((j : ℕ) → j ≢ 0 → get_or l.handles j none ≡ get_or two_open.handles j none)
    × IsValid l
close_leaves_list_example =
    close_leaves_list true implicit_result 7 refl refl refl two_open-IsValid refl

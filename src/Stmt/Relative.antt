-- ===== src/Stmt/Relative.antt =====
-- Scrolling relative to the current row: `dpiStmt_scroll` in the mode DPI_MODE_FETCH_RELATIVE.
use godror.Base.{
  ℕ, zero, suc, ◌+◌, ◌-◌, ◌%◌, ◌<◌, ◌≤◌, ◌≡◌, refl, ap, ◌∙◌, Bool-cases, Option-cases, inl, inr,
  Option, none, some, leb, ℤ, pos, ◌+ℤ◌, Result, Result-cases, ok, err, ◌==◌, length, arith,
}
use godror.Stmt.State.{
  Status, success, no_data, error, fetch_absolute, fetch_relative, Oci, Stmt, Session, Action,
  then_with, ◌>>=◌, ◌>>◌, update,
}
use godror.Stmt.Fetch.{
  after_fetch2, attr_get, check, before_fetch, create_query_vars, renew_query_vars, stmt_fetch2,
}
use godror.Stmt.Scroll.{
  add_u64, to_int32, desired_row, last_row, fetch_offset, in_buffer, place_rows, scroll_fetch,
  scroll_to, scroll_mode, scroll,
}

module _ {C : Type 0} (o : Oci C) where
  then_with_eq :
      {A B : Type 0} (r : Result A) (q : Session C) (f g : A → Action C B)
      → ((a : A) → f a q ≡ g a q)
      → then_with r f q ≡ then_with r g q
  then_with_eq (err e) q f g h = refl
  then_with_eq (ok a) q f g h = h a

  then_with_eq2 :
      {A B : Type 0} (x y : Result A × Session C) (f g : A → Action C B)
      → x ≡ y
      → ((a : A) (q : Session C) → f a q ≡ g a q)
      → then_with x.0 f x.1 ≡ then_with y.0 g y.1
  then_with_eq2 x y f g e h = rw e (then_with_eq y.0 y.1 f g (λ a. h a y.1))

  place_rows_relative :
      (n : ℕ) (q : Session C) → place_rows o fetch_relative n q ≡ place_rows o fetch_absolute n q
  unfolding place_rows
  place_rows_relative zero q = refl
  place_rows_relative (suc n) q = refl

  rows_relative :
      (x : Option ℕ) (p : Session C)
      → (attr_get x >>= λ n.
            update (λ t. record t { buffer_row_count = n }) >> place_rows o fetch_relative n)
          p
        ≡ (attr_get x >>= λ n.
              update (λ t. record t { buffer_row_count = n }) >> place_rows o fetch_absolute n)
            p
  rows_relative none p = refl
  rows_relative (some n) p = place_rows_relative n _

  after_fetch2_relative :
      (status : Status) (q : Session C)
      → after_fetch2 o fetch_relative status q ≡ after_fetch2 o fetch_absolute status q
  after_fetch2_relative success q = refl
  after_fetch2_relative no_data q = refl
  after_fetch2_relative error q = refl

  stmt_fetch2_relative :
      (n : ℕ) (k m : ℤ) (q : Session C)
      → o.stmt_fetch2 q.cursor n fetch_relative k ≡ o.stmt_fetch2 q.cursor n fetch_absolute m
      → stmt_fetch2 o n fetch_relative k q ≡ stmt_fetch2 o n fetch_absolute m q
  unfolding stmt_fetch2
  stmt_fetch2_relative n k m q h = rw h (after_fetch2_relative _ _)

  before_fetch-cursor : (s : Session C) → (before_fetch o s).1.cursor ≡ s.cursor
  unfolding before_fetch create_query_vars renew_query_vars
  before_fetch-cursor s = elim (Bool-cases s.stmt.has_query_info) [
    | inl e ↦ rw e refl
    | inr e ↦ elim (Option-cases (o.param_count s.cursor)) [
      | inl none_left ↦ rw (e, none_left) refl
      | inr (n, some_left) ↦ elim (Bool-cases (n == length s.stmt.query_vars)) [
        | inl same ↦ rw (e, some_left, same) refl
        | inr changed ↦ elim (Result-cases (o.describe s.cursor)) [
          | inl (x, failed) ↦ rw (e, some_left, changed, failed) refl
          | inr (u, described) ↦ rw (e, some_left, changed, described) refl
        ]
      ]
    ]
  ]

  scroll_fetch_relative :
      (k m : ℤ) (s : Session C)
      → ((n : ℕ)
          → o.stmt_fetch2 s.cursor n fetch_relative k ≡ o.stmt_fetch2 s.cursor n fetch_absolute m)
      → scroll_fetch o fetch_relative k s ≡ scroll_fetch o fetch_absolute m s
  unfolding scroll_fetch
  scroll_fetch_relative k m s h =
      let q = (before_fetch o s).1 in
      let n = q.stmt.fetch_array_size in
      then_with_eq (before_fetch o s).0 q _ _ (λ u.
        then_with_eq2 (stmt_fetch2 o n fetch_relative k q) (stmt_fetch2 o n fetch_absolute m q) _ _
          (stmt_fetch2_relative n k m q (rw (before_fetch-cursor s) (h n)))
          (λ v p. rows_relative (o.rows_fetched p.cursor) p))

  -- The offset for OCI leads from the last row of the buffer to the desired one.
  fetch_offset_relative :
      (s : Stmt) (offset : ℤ) (row : ℕ)
      → 1 ≤ s.buffer_min_row + s.buffer_row_count
      → s.buffer_min_row + s.buffer_row_count ≤ 2147483648
      → row < 2147483648
      → pos (s.buffer_min_row + s.buffer_row_count - 1) +ℤ fetch_offset fetch_relative offset row s
        ≡ pos row
  unfolding fetch_offset last_row to_int32 ◌+ℤ◌
  fetch_offset_relative s offset row one bound small =
      let last = s.buffer_min_row + s.buffer_row_count - 1 in
      let last_eq : (s.buffer_min_row + s.buffer_row_count + 18446744073709551615)
            % 18446744073709551616
          ≡ last =
        omega arith in
      elim (Bool-cases (leb last row)) [
        | inl up ↦
            let low : (row + (18446744073709551616 - last)) % 18446744073709551616 % 4294967296
                ≡ row - last =
              ground arith in
            rw (last_eq, low) (ground arith)
        | inr down ↦
            let low : (row + (18446744073709551616 - last)) % 18446744073709551616 % 4294967296
                ≡ 4294967296 - (last - row) =
              ground arith in
            rw (last_eq, low) (ground arith)
      ]

  absolute_row :
      (row : ℕ) (s : Stmt) → row < 2147483648 → desired_row fetch_absolute (pos row) (pos 0) s ≡ row
  unfolding desired_row add_u64
  absolute_row row s small = omega arith

  scroll_to_relative :
      (s : Session C) (offset count_offset : ℤ) (row : ℕ)
      → desired_row fetch_relative offset count_offset s.stmt ≡ row
      → row < 2147483648
      → ((n : ℕ)
          → o.stmt_fetch2 s.cursor n fetch_relative (fetch_offset fetch_relative offset row s.stmt)
            ≡ o.stmt_fetch2 s.cursor n fetch_absolute (pos row))
      → scroll_to o fetch_relative offset count_offset s
        ≡ scroll_to o fetch_absolute (pos row) (pos 0) s
  unfolding scroll_to fetch_offset
  scroll_to_relative s offset count_offset row desired small same =
      rw (desired, absolute_row row s.stmt small)
        (elim (Bool-cases (in_buffer row s.stmt)) [
          | inl inside ↦ rw inside refl
          | inr outside ↦ rw outside (scroll_fetch_relative _ _ s same)
        ])

  check_same : (s : Session C) → (check s).1 ≡ s
  unfolding check
  check_same s = elim (Bool-cases s.stmt.is_open) [ inl e ↦ rw e refl | inr e ↦ rw e refl ]

  -- Scrolling by an offset relative to the current row is scrolling to the row that it leads to, with
  -- the same result and the same statement and cursor after it, where that row and those of the
  -- buffer are less than 2^31, and a relative fetch of OCI counts from the last row of the buffer.
  pub scroll_relative :
      (s : Session C) (offset count_offset : ℤ) (row : ℕ)
      → desired_row fetch_relative offset count_offset s.stmt ≡ row
      → row < 2147483648
      → 1 ≤ s.stmt.buffer_min_row + s.stmt.buffer_row_count
      → s.stmt.buffer_min_row + s.stmt.buffer_row_count ≤ 2147483648
      → ((n : ℕ) (k : ℤ)
          → o.stmt_fetch2 s.cursor n fetch_relative k
            ≡ o.stmt_fetch2 s.cursor n fetch_absolute
                (pos (s.stmt.buffer_min_row + s.stmt.buffer_row_count - 1) +ℤ k))
      → scroll o (some fetch_relative) offset count_offset s
        ≡ scroll o (some fetch_absolute) (pos row) (pos 0) s
  unfolding scroll
  scroll_relative s offset count_offset row desired small one bound shift =
      let offset_eq = fetch_offset_relative s.stmt offset row one bound small in
      then_with_eq (check s).0 (check s).1
        (λ u. scroll_mode o (some fetch_relative) offset count_offset)
        (λ u. scroll_mode o (some fetch_absolute) (pos row) (pos 0))
        (λ u. rw (check_same s) (
          scroll_to_relative s offset count_offset row desired small
            (λ n. shift n _ ∙ ap (λ k. o.stmt_fetch2 s.cursor n fetch_absolute k) offset_eq)))

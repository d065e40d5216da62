-- ===== src/Stmt/Refill.antt =====
-- Filling the buffer of a statement: `dpiStmt__fetch` and its use in `dpiStmt_fetch`.
use Prim.Native.Nat.{min}
use godror.Base.{
  ℕ, ◌+◌, ◌-◌, ◌<◌, ◌≤◌, ◌≡◌, refl, Bool, true, false, ◌&&◌, Bool-cases, inl, inr, Option, none,
  some, List, [], ◌∷◌, ltb, leb, ltb→lt, if◌then◌else◌, pos, Result, ok, arith,
}
use godror.Stmt.State.{fetch_next, success, no_data, Oci, Session, return}
use godror.Stmt.Fetch.{
  check, is_too_small, prepare_vars, before_fetch, stmt_fetch2, post_fetch, fetch_buffer, refill,
}

module _ {C : Type 0} where
  pub check_open : (s : Session C) → s.stmt.is_open ≡ true → check s ≡ (ok tt, s)
  unfolding check
  check_open s h = rw h refl

module _ {C : Type 0} (o : Oci C) (remaining : C → ℕ) where
  -- OCIStmtFetch2 on a query that has `remaining` rows left: a fetch forward hands over as many of
  -- them as were asked for, or all, and says OCI_NO_DATA where they are fewer. No variable fails.
  pub record IsForward : Type 0 where
    pub rows :
        (c : C) (n : ℕ)
        → o.rows_fetched (o.stmt_fetch2 c n fetch_next (pos 0)).1 ≡ some (min n (remaining c))
    pub left :
        (c : C) (n : ℕ) → remaining (o.stmt_fetch2 c n fetch_next (pos 0)).1 ≡ remaining c - n
    pub status :
        (c : C) (n : ℕ)
        → (o.stmt_fetch2 c n fetch_next (pos 0)).0
          ≡ (if ltb (remaining c) n then no_data else success)
    pub defines : (c : C) → o.defines c ≡ true
    pub pre_fetches : (c : C) → o.pre_fetches c ≡ true
    pub converts : (c : C) → o.converts c ≡ true

  -- A statement in the course of fetching `total` rows.
  pub record IsFetching (total : ℕ) (s : Session C) : Type 0 where
    pub open_stmt : s.stmt.is_open ≡ true
    pub described : s.stmt.has_query_info ≡ true
    pub size : 0 < s.stmt.fetch_array_size
    pub vars : is_too_small s.stmt.fetch_array_size s.stmt.query_vars ≡ false
    pub counted :
        s.stmt.row_count + (s.stmt.buffer_row_count - s.stmt.buffer_row_index) + remaining s.cursor
        ≡ total
    pub ended : s.stmt.has_rows_to_fetch ≡ false → remaining s.cursor ≡ 0
    pub placed :
        s.stmt.buffer_row_index < s.stmt.buffer_row_count
        → s.stmt.buffer_min_row + s.stmt.buffer_row_index ≡ s.stmt.row_count + 1

  prepare_vars_lem :
      (c : C) (n : ℕ) (vars : List (Option ℕ))
      → IsForward
      → is_too_small n vars ≡ false
      → ((prepare_vars o c n vars).0 ≡ ok tt) × (is_too_small n (prepare_vars o c n vars).1 ≡ false)
  unfolding prepare_vars is_too_small
  prepare_vars_lem c n [] f h = (refl, refl)
  prepare_vars_lem c n (none ∷ vars) f h =
      ground (arith, f.defines c, f.pre_fetches c, prepare_vars_lem c n vars f)
  prepare_vars_lem c n (some size ∷ vars) f h =
      ground (arith, f.pre_fetches c, prepare_vars_lem c n vars f)

  -- what a refill leaves
  pub record Refilled (total count : ℕ) (r : Result (Unit {0}) × Session C) : Type 0 where
    pub done : r.0 ≡ ok tt
    pub fetching : IsFetching total r.1
    pub same_count : r.1.stmt.row_count ≡ count
    pub no_rows : r.1.stmt.buffer_row_count ≤ r.1.stmt.buffer_row_index → remaining r.1.cursor ≡ 0

  -- The buffer holds the next rows, `has_rows` says whether there may be more.
  filled-Refilled :
      (total : ℕ) (s r : Session C) (has_rows : Bool) (vars : List (Option ℕ))
      → IsFetching total s
      → s.stmt.buffer_row_count ≤ s.stmt.buffer_row_index
      → r.stmt ≡ (record (s.stmt) {
        buffer_row_count = min s.stmt.fetch_array_size (remaining s.cursor);
        buffer_row_index = 0;
        has_query_info = true;
        query_vars = vars;
        buffer_min_row = s.stmt.row_count + 1;
        has_rows_to_fetch = has_rows;
      })
      → is_too_small s.stmt.fetch_array_size vars ≡ false
      → remaining r.cursor ≡ remaining s.cursor - s.stmt.fetch_array_size
      → (has_rows ≡ false → remaining s.cursor < s.stmt.fetch_array_size)
      → Refilled total s.stmt.row_count (ok tt, r)
  filled-Refilled total s r has_rows vars h e same v left more = record {
    done = refl;
    fetching = record {
      open_stmt = rw same h.open_stmt;
      described = rw same refl;
      size = rw same h.size;
      vars = rw same v;
      counted = rw same (omega (arith, h.counted, left, e));
      ended = rw same (λ z. omega (arith, left, more z));
      placed = rw same (λ p. omega arith);
    };
    same_count = rw same refl;
    no_rows = rw same (λ p. omega (arith, h.size, left));
  }

  fetch_buffer-Refilled :
      (total : ℕ) (s : Session C)
      → IsForward
      → IsFetching total s
      → s.stmt.buffer_row_count ≤ s.stmt.buffer_row_index
      → Refilled total s.stmt.row_count (fetch_buffer o s)
  unfolding fetch_buffer before_fetch stmt_fetch2 post_fetch
  fetch_buffer-Refilled total s f h e =
      let n = s.stmt.fetch_array_size in
      let prepared = prepare_vars_lem s.cursor n s.stmt.query_vars f h.vars in
      elim (Bool-cases (ltb (remaining s.cursor) n)) [
        | inl short ↦
            rw
              (h.described, prepared.0, f.status s.cursor n, short, f.rows s.cursor n, f.converts _)
              (filled-Refilled total s _ _ _ h e refl prepared.1 (f.left s.cursor n)
                (λ z. omega (arith, ltb→lt _ _ short)))
        | inr long ↦
            rw (h.described, prepared.0, f.status s.cursor n, long, f.rows s.cursor n, f.converts _)
              (filled-Refilled total s _ _ _ h e refl prepared.1 (f.left s.cursor n)
                (λ z. ground arith))
      ]

  unchanged-Refilled :
      (total : ℕ) (s : Session C)
      → IsFetching total s
      → (leb s.stmt.buffer_row_count s.stmt.buffer_row_index && s.stmt.has_rows_to_fetch) ≡ false
      → Refilled total s.stmt.row_count (ok tt, s)
  unchanged-Refilled total s h e = record {
    done = refl;
    fetching = h;
    same_count = refl;
    no_rows = λ p. h.ended (ground arith);
  }

  refill_test :
      (b : Bool) (total : ℕ) (s : Session C)
      → (b ≡ true → Refilled total s.stmt.row_count (fetch_buffer o s))
      → (b ≡ false → Refilled total s.stmt.row_count (ok tt, s))
      → Refilled total s.stmt.row_count ((if b then fetch_buffer o else return tt) s)
  refill_test true total s h k = h refl
  refill_test false total s h k = k refl

  pub refill-Refilled :
      (total : ℕ) (s : Session C)
      → IsForward
      → IsFetching total s
      → Refilled total s.stmt.row_count (refill o s)
  unfolding refill
  refill-Refilled total s f h =
      refill_test _ total s (λ e. fetch_buffer-Refilled total s f h (ground arith))
        (unchanged-Refilled total s h)

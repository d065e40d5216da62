-- ===== src/Stmt/Closed.antt =====
-- What `dpiStmt__close` leaves behind.
use godror.Base.{
  ℕ, ◌≡◌, ◌≢◌, refl, ap, ◌∙◌, Bool, true, false, Bool-cases, inl, inr, Option-cases, Option, none,
  some, List, [], ◌∷◌, ◌++◌, get_or, if◌then◌else◌, Result, ok, err, oci, append-nil, arith,
}
use godror.Handles.Table.{remove_handle}
use godror.Handles.Slots.{IsValid, remove_handle_lem}
use godror.Stmt.Close.{
  drop_ref, stmt_release, Conn, Closing, drop_bind_vars, drop_query_vars, clear_batch_errors,
  clear_bind_vars, clear_query_vars, drop_last_rowid, give_up, leave_list, close_handle, close_work,
  close,
}

close_work_closing :
    (releases : Bool) (s : Closing) → (close_work releases s).1.stmt.closing ≡ s.stmt.closing
unfolding close_work close_handle clear_batch_errors clear_bind_vars clear_query_vars
    drop_last_rowid give_up leave_list
close_work_closing releases s = elim (Option-cases s.stmt.parent_stmt) [
  | inl e ↦ ground (arith, e)
  | inr (p, e) ↦ ground (arith, e)
]

if_true : {A : Type 0} (b : Bool) (x y : A) → b ≡ true → (if b then x else y) ≡ x
if_true true x y h = refl
if_true false x y h = absurd (ground arith)

if_false : {A : Type 0} (b : Bool) (x y : A) → b ≡ false → (if b then x else y) ≡ y
if_false true x y h = absurd (ground arith)
if_false false x y h = refl

close_closed :
    (releases : Bool) (s : Closing) → s.stmt.closing ≡ true → close releases s ≡ (ok tt, s)
unfolding close
close_closed releases s h = if_true _ _ _ h

abbrev mark : Closing → Closing
mark s = record s { stmt = record (s.stmt) { closing = true } }

close_done :
    (releases : Bool) (s : Closing)
    → s.stmt.closing ≡ false
    → (close_work releases (mark s)).0 ≡ true
    → close releases s ≡ (ok tt, (close_work releases (mark s)).1)
unfolding close
close_done releases s h e = if_false _ _ _ h ∙ if_true _ _ _ e

close_failed :
    (releases : Bool) (s : Closing)
    → s.stmt.closing ≡ false
    → (close_work releases (mark s)).0 ≡ false
    → (close releases s).0 ≡ err oci
unfolding close
close_failed releases s h e =
    ap (λ (r : Result (Unit {0}) × Closing). r.0) (if_false _ _ _ h ∙ if_false _ _ _ e)

-- After a close that succeeds, closing again succeeds and changes nothing, and calls nothing.
pub close_again :
    (releases again : Bool) (s : Closing)
    → (close releases s).0 ≡ ok tt
    → close again (close releases s).1 ≡ (ok tt, (close releases s).1)
close_again releases again s e = elim (Bool-cases s.stmt.closing) [
  | inl c ↦ rw (close_closed releases s c) (close_closed again s c)
  | inr c ↦ elim (Bool-cases (close_work releases (mark s)).0) [
    | inl done ↦
        rw (close_done releases s c done)
          (close_closed again _ (close_work_closing releases (mark s)))
    | inr failed ↦ absurd (ground (arith, e, close_failed releases s c failed))
  ]
]

close_list :
    (releases : Bool) (s : Closing)
    → s.stmt.closing ≡ false
    → s.stmt.has_handle ≡ true
    → s.conn.closing ≡ false
    → (close releases s).1.conn.open_stmts ≡ remove_handle s.conn.open_stmts s.stmt.open_slot_num
unfolding close close_work close_handle clear_batch_errors clear_bind_vars clear_query_vars
    drop_last_rowid give_up leave_list
close_list releases s c held cc = elim (Option-cases s.stmt.parent_stmt) [
  | inl e ↦ ground (arith, e, c, held, cc)
  | inr (p, e) ↦ rw (c, held, cc, e) refl
]

-- Closing an open statement on a connection that is not closing frees the slot in the list of
-- open statements that the statement names, where a statement is entered, and no other, and the
-- list stays valid, whether the statement has a parent or not and also where OCI fails to release
-- the handle.
pub close_leaves_list :
    (releases : Bool) (s : Closing) (h : ℕ)
    → s.stmt.closing ≡ false
    → s.stmt.has_handle ≡ true
    → s.conn.closing ≡ false
    → IsValid s.conn.open_stmts
    → get_or s.conn.open_stmts.handles s.stmt.open_slot_num none ≡ some h
    → let l = (close releases s).1.conn.open_stmts in
      (get_or l.handles s.stmt.open_slot_num none ≡ none)
      × ((j : ℕ)
          → j ≢ s.stmt.open_slot_num
          → get_or l.handles j none ≡ get_or s.conn.open_stmts.handles j none)
      × IsValid l
close_leaves_list releases s h c held cc v slot =
    rw (close_list releases s c held cc)
      (remove_handle_lem s.conn.open_stmts s.stmt.open_slot_num h v slot)

-- an open statement with a last rowid, on a connection that is up
abbrev pub with_rowid : ℕ → ℕ → List (Option ℕ) → List (Option ℕ × Option ℕ) → Conn → Closing
with_rowid rowid slot bind_vars query_vars conn = record {
  stmt = record {
    closing = false;
    num_batch_errors = 0;
    bind_vars = bind_vars;
    query_vars = query_vars;
    last_rowid = some rowid;
    has_handle = true;
    parent_stmt = none;
    is_owned = false;
    open_slot_num = slot;
  };
  conn = record conn { dead_session = false; has_handle = true };
  events = [];
}

-- Where OCI fails to release the handle of a statement with a last rowid, closing fails, having
-- released the variables, the reference to the rowid and then called OCI, and closing again
-- succeeds and releases that reference a second time.
pub close_drops_rowid_twice :
    (again : Bool) (rowid slot : ℕ) (bind_vars : List (Option ℕ))
    (query_vars : List (Option ℕ × Option ℕ)) (conn : Conn)
    → let s = close false (with_rowid rowid slot bind_vars query_vars conn) in
      (s.0 ≡ err oci)
      × ((s.1.events
            ≡ ((drop_bind_vars bind_vars ++ drop_query_vars query_vars) ++ drop_ref rowid ∷ [])
              ++ stmt_release ∷ [])
          × (((close again s.1).0 ≡ ok tt)
              × ((close again s.1).1.events ≡ s.1.events ++ drop_ref rowid ∷ [])))
unfolding close close_work close_handle clear_batch_errors clear_bind_vars clear_query_vars
    drop_last_rowid give_up leave_list drop_bind_vars drop_query_vars
close_drops_rowid_twice again rowid slot bind_vars query_vars conn =
    (refl, (refl, (refl, rw (append-nil _, append-nil _) refl)))

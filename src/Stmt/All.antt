-- ===== src/Stmt/All.antt =====
-- Fetching row by row until none is found: the use that callers make of `dpiStmt_fetch`.
use Prim.Native.Nat.{min}
use godror.Base.{
  ℕ, zero, suc, ◌+◌, ◌-◌, ◌<◌, ◌≡◌, refl, ap, ap₂, ◌∙◌, sym, true, false, Bool-cases, inl, inr,
  List, [], ◌∷◌, ltb, if◌then◌else◌, Result, ok, err, Error, arith,
}
use godror.Stmt.State.{Oci, Session}
use godror.Stmt.Fetch.{Fetched, fetch}
use godror.Stmt.Refill.{IsForward, IsFetching}
use godror.Stmt.Rows.{fetch-Took}

-- the `count` numbers from `first` on
abbrev pub numbers_from : ℕ → ℕ → List ℕ
numbers_from first zero = []
numbers_from first (suc count) = first ∷ numbers_from (first + 1) count

numbers_next :
    (a n k : ℕ) → 0 < k → numbers_from a (min (suc n) k) ≡ a ∷ numbers_from (a + 1) (min n (k - 1))
numbers_next a n k lt =
    let e : min (suc n) k ≡ suc (min n (k - 1)) = omega arith in ap (numbers_from a) e

numbers_none : (a n k : ℕ) → min n k ≡ 0 → numbers_from a (min n k) ≡ []
numbers_none a n k e = ap (numbers_from a) e

-- How a loop over the rows ends: its calls are used up, a call finds no row, or a call fails.
pub data LoopEnd : Type 0 where
  calls_used found_none : LoopEnd
  broken : Error → LoopEnd

-- the row that a call hands over in front of the others, `min_row` being that of the buffer
abbrev pub with_row : Result Fetched → ℕ → List ℕ × LoopEnd → List ℕ × LoopEnd
with_row (err failure) min_row rest = ([], broken failure)
with_row (ok f) min_row rest =
    if f.found then ((min_row + f.buffer_row_index) ∷ rest.0, rest.1) else ([], found_none)

-- how a loop of `n` calls ends where `left` rows are left
abbrev pub end_for : ℕ → ℕ → LoopEnd
end_for n left = if ltb left n then found_none else calls_used

module _ {C : Type 0} (o : Oci C) where
  -- The numbers, in the result set, of the rows whose places `dpiStmt_fetch` hands over in at most
  -- `n` calls, up to the first one that hands over none, and how the loop ends.
  unfoldable pub fetched_rows : ℕ → Session C → List ℕ × LoopEnd
  fetched_rows zero s = ([], calls_used)
  fetched_rows (suc n) s =
      let rest = fetched_rows n (fetch o s).1 in
      with_row (fetch o s).0 (fetch o s).1.stmt.buffer_min_row rest

module _ {C : Type 0} (o : Oci C) (remaining : C → ℕ) where
  -- `n` calls of fetch, on a statement that is in the course of fetching `total` rows, where OCI hands
  -- rows over in order and no variable fails, hand over the places of the next `n` rows, or
  -- of all rows that are left where they are fewer, each once and in order; no call fails, and where the
  -- rows that are left are fewer than the calls, the call after the last row finds none.
  pub fetched_rows_lem :
      (n total : ℕ) (s : Session C)
      → IsForward o remaining
      → IsFetching o remaining total s
      → fetched_rows o n s ≡ (
        numbers_from (s.stmt.row_count + 1) (min n (total - s.stmt.row_count)),
        end_for n (total - s.stmt.row_count),
      )
  unfolding fetched_rows
  fetched_rows_lem zero total s f h =
      ap₂ (λ rows e. (rows, e)) (sym (numbers_none _ 0 _ (omega arith))) (ground arith)
  fetched_rows_lem (suc n) total s f h =
      let t = fetch-Took o remaining total s f h in
      let rest = fetched_rows_lem n total (fetch o s).1 f t.fetching in
      elim (Bool-cases (ltb s.stmt.row_count total)) [
        | inl more ↦
            let found : t.fetched.found ≡ true = t.found ∙ more in
            let count : (fetch o s).1.stmt.row_count ≡ s.stmt.row_count + 1 =
              t.counted ∙ rw found refl in
            let left : total - (s.stmt.row_count + 1) ≡ total - s.stmt.row_count - 1 =
              omega arith in
            rw (fetched_rows, t.done, found, t.place found, rest, count, left)
              (ap₂ (λ rows e. (rows, e))
                (sym
                  (numbers_next (s.stmt.row_count + 1) n (total - s.stmt.row_count) (ground arith)))
                (ground arith))
        | inr last ↦
            let found : t.fetched.found ≡ false = t.found ∙ last in
            rw (fetched_rows, t.done, found)
              (ap₂ (λ rows e. (rows, e))
                (sym (
                  numbers_none (s.stmt.row_count + 1) (suc n) (total - s.stmt.row_count)
                    (ground arith)))
                (ground arith))
      ]

-- ===== src/Var/Held.antt =====
-- The handles that a new variable holds: the counts of the connection and of the object type after
-- `dpiVar__allocate`.
use godror.Base.{
  ℕ, ◌+◌, ◌%◌, ◌<◌, ◌≡◌, refl, false, Option, none, some, ◌==◌, Result, ok, err, ℤ, pos, negsuc,
  arith,
}
use godror.Gen.Handle.{Base, set_ref_count, add_count}
use godror.Var.State.{Var}
use godror.Var.Allocate.{hold, conn_holders}

set_ref_count_live :
    (value : Base) (k : ℤ) (m : ℕ)
    → add_count value.ref_count k ≡ m
    → 0 < m
    → set_ref_count value k ≡ record value { ref_count = m }
unfolding set_ref_count
set_ref_count_live value k m e h = let live : (m == 0) ≡ false = ground arith in rw (e, live) refl

-- a handle that can be held once more
abbrev pub IsHeld : Base → Type 0
IsHeld value = (0 < value.ref_count) × (value.ref_count + 1 < 4294967296)

-- the increase of a count taken back
pub set_ref_count_back :
    (value : Base) → IsHeld value → set_ref_count (set_ref_count value (pos 1)) (negsuc 0) ≡ value
unfolding add_count
set_ref_count_back value (above, below) =
    let up = set_ref_count_live value (pos 1) (value.ref_count + 1) (omega arith) (omega arith) in
    rw up (
      set_ref_count_live (record value { ref_count = value.ref_count + 1 }) (negsuc 0)
        value.ref_count (omega arith) above)

abbrev pub IsHeldOption : Option Base → Type 0
IsHeldOption none = Unit
IsHeldOption (some value) = IsHeld value

-- What a call does to the handles: where it succeeds, there is one more reference to the object type, and
-- to the connection there are one more and those of the handles that the variable keeps; where it
-- fails, both are as they were.
abbrev pub IsBalanced : Result Var → Base → Base → Option Base → Option Base → Type 0
IsBalanced (err e) conn conn₁ given given₁ = (conn₁ ≡ conn) × (given₁ ≡ given)
IsBalanced (ok v) conn conn₁ given given₁ =
    (conn₁.ref_count ≡ (conn.ref_count + 1 + conn_holders v v.buffer) % 4294967296)
    × (given₁ ≡ hold given)

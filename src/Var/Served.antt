-- ===== src/Var/Served.antt =====
-- The calls of `dpiVar__outBindCallback` for a dynamic variable stay within its arrays.
use godror.Base.{ℕ, ◌≤◌, ◌≡◌, none, some, All, length, Result, ok, err}
use godror.Var.State.{Buffer, Var}
use godror.Var.Returning.{Returning, Called}
use godror.Var.Returned.{buffer_of}

-- There are dynamic bytes and an indicator for every row that the buffer can have.
abbrev pub IsSized : Buffer → Type 0
IsSized b = (length b.dynamic_bytes ≡ b.max_array_size) × (length b.indicator ≡ b.max_array_size)

-- After a call that succeeds, all buffers are sized.
abbrev pub IsReady : Result (Unit {0}) → Returning → Returning → Type 0
IsReady (err e) before after = Unit
IsReady (ok done) before after =
    All IsSized after.buffers
    × (length after.buffers ≡ length before.buffers)
    × (after.var ≡ before.var)

-- a call that was served: it is defined, and where it succeeds all buffers are sized
abbrev pub IsServed : Returning → Called → Type 0
IsServed s none = ⊥
IsServed s (some (r, after)) = IsReady r s after

-- room for the rows, where the buffer could be made
abbrev HasRoom : Result (Unit {0}) → ℕ → ℕ → Returning → Type 0
HasRoom (err e) iter rows after = Unit
HasRoom (ok done) iter rows after = rows ≤ (buffer_of after iter).max_array_size

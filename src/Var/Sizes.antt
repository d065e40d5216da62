-- ===== src/Var/Sizes.antt =====
-- The size of a variable of characters: `uint32_t` arithmetic in `dpiVar__allocate`.
use godror.Base.{ℕ, ◌*◌, ◌%◌, ◌≤◌, ◌<◌, ◌≡◌, refl, true, false, ◌==◌, ltb, zero, suc, arith}
use godror.OracleTypes.Numbers.{charset_implicit}
use godror.OracleTypes.Table.{OracleType, variable_size, max_basic_buffer_size}
use godror.Var.State.{Env}
use godror.Var.Allocate.{Request, value_size, new_var}

size_nonzero : (size m : ℕ) → 4294967296 ≤ size * m → (size == 0) ≡ false
size_nonzero zero m h = let none : 0 * m ≡ 0 = grind arith in absurd (omega (arith, none, h))
size_nonzero (suc size) m h = ground arith

-- Where the bytes that the characters of a request may need reach 2^32, and what is left of them
-- is at most the largest size of basic buffers, the variable is not dynamic, and has that
-- rest as the size of its values, which is less than what is needed. The type is one of
-- characters in the database character set whose size varies, and the size is in characters.
pub new_var_wraps :
    (env : Env) (r : Request) (type : OracleType)
    → type.size_in_bytes ≡ variable_size
    → type.is_character_data ≡ true
    → type.charset_form ≡ charset_implicit
    → r.size_is_bytes ≡ false
    → 4294967296 ≤ r.size * env.max_bytes_per_character
    → r.size * env.max_bytes_per_character % 4294967296 ≤ max_basic_buffer_size
    → ((new_var env r type).is_dynamic ≡ false)
      × ((new_var env r type).size_in_bytes ≡ r.size * env.max_bytes_per_character % 4294967296)
      × ((new_var env r type).size_in_bytes < r.size * env.max_bytes_per_character)
unfolding new_var value_size
new_var_wraps env r type varies characters implicit in_characters large small =
    let total = r.size * env.max_bytes_per_character in
    let nonzero : (r.size == 0) ≡ false = size_nonzero r.size env.max_bytes_per_character large in
    let basic : ltb max_basic_buffer_size (total % 4294967296) ≡ false = ground arith in
    rw (new_var, value_size, varies, characters, implicit, in_characters, nonzero, basic)
      (refl, refl, omega arith)

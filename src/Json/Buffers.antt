-- ===== src/Json/Buffers.antt =====
-- The state of a `dpiJson` that reading changes, and the texts of its numbers:
-- `dpiJsonNode__fromOracleNumberAsText` of odpi/src/dpiJson.c.
-- `none` stands for undefined access to memory.
use godror.Base.{
  ℕ, ◌+◌, ◌-◌, Bool, true, false, not, Option, none, some, List, [], ◌∷◌, ◌++◌, ◌==◌, ltb,
  if◌then◌else◌, length, get_or, set, take, drop, replicate, Result, ok, err, fail_if, no_memory,
}
use godror.Number.Parse.{number_as_text_chars}
use godror.Number.Text.{from_oracle_number_as_text}

-- The array of the buffers is empty where the pointer to it is NULL, and a buffer is `none` where its
-- pointer is NULL or was not set; of a buffer there are the bytes up to the last that was written.
pub record Json : Type 0 where
  pub temp_buffers : List (Option (List ℕ))
  pub allocated_temp_buffers : ℕ
  pub num_temp_buffers : ℕ
  pub temp_buffer_used : ℕ
  -- the calls of `dpiUtils__allocateMemory` so far
  pub allocations : ℕ

-- DPI_JSON_TEMP_BUFFER_SIZE
abbrev pub temp_buffer_size : ℕ
temp_buffer_size = 1024

-- A function changes the state also where it fails.
abbrev pub Action : Type 0 → Type 0
Action A = Json → Option (Result A × Json)

abbrev pub then_with :
    {A B : Type 0} → (A → Action B) → Option (Result A × Json) → Option (Result B × Json)
then_with f none = none
then_with f (some (err e, j)) = some (err e, j)
then_with f (some (ok a, j)) = f a j

infixl 5 ◌>>=◌
abbrev pub ◌>>=◌ : {A B : Type 0} → Action A → (A → Action B) → Action B
◌>>=◌ m f j = then_with f (m j)

infixl 5 ◌>>◌
abbrev pub ◌>>◌ : {B : Type 0} → Action (Unit {0}) → Action B → Action B
m >> k = m >>= λ u. k

abbrev pub give : {A : Type 0} → A → Action A
give a j = some (ok a, j)

abbrev pub lift : {A : Type 0} → Result A → Action A
lift r j = some (r, j)

abbrev pub lift_option : {A : Type 0} → Option (Result A) → Action A
lift_option none j = none
lift_option (some r) j = some (r, j)

abbrev pub undefined : {A : Type 0} → Action A
undefined j = none

-- The encoding of the environment: one byte to a character, or UTF-16, where a `uint16_t` is the two bytes
-- that the platform makes of it.
pub data Encoding : Type 0 where
  one_byte : Encoding
  two_bytes : (ℕ → ℕ × ℕ) → Encoding

abbrev pub is_utf16 : Encoding → Bool
is_utf16 one_byte = false
is_utf16 (two_bytes halves) = true

abbrev pub encoded : Encoding → List ℕ → List ℕ
encoded one_byte chars = chars
encoded (two_bytes halves) [] = []
encoded (two_bytes halves) (c ∷ chars) =
    (halves c).0 ∷ (halves c).1 ∷ encoded (two_bytes halves) chars

-- the place of a text in the buffers, and its bytes
pub record Text : Type 0 where
  pub buffer : ℕ
  pub offset : ℕ
  pub bytes : List ℕ

-- the bytes of a buffer after a copy to an offset
abbrev pub overwrite : List ℕ → ℕ → List ℕ → List ℕ
overwrite old offset new =
    take offset (old ++ replicate offset 0) ++ (new ++ drop (offset + length new) old)

-- the text put into the buffer at a place, given what is there
unfoldable pub put_at : List ℕ → ℕ → Json → Option (List ℕ) → Option (Result Text × Json)
put_at bytes place j none = none
put_at bytes place j (some old) =
    if ltb temp_buffer_size (j.temp_buffer_used + length bytes)
    then none
    else some (
      ok (record { buffer = place; offset = j.temp_buffer_used; bytes = bytes }),
      record j {
        temp_buffers = set j.temp_buffers place (some (overwrite old j.temp_buffer_used bytes));
      },
    )

-- the text put into the buffer that is current
unfoldable pub put_text : List ℕ → Action Text
unfolding put_at
put_text bytes j =
    put_at bytes (j.num_temp_buffers - 1) j (
      if j.num_temp_buffers == 0 then none else get_or j.temp_buffers (j.num_temp_buffers - 1) none)

-- Whether the memory of each call of `dpiUtils__allocateMemory` is found is given by its number.
module _ (found : ℕ → Bool) where
  -- `dpiUtils__allocateMemory`
  unfoldable pub allocate_memory : Action (Unit {0})
  allocate_memory j =
      some (
        fail_if (not (found j.allocations)) no_memory,
        record j { allocations = j.allocations + 1 },
      )

  -- the array of the buffers copied to a larger one
  unfoldable pub grow_array : Action (Unit {0})
  unfolding allocate_memory
  grow_array j =
      let larger = record j { allocated_temp_buffers = j.allocated_temp_buffers + 16 } in
      let copied = record larger {
        allocations = j.allocations + 1;
        temp_buffers =
            take j.num_temp_buffers j.temp_buffers
            ++ replicate (larger.allocated_temp_buffers - j.num_temp_buffers) none;
      } in
      if not (j.num_temp_buffers == j.allocated_temp_buffers)
      then some (ok tt, j)
      else (allocate_memory >> λ asked.
            if ltb (length j.temp_buffers) j.num_temp_buffers then none else some (ok tt, copied))
          larger

  -- a new buffer behind the others
  unfoldable pub add_buffer : Action (Unit {0})
  unfolding allocate_memory
  add_buffer j =
      let cleared = record j { temp_buffers = set j.temp_buffers j.num_temp_buffers none } in
      if not (ltb j.num_temp_buffers (length j.temp_buffers))
      then none
      else (allocate_memory >> λ asked. some (
        ok tt,
        record asked {
          temp_buffers = set j.temp_buffers j.num_temp_buffers (some []);
          num_temp_buffers = j.num_temp_buffers + 1;
          temp_buffer_used = 0;
        },
      ))
          cleared

  -- `dpiJsonNode__fromOracleNumberAsText`
  unfoldable pub from_number_as_text : Encoding → List ℕ → Action Text
  unfolding grow_array add_buffer put_text
  from_number_as_text encoding num_buffer = do
    (λ j.
        if ltb (j.temp_buffer_used + number_as_text_chars) temp_buffer_size
        then (grow_array >> add_buffer) j
        else some (ok tt, j))
    text ←
        lift_option (from_oracle_number_as_text (is_utf16 encoding) number_as_text_chars num_buffer)
    put_text (encoded encoding text.1)

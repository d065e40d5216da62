-- ===== src/Json/Faults.antt =====
-- Calls of odpi/src/dpiJson.c after an error, and what is read but cannot be written.
use godror.Base.{
  ℕ, ◌+◌, ◌≡◌, refl, Bool, true, false, none, some, List, ◌==◌, ltb, length, ok, err, no_memory,
  unhandled_conversion_to_json, arith, suc, eq→==,
}
use godror.OracleTypes.Numbers.{type_number}
use godror.Json.Tree.{Node, node, Value, Scalar}
use godror.Json.Dom.{Dom, scalar, Represents}
use godror.Json.Buffers.{Encoding, Json, from_number_as_text, temp_buffer_size, allocate_memory}
use godror.Number.Parse.{number_as_text_chars}
use godror.Json.Scalars.{Reader}
use godror.Json.Read.{from_oracle}
use godror.Json.Write.{Builder, Encoders, Writing, to_oracle}
use godror.Json.Texts.{IsSound}

-- Where all buffers of the array are in use and memory is not found for a larger array, the text of a number
-- fails with `no_memory`; then the text of any number is undefined, with any memory: the array is taken
-- to be larger than it is.
pub number_as_text_faults :
    (found found' : ℕ → Bool) (encoding : Encoding) (value value' : List ℕ) (j : Json)
    → IsSound j
    → j.num_temp_buffers ≡ j.allocated_temp_buffers
    → found j.allocations ≡ false
    → (k : Json) × (from_number_as_text found encoding value j ≡ some (err no_memory, k))
      × (from_number_as_text found' encoding value' k ≡ none)
unfolding from_number_as_text allocate_memory
number_as_text_faults found found' encoding value value' j sound full lacking =
    let room : ltb (j.temp_buffer_used + number_as_text_chars) temp_buffer_size ≡ true =
      rw sound.unused refl in
    let all_used : (j.num_temp_buffers == j.allocated_temp_buffers) ≡ true = eq→== _ _ full in
    let larger : (j.num_temp_buffers == (j.allocated_temp_buffers + 16)) ≡ false = ground arith in
    let outside : ltb j.num_temp_buffers (length j.temp_buffers) ≡ false =
      ground (arith, sound.sized) in
    (
      record j {
        allocated_temp_buffers = j.allocated_temp_buffers + 16;
        allocations = j.allocations + 1;
      },
      rw (room, all_used, lacking) refl,
      rw (room, larger, outside) refl,
    )

-- A document that holds a binary float is read, with any memory, to a node that writing refuses.
pub float_not_written :
    (dom : Dom) (b : Builder dom.Handle) (enc : Encoders) (r : Reader) (n : dom.Handle) (f fuel : ℕ)
    (j : Json) (w : Writing)
    → Represents dom n (scalar (Scalar.float_val f))
    → (t : Node) × (from_oracle dom r (suc fuel) n j ≡ some (ok t, j))
      × (to_oracle b enc t w ≡ (err unhandled_conversion_to_json, w))
unfolding from_oracle to_oracle Represents
float_not_written dom b enc r n f fuel j w h =
    (node type_number (Value.float f), rw (h.0, h.1) refl, refl)

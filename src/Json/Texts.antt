-- ===== src/Json/Texts.antt =====
-- The buffers of odpi/src/dpiJson.c for the texts of numbers.
use godror.Base.{
  ℕ, zero, suc, ◌+◌, ◌*◌, ◌-◌, ◌≤◌, ◌<◌, ◌≡◌, refl, sym, ap, ◌∙◌, Bool, true, false, Bool-cases,
  inl, inr, Option, none, some, List, [], ◌∷◌, ◌++◌, ◌==◌, ltb, length, get_or, set, take,
  replicate, drop, length-append, length-set, length-take, length-replicate, get_or-set_self,
  get_or-set_ne, lt→ltb, get_or-append_left, Result, ok, err, Error, arith, if◌then◌else◌,
  append-nil,
}
use godror.Number.Parse.{number_as_text_chars}
use godror.Number.Text.{from_oracle_number_as_text}
use godror.Number.Proper.{IsProper}
use godror.Number.TextSize.{IsText, length-from_oracle_number_as_text}
use godror.Json.Buffers.{
  lift_option, Encoding, one_byte, two_bytes, is_utf16, encoded, Json, Action, Text, then_with,
  ◌>>=◌, overwrite, allocate_memory, grow_array, add_buffer, put_at, put_text, from_number_as_text,
  temp_buffer_size,
}

-- The array has the size that is recorded, and the buffers in use lie within it.
pub record IsSound (j : Json) : Type 0 where
  pub unused : j.temp_buffer_used ≡ 0
  pub sized : length j.temp_buffers ≡ j.allocated_temp_buffers
  pub within : j.num_temp_buffers ≤ j.allocated_temp_buffers

-- The buffers in use are those that there were, with what they held.
pub record Extends (j j' : Json) : Type 0 where
  pub grown : j.num_temp_buffers ≤ j'.num_temp_buffers
  pub kept :
      (i : ℕ)
      → i < j.num_temp_buffers
      → get_or j'.temp_buffers i none ≡ get_or j.temp_buffers i none

get_or-take {ℓ} :
    {A : Type ℓ} (xs : List A) (n i : ℕ) (d : A) → i < n → get_or (take n xs) i d ≡ get_or xs i d
get_or-take xs zero i d h = absurd (omega arith)
get_or-take [] (suc n) i d h = refl
get_or-take (x ∷ xs) (suc n) zero d h = refl
get_or-take (x ∷ xs) (suc n) (suc i) d h = get_or-take xs n i d (omega arith)

-- what `grow_array` makes of the array
copied : List (Option (List ℕ)) → ℕ → ℕ → List (Option (List ℕ))
copied buffers num size = take num buffers ++ replicate (size - num) none

length-copied :
    (buffers : List (Option (List ℕ))) (num size : ℕ)
    → num ≤ length buffers
    → num ≤ size
    → length (copied buffers num size) ≡ size
unfolding copied
length-copied buffers num size h le = omega (
  arith,
  length-append (take num buffers) (replicate (size - num) none),
  length-take num buffers,
  length-replicate {A = Option (List ℕ)} (size - num) none,
)

get_or-copied :
    (buffers : List (Option (List ℕ))) (num size i : ℕ)
    → num ≤ length buffers
    → i < num
    → get_or (copied buffers num size) i none ≡ get_or buffers i none
unfolding copied
get_or-copied buffers num size i h lt =
    get_or-append_left (take num buffers) (replicate (size - num) none) i none
      (omega (arith, length-take num buffers))
    ∙ get_or-take buffers num i none lt

module _ (found : ℕ → Bool) where
  -- a call of `grow_array` that returned
  data Grew (j : Json) : Option (Result (Unit {0}) × Json) → Type 0 where
    grew :
        (u : Unit {0}) (j' : Json)
        → IsSound j'
        → Extends j j'
        → j'.num_temp_buffers ≡ j.num_temp_buffers
        → j'.num_temp_buffers < j'.allocated_temp_buffers
        → Grew j (some (ok u, j'))
    starved : (e : Error) (j' : Json) → Extends j j' → Grew j (some (err e, j'))

  grow_array-Grew : (j : Json) → IsSound j → Grew j (grow_array found j)
  unfolding grow_array allocate_memory copied
  grow_array-Grew j h = elim (Bool-cases (j.num_temp_buffers == j.allocated_temp_buffers)) [
    | inr room ↦
        rw room
          (grew tt j h (record { grown = omega arith; kept = λ i lt. refl }) refl (ground arith))
    | inl full ↦ rw full (elim (Bool-cases (found j.allocations)) [
      | inr lacking ↦ rw lacking (starved _ _ (record { grown = omega arith; kept = λ i lt. refl }))
      | inl there ↦
          let fits : ltb (length j.temp_buffers) j.num_temp_buffers ≡ false =
            ground (arith, h.sized, h.within) in
          rw (there, fits)
            (grew tt _
              (record {
                unused = h.unused;
                sized =
                    length-copied j.temp_buffers j.num_temp_buffers (j.allocated_temp_buffers + 16)
                      (omega (arith, h.sized, h.within)) (omega (arith, h.within));
                within = omega (arith, h.within);
              })
              (record {
                grown = omega arith;
                kept = λ i lt.
                    get_or-copied j.temp_buffers j.num_temp_buffers (j.allocated_temp_buffers + 16)
                      i (omega (arith, h.sized, h.within)) lt;
              })
              refl (omega (arith, h.within)))
    ])
  ]

  -- a call of `add_buffer` that returned
  data Added (j : Json) : Option (Result (Unit {0}) × Json) → Type 0 where
    added :
        (u : Unit {0}) (j' : Json)
        → IsSound j'
        → Extends j j'
        → j'.num_temp_buffers ≡ j.num_temp_buffers + 1
        → get_or j'.temp_buffers j.num_temp_buffers none ≡ some []
        → Added j (some (ok u, j'))
    lacked : (e : Error) (j' : Json) → Extends j j' → Added j (some (err e, j'))

  set-kept :
      (buffers : List (Option (List ℕ))) (num i : ℕ) (b : Option (List ℕ))
      → i < num
      → get_or (set buffers num b) i none ≡ get_or buffers i none
  set-kept buffers num i b lt = get_or-set_ne buffers num i b none (λ e. omega arith)

  add_buffer-Added :
      (j : Json)
      → IsSound j
      → j.num_temp_buffers < j.allocated_temp_buffers
      → Added j (add_buffer found j)
  unfolding add_buffer allocate_memory
  add_buffer-Added j h lt =
      let num = j.num_temp_buffers in
      let inside : num < length j.temp_buffers = omega (arith, h.sized) in
      rw (lt→ltb _ _ inside) (elim (Bool-cases (found j.allocations)) [
        | inr lacking ↦ rw lacking (
            lacked _ _ (record {
              grown = omega arith;
              kept = λ i less. set-kept j.temp_buffers num i none less;
            }))
        | inl there ↦ rw there (
            added tt _
              (record {
                unused = refl;
                sized = length-set j.temp_buffers num (some []) ∙ h.sized;
                within = omega arith;
              })
              (record {
                grown = omega arith;
                kept = λ i less. set-kept j.temp_buffers num i (some []) less;
              })
              refl (get_or-set_self j.temp_buffers num (some []) none inside))
      ])

pub Extends-trans : {i j k : Json} → Extends i j → Extends j k → Extends i k
Extends-trans p q = record {
  grown = omega (arith, p.grown, q.grown);
  kept = λ n lt. q.kept n (omega (arith, p.grown)) ∙ p.kept n lt;
}

drop-nil : (n : ℕ) → drop {A = ℕ} n [] ≡ []
drop-nil zero = refl
drop-nil (suc n) = refl

overwrite_empty : (chars : List ℕ) → overwrite [] 0 chars ≡ chars
overwrite_empty chars =
    let rest : drop {A = ℕ} (0 + length chars) [] ≡ [] = drop-nil (0 + length chars) in
    rw rest (append-nil chars)

length-encoded :
    (encoding : Encoding) (chars : List ℕ)
    → length (encoded encoding chars)
      ≡ (if is_utf16 encoding then length chars * 2 else length chars)
length-encoded one_byte chars = refl
length-encoded (two_bytes halves) [] = refl
length-encoded (two_bytes halves) (c ∷ chars) =
    omega (arith, length-encoded (two_bytes halves) chars)

module _ (encoding : Encoding) where
  -- A call that was made for the text of a number, and returned: the text stands alone in a new buffer, or
  -- there is an error. The buffers that were in use hold what they held.
  pub data Wrote (value : List ℕ) (j : Json) : Option (Result Text × Json) → Type 0 where
    wrote :
        (size : ℕ) (chars : List ℕ) (t : Text) (j' : Json)
        → IsSound j'
        → Extends j j'
        → j'.num_temp_buffers ≡ j.num_temp_buffers + 1
        → t.buffer ≡ j.num_temp_buffers
        → t.offset ≡ 0
        → t.bytes ≡ encoded encoding chars
        → get_or j'.temp_buffers j.num_temp_buffers none ≡ some t.bytes
        → from_oracle_number_as_text (is_utf16 encoding) number_as_text_chars value
          ≡ some (ok (size, chars))
        → Wrote value j (some (ok t, j'))
    failed : (e : Error) (j' : Json) → Extends j j' → Wrote value j (some (err e, j'))

  put_at-Wrote :
      (value : List ℕ) (size : ℕ) (chars : List ℕ) (i j : Json)
      → from_oracle_number_as_text (is_utf16 encoding) number_as_text_chars value
        ≡ some (ok (size, chars))
      → length (encoded encoding chars) ≤ number_as_text_chars
      → IsSound j
      → Extends i j
      → j.num_temp_buffers ≡ i.num_temp_buffers + 1
      → Wrote value i (put_at (encoded encoding chars) i.num_temp_buffers j (some []))
  unfolding put_at
  put_at-Wrote value size chars i j converted le h ext one =
      let num = i.num_temp_buffers in
      let inside : num < length j.temp_buffers = omega (arith, h.sized, h.within) in
      let short : ltb temp_buffer_size (0 + length (encoded encoding chars)) ≡ false =
        ground arith in
      rw (h.unused, short)
        (wrote size chars (record { buffer = num; offset = 0; bytes = encoded encoding chars })
          (record j {
            temp_buffers = set j.temp_buffers num (some (overwrite [] 0 (encoded encoding chars)));
            temp_buffer_used = 0;
          })
          (record {
            unused = refl;
            sized = length-set j.temp_buffers num _ ∙ h.sized;
            within = h.within;
          })
          (record {
            grown = omega arith;
            kept = λ n lt.
                get_or-set_ne j.temp_buffers num n _ none (λ e. omega arith) ∙ ext.kept n lt;
          })
          one refl refl refl
          (get_or-set_self j.temp_buffers num _ none inside
            ∙ ap some (overwrite_empty (encoded encoding chars)))
          converted)

  put_text-Wrote :
      (value : List ℕ) (size : ℕ) (chars : List ℕ) (i j : Json)
      → from_oracle_number_as_text (is_utf16 encoding) number_as_text_chars value
        ≡ some (ok (size, chars))
      → length (encoded encoding chars) ≤ number_as_text_chars
      → IsSound j
      → Extends i j
      → j.num_temp_buffers ≡ i.num_temp_buffers + 1
      → get_or j.temp_buffers i.num_temp_buffers none ≡ some []
      → Wrote value i (put_text (encoded encoding chars) j)
  unfolding put_text
  put_text-Wrote value size chars i j converted le h ext one new =
      let num = i.num_temp_buffers in
      let last : j.num_temp_buffers - 1 ≡ num = omega arith in
      let some_used : (j.num_temp_buffers == 0) ≡ false = ground arith in
      let current : (if j.num_temp_buffers == 0
            then none
            else get_or j.temp_buffers (j.num_temp_buffers - 1) none)
          ≡ some [] =
        rw (some_used, last) new in
      rw (current, last) (put_at-Wrote value size chars i j converted le h ext one)

  -- the text converted and put into the buffer that was added
  after_add :
      (value : List ℕ) (i j : Json) (r : Option (Result (ℕ × List ℕ)))
      → from_oracle_number_as_text (is_utf16 encoding) number_as_text_chars value ≡ r
      → IsText (is_utf16 encoding) number_as_text_chars r
      → IsSound j
      → Extends i j
      → j.num_temp_buffers ≡ i.num_temp_buffers + 1
      → get_or j.temp_buffers i.num_temp_buffers none ≡ some []
      → Wrote value i
          (then_with (λ (text : ℕ × List ℕ). put_text (encoded encoding text.1)) (lift_option r j))
  after_add value i j none converted fits h ext one new = absurd fits
  after_add value i j (some (err e)) converted fits h ext one new = failed e j ext
  after_add value i j (some (ok (size, chars))) converted (same, le) h ext one new =
      put_text-Wrote value size chars i j converted (omega (arith, length-encoded encoding chars)) h
        ext one new

  abbrev converts : List ℕ → Unit {0} → Action Text
  converts value u =
      lift_option (from_oracle_number_as_text (is_utf16 encoding) number_as_text_chars value)
      >>= λ text. put_text (encoded encoding text.1)

  after_added :
      (found : ℕ → Bool) (value : List ℕ) (i j : Json) (x : Option (Result (Unit {0}) × Json))
      → IsProper value
      → Extends i j
      → j.num_temp_buffers ≡ i.num_temp_buffers
      → Added found j x
      → Wrote value i (then_with (converts value) x)
  after_added found value i j x proper ext same (added u k sound more one new) =
      after_add value i k
        (from_oracle_number_as_text (is_utf16 encoding) number_as_text_chars value) refl
        (length-from_oracle_number_as_text (is_utf16 encoding) number_as_text_chars value proper)
        sound (Extends-trans ext more) (omega arith)
        (ap (λ (n : ℕ). get_or k.temp_buffers n none) (sym same) ∙ new)
  after_added found value i j x proper ext same (lacked e k more) =
      failed e k (Extends-trans ext more)

  after_grow :
      (found : ℕ → Bool) (value : List ℕ) (i : Json) (x : Option (Result (Unit {0}) × Json))
      → IsProper value
      → Grew found i x
      → Wrote value i (then_with (converts value) (then_with (λ u. add_buffer found) x))
  after_grow found value i x proper (grew u j sound ext same room) =
      after_added found value i j _ proper ext same (add_buffer-Added found j sound room)
  after_grow found value i x proper (starved e j ext) = failed e j ext

  -- The text of a number of an OCINumber whose mantissa bytes stand for base-100 digits, from a state with sound buffers, is written within the array and the buffers, whatever
  -- memory is found: it stands alone in a new buffer, or there is an error, and the buffers that were in
  -- use hold what they held.
  pub from_number_as_text-Wrote :
      (found : ℕ → Bool) (value : List ℕ) (j : Json)
      → IsProper value
      → IsSound j
      → Wrote value j (from_number_as_text found encoding value j)
  unfolding from_number_as_text
  from_number_as_text-Wrote found value j proper h =
      let room : ltb (j.temp_buffer_used + number_as_text_chars) temp_buffer_size ≡ true =
        rw h.unused refl in
      rw room (after_grow found value j (grow_array found j) proper (grow_array-Grew found j h))

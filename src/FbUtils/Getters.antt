-- ===== src/FbUtils/Getters.antt =====
-- objectbox/fbutils/getters.go: reading the slots of a table of the FlatBuffers library, whose methods
-- are the fields of `Table`. A text is its bytes, a floating-point number its bit pattern; an int and a
-- uint have 64 bits.
use objectbox_go.Base.{
  ℕ, zero, suc, ◌+◌, ◌*◌, ◌%◌, ◌^◌, ◌==◌, ltb, Bool, false, List, [], ◌∷◌, Option, none, some,
  if◌then◌else◌,
}
use objectbox_go.Base.Int.{ℤ, pos}

-- flatbuffers.Table; the offset of a slot that is not set is 0.
pub record Table : Type 0 where
  pub position : ℕ
  pub offset : ℕ → ℕ
  pub byte_vector : ℕ → List ℕ
  pub vector_len : ℕ → ℕ
  pub vector : ℕ → ℕ
  pub bool : ℕ → Bool
  pub bool_slot : ℕ → Bool → Bool
  pub byte : ℕ → ℕ
  pub byte_slot : ℕ → ℕ → ℕ
  pub int32 : ℕ → ℤ
  pub int32_slot : ℕ → ℤ → ℤ
  pub int64 : ℕ → ℤ
  pub int64_slot : ℕ → ℤ → ℤ
  pub int8 : ℕ → ℤ
  pub int8_slot : ℕ → ℤ → ℤ
  pub int16 : ℕ → ℤ
  pub int16_slot : ℕ → ℤ → ℤ
  pub uint64 : ℕ → ℕ
  pub uint64_slot : ℕ → ℕ → ℕ
  pub uint8 : ℕ → ℕ
  pub uint8_slot : ℕ → ℕ → ℕ
  pub uint16 : ℕ → ℕ
  pub uint16_slot : ℕ → ℕ → ℕ
  pub uint32 : ℕ → ℕ
  pub uint32_slot : ℕ → ℕ → ℕ
  pub float32 : ℕ → ℕ
  pub float32_slot : ℕ → ℕ → ℕ
  pub float64 : ℕ → ℕ
  pub float64_slot : ℕ → ℕ → ℕ

-- A value at the address of a slot, none if the slot is not set.
unfoldable pub when_set : {A : Type 0} → Table → ℕ → (ℕ → A) → Option A
when_set table slot read =
    let o = table.offset slot in
    if o == 0 then none else some (read ((o + table.position) % 2 ^ 32))

-- A slice that is nil is empty.
unfoldable pub or_empty : {A : Type 0} → Option (List A) → List A
or_empty none = []
or_empty (some values) = values

unfoldable pub get_string_ptr_slot : Table → ℕ → Option (List ℕ)
unfolding when_set
get_string_ptr_slot table slot = when_set table slot table.byte_vector

unfoldable pub get_string_slot : Table → ℕ → List ℕ
unfolding when_set or_empty
get_string_slot table slot = or_empty (when_set table slot table.byte_vector)

-- The bytes are a copy.
unfoldable pub get_byte_vector_ptr_slot : Table → ℕ → Option (List ℕ)
unfolding when_set
get_byte_vector_ptr_slot table slot = when_set table slot table.byte_vector

unfoldable pub get_byte_vector_slot : Table → ℕ → List ℕ
unfolding get_byte_vector_ptr_slot or_empty
get_byte_vector_slot table slot = or_empty (get_byte_vector_ptr_slot table slot)

-- The loop over the elements of four bytes each from an address to an end.
unfoldable pub strings_from : ℕ → Table → ℕ → ℕ → List (List ℕ)
strings_from zero table address end_address = []
strings_from (suc fuel) table address end_address =
    let rest = strings_from fuel table ((address + 4) % 2 ^ 32) end_address in
    if ltb address end_address then table.byte_vector address ∷ rest else []

-- As many rounds as there are elements are enough.
unfoldable pub get_string_vector_ptr_slot : Table → ℕ → Option (List (List ℕ))
unfolding strings_from
get_string_vector_ptr_slot table slot =
    let o = table.offset slot in
    let ln = table.vector_len o in
    let start = table.vector o in
    if o == 0 then none else some (strings_from ln table start ((start + ln % 2 ^ 32 * 4) % 2 ^ 32))

unfoldable pub get_string_vector_slot : Table → ℕ → List (List ℕ)
unfolding get_string_vector_ptr_slot or_empty
get_string_vector_slot table slot = or_empty (get_string_vector_ptr_slot table slot)

unfoldable pub get_bool_slot : Table → ℕ → Bool
get_bool_slot table slot = table.bool_slot slot false

unfoldable pub get_bool_ptr_slot : Table → ℕ → Option Bool
unfolding when_set
get_bool_ptr_slot table slot = when_set table slot table.bool

unfoldable pub get_byte_slot : Table → ℕ → ℕ
get_byte_slot table slot = table.byte_slot slot 0

unfoldable pub get_byte_ptr_slot : Table → ℕ → Option ℕ
unfolding when_set
get_byte_ptr_slot table slot = when_set table slot table.byte

unfoldable pub get_rune_slot : Table → ℕ → ℤ
get_rune_slot table slot = table.int32_slot slot (pos 0)

unfoldable pub get_rune_ptr_slot : Table → ℕ → Option ℤ
unfolding when_set
get_rune_ptr_slot table slot = when_set table slot table.int32

unfoldable pub get_int_slot : Table → ℕ → ℤ
get_int_slot table slot = table.int64_slot slot (pos 0)

unfoldable pub get_int_ptr_slot : Table → ℕ → Option ℤ
unfolding when_set
get_int_ptr_slot table slot = when_set table slot table.int64

unfoldable pub get_int8_slot : Table → ℕ → ℤ
get_int8_slot table slot = table.int8_slot slot (pos 0)

unfoldable pub get_int8_ptr_slot : Table → ℕ → Option ℤ
unfolding when_set
get_int8_ptr_slot table slot = when_set table slot table.int8

unfoldable pub get_int16_slot : Table → ℕ → ℤ
get_int16_slot table slot = table.int16_slot slot (pos 0)

unfoldable pub get_int16_ptr_slot : Table → ℕ → Option ℤ
unfolding when_set
get_int16_ptr_slot table slot = when_set table slot table.int16

unfoldable pub get_int32_slot : Table → ℕ → ℤ
get_int32_slot table slot = table.int32_slot slot (pos 0)

unfoldable pub get_int32_ptr_slot : Table → ℕ → Option ℤ
unfolding when_set
get_int32_ptr_slot table slot = when_set table slot table.int32

unfoldable pub get_int64_slot : Table → ℕ → ℤ
get_int64_slot table slot = table.int64_slot slot (pos 0)

unfoldable pub get_int64_ptr_slot : Table → ℕ → Option ℤ
unfolding when_set
get_int64_ptr_slot table slot = when_set table slot table.int64

unfoldable pub get_uint_slot : Table → ℕ → ℕ
get_uint_slot table slot = table.uint64_slot slot 0

unfoldable pub get_uint_ptr_slot : Table → ℕ → Option ℕ
unfolding when_set
get_uint_ptr_slot table slot = when_set table slot table.uint64

unfoldable pub get_uint8_slot : Table → ℕ → ℕ
get_uint8_slot table slot = table.uint8_slot slot 0

unfoldable pub get_uint8_ptr_slot : Table → ℕ → Option ℕ
unfolding when_set
get_uint8_ptr_slot table slot = when_set table slot table.uint8

unfoldable pub get_uint16_slot : Table → ℕ → ℕ
get_uint16_slot table slot = table.uint16_slot slot 0

unfoldable pub get_uint16_ptr_slot : Table → ℕ → Option ℕ
unfolding when_set
get_uint16_ptr_slot table slot = when_set table slot table.uint16

unfoldable pub get_uint32_slot : Table → ℕ → ℕ
get_uint32_slot table slot = table.uint32_slot slot 0

unfoldable pub get_uint32_ptr_slot : Table → ℕ → Option ℕ
unfolding when_set
get_uint32_ptr_slot table slot = when_set table slot table.uint32

unfoldable pub get_uint64_slot : Table → ℕ → ℕ
get_uint64_slot table slot = table.uint64_slot slot 0

unfoldable pub get_uint64_ptr_slot : Table → ℕ → Option ℕ
unfolding when_set
get_uint64_ptr_slot table slot = when_set table slot table.uint64

unfoldable pub get_float32_slot : Table → ℕ → ℕ
get_float32_slot table slot = table.float32_slot slot 0

unfoldable pub get_float32_ptr_slot : Table → ℕ → Option ℕ
unfolding when_set
get_float32_ptr_slot table slot = when_set table slot table.float32

unfoldable pub get_float64_slot : Table → ℕ → ℕ
get_float64_slot table slot = table.float64_slot slot 0

unfoldable pub get_float64_ptr_slot : Table → ℕ → Option ℕ
unfolding when_set
get_float64_ptr_slot table slot = when_set table slot table.float64

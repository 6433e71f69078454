-- ===== src/FbUtils/Setters.antt =====
-- objectbox/fbutils/setters.go and utils.go: writing the slots of a table and the vectors that they
-- point to with a builder of the FlatBuffers library, whose methods are the fields of `FbBuilder`. `W`
-- is the state of the builder.
use objectbox_go.Base.{ℕ, ◌==◌, Bool, List, [], ◌∷◌, length, Option, none, some, if◌then◌else◌}
use objectbox_go.Base.Int.{ℤ}

-- flatbuffers.Builder; a text is its bytes, a floating-point number its bit pattern.
pub record FbBuilder (W : Type 0) : Type 0 where
  pub put_byte : ℕ → W → W
  pub put_uint8 : ℕ → W → W
  pub put_uint16 : ℕ → W → W
  pub put_uint32 : ℕ → W → W
  pub put_uint64 : ℕ → W → W
  pub put_int8 : ℤ → W → W
  pub put_int16 : ℤ → W → W
  pub put_int32 : ℤ → W → W
  pub put_int64 : ℤ → W → W
  pub put_float32 : ℕ → W → W
  pub put_float64 : ℕ → W → W
  pub put_offset : ℕ → W → W
  pub slot : ℕ → W → W
  pub create_string : List ℕ → W → ℕ × W
  pub create_byte_vector : List ℕ → W → ℕ × W
  pub start_vector : ℕ → ℕ → ℕ → W → W
  pub end_vector : ℕ → W → ℕ × W

module _ {W : Type 0} (fbb : FbBuilder W) where
  unfoldable pub set_byte_slot : ℕ → ℕ → W → W
  set_byte_slot slot value w = fbb.slot slot (fbb.put_byte value w)

  unfoldable pub set_bool_slot : ℕ → Bool → W → W
  unfolding set_byte_slot
  set_bool_slot slot value w = if value then set_byte_slot slot 1 w else set_byte_slot slot 0 w

  unfoldable pub set_uint8_slot : ℕ → ℕ → W → W
  set_uint8_slot slot value w = fbb.slot slot (fbb.put_uint8 value w)

  unfoldable pub set_uint16_slot : ℕ → ℕ → W → W
  set_uint16_slot slot value w = fbb.slot slot (fbb.put_uint16 value w)

  unfoldable pub set_uint32_slot : ℕ → ℕ → W → W
  set_uint32_slot slot value w = fbb.slot slot (fbb.put_uint32 value w)

  unfoldable pub set_uint64_slot : ℕ → ℕ → W → W
  set_uint64_slot slot value w = fbb.slot slot (fbb.put_uint64 value w)

  unfoldable pub set_int8_slot : ℕ → ℤ → W → W
  set_int8_slot slot value w = fbb.slot slot (fbb.put_int8 value w)

  unfoldable pub set_int16_slot : ℕ → ℤ → W → W
  set_int16_slot slot value w = fbb.slot slot (fbb.put_int16 value w)

  unfoldable pub set_int32_slot : ℕ → ℤ → W → W
  set_int32_slot slot value w = fbb.slot slot (fbb.put_int32 value w)

  unfoldable pub set_int64_slot : ℕ → ℤ → W → W
  set_int64_slot slot value w = fbb.slot slot (fbb.put_int64 value w)

  unfoldable pub set_float32_slot : ℕ → ℕ → W → W
  set_float32_slot slot value w = fbb.slot slot (fbb.put_float32 value w)

  unfoldable pub set_float64_slot : ℕ → ℕ → W → W
  set_float64_slot slot value w = fbb.slot slot (fbb.put_float64 value w)

  -- An offset of 0 is not written.
  unfoldable pub set_offset_slot : ℕ → ℕ → W → W
  set_offset_slot slot value w = if value == 0 then w else fbb.slot slot (fbb.put_offset value w)

  unfoldable pub create_string_offset : List ℕ → W → ℕ × W
  create_string_offset value = fbb.create_string value

  -- none is a nil slice.
  unfoldable pub create_byte_vector_offset : Option (List ℕ) → W → ℕ × W
  create_byte_vector_offset none w = (0, w)
  create_byte_vector_offset (some value) w = fbb.create_byte_vector value w

  create_strings : List (List ℕ) → W → List ℕ × W
  create_strings [] w = ([], w)
  create_strings (v ∷ values) w =
      let (o, w1) = fbb.create_string v w in
      let (offsets, w2) = create_strings values w1 in (o ∷ offsets, w2)

  -- The loop from the last offset to the first.
  prepend_offsets : List ℕ → W → W
  prepend_offsets [] w = w
  prepend_offsets (o ∷ offsets) w = fbb.put_offset o (prepend_offsets offsets w)

  unfoldable pub create_offset_vector : List ℕ → W → ℕ × W
  unfolding prepend_offsets
  create_offset_vector offsets w =
      let n = length offsets in
      fbb.end_vector n (prepend_offsets offsets (fbb.start_vector 4 n 4 w))

  unfoldable pub create_string_vector_offset : Option (List (List ℕ)) → W → ℕ × W
  unfolding create_strings create_offset_vector
  create_string_vector_offset none w = (0, w)
  create_string_vector_offset (some values) w =
      let (offsets, w') = create_strings values w in create_offset_vector offsets w'

-- ===== src/FbUtils/Examples.antt =====
-- A table with one slot that is set, and a builder that records what is written.
use objectbox_go.Base.{
  ℕ, ◌==◌, ◌+◌, ◌≡◌, refl, false, List, [], ◌∷◌, length, none, some, if◌then◌else◌,
}
use objectbox_go.Base.Int.{pos}
use objectbox_go.FbUtils.Getters.{
  Table, get_bool_ptr_slot, get_uint16_ptr_slot, get_string_vector_slot,
}
use objectbox_go.FbUtils.Setters.{FbBuilder, set_offset_slot, create_string_vector_offset}

-- The slot 4 is set.
abbrev table : Table
table = record {
  position = 100;
  offset = λ slot. if slot == 4 then 8 else 0;
  byte_vector = λ address. address ∷ [];
  vector_len = λ o. 3;
  vector = λ o. 100 + o + 4;
  bool = λ address. false;
  bool_slot = λ slot default. default;
  byte = λ address. address;
  byte_slot = λ slot default. default;
  int32 = λ address. pos address;
  int32_slot = λ slot default. default;
  int64 = λ address. pos address;
  int64_slot = λ slot default. default;
  int8 = λ address. pos address;
  int8_slot = λ slot default. default;
  int16 = λ address. pos address;
  int16_slot = λ slot default. default;
  uint64 = λ address. address;
  uint64_slot = λ slot default. default;
  uint8 = λ address. address;
  uint8_slot = λ slot default. default;
  uint16 = λ address. address;
  uint16_slot = λ slot default. default;
  uint32 = λ address. address;
  uint32_slot = λ slot default. default;
  float32 = λ address. address;
  float32_slot = λ slot default. default;
  float64 = λ address. address;
  float64_slot = λ slot default. default;
}

set_slot : get_uint16_ptr_slot table 4 ≡ some 108
unfolding get_uint16_ptr_slot
set_slot = refl

unset_slot : get_bool_ptr_slot table 6 ≡ none
unfolding get_bool_ptr_slot
unset_slot = refl

three_texts : get_string_vector_slot table 4 ≡ (112 ∷ []) ∷ (116 ∷ []) ∷ (120 ∷ []) ∷ []
unfolding get_string_vector_slot
three_texts = refl

-- What has been written, the last first; a text gets its first byte as its offset.
abbrev recording : FbBuilder (List ℕ)
recording = record {
  put_byte = λ value w. value ∷ w;
  put_uint8 = λ value w. value ∷ w;
  put_uint16 = λ value w. value ∷ w;
  put_uint32 = λ value w. value ∷ w;
  put_uint64 = λ value w. value ∷ w;
  put_int8 = λ value w. w;
  put_int16 = λ value w. w;
  put_int32 = λ value w. w;
  put_int64 = λ value w. w;
  put_float32 = λ value w. value ∷ w;
  put_float64 = λ value w. value ∷ w;
  put_offset = λ value w. value ∷ w;
  slot = λ slot w. w;
  create_string = λ value w. (length value, w);
  create_byte_vector = λ value w. (length value, w);
  start_vector = λ size n alignment w. [];
  end_vector = λ n w. (n, w);
}

-- The offsets of the texts stand in the vector in the order of the texts.
in_order :
    create_string_vector_offset recording (some ((65 ∷ []) ∷ (66 ∷ 67 ∷ []) ∷ [])) []
    ≡ (2, 1 ∷ 2 ∷ [])
unfolding create_string_vector_offset
in_order = refl

nil_vector : set_offset_slot recording 4 (create_string_vector_offset recording none []).0 [] ≡ []
unfolding set_offset_slot create_string_vector_offset
nil_vector = refl

-- ===== src/FbUtils/Buffers.antt =====
-- What the bindings and objectbox/box.go use of the FlatBuffers library to write an object and to read
-- it back. The methods of a builder are fields of `FlatBuffers`; `finished` is the end of
-- withObjectBytes, with EndObject, Finish and FinishedBytes.
use objectbox_go.Base.{
  ℕ, ◌+◌, ◌*◌, ◌^◌, ◌<◌, ◌≡◌, ◌≢◌, ◌==◌, List, [], length, Option, some, if◌then◌else◌,
}
use objectbox_go.Base.Int.{ℤ}
use objectbox_go.Converters.Times.{Int64}
use objectbox_go.FbUtils.Setters.{FbBuilder}
use objectbox_go.FbUtils.Getters.{Table, when_set}

-- A builder of the library, whose state is `F`, and the root table of a finished buffer.
pub record FlatBuffers (F : Type 0) : Type 0 where
  pub builder : FbBuilder F
  pub empty : F
  pub start_object : ℕ → F → F
  pub end_object : F → ℕ × F
  pub finish : ℕ → F → F
  pub finished_bytes : F → List ℕ
  pub table_of : List ℕ → Table

unfoldable pub finished : {F : Type 0} → FlatBuffers F → F → List ℕ
finished fb b = let (o, b') = fb.end_object b in fb.finished_bytes (fb.finish o b')

-- What a slot of the table that is being built refers to.
pub data Field : Type 0 where
  uint64_field : ℕ → Field
  int64_field : ℤ → Field
  offset_field : ℕ → Field

-- The documented behaviour of the library, for `slot_count` and `fields`, the slots of the open table,
-- and `strings`, the texts at the offsets that the builder gave out. The library refuses buffers of
-- two gigabytes, so that it is asked for texts of less than half of that; the slots of a
-- table are numbered by 16 bits.
pub record FlatBuffersLaws {F : Type 0} (fb : FlatBuffers F) : Type 0 where
  pub slot_count : F → ℕ
  pub fields : F → ℕ → Option Field
  pub strings : F → ℕ → Option (List ℕ)
  pub start_counts : (n : ℕ) (b : F) → slot_count (fb.start_object n b) ≡ n
  pub start_strings : (n : ℕ) (b : F) → strings (fb.start_object n b) ≡ strings b
  pub uint64_counts :
      (n v : ℕ) (b : F) → slot_count (fb.builder.slot n (fb.builder.put_uint64 v b)) ≡ slot_count b
  pub uint64_strings :
      (n v : ℕ) (b : F) → strings (fb.builder.slot n (fb.builder.put_uint64 v b)) ≡ strings b
  pub uint64_sets :
      (n v : ℕ) (b : F)
      → n < slot_count b
      → v < 2 ^ 64
      → (j : ℕ)
      → fields (fb.builder.slot n (fb.builder.put_uint64 v b)) j
        ≡ (if n == j then some (uint64_field v) else fields b j)
  pub int64_counts :
      (n : ℕ) (v : ℤ) (b : F)
      → slot_count (fb.builder.slot n (fb.builder.put_int64 v b)) ≡ slot_count b
  pub int64_strings :
      (n : ℕ) (v : ℤ) (b : F) → strings (fb.builder.slot n (fb.builder.put_int64 v b)) ≡ strings b
  pub int64_sets :
      (n : ℕ) (v : ℤ) (b : F)
      → n < slot_count b
      → Int64 v
      → (j : ℕ)
      → fields (fb.builder.slot n (fb.builder.put_int64 v b)) j
        ≡ (if n == j then some (int64_field v) else fields b j)
  pub offset_counts :
      (n v : ℕ) (b : F) → slot_count (fb.builder.slot n (fb.builder.put_offset v b)) ≡ slot_count b
  pub offset_strings :
      (n v : ℕ) (b : F) → strings (fb.builder.slot n (fb.builder.put_offset v b)) ≡ strings b
  pub offset_sets :
      (n v : ℕ) (b : F)
      → n < slot_count b
      → (j : ℕ)
      → fields (fb.builder.slot n (fb.builder.put_offset v b)) j
        ≡ (if n == j then some (offset_field v) else fields b j)
  pub create_string_nonzero :
      (s : List ℕ) (b : F) → length s < 2 ^ 30 → (fb.builder.create_string s b).0 ≢ 0
  pub create_string_strings :
      (s : List ℕ) (b : F)
      → length s < 2 ^ 30
      → strings (fb.builder.create_string s b).1 (fb.builder.create_string s b).0 ≡ some s
  pub finished_some : (b : F) → finished fb b ≢ []
  pub read_uint64 :
      (b : F) (n v default : ℕ)
      → n < 2 ^ 14
      → fields b n ≡ some (uint64_field v)
      → (fb.table_of (finished fb b)).uint64_slot (4 + 2 * n) default ≡ v
  pub read_int64 :
      (b : F) (n : ℕ) (v default : ℤ)
      → n < 2 ^ 14
      → fields b n ≡ some (int64_field v)
      → (fb.table_of (finished fb b)).int64_slot (4 + 2 * n) default ≡ v
  pub read_offset :
      (b : F) (n o : ℕ) (s : List ℕ)
      → n < 2 ^ 14
      → fields b n ≡ some (offset_field o)
      → strings b o ≡ some s
      → when_set (fb.table_of (finished fb b)) (4 + 2 * n) (fb.table_of (finished fb b)).byte_vector
        ≡ some s

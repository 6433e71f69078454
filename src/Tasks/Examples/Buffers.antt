-- ===== src/Tasks/Examples/Buffers.antt =====
-- A small FlatBuffers library, for the examples: a finished buffer is a list of entries of three
-- numbers each, a slot with a kind and a value; a text has one entry for each of its bytes.
pub mod Laws
use objectbox_go.Base.{
  ℕ, zero, suc, ◌+◌, ◌-◌, ◌*◌, ◌/◌, ◌%◌, ◌^◌, ◌<◌, ◌≤◌, ◌≡◌, ◌≢◌, refl, sym, ap, subst, ◌∙◌, ◌==◌,
  ==_refl, arith, ltb, true, false, ◌&&◌, List, [], ◌∷◌, ◌++◌, Option, none, some, if◌then◌else◌,
  Bool-cases, inl, inr, equal_or_not,
}
use mathlib.Core.List.{append-nil}
use objectbox_go.Base.Int.{ℤ, pos, negsuc}
use objectbox_go.FbUtils.Getters.{Table, when_set}
use objectbox_go.FbUtils.Buffers.{
  FlatBuffers, FlatBuffersLaws, finished, Field, uint64_field, int64_field, offset_field,
}

pub record Buffer : Type 0 where
  pub count : ℕ
  pub slots : ℕ → Option Field
  pub texts : ℕ → Option (List ℕ)
  pub next : ℕ
  pub last : Option Field

chars : ℕ → List ℕ → List ℕ
chars n [] = []
chars n (c ∷ s) = n ∷ 5 ∷ c ∷ chars n s

text_entry : ℕ → Option (List ℕ) → List ℕ
unfolding chars
text_entry n none = []
text_entry n (some s) = n ∷ 4 ∷ 0 ∷ chars n s

field_entry : ℕ → Field → Buffer → List ℕ
unfolding text_entry
field_entry n (uint64_field v) b = n ∷ 1 ∷ v ∷ []
field_entry n (int64_field (pos v)) b = n ∷ 2 ∷ v ∷ []
field_entry n (int64_field (negsuc v)) b = n ∷ 3 ∷ v ∷ []
field_entry n (offset_field o) b = text_entry n (b.texts o)

entry : ℕ → Option Field → Buffer → List ℕ
unfolding field_entry
entry n none b = []
entry n (some f) b = field_entry n f b

encode : ℕ → Buffer → List ℕ
unfolding entry
encode zero b = []
encode (suc n) b = entry n (b.slots n) b ++ encode n b

find : ℕ → List ℕ → Option (ℕ × ℕ)
find n (k ∷ kind ∷ v ∷ rest) = let below = find n rest in if k == n then some (kind, v) else below
find n _ = none

collect : ℕ → List ℕ → List ℕ
collect n (k ∷ kind ∷ v ∷ rest) =
    let below = collect n rest in if k == n && kind == 5 then v ∷ below else below
collect n _ = []

number : Option (ℕ × ℕ) → ℕ → ℕ
number none d = d
number (some (kind, v)) d = v

integer : Option (ℕ × ℕ) → ℤ → ℤ
integer none d = d
integer (some (kind, v)) d = if kind == 2 then pos v else negsuc v

place : Option (ℕ × ℕ) → ℕ → ℕ
place none o = 0
place (some r) o = o

-- The slot of a place in the table of slots.
abbrev slot_at : ℕ → ℕ
slot_at o = (o - 4) / 2

read_table : List ℕ → Table
unfolding find collect number integer place
read_table bytes = record {
  position = 0;
  offset = λ o. place (find (slot_at o) bytes) o;
  byte_vector = λ a. collect (slot_at a) bytes;
  vector_len = λ a. 0;
  vector = λ a. 0;
  bool = λ a. false;
  bool_slot = λ o d. d;
  byte = λ a. 0;
  byte_slot = λ o d. d;
  int32 = λ a. pos 0;
  int32_slot = λ o d. d;
  int64 = λ a. pos 0;
  int64_slot = λ o d. integer (find (slot_at o) bytes) d;
  int8 = λ a. pos 0;
  int8_slot = λ o d. d;
  int16 = λ a. pos 0;
  int16_slot = λ o d. d;
  uint64 = λ a. 0;
  uint64_slot = λ o d. number (find (slot_at o) bytes) d;
  uint8 = λ a. 0;
  uint8_slot = λ o d. d;
  uint16 = λ a. 0;
  uint16_slot = λ o d. d;
  uint32 = λ a. 0;
  uint32_slot = λ o d. d;
  float32 = λ a. 0;
  float32_slot = λ o d. d;
  float64 = λ a. 0;
  float64_slot = λ o d. d;
}

table_of : List ℕ → Table
unfolding read_table
table_of [] = read_table []
table_of (b ∷ bytes) = read_table bytes

abbrev put : Field → Buffer → Buffer
put f b = record b { last = some f }

unfoldable pub buffers : FlatBuffers Buffer
unfolding encode table_of
buffers = record {
  builder = record {
    put_byte = λ v b. b;
    put_uint8 = λ v b. b;
    put_uint16 = λ v b. b;
    put_uint32 = λ v b. b;
    put_uint64 = λ v. put (uint64_field v);
    put_int8 = λ v b. b;
    put_int16 = λ v b. b;
    put_int32 = λ v b. b;
    put_int64 = λ v. put (int64_field v);
    put_float32 = λ v b. b;
    put_float64 = λ v b. b;
    put_offset = λ v. put (offset_field v);
    slot = λ n b. record b { slots = λ j. if n == j then b.last else b.slots j };
    create_string = λ s b. (
      suc b.next,
      record b { texts = λ o. if suc b.next == o then some s else b.texts o; next = suc b.next },
    );
    create_byte_vector = λ s b. (0, b);
    start_vector = λ i j k b. b;
    end_vector = λ n b. (0, b);
  };
  empty = record { count = 0; slots = λ j. none; texts = λ o. none; next = 0; last = none };
  start_object = λ n b. record b { count = n; slots = λ j. none };
  end_object = λ b. (0, b);
  finish = λ o b. b;
  finished_bytes = λ b. 1 ∷ encode b.count b;
  table_of = table_of;
}

-- ===== src/PropertyQuery/Examples.antt =====
-- A property query over a C library that writes its array into the memory.
use objectbox_go.Base.{
  ℕ, zero, suc, ◌^◌, ◌<◌, ◌-◌, ◌%◌, ◌/◌, ltb, ◌≡◌, refl, List, [], ◌∷◌, Option, none, some,
  converted, is_some, message_with_both, err, arith, if◌then◌else◌,
}
use objectbox_go.Base.Int.{ℤ, pos, negsuc}
use objectbox_go.Native.Words.{to_int64, to_uint64}
use objectbox_go.Native.Arrays.{Memory, CArray}
use objectbox_go.Native.Stored.{Holds, Stored}
use objectbox_go.Native.Getters.{ArrayApi}
use objectbox_go.Query.{Query}
use objectbox_go.PropertyQuery.{PropertyCalls, property_or_error, find_int64s, find_uint64s}
use objectbox_go.PropertyQuery.Found.{FindLaws, Found, filled, find_uint64s-Found}

-- The k-th byte of a number.
byte : ℕ → ℕ → ℕ
byte zero n = n % 256
byte (suc k) n = byte k (n / 256)

-- A 5 and a second number, if there is one.
abbrev bytes : Option ℕ → Memory
bytes none address = byte address 5
bytes (some n) address = if ltb address 8 then byte address 5 else byte (address - 8) n

abbrev items : Option ℕ → CArray
items none = record { start = 0; count = 1 }
items (some n) = record { start = 0; count = 2 }

abbrev arrays : ArrayApi (Option ℕ) ℕ
arrays = record {
  errors = record { last_error_message = λ w. none };
  memory = bytes;
  array = λ handle w. items w;
  text = λ w address. address;
  id_array_free = λ handle w. w;
  bytes_array_free = λ handle w. w;
  string_array_free = λ handle w. w;
  int64_array_free = λ handle w. w;
  int32_array_free = λ handle w. w;
  int16_array_free = λ handle w. w;
  int8_array_free = λ handle w. w;
  double_array_free = λ handle w. w;
  float_array_free = λ handle w. w;
}

abbrev calls : PropertyCalls (Option ℕ) ℕ
calls = record {
  query_prop = λ query property w. (some 1, w);
  close = λ pointer w. (0, w);
  distinct = λ pq value w. (0, w);
  distinct_case = λ pq value case_sensitive w. (0, w);
  count = λ pq w. ((0, 2), w);
  avg = λ pq w. ((0, 0), w);
  min = λ pq w. ((0, 0), w);
  max = λ pq w. ((0, 0), w);
  sum = λ pq w. ((0, 0), w);
  min_int = λ pq w. ((0, pos 5), w);
  max_int = λ pq w. ((0, pos 5), w);
  sum_int = λ pq w. ((0, pos 5), w);
  find_int64s = λ pq value w. (if is_some pq then some 1 else none, converted to_uint64 value);
  find_int32s = λ pq value w. (none, w);
  find_int16s = λ pq value w. (none, w);
  find_int8s = λ pq value w. (none, w);
  find_doubles = λ pq value w. (none, w);
  find_floats = λ pq value w. (none, w);
  find_strings = λ pq value w. (none, w);
}

to_uint64-lt : (value : ℤ) → to_uint64 value < 2 ^ 64
unfolding to_uint64
to_uint64-lt (pos n) = omega arith
to_uint64-lt (negsuc n) = omega arith

of_bytes : (n : ℕ) → n < 2 ^ 64 → Holds 8 (bytes (some n)) 8 n
unfolding byte
of_bytes n h = (refl, (refl, (refl, (refl, (refl, (refl, (refl, (refl, omega arith))))))))

abbrev found : Option ℕ → Option ℕ → List (Option ℕ)
found pq w = some 5 ∷ none ∷ []

written :
    (value : Option ℤ)
    → Stored 8
        (bytes (converted to_uint64 value))
        (items (converted to_uint64 value))
        (filled (converted to_uint64 value) (some 5 ∷ none ∷ []))
unfolding filled byte
written none = (refl, ((refl, (refl, (refl, (refl, (refl, (refl, (refl, (refl, refl)))))))), tt))
written (some value) = (
  refl,
  (
    (refl, (refl, (refl, (refl, (refl, (refl, (refl, (refl, refl)))))))),
    (of_bytes (to_uint64 value) (to_uint64-lt value), tt),
  ),
)

abbrev laws : FindLaws arrays calls
laws = record { stored = found; finds = λ pq value w handle e. written value }

abbrev query : Query
query = record {
  c_query = some 3;
  entity = 1;
  linked_entity_ids = [];
  offset_err = none;
  limit_err = none;
}

foreign :
    (property_or_error arrays calls query 2 7 none).0
    ≡ err (message_with_both "property from a different entity passed" 2 1)
unfolding property_or_error
foreign = refl

find_uint64s-Found_example :
    Found arrays (5 ∷ 9 ∷ []) (some 1, some 9) (find_uint64s arrays calls (some 1) (some 9) none)
    × Found arrays
        (pos 5 ∷ pos 9 ∷ [])
        (some 1, some 9)
        (find_int64s arrays calls (some 1) (some (pos 9)) none)
unfolding filled to_int64 to_uint64
find_uint64s-Found_example =
    find_uint64s-Found arrays calls laws (some 1) (some 9) none (λ v h. grind arith)

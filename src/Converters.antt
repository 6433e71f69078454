-- ===== src/Converters.antt =====
-- objectbox/converters.go: the converters between the values of properties and what is stored, for
-- times as numbers and for identifiers in texts, with the functions of the packages time and strconv
-- that they use. A Go string is the list of its bytes.
pub mod Times
pub mod Millis
pub mod StringIds
pub mod Examples
use objectbox_go.Base.{
  ℕ, zero, suc, ◌+◌, ◌-◌, ◌*◌, ◌/◌, ◌%◌, ◌^◌, ltb, leb, ◌&&◌, List, [], ◌∷◌, if◌then◌else◌, Outcome,
  ok, err, message,
}
use objectbox_go.Base.Int.{ℤ, pos, negsuc, pos_part, neg_part, ◌+ℤ◌, ◌-ℤ◌, ◌*ℤ◌, quot, rem, ltb_ℤ}
use objectbox_go.Native.Words.{to_int64, to_uint64}

-- An int64, of what a sum or a product of int64 is before it wraps round.
unfoldable pub wrap64 : ℤ → ℤ
unfolding to_int64 to_uint64
wrap64 a = to_int64 (to_uint64 a)

-- A time.Time, as the seconds since 1970 and the nanoseconds within the second.
pub record Time : Type 0 where
  pub seconds : ℤ
  pub nanosecond : ℕ

abbrev pub ns_in_sec : ℕ
ns_in_sec = 1000 * 1000 * 1000

-- time.Unix, with nanoseconds that are brought into one second.
unfoldable pub carry : ℤ → ℤ → Time
unfolding wrap64 ◌+ℤ◌
carry seconds (pos n) = record { seconds = seconds; nanosecond = n }
carry seconds (negsuc n) = record {
  seconds = wrap64 (seconds +ℤ negsuc 0);
  nanosecond = pos_part (negsuc n +ℤ pos ns_in_sec);
}

unfoldable pub unix : ℤ → ℤ → Time
unfolding carry quot ◌-ℤ◌ ◌*ℤ◌
unix seconds nanoseconds =
    let n = quot nanoseconds ns_in_sec in
    carry (wrap64 (seconds +ℤ n)) (nanoseconds -ℤ n *ℤ ns_in_sec)

-- TimeInt64ConvertToEntityProperty and TimeInt64ConvertToDatabaseValue
unfoldable pub time_to_property : ℤ → Time
unfolding unix quot rem ◌*ℤ◌
time_to_property value = unix (quot value 1000) (rem value 1000 *ℤ 1000000)

unfoldable pub time_to_database : Time → ℤ
unfolding wrap64 ◌*ℤ◌ ◌+ℤ◌
time_to_database t = wrap64 (wrap64 (t.seconds *ℤ 1000) +ℤ pos (t.nanosecond / 1000000))

-- NanoTimeInt64ConvertToEntityProperty and NanoTimeInt64ConvertToDatabaseValue
unfoldable pub nano_time_to_property : ℤ → Time
unfolding unix quot ◌*ℤ◌ ◌-ℤ◌
nano_time_to_property value =
    let seconds = quot value ns_in_sec in unix seconds (value -ℤ seconds *ℤ ns_in_sec)

unfoldable pub nano_time_to_database : Time → ℤ
unfolding wrap64 ◌*ℤ◌ ◌+ℤ◌
nano_time_to_database t = wrap64 (wrap64 (t.seconds *ℤ ns_in_sec) +ℤ pos t.nanosecond)

-- strconv.FormatUint in base 10; a uint64 has at most 20 digits.
unfoldable pub format_digits : ℕ → ℕ → List ℕ → List ℕ
format_digits zero n text = text
format_digits (suc fuel) n text =
    let rest = format_digits fuel (n / 10) ((48 + n % 10) ∷ text) in
    if ltb n 10 then (48 + n) ∷ text else rest

-- strconv.ParseUint in base 10 with 64 bits, after the digits that gave `n`.
unfoldable pub parse_digits : ℕ → List ℕ → Outcome ℕ
parse_digits n [] = ok n
parse_digits n (c ∷ text) =
    let next = (n * 10 + (c - 48)) % 2 ^ 64 in
    let rest = parse_digits next text in
    if leb 48 c && leb c 57
    then if leb ((2 ^ 64 - 1) / 10 + 1) n
      then err (message "value out of range")
      else if ltb next (n * 10)
      then err (message "value out of range")
      else rest
    else err (message "invalid syntax")

-- StringIdConvertToEntityProperty and StringIdConvertToDatabaseValue
unfoldable pub string_id_to_property : ℕ → List ℕ
unfolding format_digits
string_id_to_property value = format_digits 20 value []

unfoldable pub string_id_to_database : List ℕ → Outcome ℕ
unfolding parse_digits
string_id_to_database [] = ok 0
string_id_to_database (c ∷ text) = parse_digits 0 (c ∷ text)

-- ===== src/Converters/Examples.antt =====
-- Conversions of small values.
use objectbox_go.Base.{◌≡◌, refl, ok, err, message, arith, [], ◌∷◌}
use objectbox_go.Base.Int.{negsuc}
use objectbox_go.Converters.{
  time_to_property, time_to_database, nano_time_to_property, nano_time_to_database,
  string_id_to_property, string_id_to_database,
}
use objectbox_go.Converters.Times.{time_roundtrip}
use objectbox_go.Converters.StringIds.{string_id_roundtrip}

-- A millisecond before 1970 is 999 milliseconds into the second before.
before : time_to_property (negsuc 0) ≡ record { seconds = negsuc 0; nanosecond = 999000000 }
unfolding time_to_property
before = refl

nano_before : nano_time_to_database (nano_time_to_property (negsuc 41)) ≡ negsuc 41
unfolding nano_time_to_property nano_time_to_database
nano_before = refl

too_large :
    string_id_to_database (
      49 ∷ 56 ∷ 52 ∷ 52 ∷ 54 ∷ 55 ∷ 52 ∷ 52 ∷ 48 ∷ 55 ∷ 51 ∷ 55 ∷ 48 ∷ 57 ∷ 53 ∷ 53 ∷ 49 ∷ 54 ∷ 49
      ∷ 54 ∷ [])
    ≡ err (message "value out of range")
unfolding string_id_to_database
too_large = refl

time_roundtrip_example : time_to_database (time_to_property (negsuc 1499)) ≡ negsuc 1499
time_roundtrip_example = time_roundtrip (negsuc 1499) (omega arith)

string_id_roundtrip_example : string_id_to_database (string_id_to_property 4096) ≡ ok 4096
string_id_roundtrip_example = string_id_roundtrip 4096 (omega arith)

-- ===== src/Converters/StringIds.antt =====
-- Identifiers in texts: objectbox/converters.go.
use objectbox_go.Base.{
  ℕ, zero, suc, ◌+◌, ◌-◌, ◌*◌, ◌/◌, ◌%◌, ◌^◌, ◌<◌, ◌≡◌, refl, ◌∙◌, ltb, List, [], ◌∷◌, ok, arith,
  ltb→lt, lt→ltb, Bool-cases, inl, inr,
}
use native.Mathlib.Nat.{pow-suc}
use objectbox_go.Converters.{
  format_digits, parse_digits, string_id_to_property, string_id_to_database,
}

parse_digits-digit :
    (n d m : ℕ) (text : List ℕ)
    → d < 10
    → n * 10 + d ≡ m
    → m < 2 ^ 64
    → parse_digits n ((48 + d) ∷ text) ≡ parse_digits m text
unfolding parse_digits
parse_digits-digit n d m text h value k =
    let e : (n * 10 + (48 + d - 48)) % 2 ^ 64 ≡ m = omega arith in rw e (ground arith)

short : (fuel n : ℕ) → n < 10 ^ suc (suc fuel) → n / 10 < 10 ^ suc fuel
short fuel n h = omega (arith, rw pow-suc at h)

parse_digits-format_digits :
    (fuel n : ℕ) (text : List ℕ)
    → n < 10 ^ suc fuel
    → n < 2 ^ 64
    → parse_digits 0 (format_digits (suc fuel) n text) ≡ parse_digits n text
unfolding format_digits
parse_digits-format_digits zero n text small h =
    rw (lt→ltb n 10 small) (parse_digits-digit 0 n n text small (omega arith) h)
parse_digits-format_digits (suc fuel) n text small h = elim (Bool-cases (ltb n 10)) [
  | inl e ↦ rw e (parse_digits-digit 0 n n text (ltb→lt n 10 e) (omega arith) h)
  | inr e ↦ rw e (
      parse_digits-format_digits fuel (n / 10) ((48 + n % 10) ∷ text) (short fuel n small)
        (omega arith)
      ∙ parse_digits-digit (n / 10) (n % 10) n text (omega arith) (omega arith) h)
]

parsed-format_digits :
    (fuel n : ℕ) (text : List ℕ)
    → string_id_to_database (format_digits (suc fuel) n text)
      ≡ parse_digits 0 (format_digits (suc fuel) n text)
unfolding format_digits string_id_to_database
parsed-format_digits zero n text = elim (Bool-cases (ltb n 10)) [
  | inl e ↦ rw e refl
  | inr e ↦ rw e refl
]
parsed-format_digits (suc fuel) n text = elim (Bool-cases (ltb n 10)) [
  | inl e ↦ rw e refl
  | inr e ↦ rw e (parsed-format_digits fuel (n / 10) ((48 + n % 10) ∷ text))
]

-- Each uint64 identifier comes back from its text.
pub string_id_roundtrip :
    (id : ℕ) → id < 2 ^ 64 → string_id_to_database (string_id_to_property id) ≡ ok id
unfolding string_id_to_property parse_digits
string_id_roundtrip id h =
    parsed-format_digits 19 id [] ∙ parse_digits-format_digits 19 id [] (omega arith) h

-- ===== src/Converters/Millis.antt =====
-- Times that are stored as numbers and read again: objectbox/converters.go.
use objectbox_go.Base.{ℕ, suc, ◌+◌, ◌-◌, ◌*◌, ◌/◌, ◌%◌, ◌^◌, ◌<◌, ◌≤◌, ◌≡◌, refl, ap, ◌∙◌, arith}
use objectbox_go.Base.Int.{ℤ, pos, negsuc, pos_part, neg_part, ◌+ℤ◌, ◌*ℤ◌, quot, rem}
use objectbox_go.Converters.{Time, wrap64, carry, ns_in_sec, time_to_property, time_to_database}
use objectbox_go.Converters.Times.{
  Int64, at, wrap64-id, unix-carry, time_to_property-negsuc, time_to_database-at,
}

-- A time whose milliseconds since 1970 are an int64.
abbrev pub InMillis : Time → Type 0
InMillis t =
    (t.nanosecond < ns_in_sec)
    × (pos_part t.seconds * 1000 + 999 < 2 ^ 63)
    × (neg_part t.seconds * 1000 ≤ 2 ^ 63)

-- A time without the part of it that is less than a millisecond.
abbrev pub to_millis : Time → Time
to_millis t = at t.seconds (t.nanosecond / 1000000)

database_of_millis : (t : Time) → time_to_database t ≡ time_to_database (to_millis t)
unfolding time_to_database
database_of_millis t =
    let e : t.nanosecond / 1000000 * 1000000 / 1000000 ≡ t.nanosecond / 1000000 = omega arith in
    rw e refl

product : (s k : ℕ) → pos s *ℤ k ≡ pos (s * k)
unfolding ◌*ℤ◌
product s k = ground arith

sum : (a b : ℕ) → pos a +ℤ pos b ≡ pos (a + b)
unfolding ◌+ℤ◌
sum a b = ground arith

database-pos :
    (s ms : ℕ)
    → ms < 1000
    → s * 1000 + 999 < 2 ^ 63
    → time_to_database (at (pos s) ms) ≡ pos (s * 1000 + ms)
unfolding time_to_database
database-pos s ms h l =
    let e : ms * 1000000 / 1000000 ≡ ms = omega arith in
    let m : wrap64 (pos (s * 1000)) ≡ pos (s * 1000) = wrap64-id (pos (s * 1000)) (omega arith) in
    let p : wrap64 (pos (s * 1000 + ms)) ≡ pos (s * 1000 + ms) =
      wrap64-id (pos (s * 1000 + ms)) (omega arith) in
    rw (e, product s 1000, m, sum (s * 1000) ms) p

quot-pos : (n : ℕ) → quot (pos n) 1000 ≡ pos (n / 1000)
unfolding quot
quot-pos n = ground arith

rem-pos : (n : ℕ) → rem (pos n) 1000 *ℤ 1000000 ≡ pos (n % 1000 * 1000000)
unfolding rem ◌*ℤ◌
rem-pos n = ground arith

carry-pos : (s : ℤ) (k : ℕ) → carry s (pos k) ≡ record { seconds = s; nanosecond = k }
unfolding carry
carry-pos s k = refl

property-pos :
    (s ms : ℕ)
    → ms < 1000
    → s * 1000 + 999 < 2 ^ 63
    → time_to_property (pos (s * 1000 + ms)) ≡ at (pos s) ms
unfolding time_to_property
property-pos s ms h l =
    let q : (s * 1000 + ms) / 1000 ≡ s = omega arith in
    let r : (s * 1000 + ms) % 1000 ≡ ms = omega arith in
    rw (quot-pos (s * 1000 + ms), rem-pos (s * 1000 + ms), q, r)
      (unix-carry (pos s) (pos (ms * 1000000)) (omega arith) (omega arith) (omega arith)
        ∙ carry-pos (pos s) (ms * 1000000))

to_property_of_database_at :
    (s : ℤ) (ms : ℕ)
    → ms < 1000
    → pos_part s * 1000 + 999 < 2 ^ 63
    → neg_part s * 1000 ≤ 2 ^ 63
    → time_to_property (time_to_database (at s ms)) ≡ at s ms
to_property_of_database_at (pos s) ms h p n =
    ap time_to_property (database-pos s ms h p) ∙ property-pos s ms h p
to_property_of_database_at (negsuc m) ms h p n =
    let k = suc m * 1000 - ms - 1 in
    let q : k / 1000 ≡ m = omega arith in
    let r : suc (k / 1000) * 1000 - suc k ≡ ms = omega arith in
    ap time_to_property (time_to_database-at m ms k h (omega arith) (omega arith))
    ∙ time_to_property-negsuc k (omega arith)
    ∙ (rw (r, q) refl)

-- A time whose milliseconds fit into an int64 comes back without the part below a millisecond, also
-- from before 1970.
pub time_to_property-time_to_database :
    (t : Time) → InMillis t → time_to_property (time_to_database t) ≡ to_millis t
time_to_property-time_to_database t (n, p, m) =
    ap time_to_property (database_of_millis t)
    ∙ to_property_of_database_at t.seconds (t.nanosecond / 1000000) (omega arith) p m

wrap64-Int64 : (a : ℤ) → Int64 (wrap64 a)
unfolding wrap64
wrap64-Int64 (pos n) = ground arith
wrap64-Int64 (negsuc n) = ground arith

pub time_to_database-Int64 : (t : Time) → Int64 (time_to_database t)
unfolding time_to_database
time_to_database-Int64 t = wrap64-Int64 _

-- ===== src/Converters/Times.antt =====
-- Times as numbers: objectbox/converters.go.
use objectbox_go.Base.{
  ℕ, zero, suc, ◌+◌, ◌-◌, ◌*◌, ◌/◌, ◌%◌, ◌^◌, ◌<◌, ◌≤◌, ◌≡◌, refl, ap, ◌∙◌, ltb, arith, Bool-cases,
  ltb→lt, inl, inr,
}
use objectbox_go.Base.Int.{ℤ, pos, negsuc, pos_part, neg_part, ◌+ℤ◌, ◌-ℤ◌, ◌*ℤ◌, quot, rem, sub_ℕ}
use objectbox_go.Native.Words.{to_int64, to_uint64}
use objectbox_go.Converters.{
  Time, wrap64, carry, unix, ns_in_sec, time_to_property, time_to_database,
}

-- The range of int64.
abbrev pub Int64 : ℤ → Type 0
Int64 a = (pos_part a < 2 ^ 63) × (neg_part a ≤ 2 ^ 63)

pub wrap64-id : (a : ℤ) → Int64 a → wrap64 a ≡ a
unfolding wrap64 to_int64 to_uint64
wrap64-id (pos n) h = ground arith
wrap64-id (negsuc n) h = ground arith

+ℤ-zero : (a : ℤ) → a +ℤ pos 0 ≡ a
unfolding ◌+ℤ◌
+ℤ-zero (pos n) = ground arith
+ℤ-zero (negsuc n) = ground arith

-ℤ-zero : (a : ℤ) → a -ℤ pos 0 *ℤ ns_in_sec ≡ a
unfolding ◌-ℤ◌ ◌*ℤ◌
-ℤ-zero (pos n) = ground arith
-ℤ-zero (negsuc n) = ground arith

-- Less than a second of nanoseconds is not carried.
pub unix-carry :
    (s k : ℤ) → Int64 s → pos_part k < ns_in_sec → neg_part k < ns_in_sec → unix s k ≡ carry s k
unfolding unix
unix-carry s k h l m =
    let none : quot k ns_in_sec ≡ pos 0 = unfold quot in ground arith in
    rw (none, +ℤ-zero s, -ℤ-zero k, wrap64-id s h) refl

-- A time of a whole number of milliseconds within the second `s`.
abbrev pub at : ℤ → ℕ → Time
at s ms = record { seconds = s; nanosecond = ms * 1000000 }

quot-negsuc : (n : ℕ) → quot (negsuc n) 1000 ≡ sub_ℕ 0 (suc n / 1000)
unfolding quot
quot-negsuc n = ground arith

rem-negsuc : (n : ℕ) → rem (negsuc n) 1000 *ℤ 1000000 ≡ sub_ℕ 0 (suc n % 1000 * 1000000)
unfolding rem ◌*ℤ◌
rem-negsuc n = ground arith

minus : (n : ℕ) → sub_ℕ 0 (suc n) ≡ negsuc n
minus n = ground arith

negsuc-1 : (n : ℕ) → suc n < 2 ^ 63 → wrap64 (negsuc n +ℤ negsuc 0) ≡ negsuc (suc n)
unfolding ◌+ℤ◌
negsuc-1 n h =
    (let e : sub_ℕ (0 + 0) (suc n + 1) ≡ negsuc (suc n) = ground arith in
      rw e (wrap64-id (negsuc (suc n)) (ground arith)))

zero-1 : wrap64 (pos 0 +ℤ negsuc 0) ≡ negsuc 0
unfolding ◌+ℤ◌ wrap64 to_int64 to_uint64
zero-1 = refl

rest_of_second :
    (k : ℕ) → suc k < ns_in_sec → pos_part (negsuc k +ℤ pos ns_in_sec) ≡ ns_in_sec - suc k
unfolding ◌+ℤ◌
rest_of_second k h = ground arith

pub same_time :
    {s s' : ℤ} {k k' : ℕ}
    → s ≡ s'
    → k ≡ k'
    → ◌≡◌ {A = Time}
        (record { seconds = s; nanosecond = k })
        (record { seconds = s'; nanosecond = k' })
same_time p q = rw (p, q) refl

carried :
    (q r n : ℕ)
    → q * 1000 + r ≡ suc n
    → r < 1000
    → n < 2 ^ 63
    → carry (sub_ℕ 0 q) (sub_ℕ 0 (r * 1000000))
      ≡ at (negsuc (n / 1000)) (suc (n / 1000) * 1000 - suc n)
unfolding carry
carried zero zero n e h l = absurd (omega arith)
carried (suc q) zero n e h l =
    let s : n / 1000 ≡ q = omega arith in rw (minus q, s) (same_time refl (omega arith))
carried zero (suc r) n e h l =
    let s : n / 1000 ≡ 0 = omega arith in
    let k : suc r * 1000000 ≡ suc (r * 1000000 + 999999) = omega arith in
    rw (k, minus (r * 1000000 + 999999), s)
      (same_time zero-1 (rest_of_second (r * 1000000 + 999999) (omega arith) ∙ omega arith))
carried (suc q) (suc r) n e h l =
    let s : n / 1000 ≡ suc q = omega arith in
    let k : suc r * 1000000 ≡ suc (r * 1000000 + 999999) = omega arith in
    rw (k, minus (r * 1000000 + 999999), minus q, s)
      (same_time (negsuc-1 q (omega arith))
        (rest_of_second (r * 1000000 + 999999) (omega arith) ∙ omega arith))

within : (n : ℕ) → n < 2 ^ 63 → Int64 (sub_ℕ 0 (suc n / 1000))
within n h = ground arith

pub time_to_property-negsuc :
    (n : ℕ)
    → n < 2 ^ 63
    → time_to_property (negsuc n) ≡ at (negsuc (n / 1000)) (suc (n / 1000) * 1000 - suc n)
unfolding time_to_property
time_to_property-negsuc n h =
    rw (quot-negsuc n, rem-negsuc n)
      (unix-carry (sub_ℕ 0 (suc n / 1000)) (sub_ℕ 0 (suc n % 1000 * 1000000)) (within n h)
          (ground arith) (ground arith)
        ∙ carried (suc n / 1000) (suc n % 1000) n (omega arith) (omega arith) h)

wrap64-far : (x : ℕ) → 2 ^ 63 ≤ x → x < 2 ^ 64 → wrap64 (negsuc x) ≡ pos (2 ^ 64 - 1 - x)
unfolding wrap64 to_int64 to_uint64
wrap64-far x h l = ground arith

wrap64-near : (x : ℕ) → x < 2 ^ 63 → wrap64 (negsuc x) ≡ negsuc x
wrap64-near x h = wrap64-id (negsuc x) (ground arith)

-- Even if the product wraps round, the sum wraps back.
wrap64-sum :
    (x k n : ℕ)
    → x ≡ n + k
    → k < 2 ^ 62
    → n < 2 ^ 63
    → wrap64 (wrap64 (negsuc x) +ℤ pos k) ≡ negsuc n
wrap64-sum x k n e h l = elim (Bool-cases (ltb x (2 ^ 63))) [
  | inl near ↦
      let s : negsuc x +ℤ pos k ≡ negsuc n = unfold ◌+ℤ◌ in ground arith in
      rw (wrap64-near x (ltb→lt x (2 ^ 63) near), s) (wrap64-near n l)
  | inr far ↦
      let s : pos (2 ^ 64 - 1 - x) +ℤ pos k ≡ pos (2 ^ 64 - 1 - n) = unfold ◌+ℤ◌ in ground arith in
      rw (wrap64-far x (ground arith) (omega arith), s)
        (unfold wrap64 to_int64 to_uint64 in ground arith)
]

product : (m k x : ℕ) → suc m * k ≡ suc x → negsuc m *ℤ k ≡ negsuc x
unfolding ◌*ℤ◌
product m k x e = rw e (ground arith)

-- What a time of whole milliseconds is stored as.
pub time_to_database-at :
    (m ms n : ℕ)
    → ms < 1000
    → suc m * 1000 ≡ suc n + ms
    → n < 2 ^ 63
    → time_to_database (at (negsuc m) ms) ≡ negsuc n
unfolding time_to_database
time_to_database-at m ms n h e l =
    let k : ms * 1000000 / 1000000 ≡ ms = omega arith in
    rw (product m 1000 (n + ms) (omega arith), k) (wrap64-sum (n + ms) ms n refl (omega arith) l)

-- Each int64 of milliseconds comes back from its time, those before 1970 too.
pub time_roundtrip : (value : ℤ) → Int64 value → time_to_database (time_to_property value) ≡ value
unfolding time_to_database time_to_property unix carry wrap64 quot rem ◌+ℤ◌ ◌-ℤ◌ ◌*ℤ◌ to_int64
    to_uint64
time_roundtrip (pos n) h = ground arith
time_roundtrip (negsuc n) h =
    ap time_to_database (time_to_property-negsuc n (omega arith))
    ∙ time_to_database-at (n / 1000) (suc (n / 1000) * 1000 - suc n) n (omega arith) (omega arith)
        (omega arith)

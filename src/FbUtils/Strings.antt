-- ===== src/FbUtils/Strings.antt =====
-- objectbox/fbutils/getters.go: the loop over the texts of a vector.
use objectbox_go.Base.{
  ℕ, zero, suc, ◌+◌, ◌*◌, ◌%◌, ◌^◌, ◌<◌, ◌≤◌, ◌≡◌, refl, ap, ◌∙◌, ◌∷◌, [], arith,
}
use objectbox_go.Native.Arrays.{read_items}
use objectbox_go.FbUtils.Getters.{Table, strings_from}

stops : (table : Table) (fuel a e : ℕ) → e ≤ a → strings_from fuel table a e ≡ []
unfolding strings_from
stops table zero a e h = refl
stops table (suc fuel) a e h = ground arith

goes_on :
    (table : Table) (fuel a e : ℕ)
    → a < e
    → strings_from (suc fuel) table a e
      ≡ table.byte_vector a ∷ strings_from fuel table ((a + 4) % 2 ^ 32) e
unfolding strings_from
goes_on table fuel a e h = ground arith

-- In a buffer that ends below 2 ^ 32, the loop over `n` texts needs no more than `n` rounds, and reads
-- each of them once, in their order.
pub strings_from-read_items :
    (table : Table) (start i n extra : ℕ)
    → start + (i + n) * 4 < 2 ^ 32
    → strings_from (n + extra) table (start + i * 4) (start + (i + n) * 4)
      ≡ read_items table.byte_vector start 4 i n
unfolding read_items
strings_from-read_items table start i zero extra h =
    stops table (zero + extra) (start + i * 4) (start + (i + zero) * 4) (omega arith)
strings_from-read_items table start i (suc n) extra h =
    let fuel_left : suc n + extra ≡ suc (n + extra) = omega arith in
    let next : (start + i * 4 + 4) % 2 ^ 32 ≡ start + suc i * 4 = omega arith in
    let same_end : start + (i + suc n) * 4 ≡ start + (suc i + n) * 4 = omega arith in
    ap (λ f. strings_from f table (start + i * 4) (start + (i + suc n) * 4)) fuel_left
    ∙ goes_on table (n + extra) (start + i * 4) (start + (i + suc n) * 4) (omega arith)
    ∙ ap
        (λ a.
          table.byte_vector (start + i * 4)
          ∷ strings_from (n + extra) table a (start + (i + suc n) * 4))
        next
    ∙ ap
        (λ e.
          table.byte_vector (start + i * 4) ∷ strings_from (n + extra) table (start + suc i * 4) e)
        same_end
    ∙ ap (λ l. table.byte_vector (start + i * 4) ∷ l)
        (strings_from-read_items table start (suc i) n extra (omega arith))

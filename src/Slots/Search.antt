-- ===== src/Slots/Search.antt =====
-- The search for a free identifier ends, and is right about what it found.
use objectbox_go.Base.{
  ℕ, zero, suc, ◌≤◌, ◌≡◌, ◌≢◌, refl, sym, ap, leb, leb→le, ◌⊎◌, inl, inr, none, List, true, arith,
  ◌==◌, ==_iff, is_some, lookup, Bool-cases,
}
use objectbox_go.Slots.{Slot, free, full, find_slot, IsRing}

module _ {ℓ} {C : Type ℓ} {Valid : ℕ → Type 0} {next : ℕ → ℕ} {rounds : ℕ → ℕ → ℕ} {count : ℕ}
    (ring : IsRing Valid next rounds count) (m : List (ℕ × C)) (initial : ℕ)
    (i : Valid initial) where
  -- Either an identifier that is not taken, or the first one again, with all those on the way taken.
  abbrev pub Found : ℕ → Slot → Type ℓ
  Found last r =
      ((id : ℕ) × (r ≡ free id) × Valid id × (lookup id m ≡ none))
      ⊎ ((r ≡ full initial)
          × ((j : ℕ)
              → Valid j
              → rounds initial j ≤ rounds initial last
              → is_some (lookup j m) ≡ true))

  taken_at :
      (last j : ℕ)
      → Valid last
      → Valid j
      → is_some (lookup last m) ≡ true
      → rounds initial j ≡ rounds initial last
      → is_some (lookup j m) ≡ true
  taken_at last j v w e h = rw (ring.injective initial j last i w v h) e

  full-Found :
      (last : ℕ)
      → Valid last
      → is_some (lookup last m) ≡ true
      → initial ≡ next last
      → Found last (full (next last))
  full-Found last v e back = inr (
    ap full (sym back),
    λ j w le.
        taken_at last j v w e
          (omega (arith, ring.last initial last i v back, ring.positive initial j i w)),
  )

  -- What the search finds from the next identifier on, it finds from this one, which is taken.
  Found-next :
      (last : ℕ) (r : Slot)
      → Valid last
      → is_some (lookup last m) ≡ true
      → initial ≢ next last
      → Found (next last) r
      → Found last r
  Found-next last r v e onward (inl found) = inl found
  Found-next last r v e onward (inr (p, taken)) = inr (
    p,
    λ j w le. elim (Bool-cases (leb (rounds initial j) (rounds initial (next last)))) [
      | inl near ↦ taken j w (leb→le _ _ near)
      | inr far ↦ taken_at last j v w e (ground (arith, ring.step initial last i v onward))
    ],
  )

  pub find_slot-Found :
      (fuel last : ℕ)
      → Valid last
      → rounds initial last ≤ fuel
      → Found last (find_slot next fuel initial last m)
  unfolding find_slot
  find_slot-Found zero last v h = absurd (omega (arith, ring.positive initial last i v))
  find_slot-Found (suc fuel) last v h = elim (Bool-cases (is_some (lookup last m))) [
    | inr e ↦ rw e (inl (last, refl, v, ground arith))
    | inl e ↦ elim (Bool-cases (initial == next last)) [
      | inl back ↦ rw (e, back) (full-Found last v e ((==_iff _ _).0 back))
      | inr onward ↦
          let apart : initial ≢ next last = λ p. ground arith in
          rw (e, onward)
            (Found-next last _ v e apart (
              find_slot-Found fuel (next last) (ring.next_Valid last v)
                (omega (arith, ring.step initial last i v apart))))
    ]
  ]

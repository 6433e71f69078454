-- ===== src/Box/Chunks.antt =====
-- The chunks that PutMany of objectbox/box.go cuts its objects into.
use objectbox_go.Base.{
  ℕ, zero, suc, ◌+◌, ◌-◌, ◌*◌, ◌%◌, ◌≤◌, ◌<◌, ◌≡◌, sym, List, [], ◌++◌, ltb, if◌then◌else◌, length,
  take, drop, inl, inr, ℕ-cases, Bool-cases, take-append-drop, take_all, drop_all, length-drop,
  length-take, drop-drop, arith,
}
use mathlib.Core.List.{append-nil}
use objectbox_go.Box.Batch.{chunk, chunk_size, chunk_count}

chunk_count-enough : (count : ℕ) → count ≤ chunk_count count * chunk_size
unfolding chunk_count
chunk_count-enough count = elim (ℕ-cases (count % chunk_size)) [
  | inl e ↦ rw e (omega arith)
  | inr (m, e) ↦ rw e (omega arith)
]

chunk_count-tight : (c count : ℕ) → c < chunk_count count → c * chunk_size < count
unfolding chunk_count
chunk_count-tight c count h = elim (ℕ-cases (count % chunk_size)) [
  | inl e ↦ omega (arith, rw e at h)
  | inr (m, e) ↦ omega (arith, rw e at h)
]

module _ {ℓ} {A : Type ℓ} where
  -- The chunks from `c` on, one after the other.
  unfoldable pub joined_chunks : ℕ → ℕ → List A → List A
  joined_chunks zero c xs = []
  joined_chunks (suc n) c xs = chunk c xs ++ joined_chunks n (suc c) xs

  piece :
      (size start : ℕ) (xs : List A)
      → take
            ((if ltb (length xs) (start + size) then length xs else start + size) - start)
            (drop start xs)
          ++ drop (start + size) xs
        ≡ drop start xs
  piece size start xs = elim (Bool-cases (ltb (length xs) (start + size))) [
    | inl short ↦
        rw
          (
            short,
            drop_all (start + size) xs (ground arith),
            take_all (length xs - start) (drop start xs) (omega (arith, length-drop start xs)),
          )
          (append-nil (drop start xs))
    | inr long ↦
        rw (long, ← drop-drop start size xs)
          (let e : start + size - start ≡ size = omega arith in
            rw e (take-append-drop size (drop start xs)))
  ]

  joined_chunks-drop :
      (n c : ℕ) (xs : List A)
      → length xs ≤ (c + n) * chunk_size
      → joined_chunks n c xs ≡ drop (c * chunk_size) xs
  unfolding joined_chunks chunk
  joined_chunks-drop zero c xs h = sym (drop_all (c * chunk_size) xs (omega arith))
  joined_chunks-drop (suc n) c xs h =
      let e : suc c * chunk_size ≡ c * chunk_size + chunk_size = omega arith in
      rw (joined_chunks-drop n (suc c) xs (omega arith), e) (piece chunk_size (c * chunk_size) xs)

  chunk_bounds :
      (c : ℕ) (xs : List A)
      → c < chunk_count (length xs)
      → (0 < length (chunk c xs)) × (length (chunk c xs) ≤ chunk_size)
  unfolding chunk
  chunk_bounds c xs h =
      let start = c * chunk_size in
      let end = if ltb (length xs) (start + chunk_size) then length xs else start + chunk_size in
      ground (
        arith,
        chunk_count-tight c (length xs) h,
        length-take (end - start) (drop start xs),
        length-drop start xs,
      )

  -- The chunks of PutMany, one after the other, are the objects in their order; each of them has at
  -- least one object and at most the 10000 that the C library reserves identifiers for at once.
  pub chunks_cover :
      (xs : List A)
      → (joined_chunks (chunk_count (length xs)) 0 xs ≡ xs)
        × ((c : ℕ)
            → c < chunk_count (length xs)
            → (0 < length (chunk c xs)) × (length (chunk c xs) ≤ chunk_size))
  chunks_cover xs = (
    joined_chunks-drop (chunk_count (length xs)) 0 xs
        (omega (arith, chunk_count-enough (length xs))),
    λ c. chunk_bounds c xs,
  )

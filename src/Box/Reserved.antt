-- ===== src/Box/Reserved.antt =====
-- The identifiers that putManyObjects of objectbox/box.go gives to the objects of a batch.
use objectbox_go.Base.{
  ℕ, zero, suc, ◌+◌, ◌%◌, ◌^◌, ◌≡◌, refl, ◌∙◌, ap, sym, ok-injective, List, [], ◌∷◌, length,
  get_elem?, take, arith, ok, >>=-eq-ok,
}
use mathlib.Core.Option
use objectbox_go.Transactions.{TxnApi}
use native.Mathlib.Nat.{add-zero, suc-add, add-suc, zero-add}
use objectbox_go.Box.Batch.{
  put_assigned, put_many_objects, read_ids, ids_for_put, Entry, count_new, assign_ids, ids_of,
}
use objectbox_go.Box.Api.{Box}

-- An object's own identifier, or the place-th of those from `first` on.
abbrev pub given : ℕ → ℕ → ℕ → ℕ
given first place zero = (first + place) % 2 ^ 64
given first place (suc id) = suc id

module _ {O : Type 0} where
  length-assign_ids :
      (first i : ℕ) (entries : List (Entry O))
      → length (ids_of (assign_ids first i entries)) ≡ length entries
  unfolding assign_ids ids_of
  length-assign_ids first i [] = refl
  length-assign_ids first i ((object, zero) ∷ entries) =
      ap suc (length-assign_ids first (suc i) entries)
  length-assign_ids first i ((object, suc id) ∷ entries) =
      ap suc (length-assign_ids first i entries)

  get_elem?-assign_ids :
      (first i k : ℕ) (entries : List (Entry O))
      → get_elem? (ids_of (assign_ids first i entries)) k
        ≡ Option.map (λ e. given first (i + count_new (take k entries)) e.1) (get_elem? entries k)
  unfolding assign_ids ids_of count_new
  get_elem?-assign_ids first i k [] = refl
  get_elem?-assign_ids first i zero ((object, zero) ∷ entries) = rw add-zero
  get_elem?-assign_ids first i zero ((object, suc id) ∷ entries) = refl
  get_elem?-assign_ids first i (suc k) ((object, zero) ∷ entries) =
      simp (get_elem?-assign_ids first (suc i) k entries, suc-add, add-suc)
  get_elem?-assign_ids first i (suc k) ((object, suc id) ∷ entries) =
      get_elem?-assign_ids first i k entries

module _ {W O S : Type 0} (tx : TxnApi W) (box : Box W O S) where
  length-read_ids :
      (objects : List O) (w : W) {entries : List (Entry O)}
      → (read_ids tx box objects w).0 ≡ ok entries
      → length entries ≡ length objects
  unfolding read_ids
  length-read_ids [] w h = ground arith
  length-read_ids (object ∷ objects) w h =
      let (id, _, _, h') = >>=-eq-ok (box.binding.get_id object) _ w h in
      let (entries, e, _, h'') = >>=-eq-ok (read_ids tx box objects) _ _ h' in
      ground (arith, length-read_ids objects _ e)

  -- If a batch succeeds, then GetId gave an identifier for each object, idsForPut, called after that
  -- for as many as have a 0, returned a first reserved one, and the batch's identifiers are as many as
  -- its objects and in their order: at each place the object's own, if it is not 0, or else that first
  -- reserved one plus the number of new objects before the place, as a uint64.
  pub put_many_objects_ids :
      (start : ℕ) (objects : List O) (w : W) {ids : List ℕ}
      → (put_many_objects tx box start objects w).0 ≡ ok ids
      → (entries : List (Entry O)) × (first : ℕ) × ((read_ids tx box objects w).0 ≡ ok entries)
        × ((ids_for_put tx box (count_new entries) (read_ids tx box objects w).1).0 ≡ ok first)
        × (length ids ≡ length objects)
        × ((k : ℕ)
            → get_elem? ids k
              ≡ Option.map
                  (λ e. given first (count_new (take k entries)) e.1)
                  (get_elem? entries k))
  unfolding put_many_objects
  put_many_objects_ids start objects w h =
      let (entries, e, _, h') = >>=-eq-ok (read_ids tx box objects) _ w h in
      let (first, reserved, _, h'') = >>=-eq-ok (ids_for_put tx box (count_new entries)) _ _ h' in
      let (u, _, _, done) =
        >>=-eq-ok (put_assigned tx box start entries (assign_ids first 0 entries)) _ _ h'' in
      let same = ok-injective done in
      (
        entries,
        first,
        e,
        reserved,
        ap length (sym same) ∙ length-assign_ids first 0 entries ∙ length-read_ids objects w e,
        λ k.
            ap (λ l. get_elem? l k) (sym same)
            ∙ simp (get_elem?-assign_ids first 0 k entries, zero-add),
      )

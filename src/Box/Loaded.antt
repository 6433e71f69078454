-- ===== src/Box/Loaded.antt =====
-- What the reads of objectbox/box.go put into the slices that they return.
use objectbox_go.Base.{
  ℕ, ◌≡◌, sym, Option, none, some, Bool, true, false, List, [], ◌∷◌, if◌then◌else◌, ok, >>=-eq-ok,
  ok-injective,
}
use mathlib.Core.List.{foldl}
use objectbox_go.Transactions.{TxnApi}
use objectbox_go.Box.Api.{Box}
use objectbox_go.Box.Reads.{read_items}

-- The places of a slice: those of missing objects are left out if only existing ones are wanted.
pub kept : {O : Type 0} → Bool → List (Option O) → List (Option O)
kept existing_only [] = []
kept existing_only (none ∷ objects) =
    if existing_only then kept existing_only objects else none ∷ kept existing_only objects
kept existing_only (some object ∷ objects) = some object ∷ kept existing_only objects

module _ {W O S : Type 0} (tx : TxnApi W) (box : Box W O S) where
  -- Each object is what Load made of the bytes at its place, and each missing one has nil bytes.
  pub data Loads : List (Option (List ℕ)) → List (Option O) → Type 0 where
    nothing_left : Loads [] []
    missing :
        {items : List (Option (List ℕ))} {objects : List (Option O)}
        → Loads items objects
        → Loads (none ∷ items) (none ∷ objects)
    loaded :
        (bytes : List ℕ) (object : O) (w : W) {items : List (Option (List ℕ))}
        {objects : List (Option O)}
        → (box.binding.load bytes w).0 ≡ ok object
        → Loads items objects
        → Loads (some bytes ∷ items) (some object ∷ objects)

  -- If reading the items of a result succeeds, then the slice has been given, in their order, the
  -- objects that Load made of the items, with a nil for each missing object unless only existing
  -- objects are wanted.
  pub read_items_Loads :
      (existing_only : Bool) (slice : S) (items : List (Option (List ℕ))) (w : W) {result : S}
      → (read_items tx box existing_only slice items w).0 ≡ ok result
      → (objects : List (Option O)) × Loads items objects
        × (result ≡ foldl box.binding.append_to_slice slice (kept existing_only objects))
  unfolding read_items kept
  read_items_Loads existing_only slice [] w h = ([], nothing_left, sym (ok-injective h))
  read_items_Loads true slice (none ∷ items) w h =
      let (objects, l, e) = read_items_Loads true slice items w h in (none ∷ objects, missing l, e)
  read_items_Loads false slice (none ∷ items) w h =
      let (objects, l, e) =
        read_items_Loads false (box.binding.append_to_slice slice none) items w h in
      (none ∷ objects, missing l, e)
  read_items_Loads existing_only slice (some bytes ∷ items) w h =
      let (object, load, _, h') = >>=-eq-ok (box.binding.load bytes) _ w h in
      let (objects, l, e) =
        read_items_Loads existing_only (box.binding.append_to_slice slice (some object)) items _
          h' in
      (some object ∷ objects, loaded bytes object w load l, e)

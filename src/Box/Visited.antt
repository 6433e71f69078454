-- ===== src/Box/Visited.antt =====
-- objectbox/box.go: a read with a data visitor returns what the loop over a result array would.
use objectbox_go.Base.{
  ℕ, ◌≡◌, refl, ap, ◌∙◌, subst, sym, none, some, Bool, List, [], ◌∷◌, if◌then◌else◌, Outcome, ok,
  err, panic, Exec, pure, continue, ◌>>=◌,
}
use objectbox_go.Transactions.{TxnApi}
use objectbox_go.Transactions.Results.{run_in_read_tx-closed}
use objectbox_go.Visitors.{Bytes, Visitor, Visitors, register, find, dispatch}
use objectbox_go.Visitors.Numbers.{Took, dispatch-register_visitor}
use objectbox_go.Box.Api.{Box}
use objectbox_go.Box.Reads.{read_items}
use objectbox_go.Box.Visiting.{
  VisitState, Visited, VisitCall, default_slice_capacity, lifted, visit_one, loaded_one,
  visit_called, slice_of, visit_result, visit_with, visit_registered, read_using_visitor,
}

-- A visit of the given objects, one after the other, until the visitor returns false.
unfoldable pub visit_items : {V : Type 0} → Visitor V → List Bytes → Exec V ℕ
visit_items fn [] = pure 0
visit_items fn (bytes ∷ items) = do go_on ← fn bytes; if go_on then visit_items fn items else pure 0

module _ {W O S : Type 0} (tx : TxnApi W) (box : Box W O S) (existing_only : Bool) where
  -- What is returned after the C function, if the transaction is closed without an error.
  settled : Outcome ℕ × VisitState W S → Outcome S
  unfolding visit_called visit_result
  settled r = (visit_result tx box (visit_called tx box r)).0

  -- A visitor's state before any error.
  abbrev at_slice : S → W → VisitState W S
  at_slice slice w = record { slice = slice; failed = none; world = w }

  after_load :
      (slice : S) (items : List Bytes)
      → ((s : S) (w : W)
          → settled (visit_items (visit_one tx box existing_only) items (at_slice s w))
            ≡ (read_items tx box existing_only s items w).0)
      → (r : Outcome O) (w before : W)
      → settled (
          (loaded_one tx box (r, w) >>= λ go_on.
          if go_on then visit_items (visit_one tx box existing_only) items else pure 0)
            (at_slice slice before))
        ≡ (continue r
            (λ object.
              read_items tx box existing_only
                (box.binding.append_to_slice slice (some object))
                items)
            w).0
  unfolding settled loaded_one visit_called visit_result slice_of
  after_load slice items same (ok object) w before =
      same (box.binding.append_to_slice slice (some object)) w
  after_load slice items same (err e) w before = refl
  after_load slice items same (panic e) w before = refl

  -- The visitor does with each object what the loop of readManyObjects does.
  settled-read_items :
      (slice : S) (items : List Bytes) (w : W)
      → settled (visit_items (visit_one tx box existing_only) items (at_slice slice w))
        ≡ (read_items tx box existing_only slice items w).0
  unfolding visit_items visit_one settled visit_called visit_result slice_of read_items
  settled-read_items slice [] w = refl
  settled-read_items slice (none ∷ items) w =
      settled-read_items (if existing_only then slice else box.binding.append_to_slice slice none)
        items w
  settled-read_items slice (some bytes ∷ items) w =
      after_load slice items (λ s w'. settled-read_items s items w') (box.binding.load bytes w).0
        (box.binding.load bytes w).1 w

  -- Closing the transaction changes the world alone.
  result_closed :
      (txn : ℕ) (o : Outcome (Unit {0})) (v : VisitState W S)
      → (visit_result tx box (o, ((lifted tx).txn_close txn v).1)).0
        ≡ (visit_result tx box (o, v)).0
  unfolding visit_result
  result_closed txn (ok u) v = refl
  result_closed txn (err e) v = refl
  result_closed txn (panic e) v = refl

  visit_with-read_items :
      (visit : VisitCall W S) (items : List Bytes) (visitors : Visitors (VisitState W S))
      (id txn : ℕ) (w : W)
      → ((bytes : Bytes) (v : VisitState W S)
          → dispatch visitors bytes (some id) v ≡ visit_one tx box existing_only bytes v)
      → ((fn : Visitor (VisitState W S)) (v : VisitState W S) → visit fn v ≡ visit_items fn items v)
      → (tx.txn_read w).0 ≡ some txn
      → ((w' : W) → (tx.txn_close txn w').0 ≡ 0)
      → (visit_with tx box visit visitors id w).0
        ≡ (read_items tx box existing_only
            (box.binding.make_slice default_slice_capacity)
            items
            (tx.txn_read w).1).0
  unfolding visit_with settled
  visit_with-read_items visit items visitors id txn w same visits opens closes =
      let slice = box.binding.make_slice default_slice_capacity in
      let dispatcher : Visitor (VisitState W S) = λ bytes. dispatch visitors bytes (some id) in
      let call : Exec (VisitState W S) Unit = λ v. visit_called tx box (visit dispatcher v) in
      let v1 = at_slice slice (tx.txn_read w).1 in
      ap (λ r. (visit_result tx box r).0)
        (run_in_read_tx-closed (lifted tx) call txn (at_slice slice w) opens (λ v. closes v.world))
      ∙ result_closed txn (call v1).0 (call v1).1
      ∙ ap settled
          (visits dispatcher v1 ∙ ap (λ fn. visit_items fn items v1) (λ i bytes v. same bytes v i))
      ∙ settled-read_items slice items (tx.txn_read w).1

  -- Reading with a visitor that the registry took, by a C function that visits the given objects in
  -- their order until the visitor returns false, inside a transaction that is opened and closed without
  -- an error: the result is that of the loop over a result array of the same objects, with the errors
  -- of Load, and afterwards every number finds the visitor that it found before.
  pub read_using_visitor-read_items :
      (visit : VisitCall W S) (items : List Bytes) (s : Visited W S) (id txn : ℕ)
      → Took (visit_one tx box existing_only) s.visitors id
      → ((fn : Visitor (VisitState W S)) (v : VisitState W S) → visit fn v ≡ visit_items fn items v)
      → (tx.txn_read s.world).0 ≡ some txn
      → ((w : W) → (tx.txn_close txn w).0 ≡ 0)
      → ((read_using_visitor tx box existing_only visit s).0
          ≡ (read_items tx box existing_only
              (box.binding.make_slice default_slice_capacity)
              items
              (tx.txn_read s.world).1).0)
        × ((j : ℕ)
            → find j (read_using_visitor tx box existing_only visit s).1.visitors
              ≡ find j s.visitors)
  unfolding read_using_visitor visit_registered
  read_using_visitor-read_items visit items s id txn took visits opens closes =
      let fn = visit_one tx box existing_only in
      let r = register fn s.visitors in
      let (called, restored) = dispatch-register_visitor fn s.visitors id took in
      subst
        (λ o.
          ((visit_registered tx box visit (o, r.1) s.world).0
            ≡ (read_items tx box existing_only (box.binding.make_slice default_slice_capacity) items
                (tx.txn_read s.world).1).0)
          × ((j : ℕ)
              → find j (visit_registered tx box visit (o, r.1) s.world).1.visitors
                ≡ find j s.visitors))
        (sym took.returned)
        (visit_with-read_items visit items r.1 id txn s.world called visits opens closes, restored)

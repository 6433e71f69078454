-- ===== src/Box/Visiting.antt =====
-- objectbox/box.go: reading objects with a data visitor, for a C library without result arrays. The
-- registry of visitors is beside the world: what Load itself registers is unregistered when it ends.
use objectbox_go.Base.{
  ℕ, Option, none, some, Bool, true, false, List, if◌then◌else◌, nonzero, Outcome, ok, err, panic,
  Exec, fail, pure, panics, GoError,
}
use objectbox_go.Native.{create_error}
use objectbox_go.Transactions.{TxnApi, run_in_read_tx}
use objectbox_go.Visitors.{Visitor, Visitors, register, unregister, dispatch}
use objectbox_go.Box.Api.{Box}
use objectbox_go.Box.Reads.{go_ids_array_to_c}

-- The variables `slice` and `err` that the visitor assigns, and the world.
pub record VisitState (W S : Type 0) : Type 0 where
  pub slice : S
  pub failed : Option GoError
  pub world : W

-- The visitors, and the world around them.
pub record Visited (W S : Type 0) : Type 0 where
  pub visitors : Visitors (VisitState W S)
  pub world : W

-- A function obx_*_visit: it calls a visitor and gives back its result code.
abbrev pub VisitCall : Type 0 → Type 0 → Type 0
VisitCall W S = Visitor (VisitState W S) → Exec (VisitState W S) ℕ

abbrev pub default_slice_capacity : ℕ
default_slice_capacity = 16

module _ {W S : Type 0} where
  abbrev pub in_world : {A : Type 0} → (W → A × W) → VisitState W S → A × VisitState W S
  in_world f v = let (a, w) = f v.world in (a, record v { world = w })

  -- The transactions, seen from the visitor's state.
  abbrev pub lifted : TxnApi W → TxnApi (VisitState W S)
  lifted tx = record {
    errors = record { last_error_message = λ v. tx.errors.last_error_message v.world };
    txn_read = in_world tx.txn_read;
    txn_write = in_world tx.txn_write;
    txn_close = λ txn. in_world (tx.txn_close txn);
    txn_success = λ txn. in_world (tx.txn_success txn);
  }

module _ {W O S : Type 0} (tx : TxnApi W) (box : Box W O S) where
  open tx use {errors}
  open box use {binding}

  unfoldable pub loaded_one : Outcome O × W → Exec (VisitState W S) Bool
  loaded_one (ok object, w) v =
      pure true (record v { slice = binding.append_to_slice v.slice (some object); world = w })
  loaded_one (err e, w) v = pure false (record v { failed = some e; world = w })
  loaded_one (panic e, w) v = panics e (record v { world = w })

  -- The visitor; nil bytes stand for an object that was not found.
  unfoldable pub visit_one : Bool → Visitor (VisitState W S)
  unfolding loaded_one
  visit_one existing_only none v =
      pure true (record v {
        slice = if existing_only then v.slice else binding.append_to_slice v.slice none;
      })
  visit_one existing_only (some bytes) v = loaded_one (binding.load bytes v.world) v

  -- cCall around the C function.
  unfoldable pub visit_called : Outcome ℕ × VisitState W S → Outcome (Unit {0}) × VisitState W S
  visit_called (ok rc, v) = if nonzero rc then fail (create_error errors v.world) v else pure tt v
  visit_called (err e, v) = fail e v
  visit_called (panic e, v) = panics e v

  -- What is returned: the error of the call, or the one that the visitor left, or the slice.
  unfoldable pub slice_of : S → Option GoError → Outcome S
  slice_of slice none = ok slice
  slice_of slice (some e) = err e

  unfoldable pub visit_result : Outcome (Unit {0}) × VisitState W S → Outcome S × W
  unfolding slice_of
  visit_result (ok u, v) = (slice_of v.slice v.failed, v.world)
  visit_result (err e, v) = (err e, v.world)
  visit_result (panic e, v) = (panic e, v.world)

  -- With the visitor under a number.
  unfoldable pub visit_with : VisitCall W S → Visitors (VisitState W S) → ℕ → W → Outcome S × W
  unfolding visit_called visit_result run_in_read_tx dispatch
  visit_with visit visitors id w = visit_result (
      run_in_read_tx (lifted tx)
        (λ v. visit_called (visit (λ bytes. dispatch visitors bytes (some id)) v))
        (record { slice = binding.make_slice default_slice_capacity; failed = none; world = w }))

  unfoldable pub visit_registered :
      VisitCall W S → Outcome ℕ × Visitors (VisitState W S) → W → Outcome S × Visited W S
  unfolding visit_with unregister
  visit_registered visit (ok id, visitors) w =
      let (r, w') = visit_with visit visitors id w in
      (r, record { visitors = unregister id visitors; world = w' })
  visit_registered visit (err e, visitors) w = fail e (record { visitors = visitors; world = w })
  visit_registered visit (panic e, visitors) w =
      panics e (record { visitors = visitors; world = w })

  -- readUsingVisitor
  unfoldable pub read_using_visitor : Bool → VisitCall W S → Exec (Visited W S) S
  unfolding visit_registered register visit_one
  read_using_visitor existing_only visit s =
      visit_registered visit (register (visit_one existing_only) s.visitors) s.world

  -- The C function, and the array of its identifiers freed after it.
  free_after : ℕ → VisitCall W S → VisitCall W S
  free_after array visit fn v =
      let (r, v') = visit fn v in (r, record v' { world = box.core.id_array_free array v'.world })

  read_with_ids : Bool → (ℕ → VisitCall W S) → Outcome ℕ × W → Visited W S → Outcome S × Visited W S
  unfolding read_using_visitor free_after
  read_with_ids existing_only visit_many (ok array, w) s =
      read_using_visitor existing_only (free_after array (visit_many array))
        (record s { world = w })
  read_with_ids existing_only visit_many (err e, w) s = fail e (record s { world = w })
  read_with_ids existing_only visit_many (panic e, w) s = panics e (record s { world = w })

  -- GetMany and GetManyExisting, with obx_box_visit_many
  unfoldable pub get_many_visiting : (ℕ → VisitCall W S) → List ℕ → Exec (Visited W S) S
  unfolding read_with_ids go_ids_array_to_c
  get_many_visiting visit_many ids s =
      read_with_ids false visit_many (go_ids_array_to_c tx box ids s.world) s

  unfoldable pub get_many_existing_visiting : (ℕ → VisitCall W S) → List ℕ → Exec (Visited W S) S
  unfolding read_with_ids go_ids_array_to_c
  get_many_existing_visiting visit_many ids s =
      read_with_ids true visit_many (go_ids_array_to_c tx box ids s.world) s

  -- GetAll, with obx_box_visit_all
  unfoldable pub get_all_visiting : VisitCall W S → Exec (Visited W S) S
  unfolding read_using_visitor
  get_all_visiting visit_all = read_using_visitor true visit_all

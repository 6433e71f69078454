-- ===== src/Store/Cached.antt =====
-- The boxes that a store of objectbox/objectbox.go keeps, over any sequence of calls of InternalBox and
-- of the rest of the program.
use objectbox_go.Base.{
  ℕ, ◌≡◌, refl, sym, ap, subst, ◌∙◌, ◌==◌, arith, Option, none, some, Outcome, ok, err, panic, Exec,
  lookup, lookup-insert, continue, if◌then◌else◌, GoError, Bool, false, ok-injective, >>=-eq-ok,
  ==_refl, ◌>>=◌, ◌≢◌,
}
use objectbox_go.Model.{Entity}
use objectbox_go.Store.{ObjectBox, BoxHandle}
use objectbox_go.Store.Boxes.{
  BoxCalls, StoreState, box, box_or_new, new_box, keep_box, pointer, get_entity_by_id,
  entity_or_panic, internal_box, or_panic,
}

abbrev kept_box : {W : Type 0} → ℕ → StoreState W → Option BoxHandle
kept_box id s = lookup id s.object_box.boxes

-- What happens to a store: boxes are asked for in both ways, and the world around it changes.
pub data Later {W : Type 0} (api : BoxCalls W) (s : StoreState W) : StoreState W → Type 0 where
  at_once : Later api s s
  box_called :
      {s' s'' : StoreState W} (id : ℕ) → Later api s s' → (box api id s').1 ≡ s'' → Later api s s''
  internal_box_called :
      {s' s'' : StoreState W} (id : ℕ)
      → Later api s s'
      → (internal_box api id s').1 ≡ s''
      → Later api s s''
  world_changed :
      {s' : StoreState W} (w : W) → Later api s s' → Later api s (record s' { world = w })

-- A call that leaves a view of its state alone, whatever it ends with.
abbrev Leaves : {S A V : Type 0} → (S → V) → Exec S A → Type 0
Leaves {S} view m = (s : S) → view (m s).1 ≡ view s

bind-Leaves :
    {S A B V : Type 0} (view : S → V) (m : Exec S A) (f : A → Exec S B)
    → Leaves view m
    → ((a : A) → Leaves view (f a))
    → Leaves view (m >>= f)
bind-Leaves {S} {A} view m f h k s = go (m s).0 (m s).1 (h s)
  where
    go : (r : Outcome A) (v : S) → view v ≡ view s → view (continue r f v).1 ≡ view s
    go (ok a) v e = k a v ∙ e
    go (err e') v e = e
    go (panic e') v e = e

not_same : (a b : ℕ) → a ≢ b → (a == b) ≡ false
not_same a b h = ground arith

absurd_kept : {handle : BoxHandle} → none ≡ some handle → ⊥
absurd_kept h = cc

other_box :
    {A : Type 0} (b : Bool) (x : A) {o p : Option A}
    → b ≡ false
    → o ≡ p
    → (if b then some x else o) ≡ p
other_box b x e h = rw e h

module _ {W : Type 0} (api : BoxCalls W) where
  abbrev store_of : StoreState W → ObjectBox
  store_of s = s.object_box

  pointer-Leaves :
      (r : Option ℕ × W) (s : StoreState W) → (pointer api r s).1.object_box ≡ s.object_box
  unfolding pointer
  pointer-Leaves (none, w) s = refl
  pointer-Leaves (some p, w) s = refl

  entity-Leaves :
      (e : GoError) (entity : Option Entity) (s : StoreState W)
      → (entity_or_panic e entity s).1.object_box ≡ s.object_box
  unfolding entity_or_panic
  entity-Leaves e none s = refl
  entity-Leaves e (some entity) s = refl

  -- Making a box keeps what the store has.
  new_box-Leaves : (id : ℕ) → Leaves store_of (new_box api id)
  unfolding new_box get_entity_by_id
  new_box-Leaves id =
      bind-Leaves store_of (get_entity_by_id id) _
        (λ s. entity-Leaves _ (lookup id s.object_box.entities_by_id) s)
        (λ entity.
          bind-Leaves store_of (λ s. pointer api (api.box s.object_box.store id s.world) s) _
            (λ s. pointer-Leaves (api.box s.object_box.store id s.world) s)
            (λ c_box.
              bind-Leaves store_of (λ s. pointer api (api.async c_box s.world) s) _
                (λ s. pointer-Leaves (api.async c_box s.world) s) (λ c_async s. refl)))

  -- A box that the store has is given back, and nothing is called.
  box-kept :
      (id : ℕ) (s : StoreState W) {handle : BoxHandle}
      → kept_box id s ≡ some handle
      → box api id s ≡ (ok handle, s)
  unfolding box box_or_new
  box-kept id s h = ap (λ o. box_or_new api id o s) h

  module _ (id : ℕ) (handle : BoxHandle) where
    abbrev Has : StoreState W → Type 0
    Has s = kept_box id s ≡ some handle

    -- Another box is added beside it.
    added-Has :
        (other : ℕ) (r : Outcome BoxHandle) (s : StoreState W)
        → other ≢ id
        → Has s
        → Has (continue r (keep_box api other) s).1
    unfolding keep_box
    added-Has other (ok new) s d h =
        lookup-insert other id new s.object_box.boxes
        ∙ other_box (other == id) new (not_same other id d) h
    added-Has other (err e) s d h = h
    added-Has other (panic e) s d h = h

    box_or_new-Has :
        (other : ℕ) (o : Option BoxHandle) (s : StoreState W)
        → kept_box other s ≡ o
        → Has s
        → Has (box_or_new api other o s).1
    unfolding box_or_new
    box_or_new-Has other (some kept) s e h = h
    box_or_new-Has other none s e h =
        let differ : other ≢ id = λ p. absurd_kept (sym e ∙ ap (λ k. kept_box k s) p ∙ h) in
        added-Has other (new_box api other s).0 (new_box api other s).1 differ
          (ap (λ o. lookup id o.boxes) (new_box-Leaves other s) ∙ h)

    box-Has : (other : ℕ) (s : StoreState W) → Has s → Has (box api other s).1
    unfolding box
    box-Has other s h = box_or_new-Has other (kept_box other s) s refl h

    or_panic-Has :
        (other : ℕ) (r : Outcome BoxHandle × StoreState W) → Has r.1 → Has (or_panic api other r).1
    unfolding or_panic
    or_panic-Has other (ok k, s) h = h
    or_panic-Has other (err e, s) h = h
    or_panic-Has other (panic e, s) h = h

    Later-Has : {s s' : StoreState W} → Later api s s' → Has s → Has s'
    unfolding internal_box
    Later-Has at_once h = h
    Later-Has (box_called other l e) h = subst Has e (box-Has other _ (Later-Has l h))
    Later-Has (internal_box_called other l e) h =
        subst Has e (or_panic-Has other _ (box-Has other _ (Later-Has l h)))
    Later-Has (world_changed w l) h = Later-Has l h

  -- What box returns is kept under its identifier.
  box-keeps :
      (id : ℕ) (o : Option BoxHandle) (s : StoreState W) {handle : BoxHandle}
      → kept_box id s ≡ o
      → (box_or_new api id o s).0 ≡ ok handle
      → kept_box id (box_or_new api id o s).1 ≡ some handle
  unfolding box_or_new keep_box
  box-keeps id (some kept) s e h = e ∙ ap some (ok-injective h)
  box-keeps id none s {handle} e h =
      let (k, _, step, h') = >>=-eq-ok (new_box api id) (keep_box api id) s h in
      let boxes = (new_box api id s).1.object_box.boxes in
      ap (λ r. kept_box id r.1) step
      ∙ lookup-insert id id k boxes
      ∙ ap (λ b. if b then some k else lookup id boxes) (==_refl id)
      ∙ ap some (ok-injective h')

  not_panicked :
      (id : ℕ) (r : Outcome BoxHandle × StoreState W) {handle : BoxHandle}
      → (or_panic api id r).0 ≡ ok handle
      → (r.0 ≡ ok handle) × (r.1 ≡ (or_panic api id r).1)
  unfolding or_panic
  not_panicked id (ok k, s) h = (h, refl)
  not_panicked id (err e, s) h = cc
  not_panicked id (panic e, s) h = cc

  -- Once the box of an entity was opened, InternalBox gives the same handle, and calls nothing and
  -- changes nothing, after any sequence of calls that open boxes of the store, failed ones included,
  -- and of other changes of the world.
  pub internal_box-Later :
      (id : ℕ) (s later : StoreState W) {handle : BoxHandle}
      → (internal_box api id s).0 ≡ ok handle
      → Later api (internal_box api id s).1 later
      → internal_box api id later ≡ (ok handle, later)
  unfolding internal_box box or_panic
  internal_box-Later id s later {handle} h l =
      let (opened, same) = not_panicked id (box api id s) h in
      let kept = box-keeps id (kept_box id s) s refl opened in
      let there = Later-Has id handle l (ap (kept_box id) (sym same) ∙ kept) in
      ap (or_panic api id) (box-kept id later there)

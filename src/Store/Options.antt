-- ===== src/Store/Options.antt =====
-- objectbox/builder.go: what becomes of the options of a store.
use objectbox_go.Base.{
  ℕ, ◌%◌, ◌^◌, ◌==◌, ◌≡◌, refl, ap, ◌∙◌, Bool, true, false, ◌⊎◌, inl, inr, [], Option, none, some,
  String, if◌then◌else◌, Outcome, ok, err, GoError, message, arith, equal_or_not, zero, suc,
}
use objectbox_go.Native.{create_error}
use objectbox_go.Model.{Model}
use objectbox_go.Store.{
  StoreApi, Builder, ObjectBox, build_or_error, unless_failed, with_schema, configured,
  at_directory, located, open_with, opened, when_set,
}

-- The documented behaviour of the functions on options, with `live` as the options that are neither
-- freed nor taken over by a store: obx_opt makes options, obx_opt_free and obx_store_open end them.
pub record OptionLaws {W : Type 0} (api : StoreApi W) : Type 0 where
  pub live : W → ℕ → Bool
  pub opt_none : (w : W) → (api.opt w).0 ≡ none → (k : ℕ) → live (api.opt w).1 k ≡ live w k
  pub opt_some :
      (w : W) (options : ℕ)
      → (api.opt w).0 ≡ some options
      → (live w options ≡ false)
        × ((k : ℕ) → live (api.opt w).1 k ≡ (if options == k then true else live w k))
  pub free :
      (options : ℕ) (w : W) (k : ℕ)
      → live (api.opt_free options w) k ≡ (if options == k then false else live w k)
  pub open_store :
      (options : ℕ) (w : W) (k : ℕ)
      → live (api.store_open options w).1 k ≡ (if options == k then false else live w k)
  pub directory :
      (options : ℕ) (path : String) (w : W) (k : ℕ)
      → live (api.opt_directory options path w).1 k ≡ live w k
  pub max_size :
      (options n : ℕ) (w : W) (k : ℕ) → live (api.opt_max_db_size_in_kb options n w) k ≡ live w k
  pub max_readers :
      (options n : ℕ) (w : W) (k : ℕ) → live (api.opt_max_readers options n w) k ≡ live w k
  pub model :
      (options : ℕ) (m : Option ℕ) (w : W) (k : ℕ) → live (api.opt_model options m w) k ≡ live w k

-- An error, or an open store with the entities of the builder's model, no boxes yet, and the timeout.
pub record IsOpen (builder : Builder) (object_box : ObjectBox) : Type 0 where
  pub pointer : ℕ
  pub opened : object_box.store ≡ some pointer
  pub schema : Model
  pub configured : builder.model ≡ some schema
  pub entities_by_id : object_box.entities_by_id ≡ schema.by_id
  pub entities_by_name : object_box.entities_by_name ≡ schema.by_name
  pub no_boxes : object_box.boxes ≡ []
  pub timeout : object_box.async_timeout ≡ builder.async_timeout

-- How a call that opens a store ends.
abbrev pub Ends : Builder → Outcome ObjectBox → Type 0
Ends builder r =
    ((e : GoError) × (r ≡ err e))
    ⊎ ((object_box : ObjectBox) × (r ≡ ok object_box) × IsOpen builder object_box)

-- Options that were not live before and have been ended.
ended :
    (options k : ℕ) (before : ℕ → Bool) (b : Bool)
    → before options ≡ false
    → b ≡ (if options == k then true else before k)
    → (if options == k then false else b) ≡ before k
ended options k before b fresh h = elim (equal_or_not options k) [
  | inl e ↦ ground (arith, e, fresh, ap before e)
  | inr d ↦ ground (arith, d, h)
]

module _ {W : Type 0} (api : StoreApi W) (laws : OptionLaws api) (builder : Builder) where
  open laws use {live}

  -- The options are ended, all others are as in `before`.
  abbrev Balanced : (ℕ → Bool) → Outcome ObjectBox × W → Type 0
  Balanced before r = Ends builder r.0 × ((k : ℕ) → live r.1 k ≡ before k)

  opened-Ends :
      (m : Model)
      → builder.model ≡ some m
      → (o : Option ℕ) (w : W)
      → Ends builder (opened api m builder.async_timeout (o, w)).0
        × ((opened api m builder.async_timeout (o, w)).1 ≡ w)
  unfolding opened
  opened-Ends m e none w = (inl (create_error api.errors w, refl), refl)
  opened-Ends m e (some store) w = (
    inr (
      _,
      refl,
      record {
        pointer = store;
        opened = refl;
        schema = m;
        configured = e;
        entities_by_id = refl;
        entities_by_name = refl;
        no_boxes = refl;
        timeout = refl;
      },
    ),
    refl,
  )

  when_set-keeps :
      {A : Type 0} (o : Option A) (use_value : A → W → W) (w : W) (k : ℕ)
      → ((a : A) → live (use_value a w) k ≡ live w k)
      → live (when_set api o use_value w) k ≡ live w k
  unfolding when_set
  when_set-keeps none use_value w k h = refl
  when_set-keeps (some a) use_value w k h = h a

  open_with-Balanced :
      (m : Model)
      → builder.model ≡ some m
      → (options : ℕ) (w : W) (before : ℕ → Bool) → before options ≡ false
      → ((k : ℕ) → live w k ≡ (if options == k then true else before k))
      → Balanced before (open_with api builder m options w)
  unfolding open_with
  open_with-Balanced m e options w before fresh h =
      let w1 = when_set api builder.max_size_in_kb (api.opt_max_db_size_in_kb options) w in
      let set_readers : ℕ → W → W = λ n. api.opt_max_readers options (n % 2 ^ 32) in
      let w2 = when_set api builder.max_readers set_readers w1 in
      let w3 = api.opt_model options m.c_model w2 in
      let (ends, same) =
        opened-Ends m e (api.store_open options w3).0 (api.store_open options w3).1 in
      (
        ends,
        λ k.
            let kept =
              laws.model options m.c_model w2 k
              ∙ when_set-keeps builder.max_readers set_readers w1 k
                  (λ n. laws.max_readers options (n % 2 ^ 32) w1 k)
              ∙ when_set-keeps builder.max_size_in_kb (api.opt_max_db_size_in_kb options) w k
                  (λ n. laws.max_size options n w k)
              ∙ h k in
            ap (λ v. live v k) same
            ∙ laws.open_store options w3 k
            ∙ ended options k before (live w3 k) fresh kept,
      )

  located-Balanced :
      (m : Model)
      → builder.model ≡ some m
      → (options : ℕ) (rc : ℕ) (w : W) (before : ℕ → Bool) → before options ≡ false
      → ((k : ℕ) → live w k ≡ (if options == k then true else before k))
      → Balanced before (located api builder m options (rc, w))
  unfolding located
  located-Balanced m e options zero w before fresh h =
      open_with-Balanced m e options w before fresh h
  located-Balanced m e options (suc rc) w before fresh h = (
    inl (create_error api.errors (api.opt_free options w), refl),
    λ k. laws.free options w k ∙ ended options k before (live w k) fresh (h k),
  )

  at_directory-Balanced :
      (m : Model)
      → builder.model ≡ some m
      → (d : Option String) (options : ℕ) (w : W) (before : ℕ → Bool) → before options ≡ false
      → ((k : ℕ) → live w k ≡ (if options == k then true else before k))
      → Balanced before (at_directory api d builder m options w)
  unfolding at_directory
  at_directory-Balanced m e none options w before fresh h =
      open_with-Balanced m e options w before fresh h
  at_directory-Balanced m e (some path) options w before fresh h =
      let r = api.opt_directory options path w in
      located-Balanced m e options r.0 r.1 before fresh (λ k. laws.directory options path w k ∙ h k)

  configured-Balanced :
      (m : Model)
      → builder.model ≡ some m
      → (w : W) (o : Option ℕ) → (api.opt w).0 ≡ o
      → Balanced (live w) (configured api builder m (o, (api.opt w).1))
  unfolding configured
  configured-Balanced m e w none h =
      (inl (create_error api.errors (api.opt w).1, refl), laws.opt_none w h)
  configured-Balanced m e w (some options) h =
      let (fresh, made) = laws.opt_some w options h in
      at_directory-Balanced m e builder.directory options (api.opt w).1 (live w) fresh made

  with_schema-Balanced :
      (o : Option Model)
      → builder.model ≡ o
      → (w : W) → Balanced (live w) (with_schema api o builder w)
  unfolding with_schema
  with_schema-Balanced none e w = (inl (message "model is not defined", refl), λ k. refl)
  with_schema-Balanced (some m) e w = configured-Balanced m e w (api.opt w).0 refl

  unless_failed-Balanced :
      (o : Option GoError) (w : W) → Balanced (live w) (unless_failed api o builder w)
  unfolding unless_failed
  unless_failed-Balanced none w = with_schema-Balanced builder.model refl w
  unless_failed-Balanced (some e) w = (inl (e, refl), λ k. refl)

  -- BuildOrError returns an error or an open store with the entities of the builder's model and no
  -- boxes, and never panics; whatever it returns, the options that it makes are freed or taken over by
  -- a store, and no other options are.
  pub build_or_error-Ends :
      (w : W)
      → Ends builder (build_or_error api builder w).0
        × ((k : ℕ) → live (build_or_error api builder w).1 k ≡ live w k)
  unfolding build_or_error
  build_or_error-Ends w = unless_failed-Balanced builder.error w

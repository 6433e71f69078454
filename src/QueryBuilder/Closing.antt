-- ===== src/QueryBuilder/Closing.antt =====
-- Close of objectbox/querybuilder.go on a builder with inner builders.
use objectbox_go.Base.{ℕ, ◌≡◌, refl, sym, ap, ◌∙◌, Option, none, some, List, [], ◌∷◌, ◌++◌}
use mathlib.Core.List.{append_assoc, append-nil}
use objectbox_go.QueryBuilder.{Tree, Trees, node, no_trees, and_tree, QueryApi}
use objectbox_go.QueryBuilder.Finish.{close_own, close_builder, close_builders}

abbrev pub handle : Option ℕ → List ℕ
handle none = []
handle (some cqb) = cqb ∷ []

-- The pointers that builders hold, those of inner builders before their own.
unfoldable mutual
  pub handles : Tree → List ℕ
  handles (node cqb type_id inner) = inner_handles inner ++ handle cqb

  pub inner_handles : Trees → List ℕ
  inner_handles no_trees = []
  inner_handles (and_tree trees tree) = inner_handles trees ++ handles tree

-- The documented behaviour of obx_qb_close, for `closed`, the builders closed so far: it closes its
-- argument even if it reports an error.
pub record CloseLaws {W F : Type 0} (api : QueryApi W F) : Type 0 where
  pub closed : W → List ℕ
  pub closes : (cqb : ℕ) (w : W) → closed (api.qb_close cqb w).1 ≡ closed w ++ (cqb ∷ [])

module _ {W F : Type 0} (api : QueryApi W F) (laws : CloseLaws api) where
  open laws use {closed}

  close_own-closed :
      (cqb : Option ℕ) (w : W) → closed (close_own api cqb w).1 ≡ closed w ++ handle cqb
  unfolding close_own
  close_own-closed none w = sym (append-nil (closed w))
  close_own-closed (some cqb) w = laws.closes cqb w

  mutual
    unfolding close_builder close_builders handles inner_handles

    builder-closed : (t : Tree) (w : W) → closed (close_builder api t w).1 ≡ closed w ++ handles t
    builder-closed (node cqb type_id inner) w =
        close_own-closed cqb (close_builders api inner w).1
        ∙ ap (λ l. l ++ handle cqb) (builders-closed inner w)
        ∙ append_assoc (closed w) (inner_handles inner) (handle cqb)

    builders-closed :
        (ts : Trees) (w : W) → closed (close_builders api ts w).1 ≡ closed w ++ inner_handles ts
    builders-closed no_trees w = sym (append-nil (closed w))
    builders-closed (and_tree trees tree) w =
        builder-closed tree (close_builders api trees w).1
        ∙ ap (λ l. l ++ handles tree) (builders-closed trees w)
        ∙ append_assoc (closed w) (inner_handles trees) (handles tree)

  mutual
    unfolding close_builder close_builders handles inner_handles

    builder-empty : (t : Tree) (w : W) → handles (close_builder api t w).0.1 ≡ []
    builder-empty (node cqb type_id inner) w = rw (builders-empty inner w) refl

    builders-empty : (ts : Trees) (w : W) → inner_handles (close_builders api ts w).0.1 ≡ []
    builders-empty no_trees w = refl
    builders-empty (and_tree trees tree) w =
        rw (builders-empty trees w, builder-empty tree (close_builders api trees w).1) refl

  -- Close closes each builder of the tree that still has its pointer, once, inner ones before outer
  -- ones and errors or not; and no builder has its pointer afterwards, so that a second Close closes
  -- nothing.
  pub close_builder-closed :
      (t : Tree) (w : W)
      → let after = close_builder api t w in
        (closed after.1 ≡ closed w ++ handles t)
        × (closed (close_builder api after.0.1 after.1).1 ≡ closed after.1)
  close_builder-closed t w =
      let after = close_builder api t w in
      (
        builder-closed t w,
        builder-closed after.0.1 after.1
            ∙ ap (λ l. closed after.1 ++ l) (builder-empty t w)
            ∙ append-nil (closed after.1),
      )

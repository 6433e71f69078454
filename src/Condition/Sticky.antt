-- ===== src/Condition/Sticky.antt =====
-- The first error of a query builder stops all that follows: objectbox/querybuilder.go, condition.go.
use objectbox_go.Base.{
  ◌≡◌, ap, Option, none, some, Bool, false, String, GoError, err, Exec, continue, ◌>>=◌, ◌>>◌,
}
use objectbox_go.QueryBuilder.{
  State, Property, QueryApi, NativeCondition, OrderFlag, case_sensitive, add_condition, all, alias,
  set_order_flag,
}
use objectbox_go.Condition.{
  RelationToOne, RelationToMany, Condition, condition_closure, order_closure, combination,
  one_to_many, many_to_many, Conditions, no_conditions, and_condition,
}
use objectbox_go.Condition.Apply.{apply_to, apply_combined, link_one_to_many, link_many_to_many}

-- On a builder with an error: return this error, and neither change the builder nor call C.
abbrev pub Sticky : {W A : Type 0} → Exec (State W) A → Type 0
Sticky {W} m = (s : State W) (e : GoError) → s.builder.error ≡ some e → m s ≡ (err e, s)

>>=-Sticky :
    {W A B : Type 0} (m : Exec (State W) A) (f : A → Exec (State W) B) → Sticky m → Sticky (m >>= f)
>>=-Sticky m f sticky s e h = ap (λ r. continue r.0 f r.1) (sticky s e h)

module _ {W F : Type 0} (api : QueryApi W F) where
  pub add_condition-Sticky :
      (property : Property) (c : NativeCondition F) → Sticky (add_condition api property c)
  unfolding add_condition
  add_condition-Sticky property c s e h = rw h

  pub set_order_flag-Sticky :
      (property : Property) (flag : OrderFlag) (value : Bool)
      → Sticky (set_order_flag api property flag value)
  unfolding set_order_flag
  set_order_flag-Sticky property flag value s e h = rw h

  link_one_to_many-Sticky :
      (relation : RelationToOne) (body : Exec (State W) (Unit {0}))
      → Sticky (link_one_to_many api relation body)
  unfolding link_one_to_many
  link_one_to_many-Sticky relation body s e h = rw h

  link_many_to_many-Sticky :
      (relation : RelationToMany) (body : Exec (State W) (Unit {0}))
      → Sticky (link_many_to_many api relation body)
  unfolding link_many_to_many
  link_many_to_many-Sticky relation body s e h = rw h

  -- The conditions that ask the builder first: those of its methods, aliased or not, orders and links
  -- without an alias, and combinations without an alias that have a first part of this kind. Any() and
  -- All() without parts and the aliased combinations, links and orders are not among them.
  mutual
    pub data Guarded : Condition W → Type 0 where
      method :
          (property : Property) (c : NativeCondition F) (alias : Option String)
          → Guarded (condition_closure (add_condition api property c) alias)
      order :
          (property : Property) (flag : OrderFlag) (value : Bool)
          → Guarded (order_closure (set_order_flag api property flag value) none)
      order_with_case :
          (property : Property) (flag : OrderFlag) (value sensitive : Bool)
          → Guarded (
              order_closure
                (set_order_flag api property flag value
                  >> set_order_flag api property case_sensitive sensitive)
                none)
      combined :
          (or : Bool) (parts : Conditions W)
          → AllGuarded parts
          → Guarded (combination or parts none)
      one :
          (relation : RelationToOne) (parts : Conditions W)
          → Guarded (one_to_many relation parts none)
      many :
          (relation : RelationToMany) (parts : Conditions W)
          → Guarded (many_to_many relation parts none)

    pub data AllGuarded : Conditions W → Type 0 where
      single : (c : Condition W) → Guarded c → AllGuarded (and_condition c no_conditions)
      several :
          (c d : Condition W) (parts : Conditions W)
          → Guarded c
          → AllGuarded (and_condition c (and_condition d parts))

  mutual
    unfolding apply_to apply_combined

    guarded-Sticky :
        (c : Condition W) (is_root : Bool) → Guarded c → Sticky (apply_to api c is_root)
    guarded-Sticky _ is_root (method property c alias) =
        >>=-Sticky (add_condition api property c) _ (add_condition-Sticky property c)
    guarded-Sticky _ is_root (order property flag value) =
        >>=-Sticky (set_order_flag api property flag value) _
          (set_order_flag-Sticky property flag value)
    guarded-Sticky _ is_root (order_with_case property flag value sensitive) =
        >>=-Sticky (set_order_flag api property flag value >> _) _ (
          >>=-Sticky (set_order_flag api property flag value) _
            (set_order_flag-Sticky property flag value))
    guarded-Sticky _ is_root (combined or parts all) = combined-Sticky or is_root parts all
    guarded-Sticky _ is_root (one relation parts) =
        >>=-Sticky (link_one_to_many api relation _) _ (link_one_to_many-Sticky relation _)
    guarded-Sticky _ is_root (many relation parts) =
        >>=-Sticky (link_many_to_many api relation _) _ (link_many_to_many-Sticky relation _)

    combined-Sticky :
        (or is_root : Bool) (parts : Conditions W)
        → AllGuarded parts
        → Sticky (apply_combined api or is_root parts)
    combined-Sticky or is_root _ (single c g) = guarded-Sticky c is_root g
    combined-Sticky or is_root _ (several c d parts g) =
        >>=-Sticky (apply_to api c false) _ (guarded-Sticky c false g)

  -- Once a query builder has an error, a condition of the following kinds returns that error, changes
  -- nothing of the builder and calls nothing of the C library: a method's condition, aliased or not;
  -- an order or a link without an alias; and a combination without an alias that has at least one part
  -- and whose first part is again of one of these kinds. Nothing is claimed of Any() and All() without
  -- parts and of combinations, links and orders with an alias.
  pub apply_to_stopped :
      (c : Condition W) (is_root : Bool) (s : State W) (e : GoError)
      → Guarded c
      → s.builder.error ≡ some e
      → apply_to api c is_root s ≡ (err e, s)
  apply_to_stopped c is_root s e g h = guarded-Sticky c is_root g s e h

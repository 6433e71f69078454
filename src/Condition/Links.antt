-- ===== src/Condition/Links.antt =====
-- Links as parts of combinations: objectbox/condition.go.
use objectbox_go.Base.{
  ◌≡◌, refl, sym, ap, ◌∙◌, Option, none, some, Bool, true, false, not, ◌&&◌, List, String, ok, err,
  arith, >>=-eq-ok, ok-injective,
}
use objectbox_go.QueryBuilder.{State, ConditionId, QueryApi, fake_link}
use objectbox_go.Condition.{
  RelationToOne, RelationToMany, Condition, combination, one_to_many, many_to_many, Conditions,
  and_condition,
}
use objectbox_go.Condition.Apply.{
  apply_to, apply_combined, apply_each, has_link, add_unless_order, combine, links_unsupported,
  link_one_to_many, link_many_to_many,
}

-- Conditions that have a link among them.
pub data HasLink {W : Type 0} : Conditions W → Type 0 where
  one :
      (relation : RelationToOne) (inner : Conditions W) (alias : Option String)
      (parts : Conditions W)
      → HasLink (and_condition (one_to_many relation inner alias) parts)
  many :
      (relation : RelationToMany) (inner : Conditions W) (alias : Option String)
      (parts : Conditions W)
      → HasLink (and_condition (many_to_many relation inner alias) parts)
  later : (c : Condition W) (parts : Conditions W) → HasLink parts → HasLink (and_condition c parts)

add_unless_order-has_link :
    (id : ConditionId) (ids : List ConditionId)
    → has_link ids ≡ true
    → has_link (add_unless_order id ids) ≡ true
unfolding has_link add_unless_order
add_unless_order-has_link id ids h = ground arith

add-fake_link : (ids : List ConditionId) → has_link (add_unless_order fake_link ids) ≡ true
unfolding has_link add_unless_order
add-fake_link ids = refl

module _ {W F : Type 0} (api : QueryApi W F) where
  one_to_many-id :
      (relation : RelationToOne) (inner : Conditions W) (alias : Option String) (s : State W)
      {id : ConditionId}
      → (apply_to api (one_to_many relation inner alias) false s).0 ≡ ok id
      → id ≡ fake_link
  unfolding apply_to
  one_to_many-id relation inner none s h =
      let (_, _, _, done) = >>=-eq-ok (link_one_to_many api relation _) _ s h in
      sym (ok-injective done)
  one_to_many-id relation inner (some name) s h = cc

  many_to_many-id :
      (relation : RelationToMany) (inner : Conditions W) (alias : Option String) (s : State W)
      {id : ConditionId}
      → (apply_to api (many_to_many relation inner alias) false s).0 ≡ ok id
      → id ≡ fake_link
  unfolding apply_to
  many_to_many-id relation inner none s h =
      let (_, _, _, done) = >>=-eq-ok (link_many_to_many api relation _) _ s h in
      sym (ok-injective done)
  many_to_many-id relation inner (some name) s h = cc

  -- The parts of a successful loop, one by one.
  pub apply_each-and :
      (c : Condition W) (parts : Conditions W) (s : State W) {ids : List ConditionId}
      → (apply_each api (and_condition c parts) s).0 ≡ ok ids
      → (id : ConditionId) × (rest : List ConditionId) × ((apply_to api c false s).0 ≡ ok id)
        × ((apply_each api parts (apply_to api c false s).1).0 ≡ ok rest)
        × (ids ≡ add_unless_order id rest)
        × ((apply_each api (and_condition c parts) s).1
            ≡ (apply_each api parts (apply_to api c false s).1).1)
  unfolding apply_each
  apply_each-and c parts s h =
      let (id, e, s1, h1) = >>=-eq-ok (apply_to api c false) _ s h in
      let (rest, e', s2, done) = >>=-eq-ok (apply_each api parts) _ _ h1 in
      (id, rest, e, e', sym (ok-injective done), ap (λ r. r.1) (s1 ∙ s2))

  has_link-apply_each :
      (parts : Conditions W) (s : State W) {ids : List ConditionId}
      → HasLink parts
      → (apply_each api parts s).0 ≡ ok ids
      → has_link ids ≡ true
  has_link-apply_each _ s (one relation inner alias parts) h =
      let (id, rest, e, _, same, _) = apply_each-and (one_to_many relation inner alias) parts s h in
      rw (same, one_to_many-id relation inner alias s e) (add-fake_link rest)
  has_link-apply_each _ s (many relation inner alias parts) h =
      let (id, rest, e, _, same, _) =
        apply_each-and (many_to_many relation inner alias) parts s h in
      rw (same, many_to_many-id relation inner alias s e) (add-fake_link rest)
  has_link-apply_each _ s (later c parts l) h =
      let (id, rest, _, e', same, _) = apply_each-and c parts s h in
      rw same (add_unless_order-has_link id rest (has_link-apply_each parts _ l e'))

  -- A combination of two parts or more ends as `combine` does on the identifiers of its parts.
  pub apply_combined-combine :
      (or is_root : Bool) (c d : Condition W) (parts : Conditions W) (s : State W)
      {ids : List ConditionId}
      → (apply_each api (and_condition c (and_condition d parts)) s).0 ≡ ok ids
      → apply_to api (combination or (and_condition c (and_condition d parts)) none) is_root s
        ≡ combine api or is_root ids (apply_each api (and_condition c (and_condition d parts)) s).1
  unfolding apply_to apply_combined apply_each
  apply_combined-combine or is_root c d parts s h =
      let (id, e, s1, h1) = >>=-eq-ok (apply_to api c false) _ s h in
      let (rest, e', s2, done) = >>=-eq-ok (apply_each api (and_condition d parts)) _ _ h1 in
      rw (e, e', ok-injective done)

  -- A combination of two parts or more with a link among them, if it is an Any or stands below the
  -- root, fails once its parts have been applied: the parts are not combined.
  pub link_inside_combination :
      (or is_root : Bool) (c d : Condition W) (parts : Conditions W) (s : State W)
      {ids : List ConditionId}
      → (is_root && not or) ≡ false
      → HasLink (and_condition c (and_condition d parts))
      → (apply_each api (and_condition c (and_condition d parts)) s).0 ≡ ok ids
      → apply_to api (combination or (and_condition c (and_condition d parts)) none) is_root s
        ≡ (err links_unsupported, (apply_each api (and_condition c (and_condition d parts)) s).1)
  unfolding combine
  link_inside_combination or is_root c d parts s below l h =
      apply_combined-combine or is_root c d parts s h ∙ rw (below, has_link-apply_each _ s l h) refl

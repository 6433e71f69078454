-- ===== src/Box/Examples/Relations.antt =====
-- RelationReplace of objectbox/box.go on a small store whose objects relate to one another.
use objectbox_go.Base.{
  ℕ, zero, suc, ◌≡◌, refl, some, Bool, List, [], ◌∷◌, contains, insert, delete, ok, arith,
}
use objectbox_go.Box.Keeping.{Untouched}
use objectbox_go.Box.Links.{mark_all, relation_replace}
use objectbox_go.Box.Related.{RelationLaws}
use objectbox_go.Box.Replaced.{Replaced, relation_replace_exact}
use objectbox_go.Box.Examples.Memory.{
  World, people, tx, start, store, give_id, set_id, relate, unrelate, without-contains,
}

-- Whether a source and a target are related.
abbrev related : World → ℕ → ℕ → Bool
related w s x = contains (w.targets s) x

give_id_related : (id : ℕ) (w : World) → related (give_id id w).1 ≡ related w
unfolding give_id
give_id_related zero w = refl
give_id_related (suc id) w = refl

puts : Untouched tx people related
unfolding set_id store
puts = record {
  get_id = λ o w. refl;
  set_id = λ o id w. refl;
  put_related = λ o id w. refl;
  flatten = λ o id w. refl;
  id_for_put = give_id_related;
  put5 = λ id bytes mode w. refl;
  begin_keeps = λ w. refl;
  success_keeps = λ txn w h. refl;
}

laws : RelationLaws tx people people 7
unfolding relate unrelate
laws = record {
  related = related;
  puts = puts;
  source_id = λ o w. refl;
  get_ids = λ source w. refl;
  ids_are = λ source array x w h. ground arith;
  free_ids = λ array w. refl;
  put_adds = λ source id w h s x. ground arith;
  remove_takes = λ source id w h s x. ground (arith, without-contains id (w.targets s) x);
}

-- The object 1 is related to 12 and 13; it is to be related to the objects 2 (12) and 3 (new).
replaced : (relation_replace tx people people 7 (λ l. l) 11 1 (some (2 ∷ 3 ∷ [])) start).0 ≡ ok tt
unfolding relation_replace give_id set_id insert delete mark_all
replaced = refl

relation_replace_exact_example :
    (id : ℕ) × (ids : List ℕ) × ((people.binding.get_id 1 start).0 ≡ ok id)
    × Replaced tx people people 7 laws id 11
        (2 ∷ 3 ∷ [])
        ids
        start
        (relation_replace tx people people 7 (λ l. l) 11 1 (some (2 ∷ 3 ∷ [])) start).1
relation_replace_exact_example =
    relation_replace_exact tx people people 7 laws (λ l. l) (λ l x. refl) 11 1 (some (2 ∷ 3 ∷ []))
      start replaced

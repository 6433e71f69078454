-- ===== src/Box/Examples/Visiting.antt =====
-- Reads with a data visitor from the store in memory.
use objectbox_go.Base.{
  ℕ, ◌≡◌, refl, Option, none, some, false, List, [], ◌∷◌, ok, lookup-insert, insert, arith,
}
use objectbox_go.Slots.{find_slot}
use objectbox_go.Visitors.{register, find, next_id}
use objectbox_go.Visitors.Numbers.{Took}
use objectbox_go.Box.Reads.{read_items}
use objectbox_go.Box.Visiting.{Visited, VisitCall, visit_one, read_using_visitor}
use objectbox_go.Box.Visited.{visit_items, read_using_visitor-read_items}
use objectbox_go.Box.Examples.Memory.{World, people, tx, start, loaded}

abbrev found : List (Option (List ℕ))
found = some (11 ∷ 1 ∷ []) ∷ none ∷ some (12 ∷ 2 ∷ []) ∷ []

abbrev visit_found : VisitCall World (List (Option ℕ))
visit_found fn v = visit_items fn found v

-- Another visitor has the number 1.
abbrev visited : Visited World (List (Option ℕ))
visited = record {
  visitors = record { last_id = 0; callbacks = (1, λ bytes v. (ok false, v)) ∷ [] };
  world = start;
}

read : (read_using_visitor tx people false visit_found visited).0 ≡ ok (some 1 ∷ none ∷ some 2 ∷ [])
unfolding read_using_visitor visit_items loaded find_slot next_id register find insert
read = refl

visitor-Took : Took (visit_one tx people false) visited.visitors 2
unfolding register find_slot next_id
visitor-Took = record {
  returned = refl;
  number = omega arith;
  was_free = refl;
  entries = λ j. lookup-insert 2 j (visit_one tx people false) visited.visitors.callbacks;
  last = refl;
}

read_using_visitor-read_items_example :
    ((read_using_visitor tx people false visit_found visited).0
      ≡ (read_items tx people false [] found start).0)
    × ((j : ℕ)
        → find j (read_using_visitor tx people false visit_found visited).1.visitors
          ≡ find j visited.visitors)
read_using_visitor-read_items_example =
    read_using_visitor-read_items tx people false visit_found found visited 2 1 visitor-Took
      (λ fn v. refl) refl (λ w. refl)

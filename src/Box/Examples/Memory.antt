-- ===== src/Box/Examples/Memory.antt =====
-- A small store in memory with the C functions of a box on it, for the examples.
use objectbox_go.Base.{
  ℕ, zero, suc, ◌+◌, ◌≡◌, refl, ◌==◌, Option, none, some, false, not, ◌&&◌, List, [], ◌∷◌, ◌++◌,
  if◌then◌else◌, contains, Exec, pure, arith, is_some,
}
use objectbox_go.Transactions.{TxnApi}
use objectbox_go.Box.Api.{Box, BoxApi, Binding}

-- An object is a reference; `ids` holds the identifier of each.
pub record World : Type 0 where
  pub ids : ℕ → ℕ
  pub stored : ℕ → Option (List ℕ)
  pub next : ℕ
  pub targets : ℕ → List ℕ
  pub array : List (List ℕ)

unfoldable pub store : ℕ → List ℕ → World → World
store id bytes w = record w { stored = λ j. if id == j then some bytes else w.stored j }

unfoldable pub store_all : List ℕ → List (List ℕ) → World → World
unfolding store
store_all (id ∷ ids) (bytes ∷ rest) w = store_all ids rest (store id bytes w)
store_all _ _ w = w

unfoldable pub without : ℕ → List ℕ → List ℕ
without id [] = []
without id (x ∷ xs) = if id == x then without id xs else x ∷ without id xs

pub without-contains :
    (id : ℕ) (xs : List ℕ) (x : ℕ) → contains (without id xs) x ≡ (contains xs x && not (id == x))
unfolding without
without-contains id [] x = refl
without-contains id (y ∷ ys) x = ground (arith, without-contains id ys x)

unfoldable pub give_id : ℕ → World → ℕ × World
give_id zero w = (w.next, record w { next = w.next + 1 })
give_id (suc id) w = (suc id, w)

unfoldable pub set_id : ℕ → ℕ → Exec World Unit
set_id o id w = pure tt (record w { ids = λ o'. if o == o' then id else w.ids o' })

unfoldable pub relate : ℕ → ℕ → World → World
relate source id w = record w {
  targets = λ s. if source == s then id ∷ w.targets s else w.targets s;
}

unfoldable pub unrelate : ℕ → ℕ → World → World
unfolding without
unrelate source id w = record w {
  targets = λ s. if source == s then without id (w.targets s) else w.targets s;
}

-- The bytes of an object are its identifier and its reference.
unfoldable pub loaded : List ℕ → ℕ
loaded (id ∷ o ∷ bytes) = o
loaded _ = 0

abbrev pub binding : Binding World ℕ (List (Option ℕ))
binding = record {
  get_id = λ o w. pure (w.ids o) w;
  set_id = set_id;
  put_related = λ o id. pure tt;
  flatten = λ o id. pure (id ∷ o ∷ []);
  load = λ bytes. pure (loaded bytes);
  make_slice = λ n. [];
  append_to_slice = λ slice o. slice ++ (o ∷ []);
}

abbrev pub core : BoxApi World
core = record {
  id_for_put = give_id;
  ids_for_put = λ n w. ((0, w.next), record w { next = w.next + n });
  put5 = λ id bytes mode w. (0, store id bytes w);
  put_many = λ array ids mode w. (0, store_all ids w.array w);
  remove = λ id w. (0, record w { stored = λ j. if id == j then none else w.stored j });
  remove_many = λ array w. ((0, 0), w);
  remove_all = λ w. (0, record w { stored = λ j. none });
  count = λ limit w. ((0, 0), w);
  is_empty = λ w. ((0, false), w);
  contains = λ id w. ((0, is_some (w.stored id)), w);
  contains_many = λ array w. ((0, false), w);
  get = λ id w. elim (w.stored id) [ none ↦ ((404, []), w) | some bytes ↦ ((0, bytes), w) ];
  get_many = λ array w. (none, w);
  get_all = λ w. (none, w);
  bytes_array = λ n w. (some 0, record w { array = [] });
  bytes_array_set = λ array i bytes w. (0, record w { array = w.array ++ (bytes ∷ []) });
  bytes_array_items = λ array w. [];
  bytes_array_free = λ array w. w;
  id_array = λ ids w. (some 0, w);
  id_array_items = λ array w. w.targets array;
  id_array_free = λ array w. w;
  rel_get_ids = λ relation source w. (some source, w);
  rel_put = λ relation source id w. (0, relate source id w);
  rel_remove = λ relation source id w. (0, unrelate source id w);
}

abbrev pub people : Box World ℕ (List (Option ℕ))
people = record { has_relations = false; binding = binding; core = core }

abbrev pub tx : TxnApi World
tx = record {
  errors = record { last_error_message = λ w. none };
  txn_read = λ w. (some 1, w);
  txn_write = λ w. (some 1, w);
  txn_close = λ txn w. (0, w);
  txn_success = λ txn w. (0, w);
}

-- The objects 1 and 2 have identifiers, the others are new.
abbrev pub start : World
start = record {
  ids = λ o. if o == 1 then 11 else if o == 2 then 12 else 0;
  stored = λ id. none;
  next = 20;
  targets = λ source. if source == 11 then 12 ∷ 13 ∷ [] else [];
  array = [];
}

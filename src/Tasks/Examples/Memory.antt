-- ===== src/Tasks/Examples/Memory.antt =====
-- A world with a memory of tasks and a store in memory, for the examples.
use objectbox_go.Base.{
  ℕ, zero, suc, ◌+◌, ◌≡◌, ◌≢◌, refl, ap, ◌==◌, ==_refl, Option, none, some, false, List, [], ◌∷◌,
  if◌then◌else◌, is_some,
}
use objectbox_go.Base.Int.{pos}
use objectbox_go.Converters.{Time}
use objectbox_go.Transactions.{TxnApi}
use objectbox_go.Box.Api.{BoxApi}
use objectbox_go.Tasks.{Task, TaskHeap, TaskHeapLaws}
use objectbox_go.Tasks.Kept.{TaskStoreLaws}

-- `clock` counts the seconds.
pub record World : Type 0 where
  pub tasks : ℕ → Task
  pub next_reference : ℕ
  pub stored : ℕ → Option (List ℕ)
  pub next_id : ℕ
  pub clock : ℕ

abbrev pub write : ℕ → Task → World → World
write p task w = record w { tasks = λ q. if p == q then task else w.tasks q }

abbrev pub heap : TaskHeap World
heap = record {
  read = λ p w. w.tasks p;
  write = write;
  alloc = λ task w. (
    w.next_reference,
    record (write w.next_reference task w) { next_reference = w.next_reference + 1 },
  );
}

pub heap_laws : TaskHeapLaws heap
heap_laws = record {
  read-write = λ p task w q. refl;
  read-alloc =
      λ task w. ap (λ b. if b then task else w.tasks w.next_reference) (==_refl w.next_reference);
}

abbrev pub store : ℕ → List ℕ → World → World
store id bytes w = record w { stored = λ j. if id == j then some bytes else w.stored j }

unfoldable pub give_id : ℕ → World → ℕ × World
give_id zero w = (w.next_id, record w { next_id = w.next_id + 1 })
give_id (suc id) w = (suc id, w)

unfoldable pub get_bytes : Option (List ℕ) → World → (ℕ × List ℕ) × World
get_bytes none w = ((404, []), w)
get_bytes (some bytes) w = ((0, bytes), w)

abbrev pub core : BoxApi World
core = record {
  id_for_put = give_id;
  ids_for_put = λ n w. ((0, w.next_id), record w { next_id = w.next_id + n });
  put5 = λ id bytes mode w. (0, store id bytes w);
  put_many = λ array ids mode w. (1, w);
  remove = λ id w. (0, record w { stored = λ j. if id == j then none else w.stored j });
  remove_many = λ array w. ((0, 0), w);
  remove_all = λ w. (0, record w { stored = λ j. none });
  count = λ limit w. ((0, 0), w);
  is_empty = λ w. ((0, false), w);
  contains = λ id w. ((0, is_some (w.stored id)), w);
  contains_many = λ array w. ((0, false), w);
  get = λ id w. get_bytes (w.stored id) w;
  get_many = λ array w. (none, w);
  get_all = λ w. (none, w);
  bytes_array = λ n w. (none, w);
  bytes_array_set = λ array i bytes w. (1, w);
  bytes_array_items = λ array w. [];
  bytes_array_free = λ array w. w;
  id_array = λ ids w. (none, w);
  id_array_items = λ array w. [];
  id_array_free = λ array w. w;
  rel_get_ids = λ relation source w. (none, w);
  rel_put = λ relation source id w. (1, w);
  rel_remove = λ relation source id w. (1, w);
}

abbrev pub tx : TxnApi World
tx = record {
  errors = record { last_error_message = λ w. none };
  txn_read = λ w. (some 1, w);
  txn_write = λ w. (some 1, w);
  txn_close = λ txn w. (0, w);
  txn_success = λ txn w. (0, w);
}

give_id_stored : (id : ℕ) (w : World) → (give_id id w).1.stored ≡ w.stored
unfolding give_id
give_id_stored zero w = refl
give_id_stored (suc id) w = refl

give_id_tasks : (id : ℕ) (w : World) → (give_id id w).1.tasks ≡ w.tasks
unfolding give_id
give_id_tasks zero w = refl
give_id_tasks (suc id) w = refl

pub give_id-given : (n : ℕ) (w : World) → (give_id (suc n) w).0 ≢ 0 → (give_id (suc n) w).0 ≡ suc n
unfolding give_id
give_id-given n w h = refl

pub store_laws : TaskStoreLaws heap core tx
unfolding get_bytes
store_laws = record {
  stored = λ w. w.stored;
  write_stored = λ p task w. refl;
  id_for_put_stored = give_id_stored;
  id_for_put_memory = λ id w p. ap (λ t. t p) (give_id_tasks id w);
  put5_stores = λ id bytes mode w h j. refl;
  get_stored = λ id w bytes h. ap (λ b. (get_bytes b w).0) h;
  txn_read_stored = λ w. refl;
  txn_close_memory = λ txn w p. refl;
}

-- The time of the clock, which goes on.
abbrev pub now : World → Time × World
now w = (record { seconds = pos w.clock; nanosecond = 123456789 }, record w { clock = w.clock + 1 })

abbrev pub milk : Task
milk = record {
  id = 7;
  text = b'm' ∷ b'i' ∷ b'l' ∷ b'k' ∷ [];
  date_created = record { seconds = pos 1600000000; nanosecond = 5000000 };
  date_finished = record { seconds = pos 0; nanosecond = 0 };
}

-- A world in which the reference 1 is a task that has not been put yet.
abbrev pub start : World
start = record {
  tasks = λ p. record milk { id = 0 };
  next_reference = 2;
  stored = λ id. none;
  next_id = 7;
  clock = 1700000000;
}

-- ===== src/Store/Examples.antt =====
-- A C library with one options handle, and a store whose boxes are opened once.
use objectbox_go.Base.{
  ℕ, insert, suc, ◌==◌, ◌&&◌, ◌≡◌, refl, Bool, true, false, [], ◌∷◌, none, some, if◌then◌else◌, ok,
  panic, message, message_with, pure, arith,
}
use objectbox_go.Base.Int.{pos}
use objectbox_go.Model.{Model, Entity}
use objectbox_go.Store.{StoreApi, Builder, new_builder, with_directory, build_or_error}
use objectbox_go.Store.Boxes.{BoxCalls, StoreState, box, internal_box}
use objectbox_go.Store.Cached.{at_once, internal_box_called, world_changed, internal_box-Later}
use objectbox_go.Store.Options.{OptionLaws, Ends, build_or_error-Ends}

-- Whether the options 1 are live.
abbrev library : StoreApi Bool
library = record {
  errors = record { last_error_message = λ w. none };
  opt = λ w. if w then (none, w) else (some 1, true);
  opt_free = λ options w. if options == 1 then false else w;
  opt_directory = λ options path w. (10001, w);
  opt_max_db_size_in_kb = λ options n w. w;
  opt_max_readers = λ options n w. w;
  opt_model = λ options model w. w;
  store_open = λ options w. (some 9, if options == 1 then false else w);
}

none_law :
    (w : Bool) → (library.opt w).0 ≡ none → (k : ℕ) → (library.opt w).1 && k == 1 ≡ w && k == 1
none_law true h k = refl
none_law false h k = cc

some_law :
    (w : Bool) (options : ℕ)
    → (library.opt w).0 ≡ some options
    → (w && options == 1 ≡ false)
      × ((k : ℕ) → (library.opt w).1 && k == 1 ≡ (if options == k then true else w && k == 1))
some_law true options h = cc
some_law false options h = let one : 1 ≡ options = cc in (refl, λ k. ground (arith, one))

freed :
    (options : ℕ) (w : Bool) (k : ℕ)
    → ((if options == 1 then false else w) && k == 1)
      ≡ (if options == k then false else w && k == 1)
freed options w k = ground arith

abbrev library_laws : OptionLaws library
library_laws = record {
  live = λ w k. w && k == 1;
  opt_none = none_law;
  opt_some = some_law;
  free = freed;
  open_store = freed;
  directory = λ options path w k. refl;
  max_size = λ options n w k. refl;
  max_readers = λ options n w k. refl;
  model = λ options m w k. refl;
}

abbrev task : Entity
task = record { id = 1; name = "Task"; binding = some 1; has_relations = false }

abbrev schema : Model
schema = record {
  c_model = some 4;
  error = none;
  current = none;
  by_id = (1, task) ∷ [];
  by_name = ("Task", task) ∷ [];
  last_entity = (1, 1);
  last_index = (0, 0);
  last_relation = (0, 0);
  generator = 6;
}

abbrev plain : Builder
plain = record {
  model = some schema;
  error = none;
  directory = none;
  max_size_in_kb = some 1024;
  max_readers = none;
  async_timeout = 1000;
}

too_old :
    new_builder (record { major = pos 0; minor = pos 20; patch = pos 0; label = "" })
    ≡ panic (message "The loaded ObjectBox C library is too old for this build of ObjectBox Go.")
unfolding new_builder
too_old = refl

-- A patch number hides that the minor version is too old.
accepted :
    new_builder (record { major = pos 0; minor = pos 20; patch = pos 5; label = "" })
    ≡ new_builder (record { major = pos 0; minor = pos 21; patch = pos 0; label = "" })
unfolding new_builder
accepted = refl

-- The directory is refused, and the options are freed.
refused : (build_or_error library (with_directory "/nowhere" plain) false).1 ≡ false
unfolding build_or_error with_directory
refused = refl

build_or_error-Ends_example :
    Ends plain (build_or_error library plain false).0
    × ((k : ℕ) → (build_or_error library plain false).1 && k == 1 ≡ false && k == 1)
build_or_error-Ends_example = build_or_error-Ends library library_laws plain false

-- Each opened box has the next number.
abbrev calls : BoxCalls ℕ
calls = record {
  errors = record { last_error_message = λ w. none };
  box = λ store entity w. (some w, suc w);
  async = λ c_box w. (some w, suc w);
  debug_flags = λ store flags w. (0, w);
  await_async_completion = λ store w. (true, w);
}

abbrev before : StoreState ℕ
before = record {
  object_box = record {
    store = some 9;
    entities_by_id = (1, task) ∷ [];
    entities_by_name = ("Task", task) ∷ [];
    boxes = [];
    async_timeout = 1000;
  };
  world = 5;
}

opened_once :
    box calls 1 (box calls 1 before).1
    ≡ pure (record { entity = task; c_box = 5; c_async = 6 }) (box calls 1 before).1
unfolding box insert
opened_once = refl

no_entity :
    (internal_box calls 2 before).0
    ≡ panic (message_with "Configuration error; no entity registered for entity ID " 2)
unfolding internal_box
no_entity = refl

-- After the box of the tasks, one without an entity is asked for, and the world changes.
abbrev opened_box : StoreState ℕ
opened_box = (internal_box calls 1 before).1

abbrev much_later : StoreState ℕ
much_later = record (internal_box calls 2 opened_box).1 { world = 50 }

internal_box-Later_example :
    internal_box calls 1 much_later
    ≡ (ok (record { entity = task; c_box = 5; c_async = 6 }), much_later)
unfolding internal_box
internal_box-Later_example =
    internal_box-Later calls 1 before much_later refl
      (world_changed 50 (internal_box_called 2 at_once refl))

-- ===== src/AsyncBox/Examples.antt =====
-- Asynchronous operations on the store in memory.
use objectbox_go.Base.{◌≡◌, refl, [], ◌∷◌, true, some, err, message, pure}
use objectbox_go.Box.Examples.Memory.{World, people, tx, start, give_id, set_id, store}
use objectbox_go.AsyncBox.{AsyncApi, AsyncBox, AsyncState, async_put, async_update, close_async}

abbrev api : AsyncApi World
api = record {
  close = λ pointer w. (0, w);
  put5 = λ pointer id bytes mode w. (0, store id bytes w);
  remove = λ pointer id w. (0, w);
  await_async_completion = λ w. (true, w);
  await_async_submitted = λ w. (true, w);
}

abbrev owned : AsyncBox
owned = record { c_async = some 3; c_owned = true }

-- An update of the object 3, which has no identifier, stores it under a new one.
updated_new : (async_update tx people api owned 3 start).1.stored 20 ≡ some (20 ∷ 3 ∷ [])
unfolding async_update give_id set_id store
updated_new = refl

with_relations :
    (async_put tx (record people { has_relations = true }) api owned 1 start).0
    ≡ err (
        message
          "asynchronous Put/Insert/Update is currently not supported on entities that have relations because it could result in partial inserts/broken relations")
unfolding async_put
with_relations = refl

abbrev open_box : AsyncState World
open_box = record { async_box = owned; world = start }

-- A second Close does nothing.
closed_once :
    close_async tx people api (close_async tx people api open_box).1
    ≡ pure tt (close_async tx people api open_box).1
unfolding close_async
closed_once = refl

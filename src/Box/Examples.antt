-- ===== src/Box/Examples.antt =====
-- The operations of objectbox/box.go on the objects of a small store.
pub mod Memory
mod Relations
mod Visiting
use objectbox_go.Base.{
  ℕ, zero, suc, ◌+◌, ◌≡◌, ◌<◌, ◌≤◌, refl, ◌==◌, Option, none, some, Bool, true, false, List, [],
  ◌∷◌, ◌++◌, if◌then◌else◌, ok, err, message, arith, length, take, get_elem?,
}
use mathlib.Core.Option
use mathlib.Core.List.{foldl}
use objectbox_go.Box.Api.{put, update}
use objectbox_go.Box.{
  put_object, reserved, choose_id, write_object, update_id, put_one, put_bytes, with_object_bytes,
  id_for_put,
}
use objectbox_go.Box.Batch.{
  chunk, chunk_count, chunk_size, put_many_objects, put_many, read_ids, count_new, ids_for_put,
  assign_ids, ids_of, put_assigned, flatten_all, go_bytes_array_to_c,
}
use objectbox_go.Box.Chunks.{joined_chunks, chunks_cover}
use objectbox_go.Box.Reserved.{given, put_many_objects_ids}
use objectbox_go.Box.Complete.{length-put_many}
use objectbox_go.Box.Storing.{StoreLaws, Stores, put_object-Stores, update_without_id}
use objectbox_go.Box.Reads.{read_items}
use objectbox_go.Box.Loaded.{Loads, kept, read_items_Loads}
use objectbox_go.Box.Examples.Memory.{World, people, tx, start, store, give_id, set_id, loaded}

give_id_keeps : (id : ℕ) (w : World) → (give_id id w).1.stored ≡ w.stored
unfolding give_id
give_id_keeps zero w = refl
give_id_keeps (suc id) w = refl

laws : StoreLaws people
unfolding set_id store
laws = record {
  stored = λ w. w.stored;
  get_id_keeps = λ o w. refl;
  set_id_keeps = λ o id w. refl;
  flatten_keeps = λ o id w. refl;
  id_for_put_keeps = give_id_keeps;
  put5_stores = λ id bytes mode w h j. refl;
}

-- The object 3 is new and gets the identifier 20.
put_new : (put_object tx people 3 false put start).0 ≡ ok 20
unfolding put_object give_id set_id
put_new = refl

put_object-Stores_example :
    Stores tx people laws 3 20 start (put_object tx people 3 false put start).1
put_object-Stores_example = put_object-Stores tx people laws refl 3 false put start put_new

abbrev batch : List ℕ
batch = 3 ∷ 1 ∷ 4 ∷ []

abbrev given_ids : List ℕ
given_ids = 20 ∷ 11 ∷ 21 ∷ []

batch_ids : (put_many_objects tx people 0 batch start).0 ≡ ok given_ids
unfolding put_many_objects set_id
batch_ids = refl

put_many_objects_ids_example :
    (entries : List (ℕ × ℕ)) × (first : ℕ) × ((read_ids tx people batch start).0 ≡ ok entries)
    × ((ids_for_put tx people (count_new entries) (read_ids tx people batch start).1).0 ≡ ok first)
    × (length given_ids ≡ length batch)
    × ((k : ℕ)
        → get_elem? given_ids k
          ≡ Option.map (λ e. given first (count_new (take k entries)) e.1) (get_elem? entries k))
put_many_objects_ids_example = put_many_objects_ids tx people 0 batch start batch_ids

all_ids : (put_many tx people true batch start).0 ≡ ok given_ids
unfolding put_many set_id
all_ids = refl

length-put_many_example : length given_ids ≡ length batch
length-put_many_example = length-put_many tx people true batch start all_ids

abbrev three : List ℕ
three = 5 ∷ 6 ∷ 7 ∷ []

chunks_cover_example :
    (joined_chunks 1 0 three ≡ three)
    × ((c : ℕ)
        → c < chunk_count 3
        → (0 < length (chunk c three)) × (length (chunk c three) ≤ chunk_size))
unfolding chunk_count
chunks_cover_example = chunks_cover three

read :
    (read_items tx people false [] (some (11 ∷ 1 ∷ []) ∷ none ∷ []) start).0
    ≡ ok (some 1 ∷ none ∷ [])
unfolding read_items loaded
read = refl

read_items_Loads_example :
    (objects : List (Option ℕ)) × Loads tx people (some (11 ∷ 1 ∷ []) ∷ none ∷ []) objects
    × (some 1 ∷ none ∷ [] ≡ foldl people.binding.append_to_slice [] (kept false objects))
read_items_Loads_example =
    read_items_Loads tx people false [] (some (11 ∷ 1 ∷ []) ∷ none ∷ []) start read

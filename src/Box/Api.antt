-- ===== src/Box/Api.antt =====
-- What the operations of a box stand on: the generated binding of the entity (the interface
-- `ObjectBinding` of objectbox/model.go) and the C functions on the box.
use objectbox_go.Base.{ℕ, Bool, Option, List, Exec}

-- cPutModePut, cPutModeInsert, cPutModeUpdate, cPutModePutIdGuaranteedToBeNew
pub data PutMode : Type 0 where
  put insert update put_id_guaranteed_to_be_new : PutMode

-- `flatten` is Flatten with the bytes of the finished builder.
pub record Binding (W O S : Type 0) : Type 0 where
  pub get_id : O → Exec W ℕ
  pub set_id : O → ℕ → Exec W Unit
  pub put_related : O → ℕ → Exec W Unit
  pub flatten : O → ℕ → Exec W (List ℕ)
  pub load : List ℕ → Exec W O
  pub make_slice : ℕ → S
  pub append_to_slice : S → Option O → S

-- The functions obx_box_*, on the C box. A function with an out-parameter gives back the result code
-- with the value of that parameter; arrays are handles, and a null pointer is none.
pub record BoxApi (W : Type 0) : Type 0 where
  pub id_for_put : ℕ → W → ℕ × W
  pub ids_for_put : ℕ → W → (ℕ × ℕ) × W
  pub put5 : ℕ → List ℕ → PutMode → W → ℕ × W
  pub put_many : ℕ → List ℕ → PutMode → W → ℕ × W
  pub remove : ℕ → W → ℕ × W
  pub remove_many : ℕ → W → (ℕ × ℕ) × W
  pub remove_all : W → ℕ × W
  pub count : ℕ → W → (ℕ × ℕ) × W
  pub is_empty : W → (ℕ × Bool) × W
  pub contains : ℕ → W → (ℕ × Bool) × W
  pub contains_many : ℕ → W → (ℕ × Bool) × W
  pub get : ℕ → W → (ℕ × List ℕ) × W
  pub get_many : ℕ → W → Option ℕ × W
  pub get_all : W → Option ℕ × W
  pub bytes_array : ℕ → W → Option ℕ × W
  pub bytes_array_set : ℕ → ℕ → List ℕ → W → ℕ × W
  pub bytes_array_items : ℕ → W → List (Option (List ℕ))
  pub bytes_array_free : ℕ → W → W
  pub id_array : List ℕ → W → Option ℕ × W
  pub id_array_items : ℕ → W → List ℕ
  pub id_array_free : ℕ → W → W
  pub rel_get_ids : ℕ → ℕ → W → Option ℕ × W
  pub rel_put : ℕ → ℕ → ℕ → W → ℕ × W
  pub rel_remove : ℕ → ℕ → ℕ → W → ℕ × W

pub record Box (W O S : Type 0) : Type 0 where
  pub has_relations : Bool
  pub binding : Binding W O S
  pub core : BoxApi W

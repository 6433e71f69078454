-- ===== src/Query/Api.antt =====
-- The C functions on a query, and the arguments of those that set its parameters.
use objectbox_go.Base.{ℕ, Option, List, String}
use objectbox_go.Base.Int.{ℤ}

-- propertyOrAlias: an alias, or a property by its entity and its identifier.
pub data Identifier : Type 0 where
  alias : String → Identifier
  property : ℕ → ℕ → Identifier

-- The functions obx_query_param_* and obx_query_param_alias_*, by what they set.
pub data Parameter (F : Type 0) : Type 0 where
  one_string : String → Parameter F
  strings : List String → Parameter F
  one_int : ℤ → Parameter F
  two_ints : ℤ → ℤ → Parameter F
  int64s int32s : List ℤ → Parameter F
  one_double : F → Parameter F
  two_doubles : F → F → Parameter F
  bytes : List ℕ → Parameter F

pub record QueryCalls (W F : Type 0) : Type 0 where
  pub close : ℕ → W → ℕ × W
  pub offset : Option ℕ → ℕ → W → ℕ × W
  pub limit : Option ℕ → ℕ → W → ℕ × W
  pub find : Option ℕ → W → Option ℕ × W
  pub find_ids : Option ℕ → W → Option ℕ × W
  pub count : Option ℕ → W → (ℕ × ℕ) × W
  pub remove : Option ℕ → W → (ℕ × ℕ) × W
  pub param : Option ℕ → Identifier → Parameter F → W → ℕ × W

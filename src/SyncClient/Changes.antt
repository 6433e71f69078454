-- ===== src/SyncClient/Changes.antt =====
-- objectbox/sync-client.go: the changes that the C library hands to a listener.
use objectbox_go.Base.{ℕ, zero, suc, ◌+◌, ◌*◌, List, [], ◌∷◌, Option, none, some}
use objectbox_go.Native.Arrays.{Memory, CArray, ids_to_go}

-- An OBX_sync_change; an array of identifiers that is none is a null pointer.
pub record CSyncChange : Type 0 where
  pub entity_id : ℕ
  pub puts : Option CArray
  pub removals : Option CArray

-- How the C library lays these structures out: an OBX_sync_change_array as its list and count, and
-- the size of an OBX_sync_change and its fields, at an address.
pub record ChangeLayout : Type 0 where
  pub change_array : Memory → ℕ → CArray
  pub change : Memory → ℕ → CSyncChange
  pub change_size : ℕ

pub record SyncChange : Type 0 where
  pub entity_id : ℕ
  pub puts : List ℕ
  pub removals : List ℕ

-- A nil slice is empty.
ids_or_nil : Memory → Option CArray → List ℕ
unfolding ids_to_go
ids_or_nil memory none = []
ids_or_nil memory (some ids) = ids_to_go memory ids

change_to_go : Memory → CSyncChange → SyncChange
unfolding ids_or_nil
change_to_go memory c = record {
  entity_id = c.entity_id;
  puts = ids_or_nil memory c.puts;
  removals = ids_or_nil memory c.removals;
}

-- The loop of cSyncChangeArrayToGo from the i-th change on.
unfoldable pub changes_from : ChangeLayout → Memory → ℕ → ℕ → ℕ → List SyncChange
unfolding change_to_go
changes_from layout memory start i zero = []
changes_from layout memory start i (suc n) =
    change_to_go memory (layout.change memory (start + i * layout.change_size))
    ∷ changes_from layout memory start (suc i) n

unfoldable pub sync_change_array_to_go : ChangeLayout → Memory → ℕ → List SyncChange
unfolding changes_from
sync_change_array_to_go layout memory address =
    let array = layout.change_array memory address in
    changes_from layout memory array.start 0 array.count

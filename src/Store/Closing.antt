-- ===== src/Store/Closing.antt =====
-- objectbox/objectbox.go: closing a store with its sync client.
use objectbox_go.Base.{ℕ, Option, none, some, if◌then◌else◌, Exec, pure, fail, message}
use objectbox_go.Store.{ObjectBox}
use objectbox_go.SyncClient.{SyncApi, SyncClient, SyncState, close}

-- A store, and its sync client with what is around that; the client counts if the store has one.
pub record OpenStore (W V : Type 0) : Type 0 where
  pub object_box : ObjectBox
  pub sync : SyncState W V

module _ {W V : Type 0} (sync_api : SyncApi W) (store_close : ℕ → W → W) where
  close_client : SyncState W V → SyncState W V
  unfolding close
  close_client s = if s.store.has_client then (close sync_api s).1 else s

  close_pointer : Option ℕ → SyncState W V → SyncState W V
  close_pointer none s = s
  close_pointer (some store) s = record s {
    store = record s.store { world = store_close store s.store.world };
  }

  -- Close; an error of the client is ignored.
  unfoldable pub close_store : OpenStore W V → OpenStore W V
  unfolding close_client close_pointer
  close_store s = record {
    object_box = record s.object_box { store = none };
    sync = close_pointer s.object_box.store (close_client s.sync);
  }

-- SyncClient
unfoldable pub sync_client : {W V : Type 0} → Exec (SyncState W V) SyncClient
sync_client s =
    if s.store.has_client
    then pure s.client s
    else fail
        (message
          "this store doesn't have a SyncClient associated, use NewSyncClient() to create one")
        s

-- ===== src/SyncClient/Open.antt =====
-- objectbox/sync-client.go: making a client, and objectbox/objectbox.go: finding it.
use objectbox_go.Base.{
  ℕ, true, false, Option, none, some, if◌then◌else◌, Outcome, ok, err, panic, message, GoError,
  String,
}
use objectbox_go.Native.{create_error}
use objectbox_go.SyncClient.{
  SyncApi, SyncClient, SyncStore, SyncState, SyncCredentials, close, set_credentials,
}

abbrev pub one_client : GoError
one_client =
    message
      "only one sync client can be active for a store, use ObjectBox.SyncClient() to access it"

-- The client pointer and the error that NewSyncClient returns, none for nil.
abbrev pub Made : Type 0
Made = Option SyncClient × Option GoError

abbrev pub new_client : Option ℕ → SyncClient
new_client pointer = record { c_client = pointer; started = false; c_callbacks = λ i. 0 }

module _ {W V : Type 0} (api : SyncApi W) where
  -- The deferred function: what it assigns to `client` and to `err` is not what is returned, since the
  -- results of NewSyncClient have no names.
  unfoldable pub close_failed : GoError → SyncState W V → Made × SyncStore W V
  unfolding close
  close_failed e s = let (r, s') = close api s in ((some s'.client, some e), s'.store)

  unfoldable pub with_credentials : Outcome (Unit {0}) × SyncState W V → Made × SyncStore W V
  unfolding close_failed
  with_credentials (ok u, s) = ((some s.client, none), record s.store { has_client = true })
  with_credentials (err e, s) = close_failed e s
  with_credentials (panic e, s) = ((none, some e), s.store)

  unfoldable pub created :
      Option SyncCredentials → SyncStore W V → Option ℕ × W → Made × SyncStore W V
  unfolding close_failed with_credentials set_credentials
  created c store (none, w) =
      close_failed (create_error api.errors w)
        (record { client = new_client none; store = record store { world = w } })
  created c store (some pointer, w) = with_credentials (
      set_credentials api c
        (record { client = new_client (some pointer); store = record store { world = w } }))

  -- NewSyncClient
  unfoldable pub new_sync_client :
      String → Option SyncCredentials → SyncStore W V → Made × SyncStore W V
  unfolding created
  new_sync_client server_uri c store =
      if store.has_client
      then ((none, some one_client), store)
      else created c store (api.sync server_uri store.world)

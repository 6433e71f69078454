-- ===== src/SyncClient/Listeners.antt =====
-- objectbox/sync-client.go: setting and removing the listeners of a client.
use objectbox_go.Base.{
  ℕ, ◌==◌, List, Option, none, some, if◌then◌else◌, converted, Outcome, ok, err, panic, Exec, pure,
  fail, panics,
}
use objectbox_go.Base.Int.{ℤ, quot, rem}
use objectbox_go.Callbacks.{
  Callable, void_callback, void_uint64_callback, void_int64_callback, void_const_void_callback,
  Registry, register, unregister,
}
use objectbox_go.Converters.{Time, unix, ns_in_sec}
use objectbox_go.Native.Arrays.{Memory}
use objectbox_go.SyncClient.{SyncApi, SyncState}
use objectbox_go.SyncClient.Changes.{ChangeLayout, SyncChange, sync_change_array_to_go}

-- The constants cCallbackIndex*
abbrev pub connection_index : ℕ
connection_index = 0

abbrev pub disconnection_index : ℕ
disconnection_index = 1

abbrev pub login_index : ℕ
login_index = 2

abbrev pub login_failure_index : ℕ
login_failure_index = 3

abbrev pub completion_index : ℕ
completion_index = 4

abbrev pub change_index : ℕ
change_index = 5

abbrev pub server_time_index : ℕ
server_time_index = 6

-- An array with one entry replaced.
abbrev pub set_at : ℕ → ℕ → (ℕ → ℕ) → ℕ → ℕ
set_at index id ids i = if index == i then id else ids i

module _ {W V : Type 0} (api : SyncApi W) where
  -- obx_sync_listener_* with a callback number, or with null pointers.
  abbrev pub tell : ℕ → Option ℕ → SyncState W V → SyncState W V
  tell index id s = record s {
    store = record s.store { world = api.listener index s.client.c_client id s.store.world };
  }

  -- swapCallbackId
  unfoldable pub swap_callback_id : ℕ → ℕ → SyncState W V → SyncState W V
  unfolding unregister
  swap_callback_id index id s = record {
    client = record s.client { c_callbacks = set_at index id s.client.c_callbacks };
    store = record s.store { registry = unregister (s.client.c_callbacks index) s.store.registry };
  }

  unfoldable pub registered : ℕ → Outcome ℕ × Registry V → Exec (SyncState W V) Unit
  unfolding swap_callback_id
  registered index (ok id, r) s = pure tt (
      swap_callback_id index id
        (tell index (some id) (record s { store = record s.store { registry = r } })))
  registered index (err e, r) s = fail e (record s { store = record s.store { registry = r } })
  registered index (panic e, r) s = panics e (record s { store = record s.store { registry = r } })

  -- What the seven functions do with the function that they register; with nil, the number stays in
  -- `cCallbacks`.
  unfoldable pub set_listener : ℕ → Option (Callable V) → Exec (SyncState W V) Unit
  unfolding unregister registered register
  set_listener index none s =
      let s' = tell index none s in
      pure tt (record s' {
        store = record s'.store {
          registry = unregister (s'.client.c_callbacks index) s'.store.registry;
        };
      })
  set_listener index (some fn) s = registered index (register fn s.store.registry) s

  unfoldable pub set_connection_listener : Option (V → V) → Exec (SyncState W V) Unit
  unfolding set_listener
  set_connection_listener callback =
      set_listener connection_index (converted void_callback callback)

  unfoldable pub set_disconnection_listener : Option (V → V) → Exec (SyncState W V) Unit
  unfolding set_listener
  set_disconnection_listener callback =
      set_listener disconnection_index (converted void_callback callback)

  unfoldable pub set_login_listener : Option (V → V) → Exec (SyncState W V) Unit
  unfolding set_listener
  set_login_listener callback = set_listener login_index (converted void_callback callback)

  unfoldable pub set_login_failure_listener : Option (ℕ → V → V) → Exec (SyncState W V) Unit
  unfolding set_listener
  set_login_failure_listener callback =
      set_listener login_failure_index (converted void_uint64_callback callback)

  unfoldable pub set_completion_listener : Option (V → V) → Exec (SyncState W V) Unit
  unfolding set_listener
  set_completion_listener callback =
      set_listener completion_index (converted void_callback callback)

  -- The callback of the C library gets a time in nanoseconds.
  abbrev pub at_time : (Time → V → V) → ℤ → V → V
  at_time callback timestamp_ns =
      callback (unix (quot timestamp_ns ns_in_sec) (rem timestamp_ns ns_in_sec))

  unfoldable pub set_server_time_listener : Option (Time → V → V) → Exec (SyncState W V) Unit
  unfolding set_listener unix quot rem
  set_server_time_listener callback =
      set_listener server_time_index (converted (λ fn. void_int64_callback (at_time fn)) callback)

  -- The changes are read from the memory when the C library calls.
  unfoldable pub set_change_listener :
      ChangeLayout → (V → Memory) → Option (List SyncChange → V → V) → Exec (SyncState W V) Unit
  unfolding set_listener sync_change_array_to_go
  set_change_listener layout memory callback = set_listener change_index (
      converted
        (λ fn.
          void_const_void_callback
            (λ list v. fn (sync_change_array_to_go layout (memory v) list) v))
        callback)

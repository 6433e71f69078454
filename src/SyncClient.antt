-- ===== src/SyncClient.antt =====
-- objectbox/sync.go and objectbox/sync-client.go: the client that synchronises a store with a server.
-- `W` is the state of the world, the C library's included, and `V` the state that the listeners
-- change. The C library's functions for the store of the client are parameters; texts that are
-- allocated for a call and freed after it are not modelled.
pub mod Open
pub mod Listeners
pub mod Changes
pub mod Swapped
pub mod Numbers
pub mod Closed
pub mod Opened
pub mod Examples
use objectbox_go.Base.{
  ℕ, zero, suc, ◌==◌, Bool, true, false, List, [], ◌∷◌, length, Option, none, some, if◌then◌else◌,
  Outcome, ok, err, panic, Exec, pure, fail, message, message_with_int, ◌>>=◌, GoError, String, ltb,
}
use objectbox_go.Base.Int.{ℤ, pos, negsuc, quot, ltb_ℤ, neg_part, pos_part}
use objectbox_go.Callbacks.{Registry, unregister}
use objectbox_go.Native.{Errors, create_error, c_call}

-- The functions obx_sync_*. A client or a callback number that is none is a null pointer. `listener`
-- is the function obx_sync_listener_* of the given index of `cCallbacks`.
pub record SyncApi (W : Type 0) : Type 0 where
  pub errors : Errors W
  pub has_sync : Bool
  pub sync : String → W → Option ℕ × W
  pub close : Option ℕ → W → ℕ × W
  pub credentials : Option ℕ → ℕ → Option (List ℕ) → ℕ → W → ℕ × W
  pub request_updates_mode : Option ℕ → ℕ → W → ℕ × W
  pub state : Option ℕ → W → ℕ
  pub start : Option ℕ → W → ℕ × W
  pub stop : Option ℕ → W → ℕ × W
  pub wait_for_logged_in_state : Option ℕ → ℕ → W → ℕ × W
  pub updates_request : Option ℕ → Bool → W → ℕ × W
  pub updates_cancel : Option ℕ → W → ℕ × W
  pub listener : ℕ → Option ℕ → Option ℕ → W → W

-- A client; `c_callbacks` is the array of seven callback numbers.
pub record SyncClient : Type 0 where
  pub c_client : Option ℕ
  pub started : Bool
  pub c_callbacks : ℕ → ℕ

-- What is around a client: whether `ObjectBox.syncClient` is set, the registry of callbacks and the
-- world.
pub record SyncStore (W V : Type 0) : Type 0 where
  pub has_client : Bool
  pub registry : Registry V
  pub world : W

pub record SyncState (W V : Type 0) : Type 0 where
  pub client : SyncClient
  pub store : SyncStore W V

pub record SyncCredentials : Type 0 where
  pub c_type : ℕ
  pub data_bytes : List ℕ

-- The constants OBXSyncCredentialsType_*
abbrev pub credentials_none : SyncCredentials
credentials_none = record { c_type = 1; data_bytes = [] }

abbrev pub credentials_shared_secret : List ℕ → SyncCredentials
credentials_shared_secret data_bytes = record { c_type = 2; data_bytes = data_bytes }

abbrev pub credentials_google_auth : List ℕ → SyncCredentials
credentials_google_auth data_bytes = record { c_type = 3; data_bytes = data_bytes }

-- The loop over `cCallbacks` from the i-th on.
unfoldable pub unregister_from : {V : Type 0} → (ℕ → ℕ) → ℕ → ℕ → Registry V → Registry V
unfolding unregister
unregister_from c_callbacks i zero r = r
unregister_from c_callbacks i (suc n) r =
    unregister_from c_callbacks (suc i) n (unregister (c_callbacks i) r)

abbrev pub obx_success : ℕ
obx_success = 0

abbrev pub obx_no_success : ℕ
obx_no_success = 1001

abbrev pub obx_timeout : ℕ
obx_timeout = 1002

-- &credentials.data[0], or a null pointer.
abbrev pub data_pointer : List ℕ → Option (List ℕ)
data_pointer [] = none
data_pointer (b ∷ data_bytes) = some (b ∷ data_bytes)

unfoldable pub sync_is_available : {W : Type 0} → SyncApi W → Bool
sync_is_available api = api.has_sync

unfoldable pub is_closed : SyncClient → Bool
is_closed client = elim client.c_client [ none ↦ true | some pointer ↦ false ]

module _ {W V : Type 0} (api : SyncApi W) where
  open api use {errors}

  -- A call of the C library that changes the world alone.
  call_world : (W → ℕ × W) → Exec (SyncState W V) Unit
  unfolding c_call
  call_world fn s =
      let (r, w) = c_call errors fn s.store.world in
      (r, record s { store = record s.store { world = w } })

  -- Close; the C client is forgotten even if obx_sync_close fails.
  close_pointer : Option ℕ → Exec (SyncState W V) Unit
  unfolding unregister_from c_call
  close_pointer none s = pure tt s
  close_pointer (some pointer) s =
      let (r, w) = c_call errors (api.close (some pointer)) s.store.world in
      (
        r,
        record {
          client = record s.client { c_client = none };
          store = record {
            has_client = false;
            registry = unregister_from s.client.c_callbacks 0 7 s.store.registry;
            world = w;
          };
        },
      )

  unfoldable pub close : Exec (SyncState W V) Unit
  unfolding close_pointer
  close s = close_pointer s.client.c_client s

  unfoldable pub set_credentials : Option SyncCredentials → Exec (SyncState W V) Unit
  unfolding call_world
  set_credentials none s = fail (message "credentials must not be nil") s
  set_credentials (some c) s =
      call_world
        (api.credentials s.client.c_client c.c_type (data_pointer c.data_bytes)
          (length c.data_bytes))
        s

  unfoldable pub set_request_updates_mode : ℕ → Exec (SyncState W V) Unit
  unfolding call_world
  set_request_updates_mode mode s = call_world (api.request_updates_mode s.client.c_client mode) s

  unfoldable pub state : SyncState W V → ℕ
  state s = api.state s.client.c_client s.store.world

  unfoldable pub start : Exec (SyncState W V) Unit
  unfolding call_world
  start s =
      call_world (api.start s.client.c_client)
        (record s { client = record s.client { started = true } })

  unfoldable pub stop : Exec (SyncState W V) Unit
  unfolding call_world
  stop s =
      let (r, s') = call_world (api.stop s.client.c_client) s in
      (r, record s' { client = record s'.client { started = false } })

  -- The answer of WaitForLogin to a code.
  unfoldable pub login_result : ℕ → Exec (SyncState W V) Bool
  unfolding create_error
  login_result code s =
      if code == obx_success
      then pure true s
      else if code == obx_timeout
      then pure false s
      else if code == obx_no_success
      then fail
          (message
            "a state unlikely to lead to a successful login was encountered, this usually indicates an issue with credentials (not set yet, wrong credentials)")
          s
      else fail (create_error errors s.store.world) s

  -- The time is in nanoseconds, an int64.
  unfoldable pub wait_in_state : ℤ → Exec (SyncState W V) Bool
  unfolding login_result quot
  wait_in_state timeout s =
      let timeout_ms = quot (quot timeout 1000) 1000 in
      if ltb_ℤ timeout_ms (pos 0)
      then fail (message_with_int "timeout must be >= 1 millisecond, %d given" timeout_ms) s
      else let (code, w) =
          api.wait_for_logged_in_state s.client.c_client (pos_part timeout_ms) s.store.world in
        login_result code (record s { store = record s.store { world = w } })

  -- WaitForLogin
  unfoldable pub wait_for_login : ℤ → Exec (SyncState W V) Bool
  unfolding start wait_in_state
  wait_for_login timeout s =
      if s.client.started then wait_in_state timeout s else (start >>= λ _. wait_in_state timeout) s

  unfoldable pub request_updates : Bool → Exec (SyncState W V) Unit
  unfolding call_world
  request_updates also_subscribe s =
      call_world (api.updates_request s.client.c_client also_subscribe) s

  unfoldable pub cancel_updates : Exec (SyncState W V) Unit
  unfolding call_world
  cancel_updates s = call_world (api.updates_cancel s.client.c_client) s

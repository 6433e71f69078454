-- ===== src/SyncClient/Opened.antt =====
-- objectbox/sync-client.go: what making a client ends with.
use objectbox_go.Base.{
  ℕ, zero, suc, ◌≡◌, ◌<◌, ◌^◌, arith, refl, ◌⊎◌, inl, inr, true, false, Option, none, some, nonzero,
  if◌then◌else◌, GoError, String, subst, sym, ok, err, ap, Outcome, length, message,
}
use objectbox_go.Callbacks.{Registry}
use objectbox_go.Native.{create_error}
use objectbox_go.Native.Calls.{c_call-outcome}
use objectbox_go.SyncClient.{
  SyncApi, SyncClient, SyncStore, SyncCredentials, set_credentials, close, call_world, data_pointer,
  close_pointer,
}
use objectbox_go.SyncClient.Swapped.{IsLive}
use objectbox_go.SyncClient.Open.{
  Made, new_client, close_failed, with_credentials, created, new_sync_client, one_client,
}

-- An error, with a client that is closed; the store has no client, and the registry is as before.
pub record Failed {W V : Type 0} (before : Registry V) (r : Made × SyncStore W V) : Type 0 where
  pub client : SyncClient
  pub error : GoError
  pub returned : r.0 ≡ (some client, some error)
  pub closed : client.c_client ≡ none
  pub store_free : r.1.has_client ≡ false
  pub registry : r.1.registry ≡ before

-- A client of the C library's that is not started and has no listeners; the store has a client.
pub record Opened {W V : Type 0} (before : Registry V) (pointer : ℕ) (r : Made × SyncStore W V)
    : Type 0 where
  pub returned : r.0 ≡ (some (new_client (some pointer)), none)
  pub store_taken : r.1.has_client ≡ true
  pub registry : r.1.registry ≡ before

-- The numbers of a new client are registered and distinct, as it has none.
pub new_client-IsLive :
    {V : Type 0} (pointer : Option ℕ) (r : Registry V)
    → r.last_id < 2 ^ 32
    → IsLive (new_client pointer).c_callbacks r
new_client-IsLive pointer r h = record {
  last = h;
  number = λ i b. omega arith;
  taken = λ i b none_taken. absurd (none_taken refl);
  distinct = λ i j b c d none_taken. absurd (none_taken refl);
}

module _ {W V : Type 0} (api : SyncApi W) where
  open api use {errors}

  close_failed-Failed :
      (e : GoError) (pointer : Option ℕ) (store : SyncStore W V)
      → store.has_client ≡ false
      → Failed store.registry
          (close_failed api e (record { client = new_client pointer; store = store }))
  unfolding close_failed close close_pointer
  close_failed-Failed e none store h = record {
    client = new_client none;
    error = e;
    returned = refl;
    closed = refl;
    store_free = h;
    registry = refl;
  }
  close_failed-Failed e (some pointer) store h = record {
    client = new_client none;
    error = e;
    returned = refl;
    closed = refl;
    store_free = refl;
    registry = refl;
  }

  abbrev made_with : ℕ → SyncStore W V → ℕ → W → Made × SyncStore W V
  made_with pointer store rc w = with_credentials api (
    if nonzero rc then err (create_error errors w) else ok tt,
    record { client = new_client (some pointer); store = record store { world = w } },
  )

  -- After obx_sync_credentials returned `rc` in the world `w`.
  answered :
      (pointer : ℕ) (store : SyncStore W V) (rc : ℕ) (w : W)
      → store.has_client ≡ false
      → Failed store.registry (made_with pointer store rc w)
        ⊎ Opened store.registry pointer (made_with pointer store rc w)
  unfolding with_credentials
  answered pointer store zero w h =
      inr (record { returned = refl; store_taken = refl; registry = refl })
  answered pointer store (suc rc) w h =
      inl
        (close_failed-Failed (create_error errors w) (some pointer) (record store { world = w }) h)

  -- set_credentials in terms of the code and the world that obx_sync_credentials returned.
  created-made_with :
      (c : SyncCredentials) (store : SyncStore W V) (pointer : ℕ) (w : W)
      → let r =
          api.credentials
            (some pointer)
            c.c_type
            (data_pointer c.data_bytes)
            (length c.data_bytes)
            w in
        created api (some c) store (some pointer, w) ≡ made_with pointer store r.0 r.1
  unfolding created set_credentials call_world
  created-made_with c store pointer w =
      ap
        (λ (r : Outcome (Unit {0}) × W). with_credentials api (
          r.0,
          record { client = new_client (some pointer); store = record store { world = r.1 } },
        ))
        (c_call-outcome errors
          (api.credentials (some pointer) c.c_type (data_pointer c.data_bytes)
            (length c.data_bytes))
          w)

  created-Opened :
      (c : Option SyncCredentials) (store : SyncStore W V) (pointer : ℕ) (w : W)
      → store.has_client ≡ false
      → Failed store.registry (created api c store (some pointer, w))
        ⊎ Opened store.registry pointer (created api c store (some pointer, w))
  unfolding created set_credentials with_credentials
  created-Opened none store pointer w h = inl (
      close_failed-Failed (message "credentials must not be nil") (some pointer)
        (record store { world = w }) h)
  created-Opened (some c) store pointer w h =
      let r =
        api.credentials (some pointer) c.c_type (data_pointer c.data_bytes) (length c.data_bytes)
          w in
      subst (λ m. Failed store.registry m ⊎ Opened store.registry pointer m)
        (sym (created-made_with c store pointer w)) (answered pointer store r.0 r.1 h)

  by_sync :
      (c : Option SyncCredentials) (store : SyncStore W V) (r : Option ℕ × W)
      → store.has_client ≡ false
      → Failed store.registry (created api c store r)
        ⊎ ((pointer : ℕ) × (r.0 ≡ some pointer)
            × Opened store.registry pointer (created api c store r))
  unfolding created
  by_sync c store (none, w) h =
      inl (close_failed-Failed (create_error errors w) none (record store { world = w }) h)
  by_sync c store (some pointer, w) h = elim (created-Opened c store pointer w h) [
    | inl f ↦ inl f
    | inr o ↦ inr (pointer, refl, o)
  ]

  -- Making a client for a store that has one returns an error and changes nothing. For a store that
  -- has none, it either returns a new client that is not started and has no listeners, and the store
  -- has a client, or returns an error beside a client that is closed, and the store still has none;
  -- the registry of callbacks is as before in each case.
  pub new_sync_client-Opened :
      (server_uri : String) (c : Option SyncCredentials) (store : SyncStore W V)
      → (store.has_client ≡ true
          → new_sync_client api server_uri c store ≡ ((none, some one_client), store))
        × (store.has_client ≡ false
            → Failed store.registry (new_sync_client api server_uri c store)
              ⊎ ((pointer : ℕ) × ((api.sync server_uri store.world).0 ≡ some pointer)
                  × Opened store.registry pointer (new_sync_client api server_uri c store)))
  unfolding new_sync_client
  new_sync_client-Opened server_uri c store = (
    λ h.
        ap
          (λ b.
            if b
            then ((none, some one_client), store)
            else created api c store (api.sync server_uri store.world))
          h,
    λ h.
        let direct =
          ap
            (λ b.
              if b
              then ((none, some one_client), store)
              else created api c store (api.sync server_uri store.world))
            (sym h) in
        subst
          (λ m.
            Failed store.registry m
            ⊎ ((pointer : ℕ) × ((api.sync server_uri store.world).0 ≡ some pointer)
                × Opened store.registry pointer m))
          direct (by_sync c store (api.sync server_uri store.world) h),
  )

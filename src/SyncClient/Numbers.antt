-- ===== src/SyncClient/Numbers.antt =====
-- objectbox/sync-client.go: the callback numbers of a client's listeners.
use objectbox_go.Base.{
  ℕ, ◌≡◌, ◌<◌, ◌⊎◌, inl, inr, refl, true, none, some, is_some, lookup, subst, Outcome, ok, err, sym,
}
use objectbox_go.Callbacks.{Callable, register, unregister, full_queue}
use objectbox_go.Callbacks.Numbers.{Number, Took, Full, register_outcome}
use objectbox_go.SyncClient.{SyncApi, SyncState}
use objectbox_go.SyncClient.Listeners.{set_listener, registered, swap_callback_id}
use objectbox_go.SyncClient.Swapped.{
  IsLive, Replaced, Removed, unregister-Removed, after, after-Replaced,
}

-- The numbers of a client, and the registry around it.
abbrev pub ids : {W V : Type 0} → SyncState W V → ℕ → ℕ
ids s = s.client.c_callbacks

-- No number of the client and no entry changed, and there is no free number.
abbrev pub Kept : {W V : Type 0} → SyncState W V → SyncState W V → Type 0
Kept s s' =
    (ids s' ≡ ids s)
    × (s'.store.registry.callbacks ≡ s.store.registry.callbacks)
    × ((j : ℕ) → Number j → is_some (lookup j s.store.registry.callbacks) ≡ true)

module _ {W V : Type 0} (api : SyncApi W) (index : ℕ) (bound : index < 7) (s : SyncState W V) where
  abbrev Result :
      Outcome (Unit {0}) × SyncState W V → Outcome (Unit {0}) → (SyncState W V → Type 0) → Type 0
  Result (o, s') expected P = (o ≡ expected) × P s'

  returned-ok :
      (fn : Callable V)
      → IsLive (ids s) s.store.registry
      → (id : ℕ) → Took fn s.store.registry id
      → Result
          (registered api index (register fn s.store.registry) s)
          (ok tt)
          (λ s'. Replaced index fn (ids s) (ids s') s.store.registry s'.store.registry)
  unfolding registered swap_callback_id after unregister
  returned-ok fn l id t =
      subst
        (λ o.
          Result (registered api index (o, (register fn s.store.registry).1) s) (ok tt)
            (λ s'. Replaced index fn (ids s) (ids s') s.store.registry s'.store.registry))
        (sym t.returned) (refl, after-Replaced index bound (ids s) s.store.registry l fn id t)

  returned-err :
      (fn : Callable V)
      → Full fn s.store.registry
      → Result (registered api index (register fn s.store.registry) s) (err full_queue) (Kept s)
  unfolding registered
  returned-err fn f =
      subst
        (λ o.
          Result (registered api index (o, (register fn s.store.registry).1) s) (err full_queue)
            (Kept s))
        (sym f.returned) (refl, (refl, f.unchanged, f.taken))

  -- For a client whose numbers are registered and distinct: setting a listener either makes its
  -- function the one that is reached by the client's number for that event, the function before it no
  -- longer being reached and the other listeners as before, and the numbers are registered and
  -- distinct again, or it reports a full queue, with every number of the registry taken and no number
  -- of the client and no entry of the registry changed. Removing a listener always succeeds: its
  -- function is no longer reached and the other listeners are as before, but the client keeps the
  -- number.
  pub set_listener-IsLive :
      (fn : Callable V)
      → IsLive (ids s) s.store.registry
      → (let s' = (set_listener api index (some fn) s).1 in
          (((set_listener api index (some fn) s).0 ≡ ok tt)
            × Replaced index fn (ids s) (ids s') s.store.registry s'.store.registry)
          ⊎ (((set_listener api index (some fn) s).0 ≡ err full_queue) × Kept s s'))
        × (let s' = (set_listener api index none s).1 in
            ((set_listener api index none s).0 ≡ ok tt)
            × Removed index (ids s) s.store.registry s'.store.registry
            × (ids s' ≡ ids s))
  unfolding set_listener registered swap_callback_id after unregister
  set_listener-IsLive fn l = (
    elim (register_outcome fn s.store.registry l.last) [
      | inl (id, t) ↦ inl (returned-ok fn l id t)
      | inr f ↦ inr (returned-err fn f)
    ],
    (refl, unregister-Removed index bound (ids s) s.store.registry l, refl),
  )

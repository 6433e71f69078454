-- ===== src/SyncClient/Closed.antt =====
-- objectbox/sync-client.go: what closing a client leaves behind.
use objectbox_go.Base.{
  equal_or_not, ℕ, zero, suc, ◌+◌, ◌≡◌, ◌≢◌, ◌≤◌, ◌<◌, ◌^◌, ◌%◌, refl, ap, ◌∙◌, sym, arith, none,
  some, false, pure, lookup, lookup-delete, subst, inl, inr,
}
use objectbox_go.Callbacks.{Registry, unregister, find}
use objectbox_go.Callbacks.Calls.{Ignores, find-Ignores}
use objectbox_go.Native.Calls.{c_call-world}
use objectbox_go.SyncClient.{SyncApi, SyncState, unregister_from, close, close_pointer}
use objectbox_go.SyncClient.Numbers.{ids}
use objectbox_go.SyncClient.Swapped.{find-small, unregister-other, lookup-unregister}

module _ {V : Type 0} (numbers : ℕ → ℕ) where
  -- A number without an entry gets none.
  unregister_from-none :
      (i n j : ℕ) (r : Registry V)
      → lookup j r.callbacks ≡ none
      → lookup j (unregister_from numbers i n r).callbacks ≡ none
  unfolding unregister_from unregister
  unregister_from-none i zero j r h = h
  unregister_from-none i (suc n) j r h =
      unregister_from-none (suc i) n j (unregister (numbers i) r)
        (ground (arith, h, lookup-delete (numbers i) j r.callbacks))

  unregister_from-removes :
      (i n k : ℕ) (r : Registry V)
      → i ≤ k
      → k < i + n
      → numbers k ≢ 0
      → lookup (numbers k) (unregister_from numbers i n r).callbacks ≡ none
  unfolding unregister_from
  unregister_from-removes i zero k r l u h = absurd (omega arith)
  unregister_from-removes i (suc n) k r l u h = elim (equal_or_not i k) [
    | inl e ↦
        (unregister_from-none (suc i) n (numbers k) (unregister (numbers i) r) (
          ap (λ m. lookup (numbers m) (unregister (numbers i) r).callbacks) (sym e)
          ∙ lookup-unregister (numbers i) (numbers i) r (λ z. h (ap numbers (sym e) ∙ z))
          ∙ ground arith))
    | inr d ↦
        unregister_from-removes (suc i) n k (unregister (numbers i) r) (omega arith) (omega arith) h
  ]

  unregister_from-keeps :
      (i n j : ℕ) (r : Registry V)
      → ((k : ℕ) → i ≤ k → k < i + n → numbers k ≢ j)
      → lookup j (unregister_from numbers i n r).callbacks ≡ lookup j r.callbacks
  unfolding unregister_from
  unregister_from-keeps i zero j r h = refl
  unregister_from-keeps i (suc n) j r h =
      unregister_from-keeps (suc i) n j (unregister (numbers i) r)
        (λ k l u. h k (omega arith) (omega arith))
      ∙ unregister-other (numbers i) j r (h i (omega arith) (omega arith))

-- What is left of a client with the given C pointer.
pub record Closed {W V : Type 0} (api : SyncApi W) (pointer : ℕ) (s s' : SyncState W V)
    : Type 0 where
  pub pointer_gone : s'.client.c_client ≡ none
  pub store_free : s'.store.has_client ≡ false
  pub closed : s'.store.world ≡ (api.close (some pointer) s.store.world).1
  pub ignored : (k : ℕ) → k < 7 → ids s k ≢ 0 → Ignores s'.store.registry (ids s k)
  pub others :
      (j : ℕ)
      → ((k : ℕ) → k < 7 → ids s k ≢ j % 2 ^ 32)
      → find j s'.store.registry ≡ find j s.store.registry

module _ {W V : Type 0} (api : SyncApi W) (s : SyncState W V) (pointer : ℕ) where
  -- Closing an open client whose numbers are uint32 closes the C client, even if the
  -- C library reports an error: no number of the client reaches a listener any more, every other
  -- number finds what it found, the store is free for another client, and closing again does nothing.
  pub close-Closed :
      s.client.c_client ≡ some pointer
      → ((k : ℕ) → k < 7 → ids s k < 2 ^ 32)
      → Closed api pointer s (close api s).1 × (close api (close api s).1 ≡ pure tt (close api s).1)
  unfolding close close_pointer find
  close-Closed open_client bound =
      subst
        (λ o.
          Closed api pointer s (close_pointer api o s).1
          × (close api (close_pointer api o s).1 ≡ pure tt (close_pointer api o s).1))
        (sym open_client)
        (
          record {
            pointer_gone = refl;
            store_free = refl;
            closed = c_call-world api.errors (api.close (some pointer)) s.store.world;
            ignored = λ k b h.
                find-Ignores (unregister_from (ids s) 0 7 s.store.registry) (ids s k) (
                  find-small (ids s k) (unregister_from (ids s) 0 7 s.store.registry) (bound k b)
                  ∙ unregister_from-removes (ids s) 0 7 k s.store.registry (omega arith) b h);
            others = λ j h.
                unregister_from-keeps (ids s) 0 7 (j % 2 ^ 32) s.store.registry (λ k z u. h k u);
          },
          refl,
        )

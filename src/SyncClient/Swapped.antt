-- ===== src/SyncClient/Swapped.antt =====
-- objectbox/sync-client.go: what replacing the number of one listener does to the registry.
use objectbox_go.Base.{
  ℕ, ◌≡◌, ◌≢◌, ◌<◌, ◌^◌, ◌==◌, ◌⊎◌, inl, inr, ap, ◌∙◌, arith, true, none, some, is_some,
  if◌then◌else◌, lookup, lookup-delete, equal_or_not, sym,
}
use objectbox_go.Callbacks.{Callable, Registry, register, unregister, find}
use objectbox_go.Callbacks.Numbers.{Took}
use objectbox_go.Callbacks.Calls.{Reaches, Ignores, find-Reaches, find-Ignores}
use objectbox_go.SyncClient.Listeners.{set_at}

-- Each of the seven numbers that is not 0 is registered, and no two listeners have the same.
pub record IsLive {V : Type 0} (ids : ℕ → ℕ) (r : Registry V) : Type 0 where
  pub last : r.last_id < 2 ^ 32
  pub number : (i : ℕ) → i < 7 → ids i < 2 ^ 32
  pub taken : (i : ℕ) → i < 7 → ids i ≢ 0 → is_some (lookup (ids i) r.callbacks) ≡ true
  pub distinct : (i j : ℕ) → i < 7 → j < 7 → i ≢ j → ids i ≢ 0 → ids i ≢ ids j

-- What a call that set a listener did: its function is reached, the listener before it is not, and
-- the other listeners are as before.
pub record Replaced {V : Type 0} (index : ℕ) (fn : Callable V) (ids ids' : ℕ → ℕ)
    (r r' : Registry V) : Type 0 where
  pub live : IsLive ids' r'
  pub reached : Reaches r' (ids' index) fn
  pub ignored : ids index ≢ 0 → Ignores r' (ids index)
  pub others :
      (i : ℕ)
      → i < 7
      → i ≢ index
      → (ids' i ≡ ids i) × (ids i ≢ 0 → find (ids i) r' ≡ find (ids i) r)

-- What a call that removed a listener did.
pub record Removed {V : Type 0} (index : ℕ) (ids : ℕ → ℕ) (r r' : Registry V) : Type 0 where
  pub ignored : ids index ≢ 0 → Ignores r' (ids index)
  pub others : (i : ℕ) → i < 7 → i ≢ index → ids i ≢ 0 → find (ids i) r' ≡ find (ids i) r

pub lookup-unregister :
    {V : Type 0} (k j : ℕ) (r : Registry V)
    → k ≢ 0
    → lookup j (unregister k r).callbacks ≡ (if k == j then none else lookup j r.callbacks)
unfolding unregister
lookup-unregister k j r h = ground (arith, lookup-delete k j r.callbacks)

pub unregister-other :
    {V : Type 0} (k j : ℕ) (r : Registry V)
    → k ≢ j
    → lookup j (unregister k r).callbacks ≡ lookup j r.callbacks
unfolding unregister
unregister-other k j r h = ground (arith, lookup-delete k j r.callbacks)

pub find-small :
    {V : Type 0} (k : ℕ) (r' : Registry V) → k < 2 ^ 32 → find k r' ≡ lookup k r'.callbacks
unfolding find
find-small k r' h = ap (λ k. lookup k r'.callbacks) (omega arith)

set-here : (index id : ℕ) (ids : ℕ → ℕ) → set_at index id ids index ≡ id
set-here index id ids = ground arith

set-there : (index i id : ℕ) (ids : ℕ → ℕ) → i ≢ index → set_at index id ids i ≡ ids i
set-there index i id ids d = ground arith

module _ {V : Type 0} (index : ℕ) (bound : index < 7) (ids : ℕ → ℕ) (r : Registry V)
    (l : IsLive ids r) where
  pub find-number :
      (i : ℕ) → i < 7 → (r' : Registry V) → find (ids i) r' ≡ lookup (ids i) r'.callbacks
  find-number i h r' = find-small (ids i) r' (l.number i h)

  pub unregister-Removed : Removed index ids r (unregister (ids index) r)
  unregister-Removed = record {
    ignored = λ h.
        find-Ignores _ (ids index) (
          find-number index bound _ ∙ lookup-unregister (ids index) (ids index) r h ∙ ground arith);
    others = λ i b d h.
        find-number i b _
        ∙ unregister-other (ids index) (ids i) r (λ e. l.distinct i index b bound d h (sym e))
        ∙ sym (find-number i b r);
  }

  module _ (fn : Callable V) (id : ℕ) (t : Took fn r id) where
    unfoldable pub after : Registry V
    after = unregister (ids index) (register fn r).1

    -- The number that was taken is nobody's.
    taken-apart : (i : ℕ) → i < 7 → ids i ≢ id
    taken-apart i b e = ground (
      arith,
      t.number,
      t.was_free,
      l.taken i b (λ z. omega (arith, t.number)),
      ap (λ k. is_some (lookup k r.callbacks)) e,
    )

    lookup-after :
        (j : ℕ)
        → ids index ≢ j
        → lookup j after.callbacks ≡ (if id == j then some fn else lookup j r.callbacks)
    unfolding after
    lookup-after j h = unregister-other (ids index) j _ h ∙ t.entries j

    after-last : after.last_id ≡ id
    unfolding after unregister
    after-last = ground (arith, t.last)

    found : (j : ℕ) → ids index ≢ j → id ≢ j → lookup j after.callbacks ≡ lookup j r.callbacks
    found j h d = lookup-after j h ∙ ground arith

    found-taken : lookup id after.callbacks ≡ some fn
    found-taken = lookup-after id (taken-apart index bound) ∙ ground arith

    listens :
        (i : ℕ)
        → i < 7
        → (i ≡ index) ⊎ (i ≢ index)
        → set_at index id ids i ≢ 0
        → is_some (lookup (set_at index id ids i) after.callbacks) ≡ true
    listens i b (inl e) h =
        ap (λ k. is_some (lookup k after.callbacks))
          (ap (set_at index id ids) e ∙ set-here index id ids)
        ∙ ap is_some found-taken
    listens i b (inr d) h =
        let same = set-there index i id ids d in
        ap (λ k. is_some (lookup k after.callbacks)) same
        ∙ ap is_some (
            found (ids i) (λ e. l.distinct i index b bound d (λ z. h (same ∙ z)) (sym e))
              (λ e. taken-apart i b (sym e)))
        ∙ l.taken i b (λ e. h (same ∙ e))

    pub after-IsLive : IsLive (set_at index id ids) after
    after-IsLive = record {
      last = omega (arith, after-last, t.number);
      number = λ i b. ground (arith, t.number, l.number i b);
      taken = λ i b h. listens i b (equal_or_not i index) h;
      distinct = λ i j b c d h.
          ground (arith, t.number, l.distinct i j b c d, taken-apart i b, taken-apart j c);
    }

    pub after-Replaced : Replaced index fn ids (set_at index id ids) r after
    unfolding after unregister
    after-Replaced = record {
      live = after-IsLive;
      reached = find-Reaches after _ fn (
          ap (λ k. find k after) (set-here index id ids)
          ∙ find-small id after (omega (arith, t.number))
          ∙ found-taken);
      ignored = λ h. find-Ignores after (ids index) (
          find-number index bound after
          ∙ lookup-unregister (ids index) (ids index) _ h
          ∙ ground arith);
      others = λ i b d. (
        set-there index i id ids d,
        λ h.
            find-number i b after
            ∙ found (ids i) (λ e. l.distinct i index b bound d h (sym e))
                (λ e. taken-apart i b (sym e))
            ∙ sym (find-number i b r),
      );
    }

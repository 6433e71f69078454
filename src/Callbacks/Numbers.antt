-- ===== src/Callbacks/Numbers.antt =====
-- The registry of callbacks: registration finds a free number if there is one.
use objectbox_go.Base.{
  ℕ, ◌+◌, ◌-◌, ◌^◌, ◌%◌, ◌≤◌, ◌<◌, ◌≡◌, ◌⊎◌, inl, inr, true, arith, none, some, ltb, ◌==◌,
  if◌then◌else◌, is_some, lookup, lookup-insert, lookup-delete, ok, err,
}
use objectbox_go.Slots.{find_slot, IsRing}
use objectbox_go.Slots.Search.{Found, find_slot-Found}
use objectbox_go.Callbacks.{Callable, Registry, next_id, register, find, unregister, full_queue}

abbrev pub Number : ℕ → Type 0
Number c = (1 ≤ c) × (c < 2 ^ 32)

rounds : ℕ → ℕ → ℕ
rounds i c = if ltb c i then i - c else i + (2 ^ 32 - 1) - c

id-IsRing : IsRing Number next_id rounds (2 ^ 32 - 1)
unfolding next_id rounds
id-IsRing = record {
  next_Valid = λ c v. ground arith;
  step = λ i c v w h. ground arith;
  last = λ i c v w h. ground arith;
  positive = λ i c v w. ground arith;
  injective = λ i c d v w x h. ground arith;
  within = λ i c v w. ground arith;
  whole = λ i v. ground arith;
}

next_id-Number : (id : ℕ) → id < 2 ^ 32 → Number (next_id id)
unfolding next_id
next_id-Number id h = ground arith

-- A registration that took a free number: no other number is touched.
pub record Took {W : Type 0} (fn : Callable W) (r : Registry W) (id : ℕ) : Type 0 where
  pub returned : (register fn r).0 ≡ ok id
  pub number : Number id
  pub was_free : lookup id r.callbacks ≡ none
  pub entries :
      (j : ℕ)
      → lookup j (register fn r).1.callbacks ≡ (if id == j then some fn else lookup j r.callbacks)
  pub last : (register fn r).1.last_id ≡ id

-- A registration that failed, with every number taken and no entry changed.
pub record Full {W : Type 0} (fn : Callable W) (r : Registry W) : Type 0 where
  pub returned : (register fn r).0 ≡ err full_queue
  pub unchanged : (register fn r).1.callbacks ≡ r.callbacks
  pub taken : (j : ℕ) → Number j → is_some (lookup j r.callbacks) ≡ true

module _ {W : Type 0} (fn : Callable W) (r : Registry W) (valid : r.last_id < 2 ^ 32) where
  search-Found :
      Found id-IsRing r.callbacks
        (next_id r.last_id)
        (next_id-Number r.last_id valid)
        (next_id r.last_id)
        (find_slot next_id (2 ^ 32) (next_id r.last_id) (next_id r.last_id) r.callbacks)
  search-Found =
      let v = next_id-Number r.last_id valid in
      find_slot-Found id-IsRing r.callbacks (next_id r.last_id) v (2 ^ 32) (next_id r.last_id) v
        (omega (arith, id-IsRing.within (next_id r.last_id) (next_id r.last_id) v v))

  -- From a registry whose last number is a uint32, registration either takes a free number from 1 to
  -- 2 ^ 32 - 1 and adds the function under it alone, or reports a full queue, and then every one of
  -- these numbers was taken and no entry has changed. Its loop always ends.
  pub register_outcome : ((id : ℕ) × Took fn r id) ⊎ Full fn r
  unfolding register
  register_outcome = elim search-Found [
    | inl (id, e, v, was_free) ↦ inl (
      id,
      record {
        returned = rw e;
        number = v;
        was_free = was_free;
        entries = λ j. rw e (lookup-insert id j fn r.callbacks);
        last = rw e;
      },
    )
    | inr (e, taken) ↦ inr (record {
      returned = rw e;
      unchanged = rw e;
      taken = λ j w. taken j w (
          omega (
            arith,
            id-IsRing.whole (next_id r.last_id) (next_id-Number r.last_id valid),
            id-IsRing.within (next_id r.last_id) j (next_id-Number r.last_id valid) w,
          ));
    })
  ]

-- After a registration that took a number, that number finds the function; once it is unregistered,
-- every number finds again what it found before the registration.
pub find-register :
    {W : Type 0} (fn : Callable W) (r : Registry W) (id : ℕ)
    → Took fn r id
    → (find id (register fn r).1 ≡ some fn)
      × ((j : ℕ) → find j (unregister id (register fn r).1) ≡ find j r)
unfolding find unregister
find-register fn r id t = (
  rw (t.entries) (ground (arith, t.number)),
  λ j. ground (
    arith,
    t.number,
    t.was_free,
    t.entries (j % 2 ^ 32),
    lookup-delete id (j % 2 ^ 32) (register fn r).1.callbacks,
  ),
)

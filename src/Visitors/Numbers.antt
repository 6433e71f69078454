-- ===== src/Visitors/Numbers.antt =====
-- The registry of data visitors: registration finds a free number if there is one.
use objectbox_go.Base.{
  ℕ, ◌+◌, ◌-◌, ◌^◌, ◌<◌, ◌≡◌, ◌⊎◌, inl, inr, true, arith, none, some, ltb, ◌==◌, ==_refl,
  if◌then◌else◌, is_some, lookup, lookup-insert, lookup-delete, ok, err,
}
use objectbox_go.Slots.{find_slot, IsRing}
use objectbox_go.Slots.Search.{Found, find_slot-Found}
use objectbox_go.Visitors.{
  Visitor, Visitors, Bytes, next_id, register, find, unregister, dispatch, full_queue,
}

abbrev pub Number : ℕ → Type 0
Number c = c < 2 ^ 32

rounds : ℕ → ℕ → ℕ
rounds i c = if ltb c i then i - c else i + 2 ^ 32 - c

id-IsRing : IsRing Number next_id rounds (2 ^ 32)
unfolding next_id rounds
id-IsRing = record {
  next_Valid = λ c v. ground arith;
  step = λ i c v w h. ground arith;
  last = λ i c v w h. ground arith;
  positive = λ i c v w. ground arith;
  injective = λ i c d v w x h. ground arith;
  within = λ i c v w. ground arith;
  whole = λ i v. ground arith;
}

next_id-Number : (id : ℕ) → Number (next_id id)
unfolding next_id
next_id-Number id = ground arith

-- A registration that took a free number: no other number is touched.
pub record Took {W : Type 0} (fn : Visitor W) (r : Visitors W) (id : ℕ) : Type 0 where
  pub returned : (register fn r).0 ≡ ok id
  pub number : Number id
  pub was_free : lookup id r.callbacks ≡ none
  pub entries :
      (j : ℕ)
      → lookup j (register fn r).1.callbacks ≡ (if id == j then some fn else lookup j r.callbacks)
  pub last : (register fn r).1.last_id ≡ id

-- A registration that failed, with every number taken and no entry changed.
pub record Full {W : Type 0} (fn : Visitor W) (r : Visitors W) : Type 0 where
  pub returned : (register fn r).0 ≡ err full_queue
  pub unchanged : (register fn r).1.callbacks ≡ r.callbacks
  pub taken : (j : ℕ) → Number j → is_some (lookup j r.callbacks) ≡ true

module _ {W : Type 0} (fn : Visitor W) (r : Visitors W) where
  search-Found :
      Found id-IsRing r.callbacks
        (next_id r.last_id)
        (next_id-Number r.last_id)
        (next_id r.last_id)
        (find_slot next_id (2 ^ 32) (next_id r.last_id) (next_id r.last_id) r.callbacks)
  search-Found =
      let v = next_id-Number r.last_id in
      find_slot-Found id-IsRing r.callbacks (next_id r.last_id) v (2 ^ 32) (next_id r.last_id) v
        (omega (arith, id-IsRing.within (next_id r.last_id) (next_id r.last_id) v v))

  -- Registration either takes a free number below 2 ^ 32 and adds the visitor under it alone, or
  -- reports a full queue, and then every one of these numbers was taken and no entry has changed.
  -- Its loop always ends.
  pub register_visitor_outcome : ((id : ℕ) × Took fn r id) ⊎ Full fn r
  unfolding register
  register_visitor_outcome = elim search-Found [
    | inl (id, e, v, was_free) ↦ inl (
      id,
      record {
        returned = rw e;
        number = v;
        was_free = was_free;
        entries = λ j. rw e (lookup-insert id j fn r.callbacks);
        last = rw e;
      },
    )
    | inr (e, taken) ↦ inr (record {
      returned = rw e;
      unchanged = rw e;
      taken = λ j w. taken j w (
          omega (
            arith,
            id-IsRing.whole (next_id r.last_id) (next_id-Number r.last_id),
            id-IsRing.within (next_id r.last_id) j (next_id-Number r.last_id) w,
          ));
    })
  ]

-- After a registration that took a number, C's call with that number is a call of the visitor with
-- the same bytes; once the number is unregistered, every number finds what it found before.
pub dispatch-register_visitor :
    {W : Type 0} (fn : Visitor W) (r : Visitors W) (id : ℕ)
    → Took fn r id
    → ((bytes : Bytes) (w : W) → dispatch (register fn r).1 bytes (some id) w ≡ fn bytes w)
      × ((j : ℕ) → find j (unregister id (register fn r).1) ≡ find j r)
unfolding find unregister dispatch
dispatch-register_visitor fn r id t = (
  λ bytes w. rw t.entries (rw (==_refl id)),
  λ j. ground (arith, t.was_free, t.entries j, lookup-delete id j (register fn r).1.callbacks),
)

-- ===== src/Visitors.antt =====
-- objectbox/datavisitor.go and objectbox/datavisitorc.go: the registry of Go functions that the C
-- library calls with the bytes of one object after the other. `W` is the state that the functions
-- change. The mutex is not modelled: each operation is one step.
pub mod Numbers
pub mod Examples
use objectbox_go.Base.{
  ℕ, ◌+◌, ◌%◌, ◌^◌, List, [], Option, none, some, Bool, lookup, insert, delete, ok, err, panic,
  Exec, GoError, message, message_with, panics,
}
use objectbox_go.Slots.{Slot, free, full, no_fuel, find_slot}

-- The bytes of an object; `none` is a nil slice.
abbrev pub Bytes : Type 0
Bytes = Option (List ℕ)

-- dataVisitorCallback
abbrev pub Visitor : Type 0 → Type 0
Visitor W = Bytes → Exec W Bool

pub record Visitors (W : Type 0) : Type 0 where
  pub last_id : ℕ
  pub callbacks : List (ℕ × Visitor W)

-- dataVisitorId++ on a uint32
unfoldable pub next_id : ℕ → ℕ
next_id id = (id + 1) % 2 ^ 32

abbrev pub full_queue : GoError
full_queue = message "full queue of data-visitor callbacks - can't allocate another"

module _ {W : Type 0} where
  -- What dataVisitorRegister does with the identifier that its loop ends on.
  unfoldable pub finish : Visitor W → Slot → Exec (Visitors W) ℕ
  finish fn (free id) r = (ok id, record { last_id = id; callbacks = insert id fn r.callbacks })
  finish fn (full id) r = (err full_queue, record r { last_id = id })
  finish fn no_fuel r = (panic (message "no fuel"), r)

  -- dataVisitorRegister; its loop has 2 ^ 32 rounds of fuel, one for each identifier.
  unfoldable pub register : Visitor W → Exec (Visitors W) ℕ
  unfolding finish
  register fn r =
      let initial = next_id r.last_id in
      finish fn (find_slot next_id (2 ^ 32) initial initial r.callbacks) r

  -- dataVisitorLookup
  unfoldable pub find : ℕ → Visitors W → Option (Visitor W)
  find id r = lookup id r.callbacks

  -- dataVisitorUnregister
  unfoldable pub unregister : ℕ → Visitors W → Visitors W
  unregister id r = record r { callbacks = delete id r.callbacks }

  call_found : ℕ → Option (Visitor W) → Bytes → Exec W Bool
  call_found id none bytes w =
      panics (message_with "Internal error: no data visitor found for ID" id) w
  call_found id (some fn) bytes w = fn bytes w

  -- dataVisitorDispatch: the user data is a pointer to the number of a visitor.
  unfoldable pub dispatch : Visitors W → Bytes → Option ℕ → Exec W Bool
  unfolding call_found
  dispatch r bytes none w = panics (message "Internal error: visitor ID pointer is nil") w
  dispatch r bytes (some id) w = call_found id (find id r) bytes w

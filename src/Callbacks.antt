-- ===== src/Callbacks.antt =====
-- objectbox/c-callbacks.go and objectbox/c-callbacks-c.go: the registry of Go functions that the C
-- library calls back by number. `W` is the state that the functions themselves change. The mutex is
-- not modelled: each operation is one step.
pub mod Numbers
pub mod Examples
pub mod Dispatch
pub mod Calls
use objectbox_go.Base.{
  ℕ, ◌+◌, ◌-◌, ◌%◌, ◌^◌, ◌==◌, List, [], Option, if◌then◌else◌, lookup, insert, delete, Outcome, ok,
  err, panic, Exec, GoError, message,
}
use objectbox_go.Base.Int.{ℤ}
use objectbox_go.Slots.{Slot, free, full, no_fuel, find_slot}

-- The four function types; each implements one method of the interface `cCallable`.
pub data Callable (W : Type 0) : Type 0 where
  void_callback : (W → W) → Callable W
  void_uint64_callback : (ℕ → W → W) → Callable W
  void_int64_callback : (ℤ → W → W) → Callable W
  void_const_void_callback : (ℕ → W → W) → Callable W

pub record Registry (W : Type 0) : Type 0 where
  pub last_id : ℕ
  pub callbacks : List (ℕ × Callable W)

abbrev pub no_callbacks : {W : Type 0} → Registry W
no_callbacks = record { last_id = 0; callbacks = [] }

-- cCallbackNextId, as the number that follows; a cCallbackId is a uint32.
unfoldable pub next_id : ℕ → ℕ
next_id id = let next = (id + 1) % 2 ^ 32 in if next == 0 then (next + 1) % 2 ^ 32 else next

abbrev pub full_queue : GoError
full_queue = message "full queue of data-callback callbacks - can't allocate another"

-- What cCallbackRegister does with the identifier that its loop ends on.
unfoldable pub finish : {W : Type 0} → Callable W → Slot → Exec (Registry W) ℕ
finish fn (free id) r = (ok id, record { last_id = id; callbacks = insert id fn r.callbacks })
finish fn (full id) r = (err full_queue, record r { last_id = id })
finish fn no_fuel r = (panic (message "no fuel"), r)

-- The loop has 2 ^ 32 rounds of fuel, more than there are identifiers.
unfoldable pub register : {W : Type 0} → Callable W → Exec (Registry W) ℕ
unfolding finish
register fn r =
    let initial = next_id r.last_id in
    finish fn (find_slot next_id (2 ^ 32) initial initial r.callbacks) r

-- cCallbackLookup; the argument is a uintptr_t.
unfoldable pub find : {W : Type 0} → ℕ → Registry W → Option (Callable W)
find id r = lookup (id % 2 ^ 32) r.callbacks

-- cCallbackUnregister
unfoldable pub unregister : {W : Type 0} → ℕ → Registry W → Registry W
unregister id r = if id == 0 then r else record r { callbacks = delete id r.callbacks }

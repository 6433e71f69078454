-- ===== src/Slots.antt =====
-- The loop that objectbox/c-callbacks.go and objectbox/datavisitor.go share: from an identifier on,
-- step to the next one until one is free or the first one comes round again.
mod Ring
pub mod Search
pub use Ring.*
use objectbox_go.Base.{ℕ, zero, suc, ◌==◌, List, if◌then◌else◌, is_some, lookup}

-- `free` and `full` hold the last identifier that was tried; `no_fuel` ends a run that was not given
-- enough rounds.
pub data Slot : Type 0 where
  free full : ℕ → Slot
  no_fuel : Slot

unfoldable pub find_slot {ℓ} : {C : Type ℓ} → (ℕ → ℕ) → ℕ → ℕ → ℕ → List (ℕ × C) → Slot
find_slot next zero initial last m = no_fuel
find_slot next (suc fuel) initial last m =
    let more = find_slot next fuel initial (next last) m in
    if is_some (lookup last m)
    then if initial == next last then full (next last) else more
    else free last

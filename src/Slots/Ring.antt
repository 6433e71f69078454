-- ===== src/Slots/Ring.antt =====
-- Identifiers in a ring: `rounds i c` is the number of steps from `c` until `i` comes round again.
use objectbox_go.Base.{ℕ, ◌+◌, ◌≤◌, ◌≡◌, ◌≢◌}

pub record IsRing (Valid : ℕ → Type 0) (next : ℕ → ℕ) (rounds : ℕ → ℕ → ℕ) (count : ℕ)
    : Type 0 where
  pub next_Valid : (c : ℕ) → Valid c → Valid (next c)
  pub step : (i c : ℕ) → Valid i → Valid c → i ≢ next c → rounds i (next c) + 1 ≡ rounds i c
  pub last : (i c : ℕ) → Valid i → Valid c → i ≡ next c → rounds i c ≡ 1
  pub positive : (i c : ℕ) → Valid i → Valid c → 1 ≤ rounds i c
  pub injective : (i c d : ℕ) → Valid i → Valid c → Valid d → rounds i c ≡ rounds i d → c ≡ d
  pub within : (i c : ℕ) → Valid i → Valid c → rounds i c ≤ count
  pub whole : (i : ℕ) → Valid i → rounds i i ≡ count

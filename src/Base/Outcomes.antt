-- ===== src/Base/Outcomes.antt =====
-- What a Go call ends with, and calls that read and write a state of type `S`. The state comes back
-- beside an error and beside a panic too: what was written before stays written.
use Prim.Native.Nat.{ℕ}
use Prim.Native.String.{String}
use objectbox_go.Base.Int.{ℤ}
use mathlib.Core.Path.{◌≡◌, refl, ap, ◌∙◌}

-- An error value: the beginning of its message's template, with the arguments of the template.
-- `core_error` is an error that the C library reported, `joined` is "%s; %s".
pub data GoError : Type 0 where
  core_error : String → GoError
  no_error_info : GoError
  message : String → GoError
  message_with : String → ℕ → GoError
  message_with_int : String → ℤ → GoError
  message_about : String → String → GoError
  message_with_both : String → ℕ → ℕ → GoError
  wrapped : String → ℕ → GoError → GoError
  message_wrapping : String → GoError → GoError
  joined : GoError → GoError → GoError

pub data Outcome {ℓ} (A : Type ℓ) : Type ℓ where
  ok : A → Outcome A
  err : GoError → Outcome A
  panic : GoError → Outcome A

abbrev pub Exec {ℓ} : Type ℓ → Type ℓ → Type ℓ
Exec S A = S → Outcome A × S

module _ {ℓ} {S A : Type ℓ} where
  abbrev pub pure : A → Exec S A
  pure a s = (ok a, s)

  abbrev pub fail : GoError → Exec S A
  fail e s = (err e, s)

  abbrev pub panics : GoError → Exec S A
  panics e s = (panic e, s)

  abbrev pub lift : Outcome A → Exec S A
  lift r s = (r, s)

module _ {ℓ} {S A B : Type ℓ} where
  abbrev pub continue : Outcome A → (A → Exec S B) → Exec S B
  continue (ok a) f s = f a s
  continue (err e) f s = (err e, s)
  continue (panic e) f s = (panic e, s)

  infixl 10 ◌>>=◌ ◌>>◌
  abbrev pub ◌>>=◌ : Exec S A → (A → Exec S B) → Exec S B
  ◌>>=◌ m f s = continue (m s).0 f (m s).1

  abbrev pub ◌>>◌ : Exec S A → Exec S B → Exec S B
  m >> n = m >>= λ _. n

-- defer: `after` runs at the end of `m`, whatever that ends with.
abbrev pub finally {ℓ} : {S A : Type ℓ} → Exec S A → (S → S) → Exec S A
finally m after s = ((m s).0, after (m s).1)

-- A block that returns has returned at each step.
pub >>=-eq-ok {ℓ} :
    {S A B : Type ℓ} (m : Exec S A) (f : A → Exec S B) (s : S) {b : B}
    → ((m >>= f) s).0 ≡ ok b
    → (a : A) × ((m s).0 ≡ ok a) × ((m >>= f) s ≡ f a (m s).1) × ((f a (m s).1).0 ≡ ok b)
>>=-eq-ok {S} {A} {B} m f s {b} h = go (m s).0 (m s).1 refl h
  where
    go :
        (r : Outcome A) (s' : S)
        → (m s).0 ≡ r
        → (continue r f s').0 ≡ ok b
        → (a : A) × ((m s).0 ≡ ok a) × (continue r f s' ≡ f a s') × ((f a s').0 ≡ ok b)
    go (ok a) s' e h = (a, e, refl, h)
    go (err e') s' e h = cc
    go (panic e') s' e h = cc

pub ok-injective {ℓ} : {A : Type ℓ} {a b : A} → ok a ≡ ok b → a ≡ b
ok-injective h = cc

-- Whenever `m` returns, `view` sees the same as before.
abbrev pub Preserves {ℓ κ} : {S A : Type ℓ} {V : Type κ} → (S → V) → Exec S A → Type (ℓ ⊔ κ)
Preserves {S} {A} view m = (s : S) (a : A) → (m s).0 ≡ ok a → view (m s).1 ≡ view s

module _ {ℓ κ} {S A B : Type ℓ} {V : Type κ} (view : S → V) where
  pub >>=-Preserves :
      (m : Exec S A) (f : A → Exec S B)
      → Preserves view m
      → ((a : A) → Preserves view (f a))
      → Preserves view (m >>= f)
  >>=-Preserves m f km kf s b h =
      let (a, e, step, h') = >>=-eq-ok m f s h in
      ap (λ r. view r.1) step ∙ kf a (m s).1 b h' ∙ km s a e

-- ===== src/Base/Options.antt =====
-- Chains of optional values, as bool functions with an output parameter return them.
use mathlib.Core.Option.{Option, none, some}
use mathlib.Core.Bool.{Bool, true, false}
use mathlib.Core.Path.{◌≡◌, refl}

module _ {ℓ κ} {Value : Type ℓ} {Next : Type κ} where
  infixl 5 ◌>>=◌
  abbrev pub ◌>>=◌ : Option Value → (Value → Option Next) → Option Next
  none >>= next = none
  some value >>= next = next value

  infixl 5 ◌>>◌
  abbrev pub ◌>>◌ : Option Value → Option Next → Option Next
  called >> next = called >>= λ ignored. next

  pub >>=-eq-some :
      (first : Option Value) (next : Value → Option Next) {result : Next}
      → (first >>= next) ≡ some result
      → (v : Value) × (first ≡ some v) × (next v ≡ some result)
  >>=-eq-some none next h = cc
  >>=-eq-some (some v) next h = (v, refl, h)

-- `if (refused) return false;`
abbrev pub unless : Bool → Option (Unit {0})
unless true = none
unless false = some tt

pub unless-eq-some : (refused : Bool) {u : Unit} → unless refused ≡ some u → refused ≡ false
unless-eq-some true h = cc
unless-eq-some false h = refl

pub some_inj {ℓ} : {A : Type ℓ} {a b : A} → Option.some a ≡ Option.some b → a ≡ b
some_inj h = cc

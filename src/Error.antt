-- ===== src/Error.antt =====
-- include/libAutoUpdater/Error.h and Result.h. An error is its code: the message and the phase are
-- diagnostics that no modelled decision reads.
use lib_auto_updater.Base.{Bool, true, false, ◌≡◌, refl, ◌⊎◌, inl, inr}

pub data ErrorCode : Type 0 where
  success invalid_config network_error manifest_download_failed : ErrorCode
  unsupported_manifest_schema manifest_parse_failed manifest_signature_invalid : ErrorCode
  version_parse_failed reinstall_required file_system_error path_traversal_rejected : ErrorCode
  hash_mismatch download_failed cancelled apply_launch_failed apply_failed : ErrorCode
  state_store_error security_policy_violation unsupported_install_layout internal_error : ErrorCode
  resource_limit_exceeded : ErrorCode

pub data Result {ℓ} (A : Type ℓ) : Type ℓ where
  ok : A → Result A
  fail : ErrorCode → Result A

-- What follows a call runs on its value; an error returns at once.
module _ {ℓ κ} {Value : Type ℓ} {Next : Type κ} where
  infixl 5 ◌>>=◌
  abbrev pub ◌>>=◌ : Result Value → (Value → Result Next) → Result Next
  fail code >>= next = fail code
  ok value >>= next = next value

  infixl 5 ◌>>◌
  abbrev pub ◌>>◌ : Result Value → Result Next → Result Next
  called >> next = called >>= λ ignored. next

-- A failing check, as `if (refused) return fail(...)`.
abbrev pub reject_if : Bool → ErrorCode → Result (Unit {0})
reject_if true e = fail e
reject_if false e = ok tt

abbrev pub is_ok {ℓ} : {A : Type ℓ} → Result A → Bool
is_ok (ok a) = true
is_ok (fail e) = false

pub Result-cases {ℓ} :
    {A : Type ℓ} (r : Result A) → ((a : A) × (r ≡ ok a)) ⊎ ((e : ErrorCode) × (r ≡ fail e))
Result-cases (ok a) = inl (a, refl)
Result-cases (fail e) = inr (e, refl)

-- Inversion of a successful bind, for proofs where the parts stay shut.
module _ {ℓ κ} {Value : Type ℓ} {Next : Type κ} where
  pub >>=-eq-ok :
      (called : Result Value) (next : Value → Result Next) {final : Next}
      → (called >>= next) ≡ ok final
      → (value : Value) × (called ≡ ok value) × (next value ≡ ok final)
  >>=-eq-ok (fail code) next returned = cc
  >>=-eq-ok (ok value) next returned = (value, refl, returned)

pub reject_if-eq-ok : (b : Bool) (e : ErrorCode) {u : Unit {0}} → reject_if b e ≡ ok u → b ≡ false
reject_if-eq-ok true e h = cc
reject_if-eq-ok false e h = refl

pub ok_inj {ℓ} : {A : Type ℓ} {a b : A} → Result.ok a ≡ ok b → a ≡ b
ok_inj h = cc

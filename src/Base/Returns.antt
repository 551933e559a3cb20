-- ===== src/Base/Returns.antt =====
-- What a Go call returns: a value, an error value, or a run-time panic.
use Prim.Native.Nat.{ℕ}
use mathlib.Core.Path.{◌≡◌, refl}
use mathlib.Core.Logic.{◌⊎◌, inl, inr, ◌≢◌}
use mathlib.Core.Option.{Option, none, some}
use mathlib.Core.Bool.{Bool, true, false}
use aom.Base.Tests.{if◌then◌else◌}

-- The `error` values that the program makes, and those of packages outside it, by a number.
pub data Error : Type 0 where
  value_not_found not_found_metric orphan_model unknown_predictor undefined_metric : Error
  target_too_small target_too_big no_sufficient_data unready_to_predict syntax : Error
  external : ℕ → Error

pub data Result {ℓ} (A : Type ℓ) : Type ℓ where
  panic : Result A
  err : Error → Result A
  ok : A → Result A

module _ {ℓ} {A : Type ℓ} where
  abbrev pub or_panic : Option A → Result A
  or_panic none = panic
  or_panic (some a) = ok a

  pub ok_injective : {a b : A} → ok a ≡ ok b → a ≡ b
  ok_injective e = cc

  pub Result-cases :
      (r : Result A) → ((a : A) × (r ≡ ok a)) ⊎ ((e : Error) × (r ≡ err e)) ⊎ (r ≡ panic)
  Result-cases panic = inr (inr refl)
  Result-cases (err e) = inr (inl (e, refl))
  Result-cases (ok a) = inl (a, refl)

-- The `if err != nil { return err }` of the code.
module _ {ℓ κ} {A : Type ℓ} {B : Type κ} where
  infixl 5 ◌>>=◌
  abbrev pub ◌>>=◌ : Result A → (A → Result B) → Result B
  panic >>= next = panic
  err e >>= next = err e
  ok a >>= next = next a

  pub >>=-eq-ok :
      (r : Result A) (next : A → Result B) {b : B}
      → (r >>= next) ≡ ok b
      → (a : A) × (r ≡ ok a) × (next a ≡ ok b)
  >>=-eq-ok panic next h = cc
  >>=-eq-ok (err e) next h = cc
  >>=-eq-ok (ok a) next h = (a, refl, h)

pub ok-no_panic {ℓ} : {A : Type ℓ} (a : A) → ok a ≢ panic
ok-no_panic a h = cc

-- A chain of calls does not panic if none of them does.
pub bind-no_panic {ℓ κ} :
    {A : Type ℓ} {B : Type κ} (r : Result A) (f : A → Result B)
    → r ≢ panic
    → ((a : A) → f a ≢ panic)
    → (r >>= f) ≢ panic
bind-no_panic (ok a) f p q = q a
bind-no_panic (err e) f p q = λ h. cc
bind-no_panic panic f p q = absurd (p refl)

pub if-no_panic {ℓ} :
    {A : Type ℓ} (b : Bool) (r t : Result A) → r ≢ panic → t ≢ panic → (if b then r else t) ≢ panic
if-no_panic true r t p q = p
if-no_panic false r t p q = q

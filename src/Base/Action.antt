-- ===== src/Base/Action.antt =====
-- A call that reads and writes a state. What was written stays written after an error or a panic.
use mathlib.Core.Path.{◌≡◌, refl, ap}
use mathlib.Core.Logic.{◌⊎◌, inl, inr}
use aom.Base.Returns.{Error, Result, ok, err, panic}

abbrev pub Action {ℓ κ} : Type ℓ → Type κ → Type (ℓ ⊔ κ)
Action S A = S → Result A × S

module _ {ℓ κ} {S : Type ℓ} {A : Type κ} where
  abbrev pub pure : A → Action S A
  pure a s = (ok a, s)

  abbrev pub raise : Error → Action S A
  raise e s = (err e, s)

  abbrev pub crash : Action S A
  crash s = (panic, s)

  abbrev pub lift : Result A → Action S A
  lift r s = (r, s)

  abbrev pub gets : (S → A) → Action S A
  gets f s = (ok (f s), s)

  -- A call that may fail and changes nothing.
  abbrev pub reads : (S → Result A) → Action S A
  reads f s = (f s, s)

module _ {ℓ} {S : Type ℓ} where
  abbrev pub modify : (S → S) → Action S (Unit {0})
  modify f s = (ok tt, f s)

module _ {ℓ κ μ} {S : Type ℓ} {A : Type κ} {B : Type μ} where
  abbrev pub and_then : Result A × S → (A → Action S B) → Result B × S
  and_then (ok a, s) f = f a s
  and_then (err e, s) f = (err e, s)
  and_then (panic, s) f = (panic, s)

  infixl 5 ◌>>=◌
  abbrev pub ◌>>=◌ : Action S A → (A → Action S B) → Action S B
  ◌>>=◌ m f s = and_then (m s) f

  pub and_then-ok :
      (r : Result A × S) (f : A → Action S B) {a : A} → r.0 ≡ ok a → and_then r f ≡ f a r.1
  and_then-ok r f e = ap (λ x. and_then (x, r.1) f) e

  pub and_then-err :
      (r : Result A × S) (f : A → Action S B) {e : Error}
      → r.0 ≡ err e
      → and_then r f ≡ (err e, r.1)
  and_then-err r f h = ap (λ x. and_then (x, r.1) f) h

  pub and_then-panic :
      (r : Result A × S) (f : A → Action S B) → r.0 ≡ panic → (and_then r f).0 ≡ panic
  and_then-panic r f h = ap (λ x. (and_then (x, r.1) f).0) h

  pub and_then-returns :
      (r : Result A × S) (f : A → Action S B) {b : B} {t : S}
      → and_then r f ≡ (ok b, t)
      → (a : A) × (r.0 ≡ ok a) × (f a r.1 ≡ (ok b, t))
  and_then-returns (ok a, s) f e = (a, refl, e)
  and_then-returns (err x, s) f e = cc
  and_then-returns (panic, s) f e = cc

  pub and_then-panics :
      (r : Result A × S) (f : A → Action S B)
      → (and_then r f).0 ≡ panic
      → (r.0 ≡ panic) ⊎ ((a : A) × (r.0 ≡ ok a) × ((f a r.1).0 ≡ panic))
  and_then-panics (ok a, s) f e = inr (a, refl, e)
  and_then-panics (err x, s) f e = cc
  and_then-panics (panic, s) f e = inl refl

  pub and_then-eq-ok :
      (r : Result A × S) (f : A → Action S B) {b : B} {t : S}
      → and_then r f ≡ (ok b, t)
      → (a : A) × (s : S) × (r ≡ (ok a, s)) × (f a s ≡ (ok b, t))
  and_then-eq-ok (ok a, s) f e = (a, s, refl, e)
  and_then-eq-ok (err x, s) f e = cc
  and_then-eq-ok (panic, s) f e = cc

-- What holds of the state before a call, and is kept by it and by what follows, holds at the end.
pub and_then-keeps {ℓ κ μ ν} :
    {S : Type ℓ} {A : Type κ} {B : Type μ} (P : S → Type ν) (r : Result A × S) (f : A → Action S B)
    → P r.1
    → ((a : A) (s : S) → P s → P (f a s).1)
    → P (and_then r f).1
and_then-keeps P (ok a, s) f p q = q a s p
and_then-keeps P (err e, s) f p q = p
and_then-keeps P (panic, s) f p q = p

infixl 5 ◌>>◌
abbrev pub ◌>>◌ {ℓ κ} : {S : Type ℓ} {B : Type κ} → Action S (Unit {0}) → Action S B → Action S B
m >> k = m >>= λ _. k

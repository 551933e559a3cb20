-- ===== src/Base/Tests.antt =====
-- Boolean tests on numbers and on values with decidable equality, texts, and the conditional.
use native.Mathlib.Omega.{arith}
use Prim.Native.Nat.{ℕ, compare, Ordering}
use Prim.Native.Char.{code}
use Prim.Native.String.{String}
use mathlib.Core.Path.{◌≡◌, refl, ap, ap₂}
use mathlib.Core.Logic.{◌⊎◌, inl, inr, ite, dite}
use mathlib.Core.Bool.{Bool, true, false}
use mathlib.Core.Option.{Option, none, some}
use mathlib.Core.List.{List, [], ◌∷◌, tail}
use native.Mathlib.Decide.{ℕ_discrete}

abbrev pub ltb : ℕ → ℕ → Bool
ltb a b = elim (compare a b) [ Ordering.lt ↦ true | _ ↦ false ]

abbrev pub leb : ℕ → ℕ → Bool
leb a b = elim (compare a b) [ Ordering.gt ↦ false | _ ↦ true ]

infix 50 ◌==◌
abbrev pub ◌==◌ : ℕ → ℕ → Bool
a == b = elim (compare a b) [ Ordering.eq ↦ true | _ ↦ false ]

infix 1 if◌then◌else◌
abbrev pub if◌then◌else◌ {ℓ} : {A : Type ℓ} → Bool → A → A → A
if true then x else y = x
if false then x else y = y

-- A Go string: its bytes.
abbrev pub Text : Type 0
Text = List ℕ

abbrev pub codes : String → Text
codes String.[] = []
codes (String.◌∷◌ c s) = code c ∷ codes s

unfoldable pub Text-discrete : Discrete Text
unfolding ℕ_discrete
Text-discrete [] [] = yes refl
Text-discrete [] (d ∷ t) = no (λ e. cc)
Text-discrete (c ∷ s) [] = no (λ e. cc)
Text-discrete (c ∷ s) (d ∷ t) =
    dite (ℕ_discrete c d)
      (λ p. dite (Text-discrete s t) (λ q. yes (ap₂ ◌∷◌ p q)) (λ n. no (λ e. n (ap tail e))))
      (λ n. no (λ e. n (ap (λ l. elim l [ [] ↦ c | x ∷ _ ↦ x ]) e)))

-- Go's `==` on strings.
abbrev pub same : Text → Text → Bool
same s t = ite (Text-discrete s t) true false

pub same_eq : (s t : Text) → same s t ≡ true → s ≡ t
same_eq s t h = ground arith

pub same_refl : (s : Text) → same s s ≡ true
same_refl s = ground arith

pub Bool-cases : (b : Bool) → (b ≡ true) ⊎ (b ≡ false)
Bool-cases true = inl refl
Bool-cases false = inr refl

pub Option-cases {ℓ} : {A : Type ℓ} (o : Option A) → (o ≡ none) ⊎ ((a : A) × (o ≡ some a))
Option-cases none = inl refl
Option-cases (some a) = inr (a, refl)

same_test : same (codes "GRU") (codes "GRU") ≡ true
unfolding Text-discrete
same_test = refl

same_test_ne : same (codes "GRU") (codes "GRV") ≡ false
unfolding Text-discrete
same_test_ne = refl

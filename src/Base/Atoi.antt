-- ===== src/Base/Atoi.antt =====
-- `strconv.Atoi`: an optional sign and at least one decimal digit, for a number that fits `int`
-- (64 bits).
use aom.Base.Tests.{Text, ltb, leb, ◌==◌, if◌then◌else◌, codes}
use aom.Base.Returns.{Result, ok, err, panic, syntax, if-no_panic}
use aom.Base.Int.{ℤ, pos, negsuc, sub_ℕ}
use Prim.Native.Nat.{ℕ, ◌+◌, ◌-◌, ◌*◌}
use mathlib.Core.Bool.{◌&&◌}
use mathlib.Core.List.{[], ◌∷◌}
use mathlib.Core.Option.{Option, none, some}
use mathlib.Core.Path.{◌≡◌, refl}
use mathlib.Core.Logic.{◌≢◌}

unfoldable pub digits : ℕ → Text → Option ℕ
digits acc [] = some acc
digits acc (c ∷ s) =
    let rest = digits (acc * 10 + (c - 48)) s in if leb 48 c && leb c 57 then rest else none

unfoldable pub unsigned : Text → Option ℕ
unfolding digits
unsigned [] = none
unsigned (c ∷ s) = digits 0 (c ∷ s)

abbrev int_range : ℕ
int_range = 9223372036854775808

abbrev in_range : ℕ → Option ℕ → (ℕ → ℤ) → Result ℤ
in_range limit none sign = err syntax
in_range limit (some n) sign = if ltb n limit then ok (sign n) else err syntax

unfoldable pub atoi : Text → Result ℤ
unfolding unsigned
atoi [] = err syntax
atoi (c ∷ s) =
    if c == b'-'
    then in_range (int_range + 1) (unsigned s) (λ n. sub_ℕ 0 n)
    else if c == b'+'
    then in_range int_range (unsigned s) pos
    else in_range int_range (unsigned (c ∷ s)) pos

in_range-no_panic : (limit : ℕ) (o : Option ℕ) (sign : ℕ → ℤ) → in_range limit o sign ≢ panic
in_range-no_panic limit none sign = λ h. cc
in_range-no_panic limit (some n) sign =
    if-no_panic (ltb n limit) (ok (sign n)) (err syntax) (λ h. cc) (λ h. cc)

pub atoi-no_panic : (s : Text) → atoi s ≢ panic
unfolding atoi
atoi-no_panic [] = λ h. cc
atoi-no_panic (c ∷ s) =
    let minus : ℕ → ℤ = λ n. sub_ℕ 0 n in
    if-no_panic (c == b'-') (in_range (int_range + 1) (unsigned s) minus) _
      (in_range-no_panic (int_range + 1) (unsigned s) minus)
      (if-no_panic (c == b'+') (in_range int_range (unsigned s) pos)
        (in_range int_range (unsigned (c ∷ s)) pos) (in_range-no_panic int_range (unsigned s) pos)
        (in_range-no_panic int_range (unsigned (c ∷ s)) pos))

atoi_test : atoi (codes "24") ≡ ok (pos 24)
unfolding atoi
atoi_test = refl

atoi_test_sign : atoi (codes "-3") ≡ ok (negsuc 2)
unfolding atoi
atoi_test_sign = refl

atoi_test_empty : atoi [] ≡ err syntax
unfolding atoi
atoi_test_empty = refl

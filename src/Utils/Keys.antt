-- ===== src/Utils/Keys.antt =====
-- utils/common.go: the keys under which metrics and models are stored, and Go's `strings.Split`
-- and `strings.Join` at the separator "$".
pub mod Laws
use aom.Base.{ℕ, Bool, Text, List, [], ◌∷◌, ◌++◌, Result, ok, panic, ◌>>=◌, ◌==◌, if◌then◌else◌}

abbrev pub dollar : ℕ
dollar = b'$'

-- Puts a byte in front of the first part.
unfoldable pub attach : ℕ → List Text → List Text
attach c [] = (c ∷ []) ∷ []
attach c (p ∷ ps) = (c ∷ p) ∷ ps

-- `strings.Split(s, "$")`
unfoldable pub split : Text → List Text
unfolding attach
split [] = [] ∷ []
split (c ∷ s) = if c == dollar then [] ∷ split s else attach c (split s)

-- `strings.Join(parts, "$")`
unfoldable pub join : List Text → Text
join [] = []
join (p ∷ []) = p
join (p ∷ q ∷ ps) = p ++ (dollar ∷ join (q ∷ ps))

-- `xs[:len(xs)-1]`, which panics on the empty slice.
unfoldable pub all_but_last : List Text → Result (List Text)
all_but_last [] = panic
all_but_last (p ∷ []) = ok []
all_but_last (p ∷ q ∷ ps) = do rest ← all_but_last (q ∷ ps); ok (p ∷ rest)

-- `xs[len(xs)-1]`, which panics on the empty slice.
unfoldable pub last : List Text → Result Text
last [] = panic
last (p ∷ []) = ok p
last (p ∷ q ∷ ps) = last (q ∷ ps)

unfoldable pub get_with_model_key : Text → Text → Text
get_with_model_key no_model_key model = no_model_key ++ (dollar ∷ model)

unfoldable pub get_no_model_key : Text → Result Text
unfolding split all_but_last join
get_no_model_key with_model_key = do strs ← all_but_last (split with_model_key); ok (join strs)

unfoldable pub get_model_type : Text → Result Text
unfolding split last
get_model_type with_model_type = last (split with_model_type)

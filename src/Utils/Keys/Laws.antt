-- ===== src/Utils/Keys/Laws.antt =====
-- Taking a key apart gives back what it was made of, if the model type holds no "$".
use aom.Base.{
  ℕ, true, false, Text, List, [], ◌∷◌, ◌++◌, ◌≡◌, ◌≢◌, refl, ap, ◌∙◌, All, ok, ◌>>=◌, ◌==◌,
  if◌then◌else◌, arith,
}
use aom.Utils.Keys.{
  dollar, attach, split, join, all_but_last, last, get_with_model_key, get_no_model_key,
  get_model_type,
}

-- The text holds no "$".
abbrev pub IsPlain : Text → Type 0
IsPlain = All (λ c. c ≢ dollar)

-- A list that is not empty, with its first entry.
split-cons : (s : Text) → (p : Text) × (ps : List Text) × (split s ≡ p ∷ ps)
unfolding split
split-cons [] = ([], [], refl)
split-cons (c ∷ s) =
    let (p, ps, e) = split-cons s in
    elim (c == dollar)
      as (λ b.
        (q : Text) × (qs : List Text) × ((if b then [] ∷ split s else attach c (split s))
          ≡ q ∷ qs)) [ true ↦ ([], split s, refl) | false ↦ (c ∷ p, ps, ap (attach c) e) ]

join-attach : (c : ℕ) (ps : List Text) → join (attach c ps) ≡ c ∷ join ps
unfolding attach join
join-attach c [] = refl
join-attach c (p ∷ []) = refl
join-attach c (p ∷ q ∷ ps) = refl

join-cons : (p : Text) (s : Text) → join (p ∷ split s) ≡ p ++ (dollar ∷ join (split s))
unfolding join
join-cons p s = let (q, qs, e) = split-cons s in rw e refl

-- Joining the parts of a split gives the text back.
pub join-split : (s : Text) → join (split s) ≡ s
unfolding split join
join-split [] = refl
join-split (c ∷ s) = ground (arith, join-cons [] s, join-split s, join-attach c (split s))

attach-append : (c : ℕ) (ps qs : List Text) → ps ≢ [] → attach c (ps ++ qs) ≡ attach c ps ++ qs
unfolding attach
attach-append c [] qs h = absurd (h refl)
attach-append c (p ∷ ps) qs h = refl

split-ne-nil : (s : Text) → split s ≢ []
split-ne-nil s h = let (q, qs, e) = split-cons s in cc

split_plain : (t : Text) → IsPlain t → split t ≡ t ∷ []
unfolding split attach
split_plain [] h = refl
split_plain (c ∷ t) (h, hs) = ground (arith, split_plain t hs)

-- A split at a key ends with the model type.
split-append : (n t : Text) → IsPlain t → split (n ++ (dollar ∷ t)) ≡ split n ++ t ∷ []
unfolding split
split-append [] t h = ground (arith, split_plain t h)
split-append (c ∷ n) t h =
    ground (arith, split-append n t h, attach-append c (split n) (t ∷ []) (split-ne-nil n))

all_but_last-append : (ps : List Text) (t : Text) → all_but_last (ps ++ t ∷ []) ≡ ok ps
unfolding all_but_last
all_but_last-append [] t = refl
all_but_last-append (p ∷ []) t = refl
all_but_last-append (p ∷ q ∷ ps) t = rw (all_but_last-append (q ∷ ps) t, ◌>>=◌)

last-append : (ps : List Text) (t : Text) → last (ps ++ t ∷ []) ≡ ok t
unfolding last
last-append [] t = refl
last-append (p ∷ []) t = refl
last-append (p ∷ q ∷ ps) t = last-append (q ∷ ps) t

all_but_last-cons :
    (p : Text) (ps : List Text) → (rest : List Text) × (all_but_last (p ∷ ps) ≡ ok rest)
unfolding all_but_last
all_but_last-cons p [] = ([], refl)
all_but_last-cons p (q ∷ ps) = let (rest, e) = all_but_last-cons q ps in (p ∷ rest, rw (e, ◌>>=◌))

-- Taking a key apart never fails, whatever the key.
pub get_no_model_key-returns : (s : Text) → (t : Text) × (get_no_model_key s ≡ ok t)
unfolding get_no_model_key
get_no_model_key-returns s =
    let (p, ps, e) = split-cons s in
    let (rest, f) = all_but_last-cons p ps in (join rest, rw (e, f, ◌>>=◌))

last-cons : (p : Text) (ps : List Text) → (t : Text) × (last (p ∷ ps) ≡ ok t)
unfolding last
last-cons p [] = (p, refl)
last-cons p (q ∷ ps) = last-cons q ps

pub get_model_type-returns : (s : Text) → (t : Text) × (get_model_type s ≡ ok t)
unfolding get_model_type
get_model_type-returns s =
    let (p, ps, e) = split-cons s in let (t, f) = last-cons p ps in (t, ap last e ∙ f)

pub get_no_model_key-get_with_model_key :
    (n t : Text) → IsPlain t → get_no_model_key (get_with_model_key n t) ≡ ok n
unfolding get_no_model_key get_with_model_key
get_no_model_key-get_with_model_key n t h =
    rw (split-append n t h, all_but_last-append (split n) t, join-split n)

pub get_model_type-get_with_model_key :
    (n t : Text) → IsPlain t → get_model_type (get_with_model_key n t) ≡ ok t
unfolding get_model_type get_with_model_key
get_model_type-get_with_model_key n t h = rw (split-append n t h, last-append (split n) t)

-- Equal keys come from equal parts.
pub get_with_model_key_injective :
    (m n t u : Text)
    → IsPlain t
    → IsPlain u
    → get_with_model_key m t ≡ get_with_model_key n u
    → (m ≡ n) × (t ≡ u)
get_with_model_key_injective m n t u h k e = (
  cc (get_no_model_key-get_with_model_key m t h, get_no_model_key-get_with_model_key n u k),
  cc (get_model_type-get_with_model_key m t h, get_model_type-get_with_model_key n u k),
)

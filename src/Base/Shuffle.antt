-- ===== src/Base/Shuffle.antt =====
-- Rearrangements of a list: the orders in which a `range` over a map may visit its entries.
use mathlib.Core.Path.{◌≡◌, refl, sym, ap, ◌∙◌}
use mathlib.Core.Logic.{inl, inr}
use mathlib.Core.List.{List, [], ◌∷◌, map, tail}
use Prim.Native.Nat.{ℕ, suc}
use aom.Base.Tests.{Text, same, if◌then◌else◌}
use aom.Base.Dict.{Dict, mem, keys, has, mem-keys}
use native.Mathlib.Omega.{arith}
use aom.Base.Lists.{In, All}

pub data Shuffle {A : Type 0} : List A → List A → Type 0 where
  nothing : Shuffle [] []
  under : (x : A) {xs ys : List A} → Shuffle xs ys → Shuffle (x ∷ xs) (x ∷ ys)
  exchange : (x y : A) (xs : List A) → Shuffle (x ∷ y ∷ xs) (y ∷ x ∷ xs)
  after : {xs ys zs : List A} → Shuffle xs ys → Shuffle ys zs → Shuffle xs zs

pub Shuffle-refl : {A : Type 0} (xs : List A) → Shuffle xs xs
Shuffle-refl [] = nothing
Shuffle-refl (x ∷ xs) = under x (Shuffle-refl xs)

pub Shuffle-sym : {A : Type 0} {xs ys : List A} → Shuffle xs ys → Shuffle ys xs
Shuffle-sym nothing = nothing
Shuffle-sym (under x p) = under x (Shuffle-sym p)
Shuffle-sym (exchange x y xs) = exchange y x xs
Shuffle-sym (after p q) = after (Shuffle-sym q) (Shuffle-sym p)

pub Shuffle-In : {A : Type 0} (a : A) {xs ys : List A} → Shuffle xs ys → In a xs → In a ys
Shuffle-In a nothing m = m
Shuffle-In a (under x p) (inl e) = inl e
Shuffle-In a (under x p) (inr m) = inr (Shuffle-In a p m)
Shuffle-In a (exchange x y xs) (inl e) = inr (inl e)
Shuffle-In a (exchange x y xs) (inr (inl e)) = inl e
Shuffle-In a (exchange x y xs) (inr (inr m)) = inr (inr m)
Shuffle-In a (after p q) m = Shuffle-In a q (Shuffle-In a p m)

-- No entry stands twice.
abbrev pub Distinct : {A : Type 0} → List A → Type 0
Distinct [] = Unit
Distinct (x ∷ xs) = (In x xs → ⊥) × Distinct xs

pub Shuffle-Distinct : {A : Type 0} {xs ys : List A} → Shuffle xs ys → Distinct xs → Distinct ys
Shuffle-Distinct nothing d = d
Shuffle-Distinct (under x p) (n, d) =
    (λ m. n (Shuffle-In x (Shuffle-sym p) m), Shuffle-Distinct p d)
Shuffle-Distinct (exchange x y xs) (n, (m, d)) =
    (λ h. elim h [ inl e ↦ n (inl (sym e)) | inr k ↦ m k ], (λ h. n (inr h), d))
Shuffle-Distinct (after p q) d = Shuffle-Distinct q (Shuffle-Distinct p d)

pub Shuffle-nil : {A : Type 0} {xs ys : List A} → Shuffle xs ys → ys ≡ [] → xs ≡ []
Shuffle-nil nothing e = e
Shuffle-nil (under x p) e = cc
Shuffle-nil (exchange x y xs) e = cc
Shuffle-nil (after p q) e = Shuffle-nil p (Shuffle-nil q e)

pub Shuffle-All {κ} :
    {A : Type 0} (P : A → Type κ) {xs ys : List A} → Shuffle xs ys → All P xs → All P ys
Shuffle-All P nothing a = a
Shuffle-All P (under x p) (h, a) = (h, Shuffle-All P p a)
Shuffle-All P (exchange x y xs) (h, (k, a)) = (k, (h, a))
Shuffle-All P (after p q) a = Shuffle-All P q (Shuffle-All P p a)

-- One entry has one order.
pub Shuffle-one : {A : Type 0} {xs ys : List A} (a : A) → Shuffle xs ys → ys ≡ a ∷ [] → xs ≡ a ∷ []
Shuffle-one a nothing e = e
Shuffle-one a (under x p) e = let h = Shuffle-nil p (ap tail e) in cc
Shuffle-one a (exchange x y xs) e = cc
Shuffle-one a (after p q) e = Shuffle-one a p (Shuffle-one a q e)

pub Shuffle-map :
    {A B : Type 0} (f : A → B) {xs ys : List A} → Shuffle xs ys → Shuffle (map f xs) (map f ys)
Shuffle-map f nothing = nothing
Shuffle-map f (under x p) = under (f x) (Shuffle-map f p)
Shuffle-map f (exchange x y xs) = exchange (f x) (f y) (map f xs)
Shuffle-map f (after p q) = after (Shuffle-map f p) (Shuffle-map f q)

pub Shuffle-mem : {xs ys : List Text} (k : Text) → Shuffle xs ys → mem k xs ≡ mem k ys
unfolding mem
Shuffle-mem k nothing = refl
Shuffle-mem k (under x p) = ground (arith, Shuffle-mem k p)
Shuffle-mem k (exchange x y xs) = ground arith
Shuffle-mem k (after p q) = Shuffle-mem k p ∙ Shuffle-mem k q

keys-eq-map : {V : Type 0} (d : Dict V) → keys d ≡ map (λ (e : Text × V). e.0) d
unfolding keys
keys-eq-map [] = refl
keys-eq-map ((k, m) ∷ d) = ap (◌∷◌ k) (keys-eq-map d)

-- The keys that a range over a map meets are those of the map.
pub mem_keys-Shuffle :
    {V : Type 0} (j : Text) {d e : Dict V} → Shuffle d e → mem j (keys d) ≡ has j e
mem_keys-Shuffle {V} j {d} {e} p =
    ap (mem j) (keys-eq-map d)
    ∙ (Shuffle-mem j (Shuffle-map (λ (x : Text × V). x.0) p)
        ∙ (sym (ap (mem j) (keys-eq-map e)) ∙ mem-keys j e))

-- How often the list has the text.
unfoldable pub count : Text → List Text → ℕ
count j [] = 0
count j (k ∷ ks) = let rest = count j ks in if same j k then suc rest else rest

pub Shuffle-count : (j : Text) {xs ys : List Text} → Shuffle xs ys → count j xs ≡ count j ys
unfolding count
Shuffle-count j nothing = refl
Shuffle-count j (under x p) = ap (λ n. if same j x then suc n else n) (Shuffle-count j p)
Shuffle-count j (exchange x y xs) = ground arith
Shuffle-count j (after p q) = Shuffle-count j p ∙ Shuffle-count j q

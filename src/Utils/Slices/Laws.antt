-- ===== src/Utils/Slices/Laws.antt =====
-- What the slice helpers compute.
use aom.Base.{
  List, [], ◌∷◌, ◌≡◌, ◌⊎◌, inl, refl, subst, ok, if◌then◌else◌, In, All, arith, ok_injective,
}
use aom.Base.Int.{ℤ, ◌≤ℤ◌, ltb_ℤ}
use aom.Utils.Slices.{max_from, max, min_from}

pub max_from-ge : (m : ℤ) (xs : List ℤ) → (m ≤ℤ max_from m xs) × All (λ x. x ≤ℤ max_from m xs) xs
unfolding max_from
max_from-ge m [] = (omega arith, tt)
max_from-ge m (x ∷ xs) = ground (arith, max_from-ge (if ltb_ℤ m x then x else m) xs)

pub max_from-In : (m : ℤ) (xs : List ℤ) → (max_from m xs ≡ m) ⊎ In (max_from m xs) xs
unfolding max_from
max_from-In m [] = inl refl
max_from-In m (x ∷ xs) = ground (arith, max_from-In (if ltb_ℤ m x then x else m) xs)

-- `Max` of a slice is a greatest entry of it.
pub max-greatest : (xs : List ℤ) {m : ℤ} → max xs ≡ ok m → In m xs × All (λ x. x ≤ℤ m) xs
unfolding max
max-greatest [] e = cc
max-greatest (x ∷ xs) e =
    subst (λ v. In v (x ∷ xs) × All (λ y. y ≤ℤ v) (x ∷ xs)) (ok_injective e)
      (max_from-In x xs, max_from-ge x xs)

pub max-ne-nil : (x : ℤ) (xs : List ℤ) → (m : ℤ) × (max (x ∷ xs) ≡ ok m)
unfolding max
max-ne-nil x xs = (max_from x xs, refl)

pub min_from-le : (m : ℤ) (xs : List ℤ) → (min_from m xs ≤ℤ m) × All (λ x. min_from m xs ≤ℤ x) xs
unfolding min_from
min_from-le m [] = (omega arith, tt)
min_from-le m (x ∷ xs) = ground (arith, min_from-le (if ltb_ℤ x m then x else m) xs)

pub min_from-In : (m : ℤ) (xs : List ℤ) → (min_from m xs ≡ m) ⊎ In (min_from m xs) xs
unfolding min_from
min_from-In m [] = inl refl
min_from-In m (x ∷ xs) = ground (arith, min_from-In (if ltb_ℤ x m then x else m) xs)

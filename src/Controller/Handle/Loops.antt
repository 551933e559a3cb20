-- ===== src/Controller/Handle/Loops.antt =====
-- The scheduler's loop that a creation starts.
use aom.Base.{
  true, List, [], ◌∷◌, ◌++◌, some, ◌≡◌, refl, sym, ap, ap₂, subst, ◌∙◌, ok, same, same_eq, inl, inr,
  Option-cases, Bool-cases, arith,
}
use aom.Base.Int.{ℤ}
use aom.Floats.{Floats}
use aom.K8s.{Scales}
use aom.Aomtype.{Name, same_name}
use aom.Controller.Handle.Alike.{
  IsAlike, IsAlike-trans, prepared, prepared-IsAlike, handle_update-IsAlike, handle_create-updates,
}
use aom.Controller.Handle.{
  Scheduler, find_scheduler, get_or_new, Outside, World, start_scheduler, handle_create,
}

same_name-eq : (m n : Name) → same_name m n ≡ true → m ≡ n
same_name-eq (a, b) (c, d) e = elim (Bool-cases (same a c)) [
  | inl f ↦ ap₂ (λ x y. (x, y)) (same_eq a c f) (same_eq b d (ground arith))
  | inr f ↦ absurd (ground arith)
]

find_scheduler-name :
    (n : Name) (ss : List Scheduler) {s : Scheduler} → find_scheduler n ss ≡ some s → s.name ≡ n
unfolding find_scheduler
find_scheduler-name n [] e = cc
find_scheduler-name n (t ∷ ss) {s} e = elim (Bool-cases (same_name n t.name)) [
  | inl f ↦
      let one : t ≡ s = ground arith in
      sym (same_name-eq n s.name (subst (λ (u : Scheduler). same_name n u.name ≡ true) one f))
  | inr f ↦
      let later : find_scheduler n ss ≡ some s = ground arith in find_scheduler-name n ss later
]

-- The scheduler that `GetOrNew` returns has the name; it is the one that was there, if any.
get_or_new-facts :
    (n : Name) (interval : ℤ) (ss : List Scheduler)
    → let s = (get_or_new n interval ss).0 in
      (s.name ≡ n) × ((t : Scheduler) → find_scheduler n ss ≡ some t → s ≡ t)
unfolding get_or_new
get_or_new-facts n interval ss = elim (Option-cases (find_scheduler n ss)) [
  | inl e ↦ rw (e, get_or_new) (refl, λ t f. cc)
  | inr (s, e) ↦ rw (e, get_or_new) (find_scheduler-name n ss e, λ t f. cc)
]

module _ {F : Floats} {K : Scales} where
  start_scheduler-facts :
      (v w : World F K)
      → IsAlike v w
      → let w' = start_scheduler F K w in
        let n : Name = (v.aom.namespace, v.aom.name) in
        (s : Scheduler) × (w'.loops ≡ v.loops ++ s ∷ [])
        × (s.name ≡ n)
        × ((t : Scheduler) → find_scheduler n v.schedulers ≡ some t → s ≡ t)
  unfolding start_scheduler
  start_scheduler-facts v w h =
      let n : Name = (w.aom.namespace, w.aom.name) in
      let made = get_or_new n w.aom.spec.interval w.schedulers in
      let facts = get_or_new-facts n w.aom.spec.interval w.schedulers in
      (
        made.0,
        ap (λ l. l ++ made.0 ∷ []) h.loops,
        facts.0 ∙ h.name,
        λ t e. facts.1 t (ap₂ find_scheduler h.name h.schedulers ∙ e),
      )

  -- Every creation that succeeds starts one loop of the scheduler that has the instance's name.
  -- If there is one of that name already, it is started once more, with the interval that it has.
  pub handle_create-starts :
      (x : Outside F K) (w : World F K) {w' : World F K}
      → handle_create F K x w ≡ (ok tt, w')
      → let n : Name = (w.aom.namespace, w.aom.name) in
        (s : Scheduler) × (w'.loops ≡ w.loops ++ s ∷ [])
        × (s.name ≡ n)
        × ((t : Scheduler) → find_scheduler n w.schedulers ≡ some t → s ≡ t)
  handle_create-starts x w {w'} e =
      let (q, f, g) = handle_create-updates x w e in
      let alike = IsAlike-trans (prepared-IsAlike x w) (handle_update-IsAlike x (prepared x w) f) in
      let (s, l, name, old) = start_scheduler-facts w q alike in
      (s, ap (λ (v : World F K). v.loops) (sym g) ∙ l, name, old)

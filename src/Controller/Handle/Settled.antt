-- ===== src/Controller/Handle/Settled.antt =====
-- What a handled generation means.
use aom.Base.{true, ◌≡◌, refl, sym, ap, subst, ok, inl, inr, Bool-cases}
use aom.Base.Int.{eqb_ℤ, eqb_ℤ→eq, eqb_ℤ-refl}
use aom.Base.Action.{and_then-eq-ok}
use aom.Floats.{Floats}
use aom.K8s.{Scales}
use aom.Controller.Handle.{Outside, World, run_client, dispatch, handle}

module _ (F : Floats) (K : Scales) where
  -- A successful call leaves the instance's generation as its status's generation.
  handle-settled :
      (x : Outside F K) (w : World F K) {w' : World F K}
      → handle F K x w ≡ (ok tt, w')
      → w'.aom.status.generation ≡ w'.aom.generation
  unfolding handle
  handle-settled x w {w'} e = elim (Bool-cases (eqb_ℤ w.aom.status.generation w.aom.generation)) [
    | inl same ↦
        let unchanged : w ≡ w' = ap (λ p. p.1) (rw (same, handle) at e) in
        subst (λ (v : World F K). v.aom.status.generation ≡ v.aom.generation) unchanged
          (eqb_ℤ→eq _ _ same)
    | inr differ ↦
        let (_, s₁, _, e₁) =
          and_then-eq-ok (run_client F K x.connect w) _ (rw (differ, handle) at e) in
        let (_, s₂, _, e₂) = and_then-eq-ok (dispatch F K x s₁) _ e₁ in
        subst (λ (v : World F K). v.aom.status.generation ≡ v.aom.generation) (ap (λ p. p.1) e₂)
          refl
  ]

  -- Once a generation was handled without an error, handling the instance again with that status
  -- returns without an error and changes nothing, whatever the outside answers.
  pub handle_twice :
      (x y : Outside F K) (w : World F K) {w' : World F K}
      → handle F K x w ≡ (ok tt, w')
      → handle F K y w' ≡ (ok tt, w')
  unfolding handle
  handle_twice x y w {w'} e =
      let same : eqb_ℤ w'.aom.status.generation w'.aom.generation ≡ true =
        subst (λ g. eqb_ℤ g w'.aom.generation ≡ true) (sym (handle-settled x w e))
          (eqb_ℤ-refl w'.aom.generation) in
      rw (same, handle)

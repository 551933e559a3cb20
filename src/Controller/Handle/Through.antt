-- ===== src/Controller/Handle/Through.antt =====
-- How what an update leaves comes through a whole call of `Reconcile`.
use aom.Base.{Bool, true, false, ◌≡◌, ◌⊎◌, ap, subst, Result, ok, err, panic, inl, inr, Bool-cases}
use aom.Base.Int.{pos, eqb_ℤ, ltb_ℤ}
use aom.Base.Action.{and_then-returns}
use aom.Floats.{Floats}
use aom.K8s.{Scales, Client}
use aom.Controller.{Aom, AomSpec}
use aom.Controller.Handle.{
  Outside, World, start_scheduler, handle_update, handle_create, run_client, dispatch, handle,
  set_generation, Reconciled, reconciled, reconcile, found,
}
use aom.Controller.Handle.Alike.{prepared, prepared-IsAlike, handle_create-updates}

-- The generation calls for a creation or an update.
pub record IsNew (aom : Aom) : Type 0 where
  pub differs : eqb_ℤ aom.status.generation aom.generation ≡ false
  pub calls :
      (eqb_ℤ aom.status.generation (pos 0) ≡ true)
      ⊎ (ltb_ℤ aom.status.generation aom.generation ≡ true)

module _ {F : Floats} {K : Scales} where
  -- An update leaves `P` of its spec if `Ready` holds, and the other calls of `Reconcile` keep it;
  -- `Before` is what must hold when `Reconcile` begins.
  pub record IsLeft (x : Outside F K) (Before Ready : World F K → Type 0)
      (P : AomSpec → World F K → Type 0) : Type 0 where
    pub by_client : (w : World F K) (c : Client K) → Before w → Before (record w { client = c })
    pub by_prepared : (w : World F K) → Before w → Ready (prepared x w)
    pub by_older :
        (w : World F K) → eqb_ℤ w.aom.status.generation (pos 0) ≡ false → Before w → Ready w
    pub by_update :
        (w : World F K) {w' : World F K}
        → Ready w
        → handle_update F K x w ≡ (ok tt, w')
        → P w.aom.spec w'
    pub by_scheduler : (spec : AomSpec) (w : World F K) → P spec w → P spec (start_scheduler F K w)
    pub by_generation : (spec : AomSpec) (w : World F K) → P spec w → P spec (set_generation F K w)

  module _ (x : Outside F K) {Before Ready : World F K → Type 0} {P : AomSpec → World F K → Type 0}
      (k : IsLeft x Before Ready P) where
    handle_create-leaves :
        (w : World F K) {w' : World F K}
        → Before w
        → handle_create F K x w ≡ (ok tt, w')
        → P w.aom.spec w'
    handle_create-leaves w h e =
        let (q, f, g) = handle_create-updates x w e in
        let done = k.by_update (prepared x w) (k.by_prepared w h) f in
        subst (P w.aom.spec) g
          (k.by_scheduler w.aom.spec q (subst (λ s. P s q) (prepared-IsAlike x w).spec done))

    dispatch-leaves :
        (w : World F K) {w' : World F K}
        → Before w
        → (eqb_ℤ w.aom.status.generation (pos 0) ≡ true)
          ⊎ (ltb_ℤ w.aom.status.generation w.aom.generation ≡ true)
        → dispatch F K x w ≡ (ok tt, w')
        → P w.aom.spec w'
    unfolding dispatch
    dispatch-leaves w h n e = elim (Bool-cases (eqb_ℤ w.aom.status.generation (pos 0))) [
      | inl first ↦ handle_create-leaves w h (rw (first, dispatch) at e)
      | inr later ↦ elim n [
        | inl first ↦ absurd cc
        | inr older ↦ k.by_update w (k.by_older w later h) (rw (later, older, dispatch) at e)
      ]
    ]

    handle-leaves :
        (w : World F K) {w' : World F K}
        → Before w
        → IsNew w.aom
        → handle F K x w ≡ (ok tt, w')
        → P w.aom.spec w'
    unfolding handle run_client
    handle-leaves w h n e =
        let (_, _, e₁) =
          and_then-returns (run_client F K x.connect w) _ (rw (n.differs, handle) at e) in
        let v = (run_client F K x.connect w).1 in
        let (_, f, e₂) = and_then-returns (dispatch F K x v) _ e₁ in
        let q = (dispatch F K x v).1 in
        let done =
          dispatch-leaves v (k.by_client w _ h) n.calls
            (ap (λ (r : Result (Unit {0})). (r, q)) f) in
        subst (P w.aom.spec) (ap (λ (r : Result (Unit {0}) × World F K). r.1) e₂)
          (k.by_generation w.aom.spec q done)

    reconciled-ok :
        (r : Result (Unit {0}) × World F K) {b : Bool} {w' : World F K}
        → reconciled F K r ≡ (record { requeue = b; result = ok tt }, w')
        → r ≡ (ok tt, w')
    unfolding reconciled
    reconciled-ok (ok _, w) e = ap (λ (y : Reconciled F K × World F K). (ok tt, y.1)) e
    reconciled-ok (err x, w) e = cc
    reconciled-ok (panic, w) e = cc

    pub reconcile-leaves :
        (aom : Aom) (w : World F K) {w' : World F K}
        → Before (record w { aom = aom })
        → IsNew aom
        → reconcile F K x (found aom) w ≡ (record { requeue = false; result = ok tt }, w')
        → P aom.spec w'
    unfolding reconcile
    reconcile-leaves aom w h n e =
        handle-leaves (record w { aom = aom }) h n
          (reconciled-ok (handle F K x (record w { aom = aom })) e)

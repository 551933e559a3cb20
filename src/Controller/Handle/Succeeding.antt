-- ===== src/Controller/Handle/Succeeding.antt =====
-- When `Reconcile` succeeds.
use aom.Base.{false, ◌≡◌, refl, sym, ap, subst, ◌∙◌, Result, ok, inl, inr, Bool-cases}
use aom.Base.Int.{pos, eqb_ℤ, ltb_ℤ}
use aom.Base.Action.{and_then-ok, and_then-returns}
use aom.Floats.{Floats}
use aom.K8s.{Scales, new_client}
use aom.Controller.{Aom, IsRanges}
use aom.Controller.Handle.{
  Outside, World, init_collector, set_address, handle_update, handle_create, run_metrics,
  run_models, run_collector, run_predictor, run_client, dispatch, handle, set_generation,
  reconciled, reconcile, found,
}
use aom.Controller.Handle.Kept.{IsSound-IsKept}
use aom.Controller.Handle.Alike.{prepared, prepared-IsAlike}
use aom.Controller.Handle.Complete.{IsComplete}
use aom.Controller.Handle.Returning.{handle_update-returns}
use aom.Controller.Handle.Through.{IsNew}
use aom.Controller.Handle.Done.{IsDone, reconcile-IsDone}
use aom.Controller.Handle.Opened.{
  IsOpen, HasCollector, init_collector-IsSetUp, set_address-returns, prepared-IsSetUp,
  prepared-IsOpen,
}

module _ {F : Floats} {K : Scales} where
  -- The connection, the Prometheus client and the status update succeed.
  pub record IsAnswering (x : Outside F K) (w : World F K) : Type 0 where
    pub connected : (new_client K x.connect w.client).0 ≡ ok tt
    pub addressed : x.api_new_client ≡ ok tt
    pub written : x.update_status ≡ ok tt

  -- A creation succeeds if its call for the address and the update of what is then there do.
  handle_create-returns :
      (x : Outside F K) (w : World F K)
      → (let v = init_collector F K w in
          (set_address F K x.api_new_client v.p_collector v).0 ≡ ok tt)
      → (handle_update F K x (prepared x w)).0 ≡ ok tt
      → (handle_create F K x w).0 ≡ ok tt
  unfolding handle_create handle_update
  handle_create-returns x w s e =
      let v = init_collector F K w in
      let c = prepared x w in
      let m = (run_metrics F K x.ranges c).1 in
      let n = (run_models F K x.ranges m).1 in
      let k = (run_collector F K x.ranges n).1 in
      let whole = ap (λ (r : Result (Unit {0})). (r, (handle_update F K x c).1)) e in
      let (_, f₁, e₁) = and_then-returns (run_metrics F K x.ranges c) _ whole in
      let (changes, f₂, e₂) = and_then-returns (run_models F K x.ranges m) _ e₁ in
      let (_, f₃, e₃) = and_then-returns (run_collector F K x.ranges n) _ e₂ in
      let f₄ = ap (λ (r : Result (Unit {0}) × World F K). r.0) e₃ in
      ap (λ (r : Result (Unit {0}) × World F K). r.0)
        (and_then-ok (set_address F K x.api_new_client v.p_collector v) _ s
          ∙ (and_then-ok (run_metrics F K x.ranges c) _ f₁
              ∙ (and_then-ok (run_models F K x.ranges m) _ f₂
                  ∙ (and_then-ok (run_collector F K x.ranges n) _ f₃
                      ∙ and_then-ok (run_predictor F K x.json x.ranges changes k) _ f₄))))

  open_create :
      (x : Outside F K) (w : World F K)
      → IsRanges x.ranges
      → x.api_new_client ≡ ok tt
      → IsOpen w.aom.spec w
      → IsComplete F x.json w.aom.spec
      → (handle_create F K x w).0 ≡ ok tt
  open_create x w law e h c =
      let v = init_collector F K w in
      let made = (init_collector-IsSetUp w).collector.1 in
      let opened = prepared-IsOpen x w law h in
      handle_create-returns x w
        (ap (λ r. (set_address F K r v.p_collector v).0) e
          ∙ set_address-returns v.p_collector v made)
        (handle_update-returns x (prepared x w) law opened.sound (prepared-IsSetUp x w).collector.1
          opened.inside opened.workers
          (subst (IsComplete F x.json) (sym (prepared-IsAlike x w).spec) c))

  open_dispatch :
      (x : Outside F K) (w : World F K)
      → IsRanges x.ranges
      → x.api_new_client ≡ ok tt
      → IsOpen w.aom.spec w
      → HasCollector w.aom w
      → IsComplete F x.json w.aom.spec
      → (dispatch F K x w).0 ≡ ok tt
  unfolding dispatch
  open_dispatch x w law e h p c = elim (Bool-cases (eqb_ℤ w.aom.status.generation (pos 0))) [
    | inl first ↦ rw (first, dispatch) (open_create x w law e h c)
    | inr later ↦ elim p [
      | inl first ↦ absurd cc
      | inr (q, made) ↦ elim (Bool-cases (ltb_ℤ w.aom.status.generation w.aom.generation)) [
        | inl older ↦
            rw (later, older, dispatch)
              (handle_update-returns x w law h.sound made h.inside h.workers c)
        | inr newer ↦ rw (later, newer, dispatch) refl
      ]
    ]
  ]

  open_handle :
      (x : Outside F K) (w : World F K)
      → IsRanges x.ranges
      → IsAnswering x w
      → IsOpen w.aom.spec w
      → HasCollector w.aom w
      → IsComplete F x.json w.aom.spec
      → (handle F K x w).0 ≡ ok tt
  unfolding handle run_client set_generation
  open_handle x w law a h p c = elim (Bool-cases (eqb_ℤ w.aom.status.generation w.aom.generation)) [
    | inl same ↦ rw (same, handle) refl
    | inr differ ↦
        let v = (run_client F K x.connect w).1 in
        let opened : IsOpen v.aom.spec v = record {
          sound = (IsSound-IsKept x.ranges law).by_client w _ h.sound;
          inside = h.inside;
          workers = h.workers;
        } in
        let done = open_dispatch x v law a.addressed opened p c in
        rw (differ, handle)
          (ap (λ (r : Result (Unit {0}) × World F K). r.0)
              (and_then-ok (run_client F K x.connect w) _ a.connected
                ∙ and_then-ok (dispatch F K x v) _ done)
            ∙ a.written)
  ]

  -- When `Reconcile` reads an instance whose spec is complete and whose generation calls for a
  -- creation, or for an update once the collector was made, the connection, the Prometheus client
  -- and the status update succeed, every stored pointer leads to a cell, each key with a channel is
  -- that of a metric of the spec and the keys with a worker are those with a channel, then the call
  -- succeeds without a further request, in whatever orders the ranges visit, and the maps of
  -- metrics, models and predictors are in step with the spec.
  pub reconcile-succeeds :
      (x : Outside F K) (aom : Aom) (w : World F K)
      → IsRanges x.ranges
      → IsNew aom
      → IsAnswering x w
      → IsOpen aom.spec w
      → HasCollector aom w
      → IsComplete F x.json aom.spec
      → (w' : World F K) × (reconcile F K x (found aom) w
          ≡ (record { requeue = false; result = ok tt }, w'))
        × IsDone aom.spec w'
  unfolding reconcile reconciled
  reconcile-succeeds x aom w law n a h p c =
      let v = record w { aom = aom } in
      let opened : IsOpen aom.spec v = record {
        sound = (IsSound-IsKept x.ranges law).by_aom w aom h.sound;
        inside = h.inside;
        workers = h.workers;
      } in
      let answering : IsAnswering x v = record {
        connected = a.connected;
        addressed = a.addressed;
        written = a.written;
      } in
      let w' = (handle F K x v).1 in
      let e =
        ap (λ (r : Result (Unit {0})). reconciled F K (r, w'))
          (open_handle x v law answering opened p c) in
      (w', e, reconcile-IsDone x aom w law h.sound n e)

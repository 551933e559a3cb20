-- ===== src/Controller/Handle/Frame.antt =====
-- A property of the state that each part of a call keeps is kept by the whole call.
use aom.Base.{Bool, true, false, Option, none, some, Result, ok, err, panic, if◌then◌else◌}
use aom.Base.Int.{pos, eqb_ℤ, ltb_ℤ}
use aom.Base.Action.{and_then-keeps}
use aom.Base.Dict.{Dict}
use aom.Basetype.{Model}
use aom.Floats.{Floats}
use aom.K8s.{Scales, Client}
use aom.Collector
use aom.Collector.{Promc}
use aom.Ptype.{Json}
use aom.Controller.{Aom, Ranges}
use aom.Controller.Handle.{
  Outside, World, run_metrics, run_models, run_collector, run_predictor, handle_update,
  handle_create, init_collector, set_address, init_scaler, start_scheduler, run_client, dispatch,
  handle, set_generation, Fetched, found, not_found, failed, reconcile, reconciled,
}

module _ {F : Floats} {K : Scales} where
  pub record IsKept (o : Ranges) (P : World F K → Type 0) : Type 0 where
    pub by_aom : (w : World F K) (aom : Aom) → P w → P (record w { aom = aom })
    pub by_promc : (w : World F K) (p : Option Promc) → P w → P (record w { p_collector = p })
    pub by_client : (w : World F K) (c : Client K) → P w → P (record w { client = c })
    pub by_scaler : (w : World F K) → P w → P (init_scaler F K w)
    pub by_scheduler : (w : World F K) → P w → P (start_scheduler F K w)
    pub by_metrics : (w : World F K) → P w → P (run_metrics F K o w).1
    pub by_models : (w : World F K) → P w → P (run_models F K o w).1
    pub by_collector : (w : World F K) → P w → P (run_collector F K o w).1
    pub by_predictor :
        (json : Json) (changes : Dict Model) (w : World F K)
        → P w
        → P (run_predictor F K json o changes w).1

  module _ (P : World F K → Type 0) (x : Outside F K) (k : IsKept x.ranges P) where
    handle_update-keeps : (w : World F K) → P w → P (handle_update F K x w).1
    unfolding handle_update
    handle_update-keeps w h =
        and_then-keeps P (run_metrics F K x.ranges w) _ (k.by_metrics w h) (λ _ a ha.
          and_then-keeps P (run_models F K x.ranges a) _ (k.by_models a ha) (λ changes b hb.
            and_then-keeps P (run_collector F K x.ranges b) _ (k.by_collector b hb)
              (λ _ c hc. k.by_predictor x.json changes c hc)))

    pub init_collector-keeps : (w : World F K) → P w → P (init_collector F K w)
    unfolding init_collector
    init_collector-keeps w h =
        elim w.p_collector
          as (λ (p : Option Promc).
            P (elim p [ none ↦ record w { p_collector = some Collector.new } | some q ↦ w ])) [
              | none ↦ k.by_promc w (some Collector.new) h
              | some p ↦ h
            ]

    pub set_address-keeps :
        (answer : Result (Unit {0})) (p : Option Promc) (w : World F K)
        → P w
        → P (set_address F K answer p w).1
    unfolding set_address
    set_address-keeps answer none w h = h
    set_address-keeps answer (some p) w h = k.by_promc w _ h

    handle_create-keeps : (w : World F K) → P w → P (handle_create F K x w).1
    unfolding handle_create
    handle_create-keeps w h =
        let v = init_collector F K w in
        and_then-keeps P (set_address F K x.api_new_client v.p_collector v) _
          (set_address-keeps x.api_new_client v.p_collector v (init_collector-keeps w h))
          (λ _ s hs.
            let t = init_scaler F K s in
            and_then-keeps P (run_metrics F K x.ranges t) _ (k.by_metrics t (k.by_scaler s hs))
              (λ _ a ha.
                and_then-keeps P (run_models F K x.ranges a) _ (k.by_models a ha) (λ changes b hb.
                  and_then-keeps P (run_collector F K x.ranges b) _ (k.by_collector b hb) (λ _ c hc.
                    and_then-keeps P (run_predictor F K x.json x.ranges changes c) _
                      (k.by_predictor x.json changes c hc) (λ _ d hd. k.by_scheduler d hd)))))

    either-keeps :
        (b : Bool) (r t : Result (Unit {0}) × World F K) → P r.1 → P t.1 → P (if b then r else t).1
    either-keeps true r t p q = p
    either-keeps false r t p q = q

    dispatch-keeps : (w : World F K) → P w → P (dispatch F K x w).1
    unfolding dispatch
    dispatch-keeps w h =
        let older = ltb_ℤ w.aom.status.generation w.aom.generation in
        either-keeps (eqb_ℤ w.aom.status.generation (pos 0)) (handle_create F K x w)
          (if older then handle_update F K x w else (ok tt, w)) (handle_create-keeps w h)
          (either-keeps older (handle_update F K x w) (ok tt, w) (handle_update-keeps w h) h)

    handle-keeps : (w : World F K) → P w → P (handle F K x w).1
    unfolding handle run_client set_generation
    handle-keeps w h =
        either-keeps (eqb_ℤ w.aom.status.generation w.aom.generation) (ok tt, w) _ h
          (and_then-keeps P (run_client F K x.connect w) _ (k.by_client w _ h) (λ _ a ha.
            and_then-keeps P (dispatch F K x a) _ (dispatch-keeps a ha)
              (λ _ b hb. k.by_aom b _ hb)))

    reconciled-keeps : (r : Result (Unit {0}) × World F K) → P r.1 → P (reconciled F K r).1
    unfolding reconciled
    reconciled-keeps (ok _, w) h = h
    reconciled-keeps (err e, w) h = h
    reconciled-keeps (panic, w) h = h

    -- The property holds behind `Reconcile`, whatever the API server answers and however the call
    -- ends.
    pub reconcile-keeps : (f : Fetched F K) (w : World F K) → P w → P (reconcile F K x f w).1
    unfolding reconcile
    reconcile-keeps (found aom) w h =
        reconciled-keeps (handle F K x (record w { aom = aom }))
          (handle-keeps (record w { aom = aom }) (k.by_aom w aom h))
    reconcile-keeps not_found w h = h
    reconcile-keeps (failed e) w h = h

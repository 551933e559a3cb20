-- ===== src/Controller/Handle/Opened.antt =====
-- The state of the collectors in which a call of the handlers gets through.
use aom.Base.{true, Text, Option, none, some, ◌≡◌, ◌⊎◌, refl, sym, ap, ◌∙◌, Result, ok}
use aom.Base.Int.{pos, eqb_ℤ}
use aom.Base.Dict.{has, mem}
use aom.Floats.{Floats}
use aom.K8s.{Scales}
use aom.Collector
use aom.Collector.{Promc, set_server_address}
use aom.Controller.{Aom, AomSpec, IsRanges}
use aom.Controller.Metrics.Keys.{spec_keys}
use aom.Controller.Handle.{Outside, World, init_collector, set_address, init_scaler}
use aom.Controller.Handle.Sound.{IsSound}
use aom.Controller.Handle.Alike.{prepared, prepared-IsAlike}
use aom.Controller.Handle.Done.{prepared-IsSound}

module _ {F : Floats} {K : Scales} where
  -- Every stored pointer leads to a cell, each key with a channel is that of a metric of the spec,
  -- and the keys with a worker are those with a channel.
  pub record IsOpen (spec : AomSpec) (w : World F K) : Type 0 where
    pub sound : IsSound w
    pub inside : (j : Text) → has j w.hide.collector_map ≡ true → mem j (spec_keys spec) ≡ true
    pub workers : (j : Text) → has j w.hide.collector_worker_map ≡ has j w.hide.collector_map

  -- A creation is called for, or the collector is there.
  abbrev pub HasCollector : Aom → World F K → Type 0
  HasCollector aom w =
      (eqb_ℤ aom.status.generation (pos 0) ≡ true) ⊎ ((p : Promc) × (w.p_collector ≡ some p))

  -- The collector is there, and the rest is as in `v`.
  pub record IsSetUp (v w : World F K) : Type 0 where
    pub collector : (p : Promc) × (w.p_collector ≡ some p)
    pub same_channels : w.hide.collector_map ≡ v.hide.collector_map
    pub same_workers : w.hide.collector_worker_map ≡ v.hide.collector_worker_map
    pub same_models : w.hide.model_map ≡ v.hide.model_map

  pub init_collector-IsSetUp : (w : World F K) → IsSetUp w (init_collector F K w)
  unfolding init_collector
  init_collector-IsSetUp w =
      elim w.p_collector
          as (λ (o : Option Promc).
            w.p_collector ≡ o
            → IsSetUp w
                (elim o [ none ↦ record w { p_collector = some Collector.new } | some q ↦ w ])) [
                  | none ↦ λ _. record {
                    collector = (Collector.new, refl);
                    same_channels = refl;
                    same_workers = refl;
                    same_models = refl;
                  }
                  | some p ↦ λ e. record {
                    collector = (p, e);
                    same_channels = refl;
                    same_workers = refl;
                    same_models = refl;
                  }
                ]
        refl

  set_address-IsSetUp :
      (answer : Result (Unit {0})) (o : Option Promc) (w : World F K) {p : Promc}
      → o ≡ some p
      → IsSetUp w (set_address F K answer o w).1
  unfolding set_address
  set_address-IsSetUp answer none w e = cc
  set_address-IsSetUp answer (some q) w e = record {
    collector = (_, refl);
    same_channels = refl;
    same_workers = refl;
    same_models = refl;
  }

  pub set_address-returns :
      (o : Option Promc) (w : World F K) {p : Promc}
      → o ≡ some p
      → (set_address F K (ok tt) o w).0 ≡ ok tt
  unfolding set_address set_server_address
  set_address-returns none w e = cc
  set_address-returns (some q) w e = refl

  -- What a creation has when it calls the handlers.
  pub prepared-IsSetUp : (x : Outside F K) (w : World F K) → IsSetUp w (prepared x w)
  unfolding init_scaler
  prepared-IsSetUp x w =
      let v = init_collector F K w in
      let one = init_collector-IsSetUp w in
      let two = set_address-IsSetUp x.api_new_client v.p_collector v one.collector.1 in
      record {
        collector = two.collector;
        same_channels = two.same_channels ∙ one.same_channels;
        same_workers = two.same_workers ∙ one.same_workers;
        same_models = two.same_models ∙ one.same_models;
      }

  -- A creation calls the handlers in such a state, too.
  pub prepared-IsOpen :
      (x : Outside F K) (w : World F K)
      → IsRanges x.ranges
      → IsOpen w.aom.spec w
      → IsOpen (prepared x w).aom.spec (prepared x w)
  prepared-IsOpen x w law h =
      let up = prepared-IsSetUp x w in
      record {
        sound = prepared-IsSound x w law h.sound;
        inside = λ j m.
            ap (λ s. mem j (spec_keys s)) (prepared-IsAlike x w).spec
            ∙ h.inside j (ap (has j) (sym up.same_channels) ∙ m);
        workers =
            λ j. ap (has j) up.same_workers ∙ (h.workers j ∙ ap (has j) (sym up.same_channels));
      }

-- ===== src/Controller/Handle/Complete.antt =====
-- Specs whose models can be made.
use aom.Base.{
  ℕ, true, Text, List, [], ◌∷◌, map, some, ◌≡◌, refl, sym, ap, ◌∙◌, ok, inl, inr, All, All-map,
  same, same_refl, Bool-cases, arith,
}
use aom.Base.Dict.{Dict, lookup, has, mem}
use aom.Basetype.{Metric, Model, no_model_key, with_model_key}
use aom.Floats.{Floats}
use aom.Collector.{Worker}
use aom.Ptype.{Json}
use aom.Predictor.{Predictor, new_predictor}
use aom.Utils.Keys.{get_with_model_key}
use aom.Utils.Keys.Laws.{IsPlain, get_no_model_key-get_with_model_key}
use aom.Controller.{AomSpec, metric_values}
use aom.Controller.Metrics.Keys.{spec_keys}
use aom.Controller.Models.Changes.{EachKey}
use aom.Controller.Predictors.Returning.{Makes, Fits, FitsChange}

mem-values :
    (k : Text) (metrics : Dict Metric) {metric : Metric}
    → lookup k metrics ≡ some metric
    → mem (no_model_key metric) (map no_model_key (metric_values metrics)) ≡ true
unfolding mem lookup
mem-values k [] e = cc
mem-values k ((j, m) ∷ rest) {metric} e = elim (Bool-cases (same k j)) [
  | inl f ↦
      let one : m ≡ metric = ground arith in
      rw (ap no_model_key (sym one), same_refl (no_model_key m)) refl
  | inr f ↦
      let later : lookup k rest ≡ some metric = ground arith in
      let more = mem-values k rest later in ground arith
]

module _ (F : Floats) (json : Json) where
  -- The type of the model has no dollar sign, and `NewPredictor` makes a predictor of the model.
  pub record IsMakeable (metric : Metric) (model : Model) : Type 0 where
    pub plain : IsPlain model.type
    pub made :
        (at : ℕ) (w : Worker F)
        → (p : Predictor F) × ((new_predictor F json
              (record {
                with_model_key = with_model_key metric model.type;
                metric_collector = at;
                model = model.attr;
              })
              w).0
            ≡ ok p)

  -- Every key of the spec's models has a metric, and the models can be made.
  abbrev pub IsComplete : AomSpec → Type 0
  IsComplete spec =
      All
        (λ (e : Text × List Model).
          (metric : Metric) × (lookup e.0 spec.metrics ≡ some metric) × All (IsMakeable metric) e.1)
        spec.models

  module _ (d : Dict ℕ) (spec : AomSpec)
      (here : (j : Text) → has j d ≡ mem j (spec_keys spec)) where
    makeable-Makes :
        (k : Text) (metric : Metric)
        → lookup k spec.metrics ≡ some metric
        → (m : Model) → IsMakeable metric m
        → Makes F json d (no_model_key metric) (with_model_key metric m.type) m
    makeable-Makes k metric e m h = record {
      has_worker = here (no_model_key metric) ∙ mem-values k spec.metrics e;
      made = h.made;
    }

    pub complete-Fits : IsComplete spec → All (Fits F json d spec.metrics) spec.models
    complete-Fits h =
        All-map spec.models (λ e c. (c.0, c.1, All-map e.1 (λ m. makeable-Makes e.0 c.0 c.1 m) c.2))
          h

    pub complete-Each :
        IsComplete spec → All (EachKey (FitsChange F json d) spec.metrics) spec.models
    unfolding with_model_key get_with_model_key
    complete-Each h =
        All-map spec.models
          (λ e c. (
            c.0,
            c.1,
            All-map e.1
                (λ m g. (
                  no_model_key c.0,
                  get_no_model_key-get_with_model_key (no_model_key c.0) m.type g.plain,
                  makeable-Makes e.0 c.0 c.1 m g,
                ))
                c.2,
          ))
          h

-- ===== src/Controller/Models/Changes.antt =====
-- Where the changes that `handleModels` returns come from.
use aom.Base.{
  ℕ, Text, List, [], ◌∷◌, ◌++◌, some, Result, ok, ◌≡◌, ap, subst, All, inl, inr, same, Option-cases,
  Bool-cases, get_elem?, set, length, ok_injective,
}
use aom.Base.Dict.{Dict, lookup, insert}
use aom.Base.Shuffle.{Shuffle-sym, Shuffle-All}
use aom.Base.Action.{and_then-keeps, and_then-eq-ok}
use aom.Basetype.{Metric, Model, Model-discrete, with_model_key}
use aom.Controller.{AomSpec, Ranges, IsRanges}
use aom.Controller.Models.{ModelState, zero_model, model_loop, key_loop, handle_models}

module _ (Q : Text × Model → Type 0) where
  All-insert : (k : Text) (m : Model) (d : Dict Model) → Q (k, m) → All Q d → All Q (insert k m d)
  unfolding insert
  All-insert k m [] h a = (h, tt)
  All-insert k m ((j, n) ∷ d) h (p, a) = elim (Bool-cases (same k j)) [
    | inl e ↦ rw (e, insert) (h, a)
    | inr e ↦ rw (e, insert) (p, All-insert k m d h a)
  ]

  -- The key of each model of the list with the metric.
  abbrev pub EachModel : Metric → List Model → Type 0
  EachModel metric = All (λ (m : Model). Q (with_model_key metric m.type, m))

  abbrev AllChanges : Result (Unit {0}) × ModelState → Type 0
  AllChanges r = All Q r.1.change_map

  model_loop-All :
      (metric : Metric) (ptr : ℕ) (models : List Model) (s : ModelState)
      → EachModel metric models
      → All Q s.change_map
      → All Q (model_loop metric ptr models s).1.change_map
  unfolding model_loop
  model_loop-All metric ptr [] s h a = a
  model_loop-All metric ptr (m ∷ ms) s (p, h) a =
      let cells = set s.cells ptr m in
      let wmk = with_model_key metric m.type in
      let seen : ModelState = record s { cells = cells; temp_map = wmk ∷ s.temp_map } in
      let fresh : ModelState = record seen { model_map = insert wmk ptr s.model_map } in
      let renewed : ModelState = record fresh { change_map = insert wmk m s.change_map } in
      elim (Option-cases (lookup wmk s.model_map)) [
        | inl e ↦ rw (e, model_loop) (model_loop-All metric ptr ms fresh h a)
        | inr (old, e) ↦ elim (Option-cases (get_elem? cells old)) [
          | inl f ↦ rw (e, f, model_loop) a
          | inr (old_model, f) ↦
              rw (e, f, model_loop)
                (elim (Model-discrete old_model m)
                  as (λ d. AllChanges (elim d [
                    | yes _ ↦ model_loop metric ptr ms seen
                    | no _ ↦ model_loop metric ptr ms renewed
                  ])) [
                    | yes _ ↦ model_loop-All metric ptr ms seen h a
                    | no _ ↦
                        model_loop-All metric ptr ms renewed h (All-insert wmk m s.change_map p a)
                  ])
        ]
      ]

  -- The key has a metric, and the models of the key are such with it.
  abbrev pub EachKey : Dict Metric → Text × List Model → Type 0
  EachKey metrics (k, models) =
      (metric : Metric) × (lookup k metrics ≡ some metric) × EachModel metric models

  key_loop-All :
      (spec : AomSpec) (d : Dict (List Model)) (s : ModelState)
      → All (EachKey spec.metrics) d
      → All Q s.change_map
      → All Q (key_loop spec d s).1.change_map
  unfolding key_loop
  key_loop-All spec [] s h a = a
  key_loop-All spec ((k, models) ∷ rest) s ((metric, e, h), hs) a =
      let start : ModelState = record s { cells = s.cells ++ zero_model ∷ [] } in
      rw (e, key_loop)
        (and_then-keeps (λ (t : ModelState). All Q t.change_map)
          (model_loop metric (length s.cells) models start) _
          (model_loop-All metric (length s.cells) models start h a)
          (λ _ t b. key_loop-All spec rest t hs b))

  -- What holds of every model of the spec with its key holds of every change that `handleModels`
  -- returns, if every key of the models has a metric.
  pub handle_models-All :
      (o : Ranges) (spec : AomSpec) (s : ModelState) {changes : Dict Model}
      → IsRanges o
      → All (EachKey spec.metrics) spec.models
      → (handle_models o spec s).0 ≡ ok changes
      → All Q changes
  unfolding handle_models
  handle_models-All o spec s {changes} law h e =
      let start : ModelState = record s { temp_map = []; change_map = [] } in
      let loop = key_loop spec (o.models 0 spec.models) start in
      let (_, t, f, g) = and_then-eq-ok loop _ (ap (λ r. (r, (handle_models o spec s).1)) e) in
      let all =
        key_loop-All spec (o.models 0 spec.models) start
          (Shuffle-All (EachKey spec.metrics) (Shuffle-sym (law.models_all 0 spec.models)) h) tt in
      subst (All Q) (ok_injective (ap (λ (r : Result (Dict Model) × ModelState). r.0) g))
        (subst AllChanges f all)

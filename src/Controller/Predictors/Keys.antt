-- ===== src/Controller/Predictors/Keys.antt =====
-- The keys of the predictor map after `handlePredictor`.
use aom.Base.{
  Bool, true, false, Text, List, [], ◌∷◌, ◌++◌, map, ◌≡◌, inl, inr, refl, sym, ap, subst, ◌∙◌,
  Result, ok, err, panic, if◌then◌else◌, length, get_elem?, set, arith, Option-cases, length-set,
  Text-discrete,
}
use aom.Base.Dict.{Dict, keys, mem, lookup, insert, has, has-insert, mem-keys, mem-append}
use aom.Base.Shuffle.{Shuffle-mem, mem_keys-Shuffle}
use aom.Base.Action.{and_then-eq-ok}
use aom.Basetype.{Model, no_model_key}
use aom.Floats.{Floats}
use aom.Collector.{Worker}
use aom.Ptype.{Json, Param}
use aom.Predictor.{Predictor, new_predictor}
use aom.Utils.Keys.{get_no_model_key}
use aom.Controller.{AomSpec, Ranges, IsRanges}
use aom.Controller.Metrics.{delete_loop}
use aom.Controller.Metrics.Keys.{has-delete_loop}
use aom.Controller.Predictors.Wanted.{wants, wants-Shuffle, mem-pairs}
use aom.Controller.Predictors.{
  MdlMtrc, wmk_of, pairs, PredictorState, missing, put_predictor, add_predictors, change_predictor,
  change_predictors, update_predictors, handle_predictor,
}

module _ (F : Floats) where
  -- A call on the predictors that succeeds, by the keys that it adds.
  pub record Adds (s : PredictorState F) (ks : List Text) (s' : PredictorState F) : Type 0 where
    pub map_keys :
        (j : Text) → has j s'.predictor_map ≡ (if mem j ks then true else has j s.predictor_map)
    pub same_map : s'.collector_worker_map ≡ s.collector_worker_map
    pub same_size : length s'.workers ≡ length s.workers

  -- The end of `put_predictor`.
  abbrev pub stored :
      Text
      → Result (Predictor F)
      → PredictorState F
      → List (Worker F)
      → Result (Unit {0}) × PredictorState F
  stored wmk r s workers = elim r [
    | ok pred ↦
        (ok tt, record s { workers = workers; predictor_map = insert wmk pred s.predictor_map })
    | err e ↦ (err e, record s { workers = workers })
    | panic ↦ (panic, record s { workers = workers })
  ]

  stored-Adds :
      (wmk : Text) (r : Result (Predictor F)) (s : PredictorState F) (workers : List (Worker F))
      {s' : PredictorState F}
      → length workers ≡ length s.workers
      → stored wmk r s workers ≡ (ok tt, s')
      → Adds s (wmk ∷ []) s'
  unfolding mem
  stored-Adds wmk (ok pred) s workers size e =
      let after = ap (λ p. p.1) e in
      subst (Adds s (wmk ∷ [])) after (record {
        map_keys = λ j. has-insert j wmk pred s.predictor_map ∙ ground arith;
        same_map = refl;
        same_size = size;
      })
  stored-Adds wmk (err x) s workers size e = cc
  stored-Adds wmk panic s workers size e = cc

  put_predictor-Adds :
      (json : Json) (nmk wmk : Text) (model : Model) (s : PredictorState F) {s' : PredictorState F}
      → put_predictor F json nmk wmk model s ≡ (ok tt, s')
      → Adds s (wmk ∷ []) s'
  unfolding put_predictor mem
  put_predictor-Adds json nmk wmk model s {s'} e =
      elim (Option-cases (lookup nmk s.collector_worker_map)) [
        | inl f ↦ let e' = rw (f, put_predictor) at e in cc
        | inr (at, f) ↦ elim (Option-cases (get_elem? s.workers at)) [
          | inl g ↦ let e' = rw (f, g, put_predictor) at e in cc
          | inr (worker, g) ↦
              let param : Param = record {
                with_model_key = wmk;
                metric_collector = at;
                model = model.attr;
              } in
              let made = new_predictor F json param worker in
              stored-Adds wmk made.0 s (set s.workers at made.1) (length-set s.workers at made.1)
                (rw (f, g, put_predictor) at e)
        ]
      ]

  Adds-then :
      (s t u : PredictorState F) (ks ls : List Text)
      → Adds s ks t
      → Adds t ls u
      → Adds s (ks ++ ls) u
  Adds-then s t u ks ls f g = record {
    map_keys = λ j. ground (arith, f.map_keys j, g.map_keys j, mem-append j ks ls);
    same_map = g.same_map ∙ f.same_map;
    same_size = g.same_size ∙ f.same_size;
  }

  Adds-none : (s : PredictorState F) → Adds s [] s
  unfolding mem
  Adds-none s = record { map_keys = λ j. refl; same_map = refl; same_size = refl }

  add_predictors-Adds :
      (json : Json) (ps : List MdlMtrc) (s : PredictorState F) {s' : PredictorState F}
      → add_predictors F json ps s ≡ (ok tt, s')
      → Adds s (map wmk_of ps) s'
  unfolding add_predictors
  add_predictors-Adds json [] s {s'} e = subst (Adds s []) (ap (λ p. p.1) e) (Adds-none s)
  add_predictors-Adds json (p ∷ ps) s {s'} e =
      let (_, t, e₁, e₂) =
        and_then-eq-ok (put_predictor F json (no_model_key p.metric) (wmk_of p) p.model s) _ e in
      Adds-then s t s' (wmk_of p ∷ []) (map wmk_of ps)
        (put_predictor-Adds json (no_model_key p.metric) (wmk_of p) p.model s e₁)
        (add_predictors-Adds json ps t e₂)

  change_predictor-Adds :
      (json : Json) (r : Result Text) (wmk : Text) (model : Model) (s : PredictorState F)
      {s' : PredictorState F}
      → change_predictor F json r wmk model s ≡ (ok tt, s')
      → Adds s (wmk ∷ []) s'
  unfolding change_predictor
  change_predictor-Adds json (ok nmk) wmk model s e = put_predictor-Adds json nmk wmk model s e
  change_predictor-Adds json (err x) wmk model s e = cc
  change_predictor-Adds json panic wmk model s e = cc

  change_predictors-Adds :
      (json : Json) (d : Dict Model) (s : PredictorState F) {s' : PredictorState F}
      → change_predictors F json d s ≡ (ok tt, s')
      → Adds s (keys d) s'
  unfolding change_predictors keys
  change_predictors-Adds json [] s {s'} e = subst (Adds s []) (ap (λ p. p.1) e) (Adds-none s)
  change_predictors-Adds json ((wmk, model) ∷ d) s {s'} e =
      let (_, t, e₁, e₂) =
        and_then-eq-ok (change_predictor F json (get_no_model_key wmk) wmk model s) _ e in
      Adds-then s t s' (wmk ∷ []) (keys d) (change_predictor-Adds json _ wmk model s e₁)
        (change_predictors-Adds json d t e₂)

  mem-missing :
      (j : Text) (ps : List MdlMtrc) (d : Dict (Predictor F))
      → mem j (map wmk_of (missing F ps d)) ≡ (if has j d then false else mem j (map wmk_of ps))
  unfolding missing mem
  mem-missing j [] d = ground arith
  mem-missing j (p ∷ ps) d = elim (Text-discrete j (wmk_of p)) [
    | yes e ↦ ground (arith, mem-missing j ps d, ap (λ k. has k d) e)
    | no n ↦ ground (arith, mem-missing j ps d)
  ]

  -- The three loops, for a list of wanted keys that is read twice.
  update_predictors-keys :
      (json : Json) (o : Ranges) (change_map : Dict Model) (wanted again : List MdlMtrc)
      (s : PredictorState F) (j : Text) {s' : PredictorState F}
      → IsRanges o
      → mem j (map wmk_of wanted) ≡ mem j (map wmk_of again)
      → update_predictors F json o change_map wanted again s ≡ (ok tt, s')
      → (has j s'.predictor_map ≡ (if mem j (map wmk_of wanted) then true else has j change_map))
        × (s'.collector_worker_map ≡ s.collector_worker_map)
        × (length s'.workers ≡ length s.workers)
  unfolding update_predictors
  update_predictors-keys json o change_map wanted again s j law same_keys e =
      let adds = missing F wanted s.predictor_map in
      let kept : PredictorState F = record s {
        predictor_map =
            delete_loop (map wmk_of again) (o.keys 3 (keys s.predictor_map)) s.predictor_map;
      } in
      let (_, t, e₁, e₂) =
        and_then-eq-ok (add_predictors F json adds kept)
          (λ _ s'. change_predictors F json (o.changes change_map) s') e in
      let f = add_predictors-Adds json adds kept e₁ in
      let g = change_predictors-Adds json (o.changes change_map) t e₂ in
      (
        ground (
          arith,
          f.map_keys j,
          g.map_keys j,
          mem-missing j wanted s.predictor_map,
          mem_keys-Shuffle j (law.changes_all change_map),
          has-delete_loop (map wmk_of again) (o.keys 3 (keys s.predictor_map)) s.predictor_map j,
          Shuffle-mem j (law.keys_all 3 (keys s.predictor_map)),
          mem-keys j s.predictor_map,
          same_keys,
        ),
        g.same_map ∙ f.same_map,
        g.same_size ∙ f.same_size,
      )

  -- A successful `handlePredictor` leaves a predictor for the keys of the spec's models with their
  -- metrics and for the keys of the changes, and for no other key, whatever the map held before and
  -- in whatever orders the ranges visit. The map of workers and the
  -- number of workers stay.
  pub handle_predictor-keys :
      (json : Json) (o : Ranges) (spec : AomSpec) (change_map : Dict Model) (s : PredictorState F)
      {s' : PredictorState F}
      → IsRanges o
      → handle_predictor F json o spec change_map s ≡ (ok tt, s')
      → ((j : Text)
          → has j s'.predictor_map
            ≡ (if wants j spec.metrics spec.models then true else has j change_map))
        × (s'.collector_worker_map ≡ s.collector_worker_map)
        × (length s'.workers ≡ length s.workers)
  unfolding handle_predictor update_predictors
  handle_predictor-keys json o spec change_map s {s'} law e =
      let (wanted, s₁, e₁, e₂) =
        and_then-eq-ok (pairs spec.metrics (o.models 1 spec.models), s) _ e in
      let (again, s₂, e₃, e₄) =
        and_then-eq-ok (pairs spec.metrics (o.models 2 spec.models), s₁) _ e₂ in
      let unread : s₂ ≡ s = sym (ap (λ p. p.1) e₃) ∙ sym (ap (λ p. p.1) e₁) in
      let one = λ (j : Text).
        mem-pairs j spec.metrics (o.models 1 spec.models) (ap (λ p. p.0) e₁)
        ∙ wants-Shuffle j spec.metrics (law.models_all 1 spec.models) in
      let two = λ (j : Text).
        mem-pairs j spec.metrics (o.models 2 spec.models) (ap (λ p. p.0) e₃)
        ∙ wants-Shuffle j spec.metrics (law.models_all 2 spec.models) in
      let after = λ (j : Text).
        update_predictors-keys json o change_map wanted again s₂ j law (one j ∙ sym (two j)) e₄ in
      (
        λ j. (after j).0 ∙ ap (λ (b : Bool). if b then true else has j change_map) (one j),
        (after []).1 ∙ ap (λ (t : PredictorState F). t.collector_worker_map) unread,
        (after []).2 ∙ ap (λ (t : PredictorState F). length t.workers) unread,
      )

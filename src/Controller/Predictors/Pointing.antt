-- ===== src/Controller/Predictors/Pointing.antt =====
-- The predictors that `handlePredictor` stores.
use aom.Base.{
  ℕ, suc, ◌<◌, Text, List, [], ◌∷◌, map, some, Result, ok, err, panic, ◌≡◌, refl, sym, subst, inl,
  inr, same, same_eq, length, set, length-set, get_elem?, get_elem?-lt, Option-cases, Bool-cases,
  arith,
}
use aom.Base.Dict.{Dict, mem, keys, lookup, insert, erase, lookup-insert, lookup-erase}
use aom.Base.Action.{and_then-keeps}
use aom.Basetype.{Model, no_model_key}
use aom.Floats.{Floats}
use aom.Collector.{Worker}
use aom.Ptype.{Json, Param}
use aom.Predictor.{Predictor, worker_of, key, get_type, new_predictor}
use aom.Predictor.Made.{new_predictor-IsMade}
use aom.Utils.Keys.{get_model_type, get_no_model_key}
use aom.Controller.{AomSpec, Ranges}
use aom.Controller.Metrics.{delete_loop}
use aom.Controller.Predictors.Keys.{stored}
use aom.Controller.Predictors.{
  PredictorState, MdlMtrc, wmk_of, pairs, missing, put_predictor, add_predictors, change_predictor,
  change_predictors, update_predictors, handle_predictor,
}

module _ (F : Floats) where
  -- The predictor's worker is among the first `n`, its key is the one it is stored under, and it is
  -- of the key's type.
  pub record IsHeld (n : ℕ) (wmk : Text) (p : Predictor F) : Type 0 where
    pub below : worker_of F p < n
    pub named : key F p ≡ wmk
    pub typed : get_model_type wmk ≡ ok (get_type F p)

  abbrev pub AllHeld : ℕ → Dict (Predictor F) → Type 0
  AllHeld n d = (wmk : Text) (p : Predictor F) → lookup wmk d ≡ some p → IsHeld n wmk p

  pub AllHeld-insert :
      (n : ℕ) (d : Dict (Predictor F)) (wmk : Text) (p : Predictor F)
      → IsHeld n wmk p
      → AllHeld n d
      → AllHeld n (insert wmk p d)
  AllHeld-insert n d wmk p h all j q e = elim (Bool-cases (same j wmk)) [
    | inl f ↦
        let here : p ≡ q = ground (arith, lookup-insert j wmk p d) in
        subst (IsHeld n j) here (subst (λ i. IsHeld n i p) (sym (same_eq j wmk f)) h)
    | inr f ↦ all j q (ground (arith, lookup-insert j wmk p d))
  ]

  AllHeld-delete_loop :
      (n : ℕ) (temp_map ks : List Text) (d : Dict (Predictor F))
      → AllHeld n d
      → AllHeld n (delete_loop temp_map ks d)
  unfolding delete_loop
  AllHeld-delete_loop n temp_map [] d all = all
  AllHeld-delete_loop n temp_map (k ∷ ks) d all = elim (Bool-cases (mem k temp_map)) [
    | inl e ↦ rw (e, delete_loop) (AllHeld-delete_loop n temp_map ks d all)
    | inr e ↦
        rw (e, delete_loop)
          (AllHeld-delete_loop n temp_map ks (erase k d)
            (λ j q f. all j q (ground (arith, lookup-erase j k d))))
  ]

  pub AllHeld-mono : (m n : ℕ) (d : Dict (Predictor F)) → (m < suc n) → AllHeld m d → AllHeld n d
  AllHeld-mono m n d h all j q e =
      let held = all j q e in
      let below = held.below in
      record { below = omega (arith, below); named = held.named; typed = held.typed }

  abbrev Pointing : PredictorState F → Type 0
  Pointing s = AllHeld (length s.workers) s.predictor_map

  stored-Pointing :
      (wmk : Text) (r : Result (Predictor F)) (s : PredictorState F) (workers : List (Worker F))
      → ((p : Predictor F) → r ≡ ok p → IsHeld (length workers) wmk p)
      → AllHeld (length workers) s.predictor_map
      → Pointing (stored F wmk r s workers).1
  stored-Pointing wmk (ok p) s workers h all =
      AllHeld-insert (length workers) s.predictor_map wmk p (h p refl) all
  stored-Pointing wmk (err e) s workers h all = all
  stored-Pointing wmk panic s workers h all = all

  put_predictor-Pointing :
      (json : Json) (nmk wmk : Text) (model : Model) (s : PredictorState F)
      → Pointing s
      → Pointing (put_predictor F json nmk wmk model s).1
  unfolding put_predictor
  put_predictor-Pointing json nmk wmk model s all =
      elim (Option-cases (lookup nmk s.collector_worker_map)) [
        | inl e ↦ rw (e, put_predictor) all
        | inr (at, e) ↦ elim (Option-cases (get_elem? s.workers at)) [
          | inl f ↦ rw (e, f, put_predictor) all
          | inr (worker, f) ↦
              let param : Param = record {
                with_model_key = wmk;
                metric_collector = at;
                model = model.attr;
              } in
              let made = new_predictor F json param worker in
              let size = length-set s.workers at made.1 in
              rw (e, f, put_predictor)
                (stored-Pointing wmk made.0 s (set s.workers at made.1)
                  (λ p g.
                    let m = new_predictor-IsMade F json param worker g in
                    let same_worker = m.worker in
                    record {
                      below = omega (arith, get_elem?-lt s.workers at f, size, same_worker);
                      named = m.named;
                      typed = m.typed;
                    })
                  (AllHeld-mono (length s.workers) (length (set s.workers at made.1))
                    s.predictor_map (omega (arith, size)) all))
        ]
      ]

  add_predictors-Pointing :
      (json : Json) (ps : List MdlMtrc) (s : PredictorState F)
      → Pointing s
      → Pointing (add_predictors F json ps s).1
  unfolding add_predictors
  add_predictors-Pointing json [] s all = all
  add_predictors-Pointing json (p ∷ ps) s all =
      and_then-keeps Pointing (put_predictor F json (no_model_key p.metric) (wmk_of p) p.model s) _
        (put_predictor-Pointing json (no_model_key p.metric) (wmk_of p) p.model s all)
        (λ _ t k. add_predictors-Pointing json ps t k)

  change_predictor-Pointing :
      (json : Json) (r : Result Text) (wmk : Text) (model : Model) (s : PredictorState F)
      → Pointing s
      → Pointing (change_predictor F json r wmk model s).1
  unfolding change_predictor
  change_predictor-Pointing json (ok nmk) wmk model s all =
      put_predictor-Pointing json nmk wmk model s all
  change_predictor-Pointing json (err e) wmk model s all = all
  change_predictor-Pointing json panic wmk model s all = all

  change_predictors-Pointing :
      (json : Json) (changes : Dict Model) (s : PredictorState F)
      → Pointing s
      → Pointing (change_predictors F json changes s).1
  unfolding change_predictors
  change_predictors-Pointing json [] s all = all
  change_predictors-Pointing json ((wmk, model) ∷ rest) s all =
      and_then-keeps Pointing (change_predictor F json (get_no_model_key wmk) wmk model s) _
        (change_predictor-Pointing json (get_no_model_key wmk) wmk model s all)
        (λ _ t k. change_predictors-Pointing json rest t k)

  -- However `handlePredictor` ends, if every stored predictor calls a worker that exists, has the
  -- key it is stored under and is of the key's type, every one is so afterwards.
  pub handle_predictor-Pointing :
      (json : Json) (o : Ranges) (spec : AomSpec) (changes : Dict Model) (s : PredictorState F)
      → Pointing s
      → Pointing (handle_predictor F json o spec changes s).1
  unfolding handle_predictor update_predictors
  handle_predictor-Pointing json o spec changes s all =
      and_then-keeps Pointing (pairs spec.metrics (o.models 1 spec.models), s) _ all
        (λ wanted s₁ l₁.
          and_then-keeps Pointing (pairs spec.metrics (o.models 2 spec.models), s₁) _ l₁
            (λ again s₂ l₂.
              let start : PredictorState F = record s₂ {
                predictor_map =
                    delete_loop (map wmk_of again) (o.keys 3 (keys s₂.predictor_map))
                      s₂.predictor_map;
              } in
              and_then-keeps Pointing
                (add_predictors F json (missing F wanted s₂.predictor_map) start) _
                (add_predictors-Pointing json (missing F wanted s₂.predictor_map) start (
                  AllHeld-delete_loop (length s₂.workers) (map wmk_of again)
                    (o.keys 3 (keys s₂.predictor_map)) s₂.predictor_map l₂))
                (λ _ s₃ l₃. change_predictors-Pointing json (o.changes changes) s₃ l₃)))

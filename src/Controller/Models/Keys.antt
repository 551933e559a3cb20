-- ===== src/Controller/Models/Keys.antt =====
-- The keys of the model map after `handleModels`.
use aom.Base.{
  ◌⊎◌, ℕ, suc, ◌<◌, true, Text, List, [], ◌∷◌, ◌++◌, map, Option, none, some, ◌≡◌, refl, sym, ap,
  subst, ◌∙◌, Result, ok, err, orphan_model, if◌then◌else◌, same, length, set, arith, inl, inr,
  Option-cases, length-set, length-append, get_elem?_of_lt,
}
use aom.Base.Dict.{
  Dict, keys, mem, lookup, insert, has, has-insert, lookup-has, mem-keys, mem-append,
}
use aom.Base.Shuffle.{Shuffle-mem}
use aom.Base.Action.{and_then-ok, and_then-err}
use aom.Basetype.{Metric, Model, Model-discrete, with_model_key}
use aom.Controller.{AomSpec, Ranges, IsRanges}
use aom.Controller.Metrics.{delete_loop}
use aom.Controller.Metrics.Keys.{
  IsValid, IsValid-insert, IsValid-mono, IsValid-delete_loop, has-delete_loop,
}
use aom.Controller.Models.{ModelState, zero_model, model_loop, key_loop, handle_models}

abbrev pub wmks_of : Metric → List Model → List Text
wmks_of metric = map (λ m. with_model_key metric m.type)

-- The keys of the models of a spec; none if a key of the models has no metric.
abbrev pub spec_wmks : Dict Metric → Dict (List Model) → Option (List Text)
spec_wmks metrics [] = some []
spec_wmks metrics ((k, models) ∷ rest) =
    let more = spec_wmks metrics rest in
    elim (lookup k metrics) [
      | none ↦ none
      | some metric ↦ elim more [ none ↦ none | some ws ↦ some (wmks_of metric models ++ ws) ]
    ]

-- What a loop over models with the keys `ws` does.
pub record Stored (s : ModelState) (ws : List Text) (r : Result (Unit {0}) × ModelState)
    : Type 0 where
  pub returns : r.0 ≡ ok tt
  pub map_keys : (j : Text) → has j r.1.model_map ≡ (if mem j ws then true else has j s.model_map)
  pub temp_keys : (j : Text) → mem j r.1.temp_map ≡ (if mem j ws then true else mem j s.temp_map)
  pub changed :
      (j : Text) → has j r.1.change_map ≡ true → (mem j ws ≡ true) ⊎ (has j s.change_map ≡ true)
  pub valid : IsValid (length r.1.cells) r.1.model_map

-- One round that handles the key `wmk`, and the rounds behind it.
Stored-step :
    (s s' : ModelState) (wmk : Text) (ws : List Text) (r : Result (Unit {0}) × ModelState)
    → ((j : Text) → has j s'.model_map ≡ (if same j wmk then true else has j s.model_map))
    → s'.temp_map ≡ wmk ∷ s.temp_map
    → ((j : Text) → has j s'.change_map ≡ true → (same j wmk ≡ true) ⊎ (has j s.change_map ≡ true))
    → Stored s' ws r
    → Stored s (wmk ∷ ws) r
unfolding mem
Stored-step s s' wmk ws r keys temp more f = record {
  returns = f.returns;
  map_keys = λ j. ground (arith, f.map_keys j, keys j);
  temp_keys =
      λ j. f.temp_keys j ∙ (ap (λ t. if mem j ws then true else mem j t) temp ∙ ground arith);
  changed = λ j h. ground (arith, f.changed j, more j);
  valid = f.valid;
}

has_old :
    (d : Dict ℕ) (k j : Text) → has k d ≡ true → has j d ≡ (if same j k then true else has j d)
has_old d k j h = ground arith

model_loop-Stored :
    (metric : Metric) (ptr : ℕ) (ms : List Model) (s : ModelState)
    → ptr < length s.cells
    → IsValid (length s.cells) s.model_map
    → Stored s (wmks_of metric ms) (model_loop metric ptr ms s)
unfolding model_loop mem
model_loop-Stored metric ptr [] s h v = record {
  returns = refl;
  map_keys = λ j. refl;
  temp_keys = λ j. refl;
  changed = λ j h. inr h;
  valid = v;
}
model_loop-Stored metric ptr (m ∷ ms) s h v =
    let wmk = with_model_key metric m.type in
    let cells = set s.cells ptr m in
    let size = length-set s.cells ptr m in
    let put : IsValid (length cells) (insert wmk ptr s.model_map) =
      subst (λ n. IsValid n (insert wmk ptr s.model_map)) (sym size)
        (IsValid-insert (length s.cells) s.model_map wmk ptr h v) in
    let leave : IsValid (length cells) s.model_map =
      subst (λ n. IsValid n s.model_map) (sym size) v in
    let seen : ModelState = record s { cells = cells; temp_map = wmk ∷ s.temp_map } in
    let fresh : ModelState = record seen { model_map = insert wmk ptr s.model_map } in
    let renewed : ModelState = record fresh { change_map = insert wmk m s.change_map } in
    let inside : ptr < length cells = omega (arith, size) in
    elim (Option-cases (lookup wmk s.model_map)) [
      | inl e ↦
          rw (e, model_loop)
            (Stored-step s fresh wmk (wmks_of metric ms) _ (λ j. has-insert j wmk ptr s.model_map)
              refl (λ j h'. inr h') (model_loop-Stored metric ptr ms fresh inside put))
      | inr (old, e) ↦
          let (old_model, at) = get_elem?_of_lt cells old (omega (arith, v wmk old e, size)) in
          rw (e, at, model_loop)
            (elim (Model-discrete old_model m)
              as (λ d. Stored s (wmk ∷ wmks_of metric ms) (elim d [
                | yes _ ↦ model_loop metric ptr ms seen
                | no _ ↦ model_loop metric ptr ms renewed
              ])) [
                | yes _ ↦
                    Stored-step s seen wmk (wmks_of metric ms) _
                      (λ j. has_old s.model_map wmk j (lookup-has wmk s.model_map e)) refl
                      (λ j h'. inr h') (model_loop-Stored metric ptr ms seen inside leave)
                | no _ ↦
                    Stored-step s renewed wmk (wmks_of metric ms) _
                      (λ j. has-insert j wmk ptr s.model_map) refl
                      (λ j h'. ground (arith, has-insert j wmk m s.change_map))
                      (model_loop-Stored metric ptr ms renewed inside put)
              ])
    ]

-- Two loops in a row.
Stored-then :
    (s s' : ModelState) (ws vs : List Text) (r : Result (Unit {0}) × ModelState)
    → ((j : Text) → has j s'.model_map ≡ (if mem j ws then true else has j s.model_map))
    → ((j : Text) → mem j s'.temp_map ≡ (if mem j ws then true else mem j s.temp_map))
    → ((j : Text) → has j s'.change_map ≡ true → (mem j ws ≡ true) ⊎ (has j s.change_map ≡ true))
    → Stored s' vs r
    → Stored s (ws ++ vs) r
Stored-then s s' ws vs r keys temp more f = record {
  returns = f.returns;
  map_keys = λ j. ground (arith, f.map_keys j, keys j, mem-append j ws vs);
  temp_keys = λ j. ground (arith, f.temp_keys j, temp j, mem-append j ws vs);
  changed = λ j h. ground (arith, f.changed j, more j, mem-append j ws vs);
  valid = f.valid;
}

-- What the outer loop does if it has the keys `ws`, or none because of a key without a metric.
Outer : ModelState → Option (List Text) → Result (Unit {0}) × ModelState → Type 0
Outer s none r = (r.0 ≡ err orphan_model) × IsValid (length r.1.cells) r.1.model_map
Outer s (some ws) r = Stored s ws r

key_loop-Outer :
    (spec : AomSpec) (d : Dict (List Model)) (s : ModelState)
    → IsValid (length s.cells) s.model_map
    → Outer s (spec_wmks spec.metrics d) (key_loop spec d s)
unfolding key_loop Outer mem
key_loop-Outer spec [] s v = record {
  returns = refl;
  map_keys = λ j. refl;
  temp_keys = λ j. refl;
  changed = λ j h. inr h;
  valid = v;
}
key_loop-Outer spec ((k, models) ∷ rest) s v = elim (Option-cases (lookup k spec.metrics)) [
  | inl e ↦ rw (e, key_loop, spec_wmks) (refl, v)
  | inr (metric, e) ↦
      let start : ModelState = record s { cells = s.cells ++ zero_model ∷ [] } in
      let grown : length start.cells ≡ suc (length s.cells) =
        omega (arith, length-append s.cells (zero_model ∷ [])) in
      let inner =
        model_loop-Stored metric (length s.cells) models start (omega (arith, grown))
          (IsValid-mono (length s.cells) _ s.model_map (omega (arith, grown)) v) in
      let after = (model_loop metric (length s.cells) models start).1 in
      let outer = key_loop-Outer spec rest after inner.valid in
      let next =
        and_then-ok (model_loop metric (length s.cells) models start)
          (λ _ s'. key_loop spec rest s') inner.returns in
      rw (e, key_loop, next, spec_wmks)
        (elim (spec_wmks spec.metrics rest)
            as (λ (more : Option (List Text)).
              Outer after more (key_loop spec rest after)
              → Outer s (elim more [ none ↦ none | some ws ↦ some (wmks_of metric models ++ ws) ])
                  (key_loop spec rest after)) [
                    | none ↦ λ o. o
                    | some ws ↦ λ o.
                        let f =
                          Stored-then start after (wmks_of metric models) ws _ inner.map_keys
                            inner.temp_keys inner.changed o in
                        record {
                          returns = f.returns;
                          map_keys = f.map_keys;
                          temp_keys = f.temp_keys;
                          changed = f.changed;
                          valid = f.valid;
                        }
                  ]
          outer)
]

in_keys :
    (j : Text) (ws : List Text)
    → (mem j ws ≡ true) ⊎ (has {V = Model} j [] ≡ true)
    → mem j ws ≡ true
unfolding has lookup
in_keys j ws (inl h) = h
in_keys j ws (inr h) = cc

-- What `handleModels` does: the keys of the models, or the error for a key without a metric.
unfoldable pub Handled : Option (List Text) → Result (Dict Model) × ModelState → Type 0
Handled none r = (r.0 ≡ err orphan_model) × IsValid (length r.1.cells) r.1.model_map
Handled (some ws) r =
    (changes : Dict Model) × (r.0 ≡ ok changes)
    × ((j : Text) → has j r.1.model_map ≡ mem j ws)
    × ((j : Text) → has j changes ≡ true → mem j ws ≡ true)
    × IsValid (length r.1.cells) r.1.model_map

-- In whatever order the range visits the keys, if every stored pointer leads to a cell,
-- `handleModels` returns the error for an orphan model exactly if a key of the spec's models is no
-- key of its metrics. Otherwise it returns a map of changes, the keys of the model map are then the
-- keys of the spec's models with their metrics, whatever they were before, and the keys of the
-- changes are among these. In both cases every stored pointer still leads to a cell.
pub handle_models-Handled :
    (o : Ranges) (spec : AomSpec) (s : ModelState)
    → IsRanges o
    → IsValid (length s.cells) s.model_map
    → Handled (spec_wmks spec.metrics (o.models 0 spec.models)) (handle_models o spec s)
unfolding handle_models Handled Outer mem
handle_models-Handled o spec s law v =
    let start : ModelState = record s { temp_map = []; change_map = [] } in
    let loop = key_loop-Outer spec (o.models 0 spec.models) start v in
    elim (spec_wmks spec.metrics (o.models 0 spec.models))
        as (λ (more : Option (List Text)).
          Outer start more (key_loop spec (o.models 0 spec.models) start)
          → Handled more (handle_models o spec s)) [
            | none ↦ λ r.
                subst
                  (λ (x : Result (Dict Model) × ModelState).
                    (x.0 ≡ err orphan_model) × IsValid (length x.1.cells) x.1.model_map)
                  (sym (and_then-err (key_loop spec (o.models 0 spec.models) start) _ r.0))
                  (refl, r.1)
            | some ws ↦ λ r.
                let after = (key_loop spec (o.models 0 spec.models) start).1 in
                rw
                  (and_then-ok (key_loop spec (o.models 0 spec.models) start)
                    (λ _ s'. (
                      ok s'.change_map,
                      record s' {
                        model_map =
                            delete_loop s'.temp_map (o.keys 1 (keys s'.model_map)) s'.model_map;
                      },
                    ))
                    r.returns)
                  (
                    after.change_map,
                    refl,
                    λ j.
                        has-delete_loop after.temp_map (o.keys 1 (keys after.model_map))
                          after.model_map j
                        ∙ ground (
                          arith,
                          r.map_keys j,
                          r.temp_keys j,
                          Shuffle-mem j (law.keys_all 1 (keys after.model_map)),
                          mem-keys j after.model_map,
                        ),
                    λ j h. in_keys j ws (r.changed j h),
                    IsValid-delete_loop (length after.cells) after.temp_map
                        (o.keys 1 (keys after.model_map)) after.model_map r.valid,
                  )
          ]
      loop

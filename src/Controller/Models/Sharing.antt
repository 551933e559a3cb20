-- ===== src/Controller/Models/Sharing.antt =====
-- Where the pointers of the model map lead after a first `handleModels`.
use aom.Base.{
  ℕ, ◌<◌, Text, List, [], ◌∷◌, ◌++◌, some, Result, ◌≡◌, ◌⊎◌, refl, sym, ap, subst, ◌∙◌, inl, inr,
  In, same, same_eq, length, get_elem?, set, length-set, get_elem?-set, get_elem?-append,
  get_elem?_of_lt, get_elem?-lt, length-append, Option-cases, Bool-cases, arith,
}
use aom.Base.Dict.{Dict, keys, lookup, insert, lookup-insert}
use aom.Base.Shuffle.{Shuffle-In}
use aom.Base.Action.{and_then-keeps}
use aom.Basetype.{Metric, Model, Model-discrete, with_model_key}
use aom.Controller.{AomSpec, Ranges, IsRanges}
use aom.Controller.Metrics.Sharing.{lookup-delete_loop}
use aom.Controller.Models.{ModelState, zero_model, model_loop, key_loop, handle_models}

-- The model that a loop over the list leaves in its variable, which holds `z` at first.
pub last_model : Model → List Model → Model
last_model z [] = z
last_model z (m ∷ ms) = last_model m ms

-- A key of the spec's models, with its models and its metric, and one of the models, whose key with
-- the metric is `wmk`.
pub record Source (spec : AomSpec) (wmk : Text) : Type 0 where
  pub spec_key : Text
  pub models : List Model
  pub metric : Metric
  pub model : Model
  pub listed : In (spec_key, models) spec.models
  pub has_metric : lookup spec_key spec.metrics ≡ some metric
  pub is_model : In model models
  pub named : wmk ≡ with_model_key metric model.type

-- The last model of the source's key.
abbrev pub last_of_key : {spec : AomSpec} {wmk : Text} → Source spec wmk → Model
last_of_key source = last_model zero_model source.models

-- The pointer leads to the last model of a key of the spec that has the model.
abbrev pub LeadsTo : AomSpec → Text → ℕ → List Model → Type 0
LeadsTo spec wmk p cells =
    (source : Source spec wmk) × (get_elem? cells p ≡ some (last_of_key source))

-- Every pointer of the map leads so.
unfoldable pub AllLead : AomSpec → List Model → Dict ℕ → Type 0
AllLead spec cells d = (wmk : Text) (p : ℕ) → lookup wmk d ≡ some p → LeadsTo spec wmk p cells

module _ (spec : AomSpec) (spec_key : Text) (models : List Model) (metric : Metric)
    (listed : In (spec_key, models) spec.models)
    (has_metric : lookup spec_key spec.metrics ≡ some metric) (ptr : ℕ) where
  -- In the loop over the models of a key, a pointer is its variable's, or settled.
  Pending : Text → ℕ → List Model → Type 0
  Pending wmk p cells =
      ((p ≡ ptr) × (m : Model) × In m models × (wmk ≡ with_model_key metric m.type))
      ⊎ ((p < ptr) × LeadsTo spec wmk p cells)

  record Inner (z : Model) (cells : List Model) (d : Dict ℕ) : Type 0 where
    inside : ptr < length cells
    current : get_elem? cells ptr ≡ some z
    pending : (wmk : Text) (p : ℕ) → lookup wmk d ≡ some p → Pending wmk p cells

  Pending-set :
      (wmk : Text) (p : ℕ) (cells : List Model) (m : Model)
      → ptr < length cells
      → Pending wmk p cells
      → Pending wmk p (set cells ptr m)
  unfolding Pending
  Pending-set wmk p cells m h (inl own) = inl own
  Pending-set wmk p cells m h (inr (below, lead)) =
      let e = lead.1 in inr (below, (lead.0, ground (arith, get_elem?-set cells ptr p m h)))

  Inner-set :
      (z m : Model) (cells : List Model) (d : Dict ℕ)
      → Inner z cells d
      → Inner m (set cells ptr m) d
  Inner-set z m cells d h = record {
    inside = omega (arith, h.inside, length-set cells ptr m);
    current = ground (arith, get_elem?-set cells ptr ptr m h.inside);
    pending = λ wmk p e. Pending-set wmk p cells m h.inside (h.pending wmk p e);
  }

  Inner-insert :
      (z m : Model) (cells : List Model) (d : Dict ℕ)
      → In m models
      → Inner z cells d
      → Inner z cells (insert (with_model_key metric m.type) ptr d)
  unfolding Pending
  Inner-insert z m cells d i h =
      let wmk = with_model_key metric m.type in
      record {
        inside = h.inside;
        current = h.current;
        pending = λ j p e. elim (Bool-cases (same j wmk)) [
          | inl f ↦
              let here : p ≡ ptr = ground (arith, lookup-insert j wmk ptr d) in
              inl (here, m, i, same_eq j wmk f)
          | inr f ↦ h.pending j p (ground (arith, lookup-insert j wmk ptr d))
        ];
      }

  -- A state in which the variable holds `z`.
  abbrev InnerAt : Model → ModelState → Type 0
  InnerAt z s = Inner z s.cells s.model_map

  pending_old :
      (z : Model) (s : ModelState) (old : ℕ) (wmk : Text)
      → InnerAt z s
      → lookup wmk s.model_map ≡ some old
      → old < length s.cells
  unfolding Pending
  pending_old z s old wmk h e = elim (h.pending wmk old e) [
    | inl (own, _, _, _) ↦ let inside = h.inside in omega (arith, own, inside)
    | inr (below, _) ↦ let inside = h.inside in omega (arith, below, inside)
  ]

  abbrev LastAt : Model → List Model → Result (Unit {0}) × ModelState → Type 0
  LastAt z ms r = InnerAt (last_model z ms) r.1

  model_loop-Inner :
      (ms : List Model) (s : ModelState) (z : Model)
      → ((m : Model) → In m ms → In m models)
      → InnerAt z s
      → InnerAt (last_model z ms) (model_loop metric ptr ms s).1
  unfolding model_loop last_model
  model_loop-Inner [] s z i h = h
  model_loop-Inner (m ∷ ms) s z i h =
      let cells = set s.cells ptr m in
      let wmk = with_model_key metric m.type in
      let seen : ModelState = record s { cells = cells; temp_map = wmk ∷ s.temp_map } in
      let fresh : ModelState = record seen { model_map = insert wmk ptr s.model_map } in
      let renewed : ModelState = record fresh { change_map = insert wmk m s.change_map } in
      let there = λ (n : Model) (k : In n ms). i n (inr k) in
      let same_map = Inner-set z m s.cells s.model_map h in
      let grown = Inner-insert m m cells s.model_map (i m (inl refl)) same_map in
      elim (Option-cases (lookup wmk s.model_map)) [
        | inl e ↦ rw (e, model_loop) (model_loop-Inner ms fresh m there grown)
        | inr (old, e) ↦
            let below = pending_old m seen old wmk same_map e in
            let (old_model, f) = get_elem?_of_lt cells old below in
            rw (e, f, model_loop)
              (elim (Model-discrete old_model m)
                as (λ d. LastAt m ms (elim d [
                  | yes _ ↦ model_loop metric ptr ms seen
                  | no _ ↦ model_loop metric ptr ms renewed
                ])) [
                  | yes _ ↦ model_loop-Inner ms seen m there same_map
                  | no _ ↦ model_loop-Inner ms renewed m there grown
                ])
      ]

get_elem?-last :
    (cells : List Model) (m : Model) → get_elem? (cells ++ m ∷ []) (length cells) ≡ some m
get_elem?-last [] m = refl
get_elem?-last (c ∷ cells) m = get_elem?-last cells m

no_pointers : (spec : AomSpec) (cells : List Model) → AllLead spec cells []
unfolding AllLead lookup
no_pointers spec cells wmk p e = cc

-- The variable of a further key is a new cell.
LeadsTo-append :
    (spec : AomSpec) (wmk : Text) (p : ℕ) (cells : List Model) (m : Model)
    → LeadsTo spec wmk p cells
    → (p < length cells) × LeadsTo spec wmk p (cells ++ m ∷ [])
LeadsTo-append spec wmk p cells m (source, e) =
    let below = get_elem?-lt cells p e in
    (below, (source, get_elem?-append cells (m ∷ []) p below ∙ e))

-- The loop over the keys.
key_loop-AllLead :
    (spec : AomSpec) (d : Dict (List Model)) (s : ModelState)
    → ((e : Text × List Model) → In e d → In e spec.models)
    → AllLead spec s.cells s.model_map
    → let t = (key_loop spec d s).1 in AllLead spec t.cells t.model_map
unfolding key_loop AllLead Pending
key_loop-AllLead spec [] s i h = h
key_loop-AllLead spec ((k, models) ∷ rest) s i h = elim (Option-cases (lookup k spec.metrics)) [
  | inl e ↦ rw (e, key_loop) h
  | inr (metric, e) ↦
      let start : ModelState = record s { cells = s.cells ++ zero_model ∷ [] } in
      let ptr = length s.cells in
      let begun : Inner spec k models metric (i _ (inl refl)) e ptr zero_model start.cells
          start.model_map =
        record {
          inside = omega (arith, length-append s.cells (zero_model ∷ []));
          current = get_elem?-last s.cells zero_model;
          pending = λ wmk p f. inr (LeadsTo-append spec wmk p s.cells zero_model (h wmk p f));
        } in
      let ended =
        model_loop-Inner spec k models metric (i _ (inl refl)) e ptr models start zero_model
          (λ m n. n) begun in
      rw (e, key_loop)
        (and_then-keeps (λ (t : ModelState). AllLead spec t.cells t.model_map)
          (model_loop metric ptr models start) _
          (λ wmk p f. elim (ended.pending wmk p f) [
            | inl (own, m, listed, named) ↦ (
              record {
                spec_key = k;
                models = models;
                metric = metric;
                model = m;
                listed = i _ (inl refl);
                has_metric = e;
                is_model = listed;
                named = named;
              },
              ap (get_elem? (model_loop metric ptr models start).1.cells) own ∙ ended.current,
            )
            | inr (_, lead) ↦ lead
          ])
          (λ _ t l. key_loop-AllLead spec rest t (λ x n. i x (inr n)) l))
]

-- After `handleModels` on an empty map, in whatever orders the ranges visit and however it ends,
-- every pointer of the map stands under the key of a model that the spec lists, and leads to the
-- last model in the list of that model.
pub handle_models-AllLead :
    (o : Ranges) (spec : AomSpec) (s : ModelState)
    → IsRanges o
    → s.model_map ≡ []
    → let t = (handle_models o spec s).1 in AllLead spec t.cells t.model_map
unfolding handle_models AllLead
handle_models-AllLead o spec s law none_stored =
    let start : ModelState = record s { temp_map = []; change_map = [] } in
    let empty : AllLead spec start.cells start.model_map =
      subst (AllLead spec s.cells) (sym none_stored) (no_pointers spec s.cells) in
    and_then-keeps (λ (t : ModelState). AllLead spec t.cells t.model_map)
      (key_loop spec (o.models 0 spec.models) start) _
      (key_loop-AllLead spec (o.models 0 spec.models) start
        (λ e. Shuffle-In e (law.models_all 0 spec.models)) empty)
      (λ _ t l wmk p f.
        l wmk p (lookup-delete_loop t.temp_map (o.keys 1 (keys t.model_map)) t.model_map wmk p f))

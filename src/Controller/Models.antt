-- ===== src/Controller/Models.antt =====
-- `handleModels`. The inner loop over the models of one key has one variable, so all of them that
-- are stored in one pass share its cell.
pub mod Keys
pub mod Changes
pub mod Sharing
use aom.Base.{
  ℕ, false, Text, List, [], ◌∷◌, ◌++◌, none, some, ok, err, panic, orphan_model, length, get_elem?,
  set,
}
use aom.Base.Int.{pos}
use aom.Base.Dict.{Dict, keys, lookup, insert}
use aom.Base.Action.{Action, and_then}
use aom.Basetype.{Metric, Model, Model-discrete, with_model_key}
use aom.Controller.{AomSpec, Ranges}
use aom.Controller.Metrics.{delete_loop}

-- The cells of models, the map of pointers to them, and the two local maps of the handler.
pub record ModelState : Type 0 where
  pub cells : List Model
  pub model_map : Dict ℕ
  pub temp_map : List Text
  pub change_map : Dict Model

abbrev pub zero_model : Model
zero_model = record { type = []; need_train = false; update_interval = pos 0; attr = [] }

-- The inner loop, whose variable has the cell `ptr`. A pointer that leads nowhere is a panic.
unfoldable pub model_loop : Metric → ℕ → List Model → Action ModelState (Unit {0})
model_loop metric ptr [] s = (ok tt, s)
model_loop metric ptr (model ∷ ms) s =
    let cells = set s.cells ptr model in
    let wmk = with_model_key metric model.type in
    let seen = record s { cells = cells; temp_map = wmk ∷ s.temp_map } in
    elim (lookup wmk s.model_map) [
      | none ↦ model_loop metric ptr ms (record seen { model_map = insert wmk ptr s.model_map })
      | some old ↦ elim (get_elem? cells old) [
        | none ↦ (panic, seen)
        | some old_model ↦ elim (Model-discrete old_model model) [
          | yes _ ↦ model_loop metric ptr ms seen
          | no _ ↦ model_loop metric ptr ms (record seen {
            model_map = insert wmk ptr s.model_map;
            change_map = insert wmk model s.change_map;
          })
        ]
      ]
    ]

-- The outer loop.
unfoldable pub key_loop : AomSpec → Dict (List Model) → Action ModelState (Unit {0})
unfolding model_loop
key_loop spec [] s = (ok tt, s)
key_loop spec ((spec_key, models) ∷ rest) s = elim (lookup spec_key spec.metrics) [
  | none ↦ (err orphan_model, s)
  | some metric ↦
      and_then
        (model_loop metric (length s.cells) models
          (record s { cells = s.cells ++ zero_model ∷ [] }))
        (λ _ s'. key_loop spec rest s')
]

-- It returns the models that changed.
unfoldable pub handle_models : Ranges → AomSpec → Action ModelState (Dict Model)
unfolding key_loop delete_loop
handle_models o spec s =
    and_then (key_loop spec (o.models 0 spec.models) (record s { temp_map = []; change_map = [] }))
      (λ _ s'. (
        ok s'.change_map,
        record s' {
          model_map = delete_loop s'.temp_map (o.keys 1 (keys s'.model_map)) s'.model_map;
        },
      ))

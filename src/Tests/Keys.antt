-- ===== src/Tests/Keys.antt =====
-- Keys and slices.
use aom.Base.{codes, List, [], ◌∷◌, ◌≡◌, refl, ok, arith, get_elem?}
use aom.Base.Int.{ℤ, pos}
use aom.Basetype.{Metric, no_model_key, with_model_key, holt_winter}
use aom.Basetype.Laws.{with_model_key_parts}
use aom.Utils.Keys.{get_no_model_key, get_model_type}
use aom.Utils.Slices.{add_slice}
use aom.Utils.Slices.Diagonal.{or_zero, add_slice-entry}

abbrev pub requests : Metric
requests = record {
  scale_down_conf = record { threshold = codes "100"; duration = pos 500 };
  target = codes "50";
  weight = pos 100;
  name = codes "http_request_01";
  unit = codes "num";
  query = codes "sum(delta(http_requests_total[30s]))";
}

with_model_key_parts_example :
    (get_no_model_key (with_model_key requests holt_winter) ≡ ok (no_model_key requests))
    × (get_model_type (with_model_key requests holt_winter) ≡ ok holt_winter)
with_model_key_parts_example = with_model_key_parts requests holt_winter (omega arith)

abbrev rows : List (List ℤ)
rows = (pos 3 ∷ pos 4 ∷ pos 5 ∷ []) ∷ (pos 6 ∷ pos 7 ∷ []) ∷ []

diagonal : add_slice rows ≡ ok (pos 3 ∷ pos 7 ∷ pos 0 ∷ [])
unfolding add_slice
diagonal = refl

add_slice-entry_example : or_zero (get_elem? (pos 3 ∷ pos 7 ∷ pos 0 ∷ []) 1) ≡ pos 7
add_slice-entry_example =
    (add_slice-entry (pos 3 ∷ pos 4 ∷ pos 5 ∷ []) ((pos 6 ∷ pos 7 ∷ []) ∷ []) 1 (omega arith)
      diagonal).1

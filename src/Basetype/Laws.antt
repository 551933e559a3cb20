-- ===== src/Basetype/Laws.antt =====
-- Metric and model keys against the functions that take them apart.
use aom.Base.{Text, ◌≡◌, ok}
use aom.Basetype.{Metric, no_model_key, with_model_key}
use aom.Utils.Keys.{get_with_model_key, get_no_model_key, get_model_type}
use aom.Utils.Keys.Laws.{
  IsPlain, get_no_model_key-get_with_model_key, get_model_type-get_with_model_key,
  get_with_model_key_injective,
}

-- `GetNoModelKey` and `GetModelType` take the key that `WithModelKey` makes apart again, for every
-- metric and every model type that holds no "$".
pub with_model_key_parts :
    (m : Metric) (model_type : Text)
    → IsPlain model_type
    → (get_no_model_key (with_model_key m model_type) ≡ ok (no_model_key m))
      × (get_model_type (with_model_key m model_type) ≡ ok model_type)
unfolding with_model_key get_with_model_key
with_model_key_parts m model_type h = (
  get_no_model_key-get_with_model_key (no_model_key m) model_type h,
  get_model_type-get_with_model_key (no_model_key m) model_type h,
)

-- Two models with types that hold no "$" share a key only if their types are equal and their
-- metrics share a key.
pub with_model_key_injective :
    (m n : Metric) (t u : Text)
    → IsPlain t
    → IsPlain u
    → with_model_key m t ≡ with_model_key n u
    → (no_model_key m ≡ no_model_key n) × (t ≡ u)
unfolding with_model_key get_with_model_key
with_model_key_injective m n t u h k e =
    get_with_model_key_injective (no_model_key m) (no_model_key n) t u h k e

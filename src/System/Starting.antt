-- ===== src/System/Starting.antt =====
-- What a round finds after an update.
use aom.Base.{List, All}
use aom.Base.Dict.{Dict}
use aom.Basetype.{Model}
use aom.Floats.{Floats}
use aom.Utils.Keys.Laws.{IsPlain}

-- The names of the spec's model types hold no "$".
abbrev pub AllPlain : Dict (List Model) → Type 0
AllPlain = All (λ e. All (λ (m : Model). IsPlain m.type) e.1)

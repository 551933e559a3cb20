-- ===== src/Aomtype.antt =====
-- common/aomtype and common/store: what the program keeps for one instance, and the store of all
-- instances. A pointer is the index of a cell; the maps of metrics and of models hold pointers.
use aom.Base.{ℕ, Bool, false, Text, List, [], ◌∷◌, ◌++◌, Option, none, some, same, if◌then◌else◌}
use aom.Base.Int.{ℤ}
use aom.Base.Dict.{Dict}
use aom.Basetype.{Metric, Model}
use aom.Floats.{Floats}
use aom.Collector.{Worker}
use aom.Predictor.{Predictor}
use aom.Scaler.{Scaler}

-- `types.NamespacedName`
abbrev pub Name : Type 0
Name = Text × Text

abbrev pub same_name : Name → Name → Bool
same_name (a, b) (c, d) = if same a c then same b d else false

module _ (F : Floats) where
  pub record Hide : Type 0 where
    -- By the key without a model: the channel that stops the worker.
    pub collector_map : Dict ℕ
    pub metric_map : Dict ℕ
    -- By the key with a model.
    pub predictor_map : Dict (Predictor F)
    pub collector_worker_map : Dict ℕ
    pub model_map : Dict ℕ
    -- Its map is nil from the start and nothing stores into it: a load never finds a key.
    pub train_history : Dict ℤ
    pub scaler : Option Scaler

  -- `new(Hide)` and `Init`. The maps are empty, and the scaler is nil.
  unfoldable pub init : Hide
  init = record {
    collector_map = [];
    metric_map = [];
    predictor_map = [];
    collector_worker_map = [];
    model_map = [];
    train_history = [];
    scaler = none;
  }

  -- The cells that pointers lead to: metrics, models, channels (whether closed) and workers.
  pub record Heap : Type 0 where
    pub metrics : List Metric
    pub models : List Model
    pub channels : List Bool
    pub workers : List (Worker F)

  -- `AOMStore`, by namespace and name.
  abbrev pub AomStore : Type 0
  AomStore = List (Name × Hide)

  unfoldable pub find_hide : Name → AomStore → Option Hide
  find_hide n [] = none
  find_hide n ((m, h) ∷ s) = if same_name n m then some h else find_hide n s

  -- The instance's entry, and the store, which has the entry afterwards.
  unfoldable pub get_hide : Name → AomStore → Hide × AomStore
  unfolding find_hide init
  get_hide n s = elim (find_hide n s) [ some h ↦ (h, s) | none ↦ (init, s ++ (n, init) ∷ []) ]

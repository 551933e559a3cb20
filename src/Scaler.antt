-- ===== src/Scaler.antt =====
-- scaler/scaler.go: the scaler of one instance, which reads the replica count of its target and
-- writes a new one.
pub mod Strategy
pub mod Moves
use aom.Base.{
  ◌+◌, Bool, Text, List, Error, Result, target_too_small, target_too_big, if◌then◌else◌, ltb, leb,
}
use aom.Base.Int.{ℤ, pos_part, neg_part, ltb_ℤ, leb_ℤ, ◌+ℤ◌}
use aom.Base.Action.{Action, pure, raise, lift, reads, and_then, ◌>>=◌, ◌>>◌}
use aom.Floats.{Floats}
use aom.K8s.{CrossVersionObjectReference, Scales, Client, get_replica, set_replica}

pub record Scaler : Type 0 where
  pub max_replica : ℤ
  pub min_replica : ℤ
  pub namespace : Text
  pub scale_target_ref : CrossVersionObjectReference

unfoldable pub new : Text → CrossVersionObjectReference → ℤ → ℤ → Scaler
new namespace scale_target_ref max_replica min_replica = record {
  max_replica = max_replica;
  min_replica = min_replica;
  namespace = namespace;
  scale_target_ref = scale_target_ref;
}

module _ (F : Floats) (K : Scales) where
  open F use {Float64}

  -- `BaseStrategy`: target metric, start metric, start replica and predicted metrics.
  abbrev pub BaseStrategy : Type 0
  BaseStrategy = Float64 → Float64 → ℤ → List Float64 → List ℤ

  unfoldable pub get_model_replica :
      Scaler → List Float64 → Float64 → BaseStrategy → Float64 → Client K → Result (List ℤ)
  get_model_replica s predict_metrics start_metric strategy target_metric w =
      elim (get_replica K s.namespace s.scale_target_ref w) [
        | Result.ok start_replica ↦
            Result.ok (strategy target_metric start_metric start_replica predict_metrics)
        | Result.err e ↦ Result.err e
        | Result.panic ↦ Result.panic
      ]

-- The strategy is called as it stands; it may panic.
unfoldable pub get_metric_replica :
    List (List ℤ) → (List (List ℤ) → Result (List ℤ)) → Result (List ℤ)
get_metric_replica model_replica strategy = strategy model_replica

unfoldable pub get_obj_replica : List (List ℤ) → (List (List ℤ) → Result (List ℤ)) → Result (List ℤ)
get_obj_replica metric_replica strategy = strategy metric_replica

unfoldable pub get_scale_replica : List ℤ → (List ℤ → Result ℤ) → Result ℤ
get_scale_replica obj_replica_set strategy = strategy obj_replica_set

module _ (K : Scales) where
  unfoldable pub up_to : Scaler → ℤ → Action (Client K) (Unit {0})
  up_to s replica = do
    cur_replica ← reads (get_replica K s.namespace s.scale_target_ref)
    if leb_ℤ replica cur_replica
        then raise target_too_small
        else set_replica K s.namespace s.scale_target_ref
            (if ltb_ℤ s.max_replica replica then s.max_replica else replica)

  unfoldable pub down_to : Scaler → ℤ → Action (Client K) (Unit {0})
  down_to s replica = do
    cur_replica ← reads (get_replica K s.namespace s.scale_target_ref)
    if leb_ℤ cur_replica replica
        then raise target_too_big
        else set_replica K s.namespace s.scale_target_ref
            (if ltb_ℤ replica s.min_replica then s.min_replica else replica)

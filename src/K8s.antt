-- ===== src/K8s.antt =====
-- clients/k8s: the global client and the replica count of the scale target. The Kubernetes API is
-- the parameter `Scales`.
pub mod Laws
use aom.Base.{ℕ, Bool, true, false, Text, ◌≡◌, Error, Result, ok, err, panic, if◌then◌else◌}
use aom.Base.Int.{ℤ}
use aom.Base.Action.{Action, pure, raise, crash, lift, reads, modify, and_then, ◌>>=◌, ◌>>◌}

-- `autoscalingv2.CrossVersionObjectReference`
pub record CrossVersionObjectReference : Type 0 where
  pub kind : Text
  pub name : Text
  pub api_version : Text

-- What a call of the scale client names: namespace, group, resource and object.
pub record Target : Type 0 where
  pub namespace : Text
  pub group : Text
  pub resource : Text
  pub name : Text

-- `scale.ScalesGetter` and `schema.FromAPIVersionAndKind`. An update answers with the object that
-- it stored.
pub record Scales : Type 1 where
  pub Cluster : Type 0
  pub Scale : Type 0
  pub replicas : Scale → ℤ
  pub with_replicas : Scale → ℤ → Scale
  pub group_of : Text → Text
  pub get : Cluster → Target → Result Scale
  pub update : Target → Scale → Action Cluster Scale

-- Setting the field sets it, and an update that succeeds is what the next read sees.
pub record IsScales (K : Scales) : Type 0 where
  pub replicas-with_replicas : (s : K.Scale) (n : ℤ) → K.replicas (K.with_replicas s n) ≡ n
  pub get-update :
      (c c' : K.Cluster) (t : Target) (s s' : K.Scale)
      → K.update t s c ≡ (ok s', c')
      → K.get c' t ≡ ok s

module _ (K : Scales) where
  open K use {Cluster, Scale, replicas, with_replicas, group_of, get, update}

  -- `once`, `GlobalClient` (whether it is set) and the cluster behind it.
  pub record Client : Type 0 where
    pub once : Bool
    pub set : Bool
    pub cluster : Cluster

  -- What the four fallible calls of `newClient` answer, in their order.
  pub record Connect : Type 0 where
    pub build_config_from_flags : Result (Unit {0})
    pub new_clientset_for_config : Result (Unit {0})
    pub get_api_group_resources : Result (Unit {0})
    pub new_scales_for_config : Result (Unit {0})

  unfoldable pub new_client_inner : Connect → Action Client (Unit {0})
  new_client_inner c = do
    lift c.build_config_from_flags
    lift c.new_clientset_for_config
    lift c.get_api_group_resources
    lift c.new_scales_for_config
    modify (λ w. record w { set = true })

  -- `once.Do` runs its argument on the first call only.
  unfoldable pub new_client : Connect → Action Client (Unit {0})
  unfolding new_client_inner
  new_client c w = if w.once then pure tt w else new_client_inner c (record w { once = true })

  abbrev target : Text → CrossVersionObjectReference → Target
  target namespace ref = record {
    namespace = namespace;
    group = group_of ref.api_version;
    resource = ref.kind;
    name = ref.name;
  }

  -- Both methods go through `GlobalClient`, and panic while it is nil.
  unfoldable pub get_replica : Text → CrossVersionObjectReference → Client → Result ℤ
  get_replica namespace ref w =
      if w.set
      then (elim (get w.cluster (target namespace ref)) [
        | ok scale_obj ↦ ok (replicas scale_obj)
        | err e ↦ err e
        | panic ↦ panic
      ])
      else panic

  on_cluster : Client → Result Scale × Cluster → Result (Unit {0}) × Client
  on_cluster w (ok _, c) = (ok tt, record w { cluster = c })
  on_cluster w (err e, c) = (err e, record w { cluster = c })
  on_cluster w (panic, c) = (panic, record w { cluster = c })

  unfoldable pub set_replica : Text → CrossVersionObjectReference → ℤ → Action Client (Unit {0})
  unfolding on_cluster
  set_replica namespace ref replica w =
      if w.set
      then (elim (get w.cluster (target namespace ref)) [
        | ok scale_obj ↦
            on_cluster w (update (target namespace ref) (with_replicas scale_obj replica) w.cluster)
        | err e ↦ (err e, w)
        | panic ↦ (panic, w)
      ])
      else (panic, w)

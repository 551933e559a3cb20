-- ===== src/Scaler/Moves.antt =====
-- What `UpTo` and `DownTo` do to the replica count.
use aom.Base.{◌≡◌, Result, ok, err, target_too_small, target_too_big, if◌then◌else◌, arith}
use aom.Base.Int.{ℤ, ◌≤ℤ◌, ◌<ℤ◌, ltb_ℤ}
use aom.K8s.{Scales, IsScales, Client, get_replica}
use aom.K8s.Laws.{get_replica-set_replica}
use aom.Scaler.{Scaler, up_to, down_to}

-- The replica count of the scaler's target.
abbrev pub current : (K : Scales) → Scaler → Client K → Result ℤ
current K s w = get_replica K s.namespace s.scale_target_ref w

module _ (K : Scales) (L : IsScales K) (s : Scaler) (r c : ℤ) (w : Client K) where
  -- `UpTo` with a count that is not above the current one is an error and changes nothing. Above
  -- it, a call that succeeds leaves the count at the request, or at the maximum if that is less.
  pub up_to_lem :
      current K s w ≡ ok c
      → (r ≤ℤ c → up_to K s r w ≡ (err target_too_small, w))
        × ((w' : Client K)
            → up_to K s r w ≡ (ok tt, w')
            → (c <ℤ r) × (current K s w' ≡ ok (if ltb_ℤ s.max_replica r then s.max_replica else r)))
  unfolding up_to
  up_to_lem now = (
    λ h. ground arith,
    λ w' e. ground (
      arith,
      get_replica-set_replica K L s.namespace s.scale_target_ref
          (if ltb_ℤ s.max_replica r then s.max_replica else r) w {w' = w'},
    ),
  )

  -- `DownTo` with a count that is not below the current one is an error and changes nothing. Below
  -- it, a call that succeeds leaves the count at the request, or at the minimum if that is more.
  pub down_to_lem :
      current K s w ≡ ok c
      → (c ≤ℤ r → down_to K s r w ≡ (err target_too_big, w))
        × ((w' : Client K)
            → down_to K s r w ≡ (ok tt, w')
            → (r <ℤ c) × (current K s w' ≡ ok (if ltb_ℤ r s.min_replica then s.min_replica else r)))
  unfolding down_to
  down_to_lem now = (
    λ h. ground arith,
    λ w' e. ground (
      arith,
      get_replica-set_replica K L s.namespace s.scale_target_ref
          (if ltb_ℤ r s.min_replica then s.min_replica else r) w {w' = w'},
    ),
  )

  -- While the current count is within the maximum, a successful `UpTo` raises the count or leaves
  -- it, and keeps it within the maximum.
  pub up_to_bounds :
      {w' : Client K}
      → current K s w ≡ ok c
      → c ≤ℤ s.max_replica
      → up_to K s r w ≡ (ok tt, w')
      → (n : ℤ) × (current K s w' ≡ ok n) × (c ≤ℤ n) × (n ≤ℤ s.max_replica)
  up_to_bounds {w'} now below e =
      let (above, set) = (up_to_lem now).1 w' e in
      (if ltb_ℤ s.max_replica r then s.max_replica else r, set, ground arith, ground arith)

  -- When the current count lies above the maximum, a successful `UpTo` to a higher count lowers it
  -- to the maximum.
  pub up_to_lowers :
      {w' : Client K}
      → current K s w ≡ ok c
      → s.max_replica <ℤ c
      → up_to K s r w ≡ (ok tt, w')
      → (current K s w' ≡ ok s.max_replica) × (c <ℤ r)
  up_to_lowers {w'} now over e = let (above, set) = (up_to_lem now).1 w' e in (ground arith, above)

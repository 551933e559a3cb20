-- ===== src/K8s/Laws.antt =====
-- What a count that was set reads as, and what a failed first connection leaves.
use aom.Base.{
  true, false, Text, ◌≡◌, refl, ap, subst, Error, Result, ok, err, panic, arith, inl, inr,
  Bool-cases, Result-cases,
}
use aom.Base.Int.{ℤ}
use aom.K8s.{
  CrossVersionObjectReference, Target, Scales, IsScales, Client, Connect, new_client,
  new_client_inner, get_replica, set_replica, on_cluster, target,
}

module _ (K : Scales) (L : IsScales K) where
  on_cluster-ok :
      (w : Client K) (t : Target) (s : K.Scale) (r : Result K.Scale × K.Cluster) {w' : Client K}
      → K.update t s w.cluster ≡ r
      → on_cluster K w r ≡ (ok tt, w')
      → (K.get w'.cluster t ≡ ok s) × (w'.set ≡ w.set)
  unfolding on_cluster
  on_cluster-ok w t s (ok s', c) u e =
      subst (λ (v : Client K). (K.get v.cluster t ≡ ok s) × (v.set ≡ w.set)) (ap (λ p. p.1) e)
        (L.get-update w.cluster c t s s' u, refl)
  on_cluster-ok w t s (err x, c) u e = cc
  on_cluster-ok w t s (panic, c) u e = cc

  set_replica-ok :
      (namespace : Text) (ref : CrossVersionObjectReference) (n : ℤ) (w : Client K) {w' : Client K}
      → set_replica K namespace ref n w ≡ (ok tt, w')
      → (w.set ≡ true)
        × (s : K.Scale) × (on_cluster K w
              (K.update (target K namespace ref) (K.with_replicas s n) w.cluster)
            ≡ (ok tt, w'))
  unfolding set_replica
  set_replica-ok namespace ref n w e = elim (Bool-cases w.set) [
    | inr off ↦ absurd (ground arith)
    | inl on ↦ elim (Result-cases (K.get w.cluster (target K namespace ref))) [
      | inl (s, g) ↦ (on, s, ground arith)
      | inr (inl (x, g)) ↦ absurd (ground arith)
      | inr (inr g) ↦ absurd (ground arith)
    ]
  ]

  -- A count that was set without an error is the count that is read next.
  pub get_replica-set_replica :
      (namespace : Text) (ref : CrossVersionObjectReference) (n : ℤ) (w : Client K) {w' : Client K}
      → set_replica K namespace ref n w ≡ (ok tt, w')
      → get_replica K namespace ref w' ≡ ok n
  unfolding set_replica get_replica
  get_replica-set_replica namespace ref n w e =
      let (on, s, done) = set_replica-ok namespace ref n w e in
      let facts = on_cluster-ok w (target K namespace ref) (K.with_replicas s n) _ refl done in
      ground (arith, facts, L.replicas-with_replicas s n)

new_client_inner-err :
    (K : Scales) (c : Connect K) (w : Client K) {w' : Client K} {e : Error}
    → new_client_inner K c w ≡ (err e, w')
    → w' ≡ w
unfolding new_client_inner
new_client_inner-err K c w h = ground arith

new_client-err :
    (K : Scales) (c : Connect K) (w : Client K) {w' : Client K} {e : Error}
    → w.once ≡ false
    → new_client K c w ≡ (err e, w')
    → w' ≡ record w { once = true }
unfolding new_client
new_client-err K c w once e =
    new_client_inner-err K c (record w { once = true }) (rw (once, new_client) at e)

-- When the first connection fails, `NewClient` reports it once. Every later call reports success,
-- leaves `GlobalClient` nil, and reading a replica count panics.
pub new_client_after_failure :
    (K : Scales) (c c' : Connect K) (w : Client K) {w' : Client K} {e : Error}
    → w.once ≡ false
    → w.set ≡ false
    → new_client K c w ≡ (err e, w')
    → (new_client K c' w' ≡ (ok tt, w'))
      × ((namespace : Text) (ref : CrossVersionObjectReference)
          → get_replica K namespace ref w' ≡ panic)
unfolding new_client get_replica
new_client_after_failure K c c' w once set e =
    let same = new_client-err K c w once e in
    (ground (arith, same), λ namespace ref. ground (arith, same))

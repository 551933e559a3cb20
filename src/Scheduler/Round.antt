-- ===== src/Scheduler/Round.antt =====
-- What one round does to the replica count.
use aom.Base.{
  refl, Bool-cases, arith, if◌then◌else◌, none, some, Option, Error, Result, ok, err, panic, ◌≡◌,
  ◌⊎◌, inl, inr, sym, ap, ◌∙◌,
}
use aom.Base.Int.{ℤ, ◌≤ℤ◌, ◌<ℤ◌, ltb_ℤ, div_ℤ}
use aom.Floats.{Floats}
use aom.K8s.{Scales, IsScales, Client}
use aom.Scaler.{Scaler, up_to}
use aom.Scaler.Moves.{current, up_to_lem}
use aom.Aomtype.{Hide, Heap}
use aom.Scheduler.{Answers, logged, decide, scale, run_round}

module _ (F : Floats) (K : Scales) where
  logged-cases :
      (r : Result (Unit {0}) × Client K) {w' : Client K}
      → logged F K r ≡ (ok tt, w')
      → (r ≡ (ok tt, w')) ⊎ ((e : Error) × (r ≡ (err e, w')))
  logged-cases (ok _, c) h = inl h
  logged-cases (err e, c) h = inr (e, ap (λ (p : Result (Unit {0}) × Client K). (err e, p.1)) h)
  logged-cases (panic, c) h = cc

  -- What becomes of the client for the count `r` that is asked for, from the count `n`.
  abbrev pub Moved : Scaler → ℤ → ℤ → Client K → Client K → Type 0
  Moved s n r w w' =
      ((r ≤ℤ n) × (w' ≡ w))
      ⊎ ((n <ℤ r) × (current K s w' ≡ ok (if ltb_ℤ s.max_replica r then s.max_replica else r)))
      ⊎ ((n <ℤ r) × (e : Error) × (up_to K s r w ≡ (err e, w')))

  up_to-Moved :
      (L : IsScales K) (s : Scaler) (n r : ℤ) (w : Client K) {w' : Client K}
      → current K s w ≡ ok n
      → logged F K (up_to K s r w) ≡ (ok tt, w')
      → Moved s n r w w'
  up_to-Moved L s n r w {w'} now h = elim (logged-cases (up_to K s r w) h) [
    | inl e ↦ inr (inl ((up_to_lem K L s r n w now).1 w' e))
    | inr (x, e) ↦ elim (Bool-cases (ltb_ℤ n r)) [
      | inl above ↦ inr (inr (ground arith, x, e))
      | inr below ↦
          let low : r ≤ℤ n = ground arith in
          inl (low, ap (λ p. p.1) (sym e ∙ (up_to_lem K L s r n w now).0 low))
    ]
  ]

  scale-Moved :
      (L : IsScales K) (s : Scaler) (n : ℤ) (d : Result (Option ℤ)) (w : Client K) {w' : Client K}
      → current K s w ≡ ok n
      → scale F K (some s) d w ≡ (ok tt, w')
      → ((d ≡ ok none) × (w' ≡ w)) ⊎ ((t : ℤ) × (d ≡ ok (some t)) × Moved s n (div_ℤ t 100) w w')
  unfolding scale
  scale-Moved L s n (err e) w now h = cc
  scale-Moved L s n panic w now h = cc
  scale-Moved L s n (ok none) w now h = inl (refl, sym (ap (λ p. p.1) h))
  scale-Moved L s n (ok (some t)) w now h = inr (t, refl, up_to-Moved L s n (div_ℤ t 100) w now h)

  -- A round that does not panic or fail, from a replica count `n`: either it decides nothing, and
  -- leaves the client as it was, or it decides a target, of which a hundredth is the count that it
  -- asks for. If that is not above `n`, the client is as it was. If it is above, either the count is
  -- then the one asked for, or the maximum if that is less, or `UpTo` has returned an error, which
  -- is logged.
  pub run_round_lem :
      (L : IsScales K) (a : Answers F K) (h : Hide F) (heap : Heap F) (s : Scaler) (n : ℤ)
      (w : Client K) {w' : Client K}
      → h.scaler ≡ some s
      → current K s w ≡ ok n
      → run_round F K a h heap w ≡ (ok tt, w')
      → ((decide F K a w h heap ≡ ok none) × (w' ≡ w))
        ⊎ ((t : ℤ) × (decide F K a w h heap ≡ ok (some t)) × Moved s n (div_ℤ t 100) w w')
  unfolding run_round
  run_round_lem L a h heap s n w here now e =
      scale-Moved L s n (decide F K a w h heap) w now
        (ap (λ o. scale F K o (decide F K a w h heap) w) (sym here) ∙ e)

-- ===== src/Predictor/Race/Outcomes.antt =====
-- What every schedule of two predictors of one worker can come to.
use aom.Base.{
  ℕ, zero, suc, List, [], ◌∷◌, length, replicate, Error, Result, ok, err, panic, ◌≡◌, ◌≢◌, ◌⊎◌,
  refl, sym, ap, ◌∙◌, subst, inl, inr, Bool-cases,
}
use aom.Base.Int.{pos, ltb_ℤ}
use aom.Floats.{Floats}
use aom.Collector.{Sample, Worker, data_cap}
use aom.Ptype.{PredictResult}
use aom.Gru.{Request, Response}
use aom.Predictor.{Predictor, gru, holt_winter}
use aom.Predictor.Race.Schedules.{copied-length}
use aom.Predictor.Race.{
  check, zero_sample, copied, reset, digest, Phase, waiting, passed, sized, holding, ended, checked,
  Move, checks, makes, copies, resets, Shared, by_first, by_second, Reach, started, stepped,
}

module _ (F : Floats) where
  copied-nil : (n : ℕ) → copied F n [] ≡ replicate n (zero_sample F)
  unfolding copied
  copied-nil zero = refl
  copied-nil (suc n) = ap (λ l. zero_sample F ∷ l) (copied-nil n)

  copied-zero : (xs : List (Sample F)) → copied F 0 xs ≡ []
  unfolding copied
  copied-zero xs = refl

  check-no_panic : (p : Predictor F) (w : Worker F) → check F p w ≢ panic
  unfolding check
  check-no_panic (gru g) w = elim (Bool-cases g.ready_to_predict) [
    | inr e ↦ rw (e, check) (λ h. cc)
    | inl e ↦ elim (Bool-cases (ltb_ℤ (pos (data_cap F w)) g.model.look_forward)) [
      | inl f ↦ rw (e, f, check) (λ h. cc)
      | inr f ↦ rw (e, f, check) (λ h. cc)
    ]
  ]
  check-no_panic (holt_winter p) w =
      elim (Bool-cases (ltb_ℤ (pos (data_cap F w)) p.look_backward)) [
        | inl f ↦ rw (f, check) (λ h. cc)
        | inr f ↦ rw (f, check) (λ h. cc)
      ]

module _ (F : Floats) (exchange : Request F → Result (Response F)) (w : Worker F) where
  -- What `Send` hands over: the buffer, as many zero values, or nothing.
  abbrev pub Handed : List (Sample F) → Type 0
  Handed l = (l ≡ w.samples) ⊎ (l ≡ replicate (length w.samples) (zero_sample F)) ⊎ (l ≡ [])

  -- The error of the check, on the worker as it was or with an empty buffer, or what `Predict` makes
  -- of what `Send` hands over, and then the buffer of the worker `v` is empty.
  abbrev pub Ends : Worker F → Predictor F → Result (PredictResult F) → Type 0
  Ends v p r =
      ((e : Error) × (r ≡ err e) × ((check F p w ≡ err e) ⊎ (check F p (reset F w) ≡ err e)))
      ⊎ ((l : List (Sample F)) × Handed l × (r ≡ digest F exchange p l) × (v.samples ≡ []))

  -- The worker is as it was, or its buffer is empty.
  abbrev Buffer : Worker F → Type 0
  Buffer v = (v ≡ w) ⊎ (v ≡ reset F w)

  abbrev Stage : Worker F → Predictor F → Phase F → Type 0
  Stage v p waiting = Unit
  Stage v p passed = Unit
  Stage v p (sized n) = (n ≡ length w.samples) ⊎ (n ≡ 0)
  Stage v p (holding l) = Handed l
  Stage v p (ended r) = Ends v p r

  checked-Stage :
      (p : Predictor F) (v : Worker F) (c : Result (Unit {0}))
      → Buffer v
      → check F p v ≡ c
      → Stage v p (checked F c)
  checked-Stage p v (ok _) b e = tt
  checked-Stage p v (err x) (inl same) e = inl (x, refl, inl (ap (check F p) (sym same) ∙ e))
  checked-Stage p v (err x) (inr same) e = inl (x, refl, inr (ap (check F p) (sym same) ∙ e))
  checked-Stage p v panic b e = absurd (check-no_panic F p v e)

  -- What is copied of a buffer into a slice of a length.
  copied-Handed :
      (n : ℕ) (v : Worker F)
      → (n ≡ length w.samples) ⊎ (n ≡ 0)
      → Buffer v
      → Handed (copied F n v.samples)
  unfolding reset
  copied-Handed n v (inr none_fit) b =
      inr (inr (ap (λ k. copied F k v.samples) none_fit ∙ copied-zero F v.samples))
  copied-Handed n v (inl all_fit) (inl same) = inl (
      ap (λ k. copied F k v.samples) all_fit
      ∙ (ap (λ (u : Worker F). copied F (length w.samples) u.samples) same
          ∙ copied-length F w.samples))
  copied-Handed n v (inl all_fit) (inr same) = inr (
      inl (
        ap (λ k. copied F k v.samples) all_fit
        ∙ (ap (λ (u : Worker F). copied F (length w.samples) u.samples) same
            ∙ copied-nil F (length w.samples))))

  reset-Buffer : (v : Worker F) → Buffer v → Buffer (reset F v)
  unfolding reset
  reset-Buffer v (inl same) = inr (ap (reset F) same)
  reset-Buffer v (inr same) = inr (ap (reset F) same)

  Move-Stage :
      {p : Predictor F} {v u : Worker F} {a b : Phase F}
      → Move F exchange p v a u b
      → Buffer v
      → Stage v p a
      → Buffer u × Stage u p b
  unfolding reset
  Move-Stage {p} (checks v) b h = (b, checked-Stage p v (check F p v) b refl)
  Move-Stage (makes v) b h = (
    b,
    elim b [
      | inl same ↦ inl (ap (λ (u : Worker F). length u.samples) same)
      | inr same ↦ inr (ap (λ (u : Worker F). length u.samples) same)
    ],
  )
  Move-Stage (copies v n) b h = (b, copied-Handed n v h b)
  Move-Stage {p} (resets v sent) b h = (reset-Buffer v b, inr (sent, h, refl, refl))

  -- What the other goroutine does.
  Stage-Move :
      (q : Predictor F) {p : Predictor F} {v u : Worker F} {a b : Phase F} (c : Phase F)
      → Move F exchange p v a u b
      → Stage v q c
      → Stage u q c
  unfolding reset
  Stage-Move q c (checks v) h = h
  Stage-Move q c (makes v) h = h
  Stage-Move q c (copies v n) h = h
  Stage-Move q waiting (resets v sent) h = h
  Stage-Move q passed (resets v sent) h = h
  Stage-Move q (sized n) (resets v sent) h = h
  Stage-Move q (holding l) (resets v sent) h = h
  Stage-Move q (ended r) (resets v sent) (inl refused) = inl refused
  Stage-Move q (ended r) (resets v sent) (inr (l, handed, e, _)) = inr (l, handed, e, refl)

  record Inside (p q : Predictor F) (s : Shared F) : Type 0 where
    buffer : Buffer s.worker
    first : Stage s.worker p s.first
    second : Stage s.worker q s.second

  Reach-Inside : {p q : Predictor F} {s : Shared F} → Reach F exchange p q w s → Inside p q s
  Reach-Inside started = record { buffer = inl refl; first = tt; second = tt }
  Reach-Inside (stepped r (by_first b m)) =
      let h = Reach-Inside r in
      let (buffer, stage) = Move-Stage m h.buffer h.first in
      record { buffer = buffer; first = stage; second = Stage-Move _ b m h.second }
  Reach-Inside (stepped r (by_second a m)) =
      let h = Reach-Inside r in
      let (buffer, stage) = Move-Stage m h.buffer h.second in
      record { buffer = buffer; first = Stage-Move _ a m h.first; second = stage }

-- In every schedule of the accesses of two predictors of one worker, while the worker collects
-- nothing, a predictor that is at the end has returned the error of its check, on the worker as it
-- was or with an empty buffer, or what `Predict` makes of the samples that were buffered, of as
-- many zero values, or of no samples. In the last three cases the worker's buffer is empty.
pub Reach-Ends :
    (F : Floats) (exchange : Request F → Result (Response F)) (p q : Predictor F) (w : Worker F)
    {s : Shared F} (r : Result (PredictResult F))
    → Reach F exchange p q w s
    → (s.first ≡ ended r → Ends F exchange w s.worker p r)
      × (s.second ≡ ended r → Ends F exchange w s.worker q r)
Reach-Ends F exchange p q w {s} r reach =
    let h = Reach-Inside F exchange w reach in
    (
      λ e. subst (Stage F exchange w s.worker p) e h.first,
      λ e. subst (Stage F exchange w s.worker q) e h.second,
    )

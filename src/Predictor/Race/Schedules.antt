-- ===== src/Predictor/Race/Schedules.antt =====
-- One predictor alone, and schedules of two predictors of one worker.
use aom.Base.{
  ℕ, suc, subst, List, [], ◌∷◌, length, Result, ok, err, panic, ◌>>=◌, ◌≡◌, refl, sym, ap, ◌∙◌,
  arith, Bool-cases, inl, inr,
}
use aom.Base.Int.{pos, ltb_ℤ}
use aom.Floats.{Floats}
use aom.Collector.{Sample, Worker, send, data_cap}
use aom.Ptype.{PredictResult}
use aom.Gru
use aom.Gru.{Request, Response, suffix}
use aom.Gru.Safety.{suffix-panic}
use aom.HoltWinter
use aom.Predictor.{Predictor, gru, holt_winter, predict}
use aom.Predictor.Race.{
  check, copied, reset, digest, Phase, waiting, passed, sized, holding, ended, checked, Move,
  checks, makes, copies, resets, Shared, by_first, by_second, Reach, started, stepped, window,
}

module _ (F : Floats) where
  -- Where nothing comes in between, `make` and `copy` hand over the whole buffer.
  pub copied-length : (xs : List (Sample F)) → copied F (length xs) xs ≡ xs
  unfolding copied
  copied-length [] = refl
  copied-length (x ∷ xs) = ap (λ l. x ∷ l) (copied-length xs)

module _ (F : Floats) (exchange : Request F → Result (Response F)) where
  -- `Predict` by its check and the rest, in one go.
  abbrev proceed : Predictor F → Worker F → Result (Unit {0}) → Result (PredictResult F) × Worker F
  proceed p w (ok _) = (digest F exchange p w.samples, reset F w)
  proceed p w (err e) = (err e, w)
  proceed p w panic = (panic, w)

  predict-eq-proceed :
      (p : Predictor F) (w : Worker F) → predict F exchange p w ≡ proceed p w (check F p w)
  unfolding predict check digest reset Gru.predict HoltWinter.predict data_cap send
  predict-eq-proceed (gru g) w = elim (Bool-cases g.ready_to_predict) [
    | inr e ↦ rw (e) refl
    | inl e ↦ elim (Bool-cases (ltb_ℤ (pos (data_cap F w)) g.model.look_forward)) [
      | inl f ↦ rw (e, f) refl
      | inr f ↦ rw (e, f) refl
    ]
  ]
  predict-eq-proceed (holt_winter p) w =
      elim (Bool-cases (ltb_ℤ (pos (data_cap F w)) p.look_backward)) [
        | inl f ↦ rw (f) refl
        | inr f ↦ rw (f) refl
      ]

  -- The accesses of a goroutine that is alone.
  pub data Moves (p : Predictor F) : Worker F → Phase F → Worker F → Phase F → Type 0 where
    stay : (w : Worker F) (a : Phase F) → Moves p w a w a
    go :
        {u v w : Worker F} {a b c : Phase F}
        → Move F exchange p u a v b
        → Moves p v b w c
        → Moves p u a w c

  -- The three accesses of `Send`, and what follows.
  sends :
      (p : Predictor F) (w : Worker F)
      → Moves p w passed (reset F w) (ended (digest F exchange p w.samples))
  sends p w =
      let copy : Move F exchange p w (sized (length w.samples)) w (holding w.samples) =
        subst (λ l. Move F exchange p w (sized (length w.samples)) w (holding l))
          (copied-length F w.samples) (copies w (length w.samples)) in
      go (makes w) (go copy (go (resets w w.samples) (stay (reset F w) _)))

  proceed-Moves :
      (p : Predictor F) (w : Worker F) (c : Result (Unit {0}))
      → let r = proceed p w c in Moves p w (checked F c) r.1 (ended r.0)
  proceed-Moves p w (ok _) = sends p w
  proceed-Moves p w (err e) = stay w (ended (err e))
  proceed-Moves p w panic = stay w (ended panic)

  -- The accesses of a goroutine that is alone come to what `Predict` returns.
  pub predict-Moves :
      (p : Predictor F) (w : Worker F)
      → let r = predict F exchange p w in Moves p w waiting r.1 (ended r.0)
  predict-Moves p w =
      subst (λ (r : Result (PredictResult F) × Worker F). Moves p w waiting r.1 (ended r.0))
        (sym (predict-eq-proceed p w)) (go (checks w) (proceed-Moves p w (check F p w)))

  -- With a window that is not empty, no samples are too few.
  pub digest-none :
      (p : Predictor F) (n : ℕ) → window F p ≡ pos (suc n) → digest F exchange p [] ≡ panic
  unfolding digest
  digest-none (gru g) n e =
      let out = ap (λ k. suffix {A = Sample F} k []) e ∙ suffix-panic (suc n) [] (omega arith) in
      rw (out, digest, ◌>>=◌) refl
  digest-none (holt_winter p) n e =
      let out = ap (λ k. suffix {A = Sample F} k []) e ∙ suffix-panic (suc n) [] (omega arith) in
      rw (out, digest, ◌>>=◌) refl

  module _ (p q : Predictor F) where
    -- A state behind a schedule.
    abbrev At : Worker F → Worker F → Phase F → Phase F → Type 0
    At w v a b = Reach F exchange p q w (record { worker = v; first = a; second = b })

    first-Moves :
        (w : Worker F) {u v : Worker F} {a c : Phase F} (b : Phase F)
        → At w u a b
        → Moves p u a v c
        → At w v c b
    first-Moves w b r (stay u a) = r
    first-Moves w b r (go m ms) = first-Moves w b (stepped r (by_first b m)) ms

    second-Moves :
        (w : Worker F) {u v : Worker F} {b c : Phase F} (a : Phase F)
        → At w u a b
        → Moves q u b v c
        → At w v a c
    second-Moves w a r (stay u b) = r
    second-Moves w a r (go m ms) = second-Moves w a (stepped r (by_second a m)) ms

    -- Both checks, before anything else.
    both_pass : (w : Worker F) → check F p w ≡ ok tt → check F q w ≡ ok tt → At w w passed passed
    both_pass w cp cq =
        let one : At w w passed waiting =
          subst (λ c. At w w (checked F c) waiting) cp
            (stepped started (by_first waiting (checks w))) in
        subst (λ c. At w w passed (checked F c)) cq (stepped one (by_second passed (checks w)))

  -- If both predictors pass their checks and the second one's window is not empty, there is a
  -- schedule in which the second one panics: both check before either takes the samples.
  pub second_panics :
      (p q : Predictor F) (n : ℕ) (w : Worker F)
      → check F p w ≡ ok tt
      → check F q w ≡ ok tt
      → window F q ≡ pos (suc n)
      → (s : Shared F) × Reach F exchange p q w s × (s.second ≡ ended panic)
  unfolding reset
  second_panics p q n w cp cq wq =
      let taken = first-Moves p q w passed (both_pass p q w cp cq) (sends p w) in
      let v = reset F w in
      (
        _,
        second-Moves p q w (ended (digest F exchange p w.samples)) taken (sends q v),
        ap ended (digest-none q n wq),
      )

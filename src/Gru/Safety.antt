-- ===== src/Gru/Safety.antt =====
-- When `Predict` of the GRU predictor panics, and what `Train` waits for.
use aom.Base.{
  ℕ, ◌-◌, ◌<◌, ◌≤◌, true, false, List, [], ◌∷◌, Result, ok, err, panic, ◌>>=◌, >>=-eq-ok,
  ok_injective, no_sufficient_data, ◌≡◌, refl, ap, sym, ◌∙◌, length, drop, arith, inl, inr,
  Bool-cases, length-drop, length-map,
}
use aom.Base.Int.{pos, ltb_ℤ}
use aom.Floats.{Floats}
use aom.Collector.{Sample, Worker, send, data_cap}
use aom.Ptype.{Json, Param}
use aom.Gru.{
  Gru, Request, Response, suffix, last_of, values, answer, predict_request, parse_model, new,
  predict, train, wait_and_update,
}

pub last_of-Returns {ℓ} : {A : Type ℓ} (xs : List A) → 0 < length xs → (x : A) × (last_of xs ≡ ok x)
unfolding last_of
last_of-Returns [] h = elim h [ ]
last_of-Returns (x ∷ []) h = (x, refl)
last_of-Returns (x ∷ y ∷ xs) h = last_of-Returns (y ∷ xs) (omega arith)

pub suffix-drop {ℓ} :
    {A : Type ℓ} (n : ℕ) (xs : List A)
    → n ≤ length xs
    → suffix (pos n) xs ≡ ok (drop (length xs - n) xs)
unfolding suffix
suffix-drop n xs h = ground arith

pub suffix-panic {ℓ} :
    {A : Type ℓ} (n : ℕ) (xs : List A) → length xs < n → suffix (pos n) xs ≡ panic
unfolding suffix
suffix-panic n xs h = ground arith

-- A bind panics only if one of its calls does.
bind-safe {ℓ κ} :
    {A : Type ℓ} {B : Type κ} (r : Result A) (f : A → Result B)
    → ¬ (r ≡ panic)
    → ((a : A) → r ≡ ok a → ¬ (f a ≡ panic))
    → ¬ ((r >>= f) ≡ panic)
bind-safe (ok a) f p q e = q a refl e
bind-safe (err x) f p q e = cc
bind-safe panic f p q e = p refl

module _ (F : Floats) where
  -- A predictor that is ready, and whose worker has at least as many samples as it looks ahead but
  -- fewer than it looks back, panics in `Predict`, and the worker has lost its samples.
  pub predict_panics :
      (exchange : Request F → Result (Response F)) (g : Gru F) (w : Worker F) (back ahead : ℕ)
      → g.ready_to_predict ≡ true
      → g.model.look_back ≡ pos back
      → g.model.look_forward ≡ pos ahead
      → ahead ≤ data_cap F w
      → data_cap F w < back
      → predict F exchange g w ≡ (panic, record w { samples = [] })
  unfolding predict send suffix data_cap
  predict_panics exchange g w back ahead r b f h k =
      let enough : ltb_ℤ (pos (data_cap F w)) (pos ahead) ≡ false = ground arith in
      let out : suffix (pos back) w.samples ≡ panic = suffix-panic back w.samples k in
      rw (r, f, enough, b, out, predict) refl

  answer-safe :
      (xs : List F.Float64) (response : Response F)
      → 0 < length xs
      → ¬ (answer F xs response ≡ panic)
  answer-safe xs response h e =
      let (x, f) = last_of-Returns xs h in
      elim (Bool-cases response.trained) [
        | inl y ↦ let e' = rw (y, f) at e in cc
        | inr n ↦ let e' = rw (n) at e in cc
      ]

  -- With a window that is not empty and no longer than the look ahead, `Predict` does not panic,
  -- provided the exchange with the service does not.
  pub predict_safe :
      (exchange : Request F → Result (Response F)) (g : Gru F) (w : Worker F) (back ahead : ℕ)
      → g.model.look_back ≡ pos back
      → g.model.look_forward ≡ pos ahead
      → 0 < back
      → back ≤ ahead
      → ((r : Request F) → ¬ (exchange r ≡ panic))
      → ¬ ((predict F exchange g w).0 ≡ panic)
  unfolding predict send data_cap
  predict_safe exchange g w back ahead b f h k safe e = elim (Bool-cases g.ready_to_predict) [
    | inr r ↦ let e' = rw (r, predict) at e in cc
    | inl r ↦ elim (Bool-cases (ltb_ℤ (pos (data_cap F w)) g.model.look_forward)) [
      | inl less ↦ let e' = rw (r, less, predict) at e in cc
      | inr enough ↦
          let enough' : ltb_ℤ (pos (length w.samples)) (pos ahead) ≡ false =
            ap (ltb_ℤ (pos (length w.samples))) (sym f) ∙ enough in
          let long : back ≤ length w.samples = ground arith in
          let taken = ap (λ n. suffix n w.samples) b ∙ suffix-drop back w.samples long in
          let kept = drop (length w.samples - back) w.samples in
          let some_kept : 0 < length (values F kept) = omega (
            arith,
            length-map kept (λ (m : Sample F). m.value),
            length-drop (length w.samples - back) w.samples,
          ) in
          bind-safe (exchange (predict_request F g (values F kept))) (answer F (values F kept))
            (safe _) (λ response _. answer-safe (values F kept) response some_kept)
            (rw (r, enough, taken, predict) at e)
    ]
  ]

  -- The predictor after answers to its trainings.
  pub answered : List (Result (Response F)) → Gru F → Gru F
  answered [] g = g
  answered (r ∷ rs) g = answered rs (wait_and_update F r g).1

  wait_and_update-history :
      (r : Result (Response F)) (g : Gru F)
      → ((wait_and_update F r g).1.metric_history ≡ g.metric_history)
        × ((wait_and_update F r g).1.model.train_size ≡ g.model.train_size)
  unfolding wait_and_update
  wait_and_update-history (err e) g = (refl, refl)
  wait_and_update-history panic g = (refl, refl)
  wait_and_update-history (ok resp) g = (ground arith, ground arith)

  answered-history :
      (rs : List (Result (Response F))) (g : Gru F)
      → ((answered rs g).metric_history ≡ g.metric_history)
        × ((answered rs g).model.train_size ≡ g.model.train_size)
  unfolding answered wait_and_update
  answered-history [] g = (refl, refl)
  answered-history (r ∷ rs) g =
      let (h, t) = answered-history rs (wait_and_update F r g).1 in
      let (h', t') = wait_and_update-history r g in (h ∙ h', t ∙ t')

  -- However many answers came, and whatever the worker has buffered since, `Train` of a predictor
  -- that was made when its worker had buffered fewer samples than the training size is refused for
  -- want of data, and leaves the worker as it was.
  pub train_starved :
      (json : Json) (p : Param) (w₀ w : Worker F) (rs : List (Result (Response F)))
      (post : Request F → Result (Unit {0})) {g : Gru F} {w₁ : Worker F}
      → new F json p w₀ ≡ ok (g, w₁)
      → ltb_ℤ (pos (data_cap F w₀)) g.model.train_size ≡ true
      → train F post (answered rs g) w ≡ (err no_sufficient_data, w)
  unfolding train new data_cap send
  train_starved json p w₀ w rs post {g} {w₁} e h =
      let (same_history, same_size) = answered-history rs g in
      let (model, _, made) = >>=-eq-ok (parse_model F json p.model) _ e in
      let taken : w₀.samples ≡ g.metric_history =
        ap (λ c. c.0.metric_history) (ok_injective made) in
      let few : ltb_ℤ (pos (length (answered rs g).metric_history)) (answered rs g).model.train_size
          ≡ true =
        rw (same_history, same_size, ap length (sym taken)) h in
      rw (few, train) refl

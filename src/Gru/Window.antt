-- ===== src/Gru/Window.antt =====
-- What a prediction of the GRU predictor is made of.
use aom.Base.{
  ℕ, zero, suc, ◌-◌, ◌<◌, ◌≤◌, true, false, List, [], ◌∷◌, map, Result, ok, ◌>>=◌, ◌≡◌, refl, ap,
  sym, ◌∙◌, length, drop, arith, length-map,
}
use aom.Base.Int.{pos, ltb_ℤ}
use aom.Floats.{Floats}
use aom.Collector.{Sample, Worker, send, data_cap}
use aom.Gru.{Gru, Request, Response, suffix, last_of, values, predict_request, predict}
use aom.Gru.Safety.{suffix-drop}

last_of-drop {ℓ} :
    {A : Type ℓ} (n : ℕ) (xs : List A) → n < length xs → last_of (drop n xs) ≡ last_of xs
unfolding last_of
last_of-drop zero xs h = refl
last_of-drop (suc n) [] h = refl
last_of-drop (suc n) (x ∷ []) h = absurd (omega arith)
last_of-drop (suc n) (x ∷ y ∷ xs) h = last_of-drop n (y ∷ xs) (omega arith)

map-drop {ℓ κ} :
    {A : Type ℓ} {B : Type κ} (f : A → B) (n : ℕ) (xs : List A)
    → map f (drop n xs) ≡ drop n (map f xs)
map-drop f zero xs = refl
map-drop f (suc n) [] = refl
map-drop f (suc n) (x ∷ xs) = map-drop f n xs

module _ (F : Floats) where
  -- A ready predictor whose worker has enough samples for its look ahead and for its window, which
  -- is not empty, sends the service the last values of the window's length, in their order. If the
  -- service answers that it is trained, the result is its prediction and its loss, with the newest
  -- value as the start. The worker's buffer is empty then.
  pub predict-window :
      (exchange : Request F → Result (Response F)) (g : Gru F) (w : Worker F) (back ahead : ℕ)
      {response : Response F} {newest : F.Float64}
      → g.ready_to_predict ≡ true
      → g.model.look_back ≡ pos back
      → g.model.look_forward ≡ pos ahead
      → 0 < back
      → back ≤ data_cap F w
      → ahead ≤ data_cap F w
      → let history = values F w.samples in
        exchange (predict_request F g (drop (length history - back) history)) ≡ ok response
        → response.trained ≡ true
        → last_of history ≡ ok newest
        → predict F exchange g w ≡ (
          ok (record {
            start_metric = newest;
            loss = response.loss;
            predict_metric = response.prediction;
          }),
          record w { samples = [] },
        )
  unfolding predict send data_cap
  predict-window exchange g w back ahead {response} {newest} r b f some_back window enough e t l =
      let samples = w.samples in
      let history = values F samples in
      let start = length samples - back in
      let many : ltb_ℤ (pos (length samples)) (pos ahead) ≡ false = ground arith in
      let cap = ap (ltb_ℤ (pos (length samples))) f ∙ many in
      let taken = ap (λ n. suffix n samples) b ∙ suffix-drop back samples window in
      let same_length : length history ≡ length samples =
        length-map samples (λ (m : Sample F). m.value) in
      let cut : drop (length history - back) history ≡ values F (drop start samples) =
        ap (λ n. drop (n - back) history) same_length
        ∙ sym (map-drop (λ (m : Sample F). m.value) start samples) in
      let asked : exchange (predict_request F g (values F (drop start samples))) ≡ ok response =
        ap (λ v. exchange (predict_request F g v)) (sym cut) ∙ e in
      let last : last_of (values F (drop start samples)) ≡ ok newest =
        ap last_of (map-drop (λ (m : Sample F). m.value) start samples)
        ∙ (last_of-drop start history (omega (arith, same_length)) ∙ l) in
      rw (r, cap, taken, asked, t, last, predict, ◌>>=◌, send) refl

-- ===== src/Predictor/Made.antt =====
-- What `NewPredictor` makes.
use aom.Base.{
  ℕ, codes, subst, ok_injective, Text, Result, ok, err, panic, ◌≡◌, refl, ap, ◌∙◌, >>=-eq-ok, same,
  same_eq, inl, inr, Bool-cases,
}
use aom.Base.Atoi.{atoi}
use aom.Basetype
use aom.Floats.{Floats}
use aom.Collector.{Worker}
use aom.Ptype.{Json, Param}
use aom.Gru
use aom.Gru.{Gru, parse_model}
use aom.HoltWinter
use aom.HoltWinter.{HoltWinter, parse}
use aom.Utils.Keys.{get_model_type}
use aom.Utils.Keys.Laws.{get_model_type-returns}
use aom.Predictor.{
  Predictor, gru, holt_winter, worker_of, key, get_type, new_gru, new_holt_winter, new_predictor,
}

module _ (F : Floats) where
  -- The predictor calls the worker, has the key, and is of the key's type.
  pub record IsMade (at : ℕ) (wmk : Text) (p : Predictor F) : Type 0 where
    pub worker : worker_of F p ≡ at
    pub named : key F p ≡ wmk
    pub typed : get_model_type wmk ≡ ok (get_type F p)

  new_gru-ok :
      (r : Result (Gru F × Worker F)) (w : Worker F) {p : Predictor F}
      → (new_gru F r w).0 ≡ ok p
      → (g : Gru F) × (v : Worker F) × (r ≡ ok (g, v)) × (gru g ≡ p)
  unfolding new_gru
  new_gru-ok (ok (g, v)) w e = (g, v, refl, ok_injective e)
  new_gru-ok (err x) w e = cc
  new_gru-ok panic w e = cc

  new_gru-IsMade :
      (json : Json) (param : Param) (w : Worker F) {p : Predictor F}
      → get_model_type param.with_model_key ≡ ok Basetype.gru
      → (new_gru F (Gru.new F json param w) w).0 ≡ ok p
      → IsMade param.metric_collector param.with_model_key p
  unfolding Gru.new key get_type
  new_gru-IsMade json param w {p} t e =
      let (g, v, f, same_p) = new_gru-ok (Gru.new F json param w) w e in
      let (m, _, made) = >>=-eq-ok (parse_model F json param.model) _ f in
      let same_g = ap (λ (y : Gru F × Worker F). y.0) (ok_injective made) in
      subst (IsMade param.metric_collector param.with_model_key) (ap gru same_g ∙ same_p)
        (record { worker = refl; named = refl; typed = t })

  new_holt_winter-ok :
      (r : Result (HoltWinter F)) (w : Worker F) {p : Predictor F}
      → (new_holt_winter F r w).0 ≡ ok p
      → (g : HoltWinter F) × (r ≡ ok g) × (holt_winter g ≡ p)
  unfolding new_holt_winter
  new_holt_winter-ok (ok g) w e = (g, refl, ok_injective e)
  new_holt_winter-ok (err x) w e = cc
  new_holt_winter-ok panic w e = cc

  new_holt_winter-IsMade :
      (json : Json) (param : Param) (w : Worker F) {p : Predictor F}
      → get_model_type param.with_model_key ≡ ok Basetype.holt_winter
      → (new_holt_winter F (HoltWinter.new F json param) w).0 ≡ ok p
      → IsMade param.metric_collector param.with_model_key p
  unfolding HoltWinter.new key get_type
  new_holt_winter-IsMade json param w {p} t e =
      let attr = json param.model in
      let (g, f, same_p) = new_holt_winter-ok (HoltWinter.new F json param) w e in
      let (_, _, e₁) = >>=-eq-ok (atoi (attr (codes "slen"))) _ f in
      let (_, _, e₂) = >>=-eq-ok (atoi (attr (codes "look_forward"))) _ e₁ in
      let (_, _, e₃) = >>=-eq-ok (atoi (attr (codes "look_backward"))) _ e₂ in
      let (_, _, e₄) = >>=-eq-ok (parse F (attr (codes "alpha"))) _ e₃ in
      let (_, _, e₅) = >>=-eq-ok (parse F (attr (codes "beta"))) _ e₄ in
      let (_, _, made) = >>=-eq-ok (parse F (attr (codes "gamma"))) _ e₅ in
      subst (IsMade param.metric_collector param.with_model_key)
        (ap holt_winter (ok_injective made) ∙ same_p)
        (record { worker = refl; named = refl; typed = t })

  -- A predictor that `NewPredictor` returns calls the given worker, has the given key, and is of the
  -- type that stands at the end of the key.
  pub new_predictor-IsMade :
      (json : Json) (param : Param) (w : Worker F) {p : Predictor F}
      → (new_predictor F json param w).0 ≡ ok p
      → IsMade param.metric_collector param.with_model_key p
  unfolding new_predictor
  new_predictor-IsMade json param w {p} e =
      let (type, t) = get_model_type-returns param.with_model_key in
      elim (Bool-cases (same type Basetype.gru)) [
        | inl f ↦
            let is_gru = ap ok (same_eq type Basetype.gru f) in
            new_gru-IsMade json param w (t ∙ is_gru) (rw (t, f, new_predictor) at e)
        | inr f ↦ elim (Bool-cases (same type Basetype.holt_winter)) [
          | inl g ↦
              let is_holt_winter = ap ok (same_eq type Basetype.holt_winter g) in
              new_holt_winter-IsMade json param w (t ∙ is_holt_winter)
                (rw (t, f, g, new_predictor) at e)
          | inr g ↦ let failed = rw (t, f, g, new_predictor) at e in absurd cc
        ]
      ]

-- ===== src/Predictor/Safety.antt =====
-- Making a predictor does not panic.
use aom.Base.{
  codes, Text, List, Result, ok, err, panic, ◌≢◌, refl, ◌>>=◌, bind-no_panic, ok-no_panic, inl, inr,
  same, Bool, true, false, if◌then◌else◌, Option-cases, unknown_predictor,
}
use aom.Base.Int.{ℤ}
use aom.Base.Atoi.{atoi, atoi-no_panic}
use aom.Basetype
use aom.Floats.{Floats}
use aom.Collector.{Worker}
use aom.Ptype.{Json, Param}
use aom.Gru
use aom.Gru.{Gru, parse_model}
use aom.HoltWinter
use aom.HoltWinter.{HoltWinter, parse}
use aom.Predictor.{new_gru, new_holt_winter, new_predictor}
use aom.Utils.Keys.Laws.{get_model_type-returns}

atoi_then :
    {B : Type 0} (s : Text) (f : ℤ → Result B) → ((n : ℤ) → f n ≢ panic) → (atoi s >>= f) ≢ panic
atoi_then s f = bind-no_panic (atoi s) f (atoi-no_panic s)

module _ (F : Floats) where
  parse_model-no_panic : (json : Json) (attr : List (Text × Text)) → parse_model F json attr ≢ panic
  unfolding parse_model
  parse_model-no_panic json attr = atoi_then (json attr (codes "look_back")) _ (λ look_back.
      atoi_then (json attr (codes "look_forward")) _ (λ look_forward.
        atoi_then (json attr (codes "batch_size")) _ (λ batch_size.
          atoi_then (json attr (codes "train_size")) _ (λ train_size.
            atoi_then (json attr (codes "epochs")) _
              (λ epochs. atoi_then (json attr (codes "n_layers")) _ (λ n_layers. ok-no_panic _))))))

  new-no_panic : (json : Json) (p : Param) (w : Worker F) → Gru.new F json p w ≢ panic
  unfolding Gru.new
  new-no_panic json p w =
      bind-no_panic (parse_model F json p.model) _ (parse_model-no_panic json p.model)
        (λ m. ok-no_panic _)

  parse-no_panic : (s : Text) → parse F s ≢ panic
  parse-no_panic s = elim (Option-cases (F.parse_float s)) [
    | inl e ↦ rw (e, parse) (λ h. cc)
    | inr (x, e) ↦ rw (e, parse) (λ h. cc)
  ]

  parse_then :
      {B : Type 0} (s : Text) (f : F.Float64 → Result B)
      → ((x : F.Float64) → f x ≢ panic)
      → (parse F s >>= f) ≢ panic
  parse_then s f = bind-no_panic (parse F s) f (parse-no_panic s)

  new_float-no_panic : (json : Json) (p : Param) → HoltWinter.new F json p ≢ panic
  unfolding HoltWinter.new
  new_float-no_panic json p = atoi_then (json p.model (codes "slen")) _ (λ slen.
      atoi_then (json p.model (codes "look_forward")) _ (λ look_forward.
        atoi_then (json p.model (codes "look_backward")) _ (λ look_backward.
          parse_then (json p.model (codes "alpha")) _ (λ alpha.
            parse_then (json p.model (codes "beta")) _
              (λ beta. parse_then (json p.model (codes "gamma")) _ (λ gamma. ok-no_panic _))))))

  new_gru-no_panic :
      (r : Result (Gru F × Worker F)) (w : Worker F) → r ≢ panic → (new_gru F r w).0 ≢ panic
  unfolding new_gru
  new_gru-no_panic (ok (g, v)) w h = λ e. cc
  new_gru-no_panic (err x) w h = λ e. cc
  new_gru-no_panic panic w h = absurd (h refl)

  new_holt_winter-no_panic :
      (r : Result (HoltWinter F)) (w : Worker F) → r ≢ panic → (new_holt_winter F r w).0 ≢ panic
  unfolding new_holt_winter
  new_holt_winter-no_panic (ok p) w h = λ e. cc
  new_holt_winter-no_panic (err x) w h = λ e. cc
  new_holt_winter-no_panic panic w h = absurd (h refl)

  -- `NewPredictor` does not panic, whatever the key and the attributes.
  pub new_predictor-no_panic :
      (json : Json) (p : Param) (w : Worker F) → (new_predictor F json p w).0 ≢ panic
  unfolding new_predictor
  new_predictor-no_panic json p w =
      let (type, e) = get_model_type-returns p.with_model_key in
      rw (e, new_predictor)
        (elim (same type Basetype.gru)
          as (λ (b : Bool).
            (if b
              then new_gru F (Gru.new F json p w) w
              else if same type Basetype.holt_winter
              then new_holt_winter F (HoltWinter.new F json p) w
              else (err unknown_predictor, w)).0
            ≢ panic) [
              | true ↦ new_gru-no_panic (Gru.new F json p w) w (new-no_panic json p w)
              | false ↦
                  elim (same type Basetype.holt_winter)
                    as (λ (b : Bool).
                      (if b
                        then new_holt_winter F (HoltWinter.new F json p) w
                        else (err unknown_predictor, w)).0
                      ≢ panic) [
                        | true ↦
                            new_holt_winter-no_panic (HoltWinter.new F json p) w
                              (new_float-no_panic json p)
                        | false ↦ λ h. cc
                      ]
            ])

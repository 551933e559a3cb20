-- ===== src/Utils/Plot.antt =====
-- utils/plot.go: the debug plot of the samples and their prediction. The plot library is a
-- parameter. What the predictors do with the error of `PlotLine` is a log line.
use aom.Base.{
  ℕ, suc, ◌-◌, Text, List, [], ◌∷◌, ◌++◌, Error, Result, err, panic, ◌>>=◌, length, get_elem?,
  or_panic, codes, ◌≡◌, ◌≢◌, arith, bind-no_panic,
}
use aom.Base.Int.{pos}
use aom.Floats.{Floats}
use aom.Gru.{last_of}
use aom.Gru.Safety.{last_of-Returns}

module _ (F : Floats) where
  open F use {Float64, of_int}

  -- One of `plotter.XYs`.
  pub record Xy : Type 0 where
    pub x : Float64
    pub y : Float64

  -- The plot library: `plotter.NewLine` for a number of points, and `Save` of the lines under a
  -- file name.
  pub record Plotter : Type 0 where
    pub new_line : ℕ → Result (Unit {0})
    pub save : List (List Xy) → Text → Result (Unit {0})

  -- The library refuses a line with no points, and it does not panic.
  pub record IsPlotter (p : Plotter) : Type 0 where
    pub refuses : (e : Error) × (p.new_line 0 ≡ err e)
    pub new_line-no_panic : (n : ℕ) → p.new_line n ≢ panic
    pub save-no_panic : (lines : List (List Xy)) (name : Text) → p.save lines name ≢ panic

  -- The points of a slice whose first entry has the place `n`.
  unfoldable pub points : ℕ → List Float64 → List Xy
  points n [] = []
  points n (v ∷ vs) = record { x = of_int (pos n); y = v } ∷ points (suc n) vs

  unfoldable pub plot_line : Plotter → List Float64 → List Float64 → Text → Result (Unit {0})
  unfolding points last_of
  plot_line p base prediction file_name = do
    _ ← p.new_line (length base)
    _ ← p.new_line (length prediction)
    _ ← p.new_line 2
    last ← last_of base
    next ← or_panic (get_elem? prediction 0)
    let connection_line =
        record { x = of_int (pos (length base - 1)); y = last }
        ∷ record { x = of_int (pos (length base)); y = next }
        ∷ []
    p.save (points 0 base ∷ points (length base) prediction ∷ connection_line ∷ [])
        (file_name ++ codes ".png")

  -- `PlotLine` never panics, also where there is nothing to plot: it reads the last sample and the
  -- first prediction only when the library has taken both lines.
  pub plot_line-no_panic :
      (p : Plotter) (base prediction : List Float64) (file_name : Text)
      → IsPlotter p
      → plot_line p base prediction file_name ≢ panic
  unfolding plot_line
  plot_line-no_panic p [] prediction file_name law =
      let (e, f) = law.refuses in rw (f, plot_line, ◌>>=◌) (λ h. cc)
  plot_line-no_panic p (b ∷ base) [] file_name law =
      let (e, f) = law.refuses in
      bind-no_panic _ _ (law.new_line-no_panic _) (λ _. rw (f, ◌>>=◌) (λ h. cc))
  plot_line-no_panic p (b ∷ base) (v ∷ prediction) file_name law =
      let (last, e) = last_of-Returns (b ∷ base) (omega arith) in
      bind-no_panic _ _ (law.new_line-no_panic _) (λ _.
        bind-no_panic _ _ (law.new_line-no_panic _) (λ _.
          bind-no_panic _ _ (law.new_line-no_panic 2) (λ _. rw (e, ◌>>=◌) (law.save-no_panic _ _))))

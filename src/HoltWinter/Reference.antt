-- ===== src/HoltWinter/Reference.antt =====
-- Triple exponential smoothing by its recurrences, and the loop of `tripleExponentialSmoothing`.
use aom.Base.{
  true, false, ℕ, zero, suc, ◌+◌, ◌-◌, ◌%◌, ◌<◌, List, [], ◌∷◌, ◌++◌, some, ok, ◌≡◌, refl, sym, ap,
  ◌∙◌, length, get_elem?, set, arith, length-set, get_elem?-set, leb, ◌==◌, if◌then◌else◌,
}
use aom.Base.Int.{pos}
use aom.Floats.{Floats}
use aom.HoltWinter.{HoltWinter, Smoothing, smoothing_step, smoothing_loop}
use native.Mathlib.Nat.{mod-lt}

module _ (F : Floats) where
  open F use {Float64, zero_float, one_float, add, sub, mul, of_int}

  -- The level, the trend, and the seasonal component of each place of the season.
  pub record Level : Type 0 where
    pub smooth : Float64
    pub trend : Float64
    pub season : ℕ → Float64

  module _ (p : HoltWinter F) (size : ℕ) where
    -- The recurrences, at sample `i` with the value `val`.
    unfoldable pub advance : ℕ → Float64 → Level → Level
    advance i val l =
        let smooth =
          add (mul p.alpha (sub val (l.season (i % size))))
            (mul (sub one_float p.alpha) (add l.smooth l.trend)) in
        record {
          smooth = smooth;
          trend = add (mul p.beta (sub smooth l.smooth)) (mul (sub one_float p.beta) l.trend);
          season = λ j.
              if i % size == j
              then add (mul p.gamma (sub val smooth))
                  (mul (sub one_float p.gamma) (l.season (i % size)))
              else l.season j;
        }

    -- The level behind the samples.
    unfoldable pub level_after : ℕ → List Float64 → Level → Level
    unfolding advance
    level_after i [] l = l
    level_after i (v ∷ vs) l = level_after (suc i) vs (advance i v l)

    -- What the levels give for the samples themselves.
    unfoldable pub fitted : ℕ → List Float64 → Level → List Float64
    unfolding advance
    fitted i [] l = []
    fitted i (v ∷ vs) l =
        let next = advance i v l in
        add (add next.smooth next.trend) (next.season (i % size)) ∷ fitted (suc i) vs next

    -- The forecasts for `left` samples from the `m`th behind `n` samples on, by one level.
    unfoldable pub forecasts : ℕ → Level → ℕ → ℕ → List Float64
    forecasts n l zero m = []
    forecasts n l (suc left) m =
        add (add l.smooth (mul (of_int (pos m)) l.trend)) (l.season ((n + m - 1) % size))
        ∷ forecasts n l left (suc m)

    -- The loop's variables hold the level.
    pub record Holds (s : Smoothing F) (l : Level) : Type 0 where
      pub same_smooth : s.smooth ≡ l.smooth
      pub same_trend : s.trend ≡ l.trend
      pub same_season : (j : ℕ) → j < size → get_elem? s.seasonals j ≡ some (l.season j)
      pub same_size : length s.seasonals ≡ size

    -- The series from the place `i` on.
    pub record From (series : List Float64) (i : ℕ) (vs : List Float64) : Type 0 where
      pub same_entries : (j : ℕ) → get_elem? series (i + j) ≡ get_elem? vs j
      pub same_length : i + length vs ≡ length series

    From-next :
        (series : List Float64) (i : ℕ) (v : Float64) (vs : List Float64)
        → From series i (v ∷ vs)
        → From series (suc i) vs
    From-next series i v vs h = record {
      same_entries = λ j.
          let shift : suc i + j ≡ i + suc j = omega arith in
          ap (get_elem? series) shift ∙ h.same_entries (suc j);
      same_length = let n = h.same_length in omega (arith, n);
    }

    -- A round past the samples.
    forecast-step :
        (series : List Float64) (m : ℕ) (s : Smoothing F) (l : Level)
        → 0 < size
        → Holds s l
        → let n = length series in
          smoothing_step F p size series (n + m) s
          ≡ ok (
            s,
            add
                (add l.smooth (mul (of_int (pos (suc m))) l.trend))
                (l.season ((n + suc m - 1) % size)),
          )
    unfolding smoothing_step
    forecast-step series m s l h r =
        let n = length series in
        let past : leb n (n + m) ≡ true = ground arith in
        let e = r.same_season ((n + m) % size) (mod-lt (n + m) h) in
        let ahead : n + m - n + 1 ≡ suc m = omega arith in
        let place : n + m ≡ n + suc m - 1 = omega arith in
        rw (past, e, smoothing_step, r.same_smooth, r.same_trend, ahead, place) refl

    -- A round at a sample.
    sample-step :
        (series vs : List Float64) (i : ℕ) (v : Float64) (s : Smoothing F) (l : Level)
        → 0 < size
        → From series i (v ∷ vs)
        → Holds s l
        → let next = advance i v l in
          (t : Smoothing F) × (smoothing_step F p size series i s
            ≡ ok (t, add (add next.smooth next.trend) (next.season (i % size))))
          × Holds t next
    unfolding smoothing_step advance
    sample-step series vs i v s l h f r =
        let inside = f.same_length in
        let within : leb (length series) i ≡ false = ground (arith, inside) in
        let here : i + 0 ≡ i = omega arith in
        let read : get_elem? series i ≡ some v =
          ap (get_elem? series) (sym here) ∙ f.same_entries 0 in
        let place = i % size in
        let e = r.same_season place (mod-lt i h) in
        let next = advance i v l in
        let t : Smoothing F = record {
          smooth = next.smooth;
          trend = next.trend;
          seasonals = set s.seasonals place (next.season place);
        } in
        let self : (place == place) ≡ true = ground arith in
        (
          t,
          rw (within, read, e, smoothing_step, r.same_smooth, r.same_trend, self) refl,
          record {
            same_smooth = refl;
            same_trend = refl;
            same_season = λ j k.
                let inside = mod-lt i h in
                let full = r.same_size in
                get_elem?-set s.seasonals place j (next.season place) (omega (arith, inside, full))
                ∙ rw (self) (ground (arith, r.same_season j k));
            same_size = length-set s.seasonals place (next.season place) ∙ r.same_size;
          },
        )

    forecast-loop :
        (series : List Float64) (left m : ℕ) (s : Smoothing F) (l : Level)
        → 0 < size
        → Holds s l
        → smoothing_loop F p size series left (length series + m) s
          ≡ ok (forecasts (length series) l left (suc m))
    unfolding smoothing_loop forecasts
    forecast-loop series zero m s l h r = refl
    forecast-loop series (suc left) m s l h r =
        let n = length series in
        let on : suc (n + m) ≡ n + suc m = omega arith in
        let rest = forecast-loop series left (suc m) s l h r in
        rw (forecast-step series m s l h r, on, rest) refl

    pub sample-loop :
        (series vs : List Float64) (i ahead : ℕ) (s : Smoothing F) (l : Level)
        → 0 < size
        → From series i vs
        → Holds s l
        → smoothing_loop F p size series (length vs + ahead) i s
          ≡ ok (fitted i vs l ++ forecasts (length series) (level_after i vs l) ahead 1)
    unfolding smoothing_loop fitted level_after
    sample-loop series [] i ahead s l h f r =
        let n = f.same_length in
        let at : i ≡ length series + 0 = omega (arith, n) in
        let count : 0 + ahead ≡ ahead = omega arith in
        rw (at, count) (forecast-loop series ahead 0 s l h r)
    sample-loop series (v ∷ vs) i ahead s l h f r =
        let (t, e, k) = sample-step series vs i v s l h f r in
        let rest =
          sample-loop series vs (suc i) ahead t (advance i v l) h (From-next series i v vs f) k in
        let count : suc (length vs) + ahead ≡ suc (length vs + ahead) = omega arith in
        rw (count, smoothing_loop, e, rest) refl

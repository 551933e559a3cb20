-- ===== src/Fake.antt =====
-- fake/collector_worker.go: a worker for trials, which makes its samples up when it sends them.
use aom.Base.{
  ℕ, zero, suc, ◌+◌, ◌-◌, ◌^◌, ◌<◌, Text, List, [], ◌∷◌, some, Result, ok, codes, get_elem?, ◌≡◌,
  ap, arith, ◌∙◌,
}
use aom.Base.Int.{ℤ, pos, pos_part, ◌+ℤ◌, ◌*ℤ◌}
use aom.Floats.{Floats}
use aom.Collector.{Sample}

module _ (F : Floats) where
  open F use {Float64}

  -- Times and intervals are numbers that fit what `time` takes.
  pub record CollectorWorker : Type 0 where
    pub n : ℤ
    pub function : ℤ → Float64
    pub start : ℤ
    pub interval : ℤ

  abbrev pub sample_at : CollectorWorker → ℕ → Sample F
  sample_at c i = record {
    value = c.function (pos i);
    time_stamp = c.start +ℤ (pos i *ℤ c.interval);
  }

  -- The loop of `Send`, with `left` rounds to go at `i`.
  unfoldable pub send_loop : CollectorWorker → ℕ → ℕ → List (Sample F)
  send_loop c zero i = []
  send_loop c (suc left) i = sample_at c i ∷ send_loop c left (suc i)

  unfoldable pub send : CollectorWorker → List (Sample F)
  unfolding send_loop
  send c = send_loop c (pos_part c.n) 0

  abbrev pub no_model_key : Text
  no_model_key = codes "fake$%$test_fake"

  unfoldable pub data_cap : ℕ
  data_cap = 2 ^ 32 - 1

  abbrev pub collect : Result (Unit {0})
  collect = ok tt

  get_elem?-send_loop :
      (c : CollectorWorker) (left i j : ℕ)
      → j < left
      → get_elem? (send_loop c left i) j ≡ some (sample_at c (i + j))
  unfolding send_loop
  get_elem?-send_loop c zero i j h = absurd (omega arith)
  get_elem?-send_loop c (suc left) i zero h =
      let same_place : i ≡ i + 0 = omega arith in ap (λ k. some (sample_at c k)) same_place
  get_elem?-send_loop c (suc left) i (suc j) h =
      let same_place : suc i + j ≡ i + suc j = omega arith in
      get_elem?-send_loop c left (suc i) j (omega arith) ∙ ap (λ k. some (sample_at c k)) same_place

  -- The sample at each place below the number is the function's value there, at the time that many
  -- intervals behind the start.
  pub get_elem?-send :
      (c : CollectorWorker) (j : ℕ) → j < pos_part c.n → get_elem? (send c) j ≡ some (sample_at c j)
  unfolding send
  get_elem?-send c j h =
      let same_place : 0 + j ≡ j = omega arith in
      get_elem?-send_loop c (pos_part c.n) 0 j h ∙ ap (λ k. some (sample_at c k)) same_place

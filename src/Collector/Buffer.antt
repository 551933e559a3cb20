-- ===== src/Collector/Buffer.antt =====
-- A worker as a queue: whatever was collected is sent once, in order.
use aom.Base.{
  List, [], ◌∷◌, ◌++◌, append_assoc, append-nil, ◌≡◌, sym, ap, ◌∙◌, Result, ok, err, panic,
}
use aom.Floats.{Floats}
use aom.Collector.{Sample, Worker, collect, send}

module _ (F : Floats) where
  -- A call of `Collect`, with what the query answers, or a call of `Send`.
  pub data Call : Type 0 where
    collects : Result (List (Sample F)) → Call
    sends : Call

  -- Runs the calls, and returns all that was sent.
  pub run : List Call → Worker F → List (Sample F) × Worker F
  run [] w = ([], w)
  run (collects r ∷ cs) w = run cs (collect F r w).1
  run (sends ∷ cs) w = let (out, w') = send F w in let (rest, w'') = run cs w' in (out ++ rest, w'')

  -- The samples of the queries that succeed.
  unfoldable pub collected : List Call → List (Sample F)
  collected [] = []
  collected (collects (ok vector) ∷ cs) = vector ++ collected cs
  collected (collects (err e) ∷ cs) = collected cs
  collected (collects panic ∷ cs) = collected cs
  collected (sends ∷ cs) = collected cs

  -- After any sequence of `Collect` and `Send`, what was sent followed by what is buffered is what
  -- was buffered at first followed by what the successful queries answered.
  pub run-collected :
      (cs : List Call) (w : Worker F)
      → (run cs w).0 ++ (run cs w).1.samples ≡ w.samples ++ collected cs
  unfolding run collected collect send
  run-collected [] w = sym (append-nil w.samples)
  run-collected (collects (ok vector) ∷ cs) w =
      run-collected cs _ ∙ append_assoc w.samples vector (collected cs)
  run-collected (collects (err e) ∷ cs) w = run-collected cs w
  run-collected (collects panic ∷ cs) w = run-collected cs w
  run-collected (sends ∷ cs) w =
      append_assoc w.samples _ _ ∙ ap (λ l. w.samples ++ l) (run-collected cs _)

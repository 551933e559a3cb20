-- ===== src/Controller/Handle/History.antt =====
-- Calls of `Reconcile` in a row, over specs in which no metric is taken away.
use aom.Base.{true, Text, List, [], ◌∷◌, ◌≡◌, sym, ◌∙◌, inr}
use aom.Base.Dict.{mem}
use aom.Floats.{Floats}
use aom.K8s.{Scales}
use aom.Controller.{Aom, AomSpec}
use aom.Controller.Metrics.Keys.{spec_keys}
use aom.Controller.Handle.{Outside, World, reconcile, found}
use aom.Controller.Handle.Sound.{IsSound}
use aom.Controller.Handle.Opened.{IsOpen, HasCollector}
use aom.Controller.Handle.Growing.{IsRunning, IsServed, IsServable, reconcile-IsServed}

module _ {F : Floats} {K : Scales} where
  -- The state behind a call, whatever its outcome.
  abbrev pub behind : Outside F K → Aom → World F K → World F K
  behind x aom w = (reconcile F K x (found aom) w).1

  -- Each call, with what the outside answers in it, is served in the state that the others leave.
  unfoldable pub AllServed : List (Outside F K × Aom) → World F K → Type 0
  AllServed [] w = Unit
  AllServed ((x, aom) ∷ calls) w = IsServed x aom w × AllServed calls (behind x aom w)

  -- Each spec keeps the keys of the metrics of the one before, which is `spec` at first, and each
  -- call can be served by the instance and by the outside.
  unfoldable pub Follows : AomSpec → List (Outside F K × Aom) → World F K → Type 0
  Follows spec [] w = Unit
  Follows spec ((x, aom) ∷ calls) w =
      ((j : Text) → mem j (spec_keys spec) ≡ true → mem j (spec_keys aom.spec) ≡ true)
      × IsServable x aom w
      × Follows aom.spec calls (behind x aom w)

  running-IsOpen :
      (spec spec' : AomSpec) (w : World F K)
      → ((j : Text) → mem j (spec_keys spec) ≡ true → mem j (spec_keys spec') ≡ true)
      → IsSound w
      → IsRunning spec w
      → IsOpen spec' w
  running-IsOpen spec spec' w grows h r = record {
    sound = h;
    inside = λ j m. grows j (sym (r.channels j) ∙ m);
    workers = λ j. r.workers j ∙ sym (r.channels j);
  }

  later_AllServed :
      (spec : AomSpec) (calls : List (Outside F K × Aom)) (w : World F K)
      → IsSound w
      → IsRunning spec w
      → Follows spec calls w
      → AllServed calls w
  unfolding AllServed Follows
  later_AllServed spec [] w h r f = tt
  later_AllServed spec ((x, aom) ∷ calls) w h r (grows, s, more) =
      let one =
        reconcile-IsServed x aom w s (running-IsOpen spec aom.spec w grows h r) (inr r.collector) in
      (one, later_AllServed aom.spec calls (behind x aom w) one.done.in_step.sound one.running more)

  -- Let a first call read an instance that calls for a creation, or for an update once the collector
  -- was made, with every stored pointer leading to a cell, the keys with a channel among those of
  -- its spec's metrics and each with a worker, and let later calls read specs that keep the keys of
  -- the metrics of the spec before. If in each call the generation is new, the spec is complete and
  -- the outside answers, then every call succeeds, leaves the maps in step with its spec, and leaves
  -- a channel and a worker for exactly the keys of its metrics.
  pub reconcile-AllServed :
      (x : Outside F K) (aom : Aom) (w : World F K) (calls : List (Outside F K × Aom))
      → IsServable x aom w
      → IsOpen aom.spec w
      → HasCollector aom w
      → Follows aom.spec calls (behind x aom w)
      → AllServed ((x, aom) ∷ calls) w
  unfolding AllServed
  reconcile-AllServed x aom w calls s h p f =
      let one = reconcile-IsServed x aom w s h p in
      (one, later_AllServed aom.spec calls (behind x aom w) one.done.in_step.sound one.running f)

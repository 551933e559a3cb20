-- ===== src/Controller/Collectors/Stopping.antt =====
-- How a worker goroutine ends.
use aom.Base.{Bool, true, List, [], ◌∷◌, ◌≡◌, ◌⊎◌, arith}
use aom.Controller.Collectors.{stopped, marked, Tick, worker_loop}

-- From a tick at which its stop channel is closed or its context is done, a worker collects no
-- more: it ends at that tick, or marks the end there and ends at the next one.
pub worker_loop-stops :
    (t u : Tick) (ts : List Tick) (end : Bool)
    → (t.stop_closed ≡ true) ⊎ (t.ctx_done ≡ true)
    → (worker_loop (t ∷ u ∷ ts) end ≡ stopped ∷ [])
      ⊎ (worker_loop (t ∷ u ∷ ts) end ≡ marked ∷ stopped ∷ [])
unfolding worker_loop
worker_loop-stops t u ts end h = ground arith

-- ===== src/Process/Worlds.antt =====
-- What the threads of src/main.rs do to the state that they share.
use xorc_gateway.Base.{Bool, ℕ}
use xorc_gateway.Crates.{Hex}
use xorc_gateway.Gateway.{Env}
use xorc_gateway.Gateway.Histories.{History, begins, request, reload}
use xorc_gateway.Process.Threads.{reload_apps, Process, Step, Serve, Run, here, step, served, init}
use xorc_gateway.World.{World}

module _ (env : Env) (hex : Hex) (opens : Bool) where
  Step-History :
      {start : World env.cluster} {p q : Process env}
      → Step env hex opens p q
      → History env hex start p.world
      → History env hex start q.world
  unfolding reload_apps
  Step-History {p = p} (Step.update l u) h = reload p.world h
  Step-History s h = h

  -- Every order of the steps of the threads takes the shared state through a sequence of requests
  -- and reloads.
  pub Run-History :
      (w : World env.cluster) (n : ℕ) (p : Process env)
      → Run env hex opens (init env hex opens w) n p
      → History env hex w p.world
  Run-History w n p here = begins
  Run-History w n p (step run s) = Step-History s (Run-History w _ _ run)
  Run-History w n p (served run (Serve.accept l s)) = Run-History w n _ run
  Run-History w n p (served run (Serve.close k l opened)) = Run-History w n _ run
  Run-History w n p (served run (Serve.serve_one chance req k l s opened)) =
      request _ chance req (Run-History w n _ run)

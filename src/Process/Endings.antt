-- ===== src/Process/Endings.antt =====
-- The shutdown of src/main.rs comes to its end.
use xorc_gateway.Base.{ℕ, ◌≤◌, Bool, false, ◌≡◌}
use xorc_gateway.Crates.{Hex}
use xorc_gateway.Gateway.{Env}
use xorc_gateway.Process.Threads.{is_live, Process, Run}
use xorc_gateway.World.{World}

module _ (env : Env) (hex : Hex) (opens : Bool) where
  -- A process can be brought to its end, by this many steps at most.
  abbrev pub Ends : ℕ → Process env → Type 0
  Ends k p =
      (m : ℕ) × (r : Process env) × Run env hex opens p m r × (m ≤ k) × (is_live r.main ≡ false)

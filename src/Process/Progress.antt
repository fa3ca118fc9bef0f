-- ===== src/Process/Progress.antt =====
-- The shutdown of src/main.rs can always go on.
use xorc_gateway.Base.{
  Bool-cases, inl, inr, ℕ, zero, suc, ◌⊎◌, Bool, true, false, ◌≡◌, refl, [], ◌∷◌, arith,
}
use xorc_gateway.Crates.{Hex}
use xorc_gateway.Gateway.{Env}
use xorc_gateway.Process.Stages.{WillSee, WillStop, Stage, Inv}
use xorc_gateway.Process.Invariant.{Run-Inv, init-Inv}
use xorc_gateway.Process.Threads.{
  Updater, testing, updating, parked, exited, crashed, Server, binding, serving, draining, stopped,
  failed, updater_thread, server_thread, Main, waiting, sending, clearing, unsignalled, looping,
  joining, finished, died, is_live, Process, Step, Run, init,
}
use xorc_gateway.World.{World}

WillSee-parked : (token : Bool) → WillSee token parked → token ≡ true
WillSee-parked true h = refl
WillSee-parked false h = absurd h

WillStop-serving : (sent : Bool) → WillStop sent serving → sent ≡ true
WillStop-serving true h = refl
WillStop-serving false h = absurd h

module _ (env : Env) (hex : Hex) (opens : Bool) where
  -- A step for which nobody waits until the time is out, and that needs no error of the server.
  abbrev pub is_prompt : {p q : Process env} → Step env hex opens p q → Bool
  is_prompt (Step.timed_out l u) = false
  is_prompt (Step.broken l s) = false
  is_prompt s = true

  -- The server waits for a connection to be closed.
  abbrev pub Waits : Process env → Type 0
  Waits p = (p.server ≡ draining) × (n : ℕ) × (p.connections ≡ suc n)

  abbrev pub Moves : Process env → Type 0
  Moves p = ((q : Process env) × (s : Step env hex opens p q) × (is_prompt s ≡ true)) ⊎ Waits p

  updater-Moves :
      (p : Process env) (u : Updater)
      → p.updater ≡ u
      → WillSee p.token u
      → p.control ≡ false
      → p.main ≡ joining updater_thread (server_thread ∷ [])
      → Moves p
  updater-Moves p testing e see off m = inl (_, Step.leave (ground arith) e off, refl)
  updater-Moves p updating e see off m = inl (_, Step.update (ground arith) e, refl)
  updater-Moves p parked e see off m =
      inl (_, Step.unparked (ground arith) e (WillSee-parked p.token see), refl)
  updater-Moves p exited e see off m = inl (_, Step.joined _ _ m e, refl)
  updater-Moves p crashed e see off m = inl (_, Step.join_fails _ _ m e, refl)

  server-Moves :
      (p : Process env) (s : Server)
      → p.server ≡ s
      → WillStop p.sent s
      → p.main ≡ joining server_thread []
      → Moves p
  server-Moves p binding e stop m = elim (Bool-cases opens) [
    | inl can ↦ inl (_, Step.bound (ground arith) e can, refl)
    | inr cannot ↦ inl (_, Step.unbound (ground arith) e cannot, refl)
  ]
  server-Moves p serving e stop m =
      inl (_, Step.notified (ground arith) e (WillStop-serving p.sent stop), refl)
  server-Moves p draining e stop m = draining-Moves p.connections refl
    where
      draining-Moves : (n : ℕ) → p.connections ≡ n → Moves p
      draining-Moves zero none = inl (_, Step.idle (ground arith) e none, refl)
      draining-Moves (suc n) opened = inr (e, n, opened)
  server-Moves p stopped e stop m = inl (_, Step.joined _ _ m e, refl)
  server-Moves p failed e stop m = inl (_, Step.join_fails _ _ m e, refl)

  pub main-Moves :
      (p : Process env) (m : Main)
      → p.main ≡ m
      → Inv p
      → p.control ≡ false
      → is_live m ≡ true
      → Stage m p.token p.updater p.server
      → Moves p
  main-Moves p (looping []) m inv off live h = inl (_, Step.finish m, refl)
  main-Moves p (looping (t ∷ ts)) m inv off live h = inl (_, Step.next t ts m, refl)
  main-Moves p (joining updater_thread (server_thread ∷ [])) m inv off live h =
      updater-Moves p p.updater refl h off m
  main-Moves p (joining server_thread []) m inv off live h =
      server-Moves p p.server refl (inv.told (ground arith)) m
  main-Moves p (joining updater_thread []) m inv off live h = absurd h
  main-Moves p (joining updater_thread (updater_thread ∷ ts)) m inv off live h = absurd h
  main-Moves p (joining updater_thread (server_thread ∷ t ∷ ts)) m inv off live h = absurd h
  main-Moves p (joining server_thread (t ∷ ts)) m inv off live h = absurd h
  main-Moves p waiting m inv off live h = ground (arith, inv.flag)
  main-Moves p sending m inv off live h = ground (arith, inv.flag)
  main-Moves p clearing m inv off live h = ground (arith, inv.flag)
  main-Moves p unsignalled m inv off live h = ground arith
  main-Moves p finished m inv off live h = ground arith
  main-Moves p died m inv off live h = ground arith

  -- No wake-up is lost: from the moment the flag is cleared until `main` ends, some step is possible
  -- for which no time has to pass and no error of the server has to come, unless the server, which
  -- accepts no more connections, waits for one that is open to be closed.
  pub Run-moves :
      (w : World env.cluster) (n : ℕ) (p : Process env)
      → Run env hex opens (init env hex opens w) n p
      → p.control ≡ false
      → is_live p.main ≡ true
      → ((q : Process env) × (s : Step env hex opens p q) × (is_prompt s ≡ true))
        ⊎ ((p.server ≡ draining) × (k : ℕ) × (p.connections ≡ suc k))
  Run-moves w n p run off live =
      let inv = Run-Inv env hex opens run (init-Inv env hex opens w) in
      main-Moves p p.main refl inv off live inv.stage

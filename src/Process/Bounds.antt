-- ===== src/Process/Bounds.antt =====
-- How many steps the shutdown of src/main.rs takes.
use xorc_gateway.Base.{
  ℕ, ◌+◌, ◌*◌, ◌≤◌, ◌<◌, Bool, false, ◌≡◌, refl, [], ◌∷◌, length, Outcome, returned, panicked,
  arith,
}
use xorc_gateway.Crates.{Hex}
use xorc_gateway.Gateway.{Env}
use xorc_gateway.Process.Stages.{Stage, Inv}
use xorc_gateway.Process.Invariant.{Run-Inv, init-Inv}
use xorc_gateway.Process.Threads.{
  Updater, testing, updating, parked, Server, binding, serving, draining, updater_thread,
  server_thread, Main, waiting, sending, clearing, unsignalled, looping, joining, finished, died,
  Process, Step, Serve, Run, here, step, served, init, after_update, reload_apps,
}
use xorc_gateway.Results.{Result}
use xorc_gateway.World.{World, IoError}

-- The steps that a thread still has to take once the flag is cleared.
abbrev pub updater_left : Updater → ℕ
updater_left testing = 1
updater_left parked = 2
updater_left updating = 3
updater_left _ = 0

abbrev pub server_left : Server → ℕ
server_left binding = 3
server_left serving = 2
server_left draining = 1
server_left _ = 0

abbrev pub main_left : Main → ℕ
main_left (looping ts) = 2 * length ts + 1
main_left (joining t ts) = 2 * length ts + 2
main_left _ = 0

abbrev pub left : {env : Env} → Process env → ℕ
left p = updater_left p.updater + server_left p.server + main_left p.main

main_left-le :
    (m : Main) (token : Bool) (u : Updater) (s : Server) → Stage m token u s → main_left m ≤ 5
main_left-le (looping (updater_thread ∷ server_thread ∷ [])) token u s h = ground arith
main_left-le (looping (server_thread ∷ [])) token u s h = ground arith
main_left-le (looping []) token u s h = ground arith
main_left-le (looping (updater_thread ∷ [])) token u s h = absurd h
main_left-le (looping (updater_thread ∷ updater_thread ∷ ts)) token u s h = absurd h
main_left-le (looping (updater_thread ∷ server_thread ∷ t ∷ ts)) token u s h = absurd h
main_left-le (looping (server_thread ∷ t ∷ ts)) token u s h = absurd h
main_left-le (joining updater_thread (server_thread ∷ [])) token u s h = ground arith
main_left-le (joining server_thread []) token u s h = ground arith
main_left-le (joining updater_thread []) token u s h = absurd h
main_left-le (joining updater_thread (updater_thread ∷ ts)) token u s h = absurd h
main_left-le (joining updater_thread (server_thread ∷ t ∷ ts)) token u s h = absurd h
main_left-le (joining server_thread (t ∷ ts)) token u s h = absurd h
main_left-le waiting token u s h = ground arith
main_left-le sending token u s h = ground arith
main_left-le clearing token u s h = ground arith
main_left-le unsignalled token u s h = ground arith
main_left-le finished token u s h = ground arith
main_left-le died token u s h = ground arith

updater_left-le : (u : Updater) → updater_left u ≤ 3
updater_left-le u = ground arith

server_left-le : (s : Server) → server_left s ≤ 3
server_left-le s = ground arith

updater_left-after : (o : Outcome (Result IoError (Unit {0}))) → updater_left (after_update o) ≤ 2
updater_left-after (returned r) = ground arith
updater_left-after panicked = ground arith

-- Whether a reload is under way.
abbrev under_way : Updater → ℕ
under_way updating = 1
under_way _ = 0

under_way-le : (u : Updater) → under_way u ≤ 1
under_way-le u = ground arith

under_way-after : (o : Outcome (Result IoError (Unit {0}))) → under_way (after_update o) ≡ 0
under_way-after (returned r) = refl
under_way-after panicked = refl

module _ (env : Env) (hex : Hex) (opens : Bool) where
  pub left-le : (p : Process env) → Inv p → left p ≤ 11
  left-le p inv = omega (
    arith,
    updater_left-le p.updater,
    server_left-le p.server,
    main_left-le p.main p.token p.updater p.server inv.stage,
  )

  pub Step-left :
      {p q : Process env}
      → Step env hex opens p q
      → Inv p
      → p.control ≡ false
      → (left q < left p) × (q.control ≡ false)
  Step-left (Step.enter l u c) inv off = ground (arith, inv.flag)
  Step-left (Step.leave l u c) inv off = ground (arith, inv.flag)
  Step-left {p} (Step.update l u) inv off =
      ground (arith, updater_left-after (reload_apps env hex opens p.world).0)
  Step-left (Step.unparked l u t) inv off = ground (arith, inv.flag)
  Step-left (Step.timed_out l u) inv off = ground (arith, inv.flag)
  Step-left (Step.bound l s o) inv off = ground (arith, inv.flag)
  Step-left (Step.unbound l s o) inv off = ground (arith, inv.flag)
  Step-left (Step.notified l s sent) inv off = ground (arith, inv.flag)
  Step-left (Step.broken l s) inv off = ground (arith, inv.flag)
  Step-left (Step.idle l s none) inv off = ground (arith, inv.flag)
  Step-left (Step.signalled m) inv off = ground (arith, inv.flag)
  Step-left (Step.no_signal m) inv off = ground (arith, inv.flag)
  Step-left (Step.send m) inv off = ground (arith, inv.flag)
  Step-left (Step.clear m) inv off = ground (arith, inv.flag)
  Step-left (Step.next t ts m) inv off = ground (arith, inv.flag)
  Step-left (Step.joined t ts m done) inv off = ground (arith, inv.flag)
  Step-left (Step.join_fails t ts m panics) inv off = ground (arith, inv.flag)
  Step-left (Step.finish m) inv off = ground (arith, inv.flag)

  pub Run-left :
      {p q : Process env} {n : ℕ}
      → Run env hex opens p n q
      → Inv p
      → p.control ≡ false
      → (n + left q ≤ left p) × (q.control ≡ false)
  Run-left here inv off = (omega arith, off)
  Run-left (step run s) inv off =
      let (bound', off') = Run-left run inv off in
      let (less, off'') = Step-left s (Run-Inv env hex opens run inv) off' in (omega arith, off'')
  Run-left (served run (Serve.accept l s)) inv off = Run-left run inv off
  Run-left (served run (Serve.close n l opened)) inv off = Run-left run inv off
  Run-left (served run (Serve.serve_one chance req n l s opened)) inv off = Run-left run inv off

  -- How many reloads a run has.
  abbrev pub is_update : {p q : Process env} → Step env hex opens p q → ℕ
  is_update (Step.update l u) = 1
  is_update s = 0

  unfoldable pub updates : {p q : Process env} {n : ℕ} → Run env hex opens p n q → ℕ
  updates here = 0
  updates (step run s) = updates run + is_update s
  updates (served run s) = updates run

  Step-under_way :
      {p q : Process env} (s : Step env hex opens p q)
      → p.control ≡ false
      → is_update s + under_way q.updater ≤ under_way p.updater
  Step-under_way (Step.enter l u c) off = ground arith
  Step-under_way (Step.leave l u c) off = ground arith
  Step-under_way {p} (Step.update l u) off =
      ground (arith, under_way-after (reload_apps env hex opens p.world).0)
  Step-under_way (Step.unparked l u t) off = ground arith
  Step-under_way (Step.timed_out l u) off = ground arith
  Step-under_way (Step.bound l s o) off = ground arith
  Step-under_way (Step.unbound l s o) off = ground arith
  Step-under_way (Step.notified l s sent) off = ground arith
  Step-under_way (Step.broken l s) off = ground arith
  Step-under_way (Step.idle l s none) off = ground arith
  Step-under_way (Step.signalled m) off = ground arith
  Step-under_way (Step.no_signal m) off = ground arith
  Step-under_way (Step.send m) off = ground arith
  Step-under_way (Step.clear m) off = ground arith
  Step-under_way (Step.next t ts m) off = ground arith
  Step-under_way (Step.joined t ts m done) off = ground arith
  Step-under_way (Step.join_fails t ts m panics) off = ground arith
  Step-under_way (Step.finish m) off = ground arith

  Run-updates :
      {p q : Process env} {n : ℕ} (run : Run env hex opens p n q)
      → Inv p
      → p.control ≡ false
      → updates run + under_way q.updater ≤ 1
  unfolding updates
  Run-updates {p} here inv off = omega (arith, under_way-le p.updater)
  Run-updates (step run s) inv off =
      omega (arith, Run-updates run inv off, Step-under_way s (Run-left run inv off).1)
  Run-updates (served run (Serve.accept l s)) inv off = Run-updates run inv off
  Run-updates (served run (Serve.close n l opened)) inv off = Run-updates run inv off
  Run-updates (served run (Serve.serve_one chance req n l s opened)) inv off =
      Run-updates run inv off

  -- Once the flag is cleared, at most 11 steps of the three threads are left, of which at most one is
  -- a reload.
  pub Run-bounded :
      (w : World env.cluster) (k n : ℕ) (p q : Process env)
      → Run env hex opens (init env hex opens w) k p
      → p.control ≡ false
      → (run : Run env hex opens p n q) → (n ≤ 11) × (updates run ≤ 1)
  Run-bounded w k n p q before off run =
      let inv = Run-Inv env hex opens before (init-Inv env hex opens w) in
      (
        omega (arith, (Run-left run inv off).0, left-le p inv),
        omega (arith, Run-updates run inv off),
      )

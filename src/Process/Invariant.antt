-- ===== src/Process/Invariant.antt =====
-- What holds of the threads of src/main.rs at every moment.
use mathlib.Core.Path.{subst}
use xorc_gateway.Base.{Bool, true, false, not, ◌≡◌, ◌⊎◌, refl, ℕ, arith}
use xorc_gateway.Crates.{Hex}
use xorc_gateway.Gateway.{Env}
use xorc_gateway.Process.Threads.{
  Updater, exited, crashed, Server, stopped, failed, finished, died, Process, Step, Serve, Run,
  here, step, served, init, testing, updating, is_live, serving, draining, after_update,
  reload_apps,
}
use xorc_gateway.World.{World}
use xorc_gateway.Process.Stages.{
  has_cleared, WillSee, WillStop, Inv, Stage-kept, Stage-next, Stage-joined, Stage-died,
  WillSee-updating, after_update-ne, at, WillStop-bound, WillStop-ended, WillStop-delivered,
}

module _ (env : Env) (hex : Hex) (opens : Bool) where
  -- A thread other than the main one has taken a step.
  others :
      {p : Process env} (token : Bool) (u : Updater) (s : Server) (w : World env.cluster)
      → Inv p
      → is_live p.main ≡ true
      → (has_cleared p.main ≡ true → WillSee p.token p.updater → WillSee token u)
      → (p.updater ≡ exited → u ≡ exited)
      → (p.server ≡ stopped → s ≡ stopped)
      → (WillStop p.sent p.server → WillStop p.sent s)
      → (u ≡ exited → p.control ≡ false)
      → Inv (record p { token = token; updater = u; server = s; world = w })
  others {p} token u s w inv live see exit stop will leaving = record {
    flag = inv.flag;
    leaving = leaving;
    told = λ h. will (inv.told h);
    stage = Stage-kept p.main _ _ _ _ _ _ live see exit stop inv.stage;
  }

  pub Step-Inv : {p q : Process env} → Step env hex opens p q → Inv p → Inv q
  Step-Inv {p} (Step.enter l u c) inv =
      others p.token updating p.server p.world inv l (λ h. ground (arith, inv.flag)) (ground arith)
        (λ e. e) (λ h. h) (ground arith)
  Step-Inv {p} (Step.leave l u c) inv =
      others p.token exited p.server p.world inv l (ground arith) (λ e. refl) (λ e. e) (λ h. h)
        (λ e. c)
  Step-Inv {p} (Step.update l u) inv =
      others p.token (after_update (reload_apps env hex opens p.world).0) p.server
        (reload_apps env hex opens p.world).1 inv l
        (λ h see. WillSee-updating p.token _ (subst (WillSee p.token) u see)) (ground arith)
        (λ e. e) (λ h. h) (λ e. absurd (after_update-ne _ e))
  Step-Inv {p} (Step.unparked l u t) inv =
      others false testing p.server p.world inv l (λ h see. tt) (ground arith) (λ e. e) (λ h. h)
        (ground arith)
  Step-Inv {p} (Step.timed_out l u) inv =
      others false testing p.server p.world inv l (λ h see. tt) (ground arith) (λ e. e) (λ h. h)
        (ground arith)
  Step-Inv {p} (Step.bound l s o) inv =
      others p.token p.updater serving p.world inv l (λ h see. see) (λ e. e) (ground arith)
        (λ h. WillStop-bound p.sent _ (subst (WillStop p.sent) s h)) inv.leaving
  Step-Inv {p} (Step.unbound l s o) inv =
      others p.token p.updater failed p.world inv l (λ h see. see) (λ e. e) (ground arith)
        (λ h. WillStop-ended p.sent failed (ground arith) (ground arith)) inv.leaving
  Step-Inv {p} (Step.notified l s sent) inv =
      others p.token p.updater draining p.world inv l (λ h see. see) (λ e. e) (ground arith)
        (λ h. WillStop-ended p.sent draining (ground arith) (ground arith)) inv.leaving
  Step-Inv {p} (Step.broken l s) inv =
      others p.token p.updater draining p.world inv l (λ h see. see) (λ e. e) (ground arith)
        (λ h. WillStop-ended p.sent draining (ground arith) (ground arith)) inv.leaving
  Step-Inv {p} (Step.idle l s none) inv =
      others p.token p.updater stopped p.world inv l (λ h see. see) (λ e. e) (λ e. refl)
        (λ h. WillStop-ended p.sent stopped (ground arith) (ground arith)) inv.leaving
  Step-Inv (Step.signalled m) inv = record {
    flag = ground (arith, inv.flag);
    leaving = inv.leaving;
    told = ground arith;
    stage = tt;
  }
  Step-Inv (Step.no_signal m) inv = record {
    flag = ground (arith, inv.flag);
    leaving = inv.leaving;
    told = ground arith;
    stage = tt;
  }
  Step-Inv (Step.send m) inv = record {
    flag = ground (arith, inv.flag);
    leaving = inv.leaving;
    told = λ h. WillStop-delivered _;
    stage = tt;
  }
  Step-Inv (Step.clear m) inv = record {
    flag = refl;
    leaving = λ e. refl;
    told = λ h. inv.told (ground arith);
    stage = tt;
  }
  Step-Inv (Step.next t ts m) inv = record {
    flag = ground (arith, inv.flag);
    leaving = inv.leaving;
    told = λ h. inv.told (ground arith);
    stage = Stage-next t ts _ _ _ (at inv m);
  }
  Step-Inv (Step.joined t ts m done) inv = record {
    flag = ground (arith, inv.flag);
    leaving = inv.leaving;
    told = λ h. inv.told (ground arith);
    stage = Stage-joined t ts _ _ _ done (at inv m);
  }
  Step-Inv (Step.join_fails t ts m panics) inv = record {
    flag = ground (arith, inv.flag);
    leaving = inv.leaving;
    told = λ h. inv.told (ground arith);
    stage = Stage-died t ts _ _ _ panics (at inv m);
  }
  Step-Inv (Step.finish m) inv = record {
    flag = ground (arith, inv.flag);
    leaving = inv.leaving;
    told = λ h. inv.told (ground arith);
    stage = at inv m;
  }

  pub Serve-Inv : {p q : Process env} → Serve env hex opens p q → Inv p → Inv q
  Serve-Inv (Serve.accept l s) inv = record {
    flag = inv.flag;
    leaving = inv.leaving;
    told = inv.told;
    stage = inv.stage;
  }
  Serve-Inv (Serve.close n l opened) inv = record {
    flag = inv.flag;
    leaving = inv.leaving;
    told = inv.told;
    stage = inv.stage;
  }
  Serve-Inv {p} (Serve.serve_one chance req n l s opened) inv =
      others p.token p.updater p.server _ inv l (λ h see. see) (λ e. e) (λ e. e) (λ h. h)
        inv.leaving

  pub init-Inv : (w : World env.cluster) → Inv (init env hex opens w)
  init-Inv w = record { flag = refl; leaving = ground arith; told = ground arith; stage = tt }

  pub Run-Inv : {p q : Process env} {n : ℕ} → Run env hex opens p n q → Inv p → Inv q
  Run-Inv here inv = inv
  Run-Inv (step run s) inv = Step-Inv s (Run-Inv run inv)
  Run-Inv (served run s) inv = Serve-Inv s (Run-Inv run inv)

  -- Whatever the order in which the threads run: the flag is cleared exactly where `main` has come
  -- to the loop in which it stops the threads; the updater returns only after that; where `main`
  -- has come to its end in order, the updater and the server have returned; and where it has
  -- panicked, the updater has, or the server has and the updater has returned.
  pub Run-stopped :
      (w : World env.cluster) (n : ℕ) (p : Process env)
      → Run env hex opens (init env hex opens w) n p
      → (p.control ≡ not (has_cleared p.main))
        × (p.updater ≡ exited → p.control ≡ false)
        × (p.main ≡ finished → (p.updater ≡ exited) × (p.server ≡ stopped))
        × (p.main ≡ died → (p.updater ≡ crashed) ⊎ ((p.updater ≡ exited) × (p.server ≡ failed)))
  Run-stopped w n p run =
      let inv = Run-Inv run (init-Inv w) in (inv.flag, inv.leaving, λ m. at inv m, λ m. at inv m)

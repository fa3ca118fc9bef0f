-- ===== src/Process/Stages.antt =====
-- Where the threads of src/main.rs stand, as far as the main thread knows.
use mathlib.Core.Path.{subst}
use xorc_gateway.Base.{
  Bool, true, false, not, ◌≡◌, ◌⊎◌, inl, inr, refl, ◌≢◌, List, [], ◌∷◌, Outcome, returned, panicked,
  arith,
}
use xorc_gateway.Gateway.{Env}
use xorc_gateway.Process.Threads.{
  Updater, exited, crashed, Server, stopped, failed, updater_thread, server_thread, Main, looping,
  joining, finished, died, Process, testing, updating, binding, waiting, sending, clearing,
  unsignalled, is_live, unpark, IsDone, HasPanicked, Thread, serving, draining, after_update,
  delivered,
}
use xorc_gateway.Results.{Result}
use xorc_gateway.World.{IoError}

-- `main` is past `control.store(false)`.
abbrev pub has_cleared : Main → Bool
has_cleared (looping ts) = true
has_cleared (joining t ts) = true
has_cleared finished = true
has_cleared died = true
has_cleared _ = false

-- The updater will not park again without being woken: it has been unparked, or it reads the flag
-- next, or it has ended.
abbrev pub WillSee : Bool → Updater → Type 0
WillSee true u = Unit
WillSee false testing = Unit
WillSee false exited = Unit
WillSee false crashed = Unit
WillSee false _ = ⊥

-- What `main` knows of the two threads where it stands.
abbrev pub Stage : Main → Bool → Updater → Server → Type 0
Stage (looping (updater_thread ∷ server_thread ∷ [])) token u s = Unit
Stage (joining updater_thread (server_thread ∷ [])) token u s = WillSee token u
Stage (looping (server_thread ∷ [])) token u s = u ≡ exited
Stage (joining server_thread []) token u s = u ≡ exited
Stage (looping []) token u s = (u ≡ exited) × (s ≡ stopped)
Stage finished token u s = (u ≡ exited) × (s ≡ stopped)
Stage died token u s = (u ≡ crashed) ⊎ ((u ≡ exited) × (s ≡ failed))
Stage (looping _) token u s = ⊥
Stage (joining _ _) token u s = ⊥
Stage _ token u s = Unit

-- `server_tx.send(())` has been called.
abbrev pub has_sent : Main → Bool
has_sent clearing = true
has_sent m = has_cleared m

-- The server will not wait for connections for ever: it has the message, or it has ended.
abbrev pub WillStop : Bool → Server → Type 0
WillStop true s = Unit
WillStop false binding = ⊥
WillStop false serving = ⊥
WillStop false _ = Unit

pub record Inv {env : Env} (p : Process env) : Type 0 where
  pub flag : p.control ≡ not (has_cleared p.main)
  pub leaving : p.updater ≡ exited → p.control ≡ false
  pub told : has_sent p.main ≡ true → WillStop p.sent p.server
  pub stage : Stage p.main p.token p.updater p.server

pub Stage-kept :
    (m : Main) (token token' : Bool) (u u' : Updater) (s s' : Server)
    → is_live m ≡ true
    → (has_cleared m ≡ true → WillSee token u → WillSee token' u')
    → (u ≡ exited → u' ≡ exited)
    → (s ≡ stopped → s' ≡ stopped)
    → Stage m token u s
    → Stage m token' u' s'
Stage-kept (looping (updater_thread ∷ server_thread ∷ [])) _ _ _ _ _ _ live see exit stop h = tt
Stage-kept (looping (server_thread ∷ [])) _ _ _ _ _ _ live see exit stop h = exit h
Stage-kept (looping []) _ _ _ _ _ _ live see exit stop (h, k) = (exit h, stop k)
Stage-kept (looping (updater_thread ∷ [])) _ _ _ _ _ _ live see exit stop h = h
Stage-kept (looping (updater_thread ∷ updater_thread ∷ ts)) _ _ _ _ _ _ live see exit stop h = h
Stage-kept (looping (updater_thread ∷ server_thread ∷ t ∷ ts)) _ _ _ _ _ _ live see exit stop h = h
Stage-kept (looping (server_thread ∷ t ∷ ts)) _ _ _ _ _ _ live see exit stop h = h
Stage-kept (joining updater_thread (server_thread ∷ [])) _ _ _ _ _ _ live see exit stop h =
    see refl h
Stage-kept (joining server_thread []) _ _ _ _ _ _ live see exit stop h = exit h
Stage-kept (joining updater_thread []) _ _ _ _ _ _ live see exit stop h = h
Stage-kept (joining updater_thread (updater_thread ∷ ts)) _ _ _ _ _ _ live see exit stop h = h
Stage-kept (joining updater_thread (server_thread ∷ t ∷ ts)) _ _ _ _ _ _ live see exit stop h = h
Stage-kept (joining server_thread (t ∷ ts)) _ _ _ _ _ _ live see exit stop h = h
Stage-kept waiting _ _ _ _ _ _ live see exit stop h = tt
Stage-kept sending _ _ _ _ _ _ live see exit stop h = tt
Stage-kept clearing _ _ _ _ _ _ live see exit stop h = tt
Stage-kept unsignalled _ _ _ _ _ _ live see exit stop h = ground arith
Stage-kept finished _ _ _ _ _ _ live see exit stop h = ground arith
Stage-kept died _ _ _ _ _ _ live see exit stop h = ground arith

pub Stage-next :
    (t : Thread) (ts : List Thread) (token : Bool) (u : Updater) (s : Server)
    → Stage (looping (t ∷ ts)) token u s
    → Stage (joining t ts) (unpark t token) u s
Stage-next updater_thread (server_thread ∷ []) _ _ _ h = tt
Stage-next server_thread [] _ _ _ h = h
Stage-next updater_thread [] _ _ _ h = h
Stage-next updater_thread (updater_thread ∷ ts) _ _ _ h = h
Stage-next updater_thread (server_thread ∷ t ∷ ts) _ _ _ h = h
Stage-next server_thread (t ∷ ts) _ _ _ h = h

pub Stage-joined :
    (t : Thread) (ts : List Thread) (token : Bool) (u : Updater) (s : Server)
    → IsDone t u s
    → Stage (joining t ts) token u s
    → Stage (looping ts) token u s
Stage-joined updater_thread (server_thread ∷ []) _ _ _ done h = done
Stage-joined server_thread [] _ _ _ done h = (h, done)
Stage-joined updater_thread [] _ _ _ done h = absurd h
Stage-joined updater_thread (updater_thread ∷ ts) _ _ _ done h = absurd h
Stage-joined updater_thread (server_thread ∷ t ∷ ts) _ _ _ done h = absurd h
Stage-joined server_thread (t ∷ ts) _ _ _ done h = absurd h

pub Stage-died :
    (t : Thread) (ts : List Thread) (token : Bool) (u : Updater) (s : Server)
    → HasPanicked t u s
    → Stage (joining t ts) token u s
    → Stage died token u s
Stage-died updater_thread ts _ _ _ panics h = inl panics
Stage-died server_thread [] _ _ _ panics h = inr (h, panics)
Stage-died server_thread (t ∷ ts) _ _ _ panics h = absurd h

pub WillSee-updating : (token : Bool) (u : Updater) → WillSee token updating → WillSee token u
WillSee-updating true u h = tt
WillSee-updating false u h = absurd h

pub after_update-ne : (o : Outcome (Result IoError (Unit {0}))) → after_update o ≢ exited
after_update-ne (returned r) e = cc
after_update-ne panicked e = cc

pub at :
    {env : Env} {p : Process env}
    → Inv p
    → {m : Main} → p.main ≡ m
    → Stage m p.token p.updater p.server
at {p} inv m = subst (λ m'. Stage m' p.token p.updater p.server) m inv.stage

pub WillStop-bound : (sent : Bool) (s : Server) → WillStop sent binding → WillStop sent s
WillStop-bound true s h = tt
WillStop-bound false s h = absurd h

pub WillStop-ended : (sent : Bool) (s : Server) → s ≢ binding → s ≢ serving → WillStop sent s
WillStop-ended true s b a = tt
WillStop-ended false binding b a = absurd (b refl)
WillStop-ended false serving b a = absurd (a refl)
WillStop-ended false draining b a = tt
WillStop-ended false stopped b a = tt
WillStop-ended false failed b a = tt

pub WillStop-delivered : (s : Server) → WillStop (delivered s) s
WillStop-delivered binding = tt
WillStop-delivered serving = tt
WillStop-delivered draining = tt
WillStop-delivered stopped = tt
WillStop-delivered failed = tt

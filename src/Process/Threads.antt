-- ===== src/Process/Threads.antt =====
-- The threads of `main` in src/main.rs: the thread of the updater (`run_updater` of
-- src/app_registry.rs), the thread of the server (`run` of src/gateway.rs), and the main thread, which
-- waits for the signal and stops the two. Any thread may take the next step.
use xorc_gateway.Base.{
  ℕ, suc, Bool, true, false, ◌≡◌, ◌⊎◌, List, [], ◌∷◌, Outcome, returned, panicked,
}
use xorc_gateway.AppRegistry.Updates.{update_apps}
use xorc_gateway.Crates.{Hex}
use xorc_gateway.Gateway.{Env, Chance}
use xorc_gateway.Gateway.Handlers.{Request, service}
use xorc_gateway.Results.{Result}
use xorc_gateway.World.{World, IoError}

-- `run_updater`: before it reads the flag, in `update_apps`, in `park_timeout`, and at its end.
pub data Updater : Type 0 where
  testing updating parked exited crashed : Updater

-- `Gateway::run`: before the socket is bound, while the server accepts, when the runtime only
-- finishes what is under way, and at its end.
pub data Server : Type 0 where
  binding serving draining stopped failed : Server

-- The threads in the order of the vector `threads`.
pub data Thread : Type 0 where
  updater_thread server_thread : Thread

-- `main`: waiting for the signal, before `server_tx.send(())`, before `control.store`, in the loop
-- with the threads that are left, in `join`, and at its end. `unsignalled` is the end where the
-- stream of signals fails, `died` the panic of an `unwrap`.
pub data Main : Type 0 where
  waiting sending clearing unsignalled finished died : Main
  looping : List Thread → Main
  joining : Thread → List Thread → Main

-- The process ends with its main thread.
abbrev pub is_live : Main → Bool
is_live unsignalled = false
is_live finished = false
is_live died = false
is_live _ = true

-- `control` is the flag, `sent` whether the channel holds the message, `token` whether the updater
-- has been unparked since it last left `park_timeout`, `connections` how many connections are open.
pub record Process (env : Env) : Type 0 where
  pub control : Bool
  pub sent : Bool
  pub token : Bool
  pub updater : Updater
  pub server : Server
  pub main : Main
  pub connections : ℕ
  pub world : World env.cluster

abbrev pub after_update : Outcome (Result IoError (Unit {0})) → Updater
after_update (returned r) = parked
after_update panicked = crashed

-- What the receiver's end does with the message: it is lost where the server has ended.
abbrev pub delivered : Server → Bool
delivered binding = true
delivered serving = true
delivered _ = false

-- `thread.thread().unpark()`; only the updater parks.
abbrev pub unpark : Thread → Bool → Bool
unpark updater_thread token = true
unpark server_thread token = token

-- A thread has returned, or it has panicked.
abbrev pub IsDone : Thread → Updater → Server → Type 0
IsDone updater_thread u s = u ≡ exited
IsDone server_thread u s = s ≡ stopped

abbrev pub HasPanicked : Thread → Updater → Server → Type 0
HasPanicked updater_thread u s = u ≡ crashed
HasPanicked server_thread u s = s ≡ failed

module _ (env : Env) (hex : Hex) (opens : Bool) where
  unfoldable pub reload_apps :
      World env.cluster → Outcome (Result IoError (Unit {0})) × World env.cluster
  reload_apps = update_apps env.cluster hex env.uuids env.config.cassandra.keyspace

  -- The steps of the three threads, but for the requests that the server handles. `opens` says
  -- whether `Gateway::run` comes to listen.
  pub data Step (p : Process env) : Process env → Type 0 where
    enter :
        is_live p.main ≡ true
        → p.updater ≡ testing
        → p.control ≡ true
        → Step p (record p { updater = updating })
    leave :
        is_live p.main ≡ true
        → p.updater ≡ testing
        → p.control ≡ false
        → Step p (record p { updater = exited })
    update :
        is_live p.main ≡ true
        → p.updater ≡ updating
        → Step p (record p {
          updater = after_update (reload_apps p.world).0;
          world = (reload_apps p.world).1;
        })
    unparked :
        is_live p.main ≡ true
        → p.updater ≡ parked
        → p.token ≡ true
        → Step p (record p { updater = testing; token = false })
    timed_out :
        is_live p.main ≡ true
        → p.updater ≡ parked
        → Step p (record p { updater = testing; token = false })
    bound :
        is_live p.main ≡ true
        → p.server ≡ binding
        → opens ≡ true
        → Step p (record p { server = serving })
    unbound :
        is_live p.main ≡ true
        → p.server ≡ binding
        → opens ≡ false
        → Step p (record p { server = failed })
    -- `rx` has the message.
    notified :
        is_live p.main ≡ true
        → p.server ≡ serving
        → p.sent ≡ true
        → Step p (record p { server = draining })
    -- A critical error of the server, which is logged.
    broken : is_live p.main ≡ true → p.server ≡ serving → Step p (record p { server = draining })
    -- `shutdown_on_idle` is done: no connection is open any more.
    idle :
        is_live p.main ≡ true
        → p.server ≡ draining
        → p.connections ≡ 0
        → Step p (record p { server = stopped })
    signalled : p.main ≡ waiting → Step p (record p { main = sending })
    no_signal : p.main ≡ waiting → Step p (record p { main = unsignalled })
    send : p.main ≡ sending → Step p (record p { main = clearing; sent = delivered p.server })
    clear :
        p.main ≡ clearing
        → Step p
            (record p { main = looping (updater_thread ∷ server_thread ∷ []); control = false })
    next :
        (t : Thread) (ts : List Thread)
        → p.main ≡ looping (t ∷ ts)
        → Step p (record p { main = joining t ts; token = unpark t p.token })
    joined :
        (t : Thread) (ts : List Thread)
        → p.main ≡ joining t ts
        → IsDone t p.updater p.server
        → Step p (record p { main = looping ts })
    join_fails :
        (t : Thread) (ts : List Thread)
        → p.main ≡ joining t ts
        → HasPanicked t p.updater p.server
        → Step p (record p { main = died })
    finish : p.main ≡ looping [] → Step p (record p { main = finished })

  -- What comes from outside: connections, which are accepted while the server serves, requests on one
  -- that is open, also while the server only finishes what is under way, and the end of one. A panic of
  -- the handler ends the request and not the thread.
  pub data Serve (p : Process env) : Process env → Type 0 where
    accept :
        is_live p.main ≡ true
        → p.server ≡ serving
        → Serve p (record p { connections = suc p.connections })
    close :
        (n : ℕ)
        → is_live p.main ≡ true
        → p.connections ≡ suc n
        → Serve p (record p { connections = n })
    serve_one :
        (chance : Chance) (req : Request) (n : ℕ)
        → is_live p.main ≡ true
        → (p.server ≡ serving) ⊎ (p.server ≡ draining)
        → p.connections ≡ suc n
        → Serve p (record p { world = (service env chance req p.world).1 })

  -- `main` at its start, for the state that the statics begin with.
  abbrev pub init : World env.cluster → Process env
  init w = record {
    control = true;
    sent = false;
    token = false;
    updater = testing;
    server = binding;
    main = waiting;
    connections = 0;
    world = w;
  }

  -- The processes that `n` steps and any number of requests reach from a process.
  pub data Run (start : Process env) : ℕ → Process env → Type 0 where
    here : Run start 0 start
    step : {n : ℕ} {p q : Process env} → Run start n p → Step p q → Run start (suc n) q
    served : {n : ℕ} {p q : Process env} → Run start n p → Serve p q → Run start n q

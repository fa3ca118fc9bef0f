-- ===== src/Tests/Shutdown.antt =====
-- The threads of src/main.rs from the start to the end of a shutdown.
use xorc_gateway.Base.{ℕ, suc, inl, text, ◌≡◌, ◌⊎◌, refl, ◌∷◌, [], true, false, not, text_eq, ℕ_eq}
use xorc_gateway.Crates.Samples.{plain_hex}
use xorc_gateway.Process.Stages.{has_cleared}
use xorc_gateway.Process.Invariant.{Run-stopped}
use xorc_gateway.Process.Progress.{Run-moves, is_prompt}
use xorc_gateway.Process.Threads.{
  Process, Step, Run, here, step, served, Serve, draining, init, updater_thread, server_thread,
  finished, died, exited, crashed, stopped, failed,
}
use xorc_gateway.Samples.Requests.{env, world, chance, request_for}

abbrev begin : Process env
begin = init env plain_hex true world

-- The signal has come, and the flag is cleared.
abbrev cleared : (p : Process env) × Run env plain_hex true begin 3 p
cleared = (_, step (step (step here (Step.signalled refl)) (Step.send refl)) (Step.clear refl))

-- The rest of the shutdown, with a server that had not bound its socket yet.
abbrev ended : (p : Process env) × Run env plain_hex true cleared.0 9 p
ended = (
  _,
  step
      (step
        (step
          (step
            (step
              (step
                (step
                  (step (step here (Step.next updater_thread (server_thread ∷ []) refl))
                    (Step.leave refl refl refl))
                  (Step.joined updater_thread (server_thread ∷ []) refl refl))
                (Step.next server_thread [] refl))
              (Step.bound refl refl refl))
            (Step.notified refl refl refl))
          (Step.idle refl refl refl))
        (Step.joined server_thread [] refl refl))
      (Step.finish refl),
)

Run-stopped_example :
    (cleared.0.control ≡ not (has_cleared cleared.0.main))
    × (cleared.0.updater ≡ exited → cleared.0.control ≡ false)
    × (cleared.0.main ≡ finished → (cleared.0.updater ≡ exited) × (cleared.0.server ≡ stopped))
    × (cleared.0.main ≡ died
        → (cleared.0.updater ≡ crashed)
          ⊎ ((cleared.0.updater ≡ exited) × (cleared.0.server ≡ failed)))
Run-stopped_example = Run-stopped env plain_hex true world 3 cleared.0 cleared.1

-- A request is still handled, on a connection that is open, when the server has the message.
abbrev busy : (p : Process env) × Run env plain_hex true cleared.0 2 p
busy = (
  _,
  step
      (served (served (step here (Step.bound refl refl refl)) (Serve.accept refl refl))
        (Serve.serve_one chance (request_for (text "register")) 0 refl (inl refl) refl))
      (Step.notified refl refl refl),
)

abbrev at_busy : Run env plain_hex true begin 5 busy.0
at_busy =
    step
      (served (served (step cleared.1 (Step.bound refl refl refl)) (Serve.accept refl refl))
        (Serve.serve_one chance (request_for (text "register")) 0 refl (inl refl) refl))
      (Step.notified refl refl refl)

Run-moves_example :
    ((q : Process env) × (s : Step env plain_hex true busy.0 q) × (is_prompt env plain_hex true s
        ≡ true))
    ⊎ ((busy.0.server ≡ draining) × (k : ℕ) × (busy.0.connections ≡ suc k))
Run-moves_example = Run-moves env plain_hex true world 5 busy.0 at_busy refl refl

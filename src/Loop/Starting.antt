-- ===== src/Loop/Starting.antt =====
-- The start of a node (src/objects/server.cpp) respects every relation that the handlers respect.
use state.Common.{ℕ, zero, suc, Option-cases, Bool-cases, inl, inr}
use state.Platform.{Platform}
use state.World.{World}
use state.Effects.{effects}
use state.Effects.Keeps.{Keeps, keeping, on_world-Keeps}
use state.Listeners.{
  Opening, session_listener, client_listener, listening, open_failed, option_failed, bind_failed,
  listen_failed,
}
use state.Handlers.Membership.{connect, retry_at, make_session}
use state.Effects.{draw}
use state.Server.{
  wait, enter_remote, join_remote, reserve_threads, spawn_threads, run_executor, start_threads,
  listen, start,
}
use state.Loop.Handled.{Handled, R, then_step}
use state.Loop.Perform.{accept_session_step, accept_client_step, repl_start_step}

module _ ⦃p : Platform⦄ where
  open p use {resolves, refusals}

  module _ (k : Handled) where
    session_listener_step : (o : Opening) (w : World) → R k w (session_listener o w)
    unfolding session_listener
    session_listener_step (listening port) w = k.config_step _ w
    session_listener_step open_failed w = k.closed.steps.rfl w
    session_listener_step option_failed w = k.closed.steps.rfl w
    session_listener_step bind_failed w = k.closed.steps.rfl w
    session_listener_step listen_failed w = k.closed.steps.rfl w

    client_listener_step : (o : Opening) (w : World) → R k w (client_listener o w)
    unfolding client_listener
    client_listener_step (listening port) w = k.config_step _ w
    client_listener_step open_failed w = k.closed.steps.rfl w
    client_listener_step option_failed w = k.closed.steps.rfl w
    client_listener_step bind_failed w = k.closed.steps.rfl w
    client_listener_step listen_failed w = k.closed.steps.rfl w

    join_remote-Keeps : Keeps (R k) join_remote
    unfolding join_remote effects connect retry_at wait enter_remote make_session draw
    join_remote-Keeps = record {
      kept = λ f.
          let w = wait f.world in
          elim (Bool-cases (resolves w.config.remote_address w.config.remote_sessions_port)) [
            | inr unknown ↦ rw unknown (k.wait_step f.world)
            | inl known ↦ elim (Option-cases (refusals w.allocated)) [
              | inl forever ↦
                  rw (known, forever)
                    (then_step k _ _ _ (k.wait_step f.world) (k.closed.make_session_step w))
              | inr (n, met) ↦
                  rw (known, met)
                    (then_step k _ _ _ (k.wait_step f.world) (k.closed.new_session_step n _ _ w))
            ]
          ];
    }

    spawn_step : (n : ℕ) (w : World) → R k w (spawn_threads n w)
    unfolding spawn_threads
    spawn_step zero w = k.closed.steps.rfl w
    spawn_step (suc n) w =
        then_step k _ (run_executor w) _ (k.run_step w) (spawn_step n (run_executor w))

    run_rule : (w : World) → R k w (run_executor w)
    run_rule = k.run_step

    pub start-Keeps : (sessions clients : Opening) → Keeps (R k) (start sessions clients)
    unfolding start listen start_threads reserve_threads
    start-Keeps sessions clients =
        search
          (
            k.closed.steps,
            keeping,
            on_world-Keeps,
            join_remote-Keeps,
            session_listener_step,
            accept_session_step k,
            client_listener_step,
            accept_client_step k,
            repl_start_step k,
            spawn_step,
            run_rule,
          )
          depth 20

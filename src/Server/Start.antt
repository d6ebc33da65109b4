-- ===== src/Server/Start.antt =====
-- What the start of a node does (src/objects/server.cpp).
use Prim.Native.Nat.{◌*◌}
use state.Common.{
  ℕ, Bool-cases, inl, inr, zero, suc, ◌+◌, ◌-◌, Bool, true, false, ◌≡◌, refl, ◌∙◌, ap, List, [],
  ◌∷◌, ◌++◌, some, ◌==◌, if◌then◌else◌, arith,
}
use state.Platform.{Platform}
use state.World.{
  World, Config, Task, remote, session_on_run, session_listener_async_accept,
  client_listener_async_accept, repl_async_read,
}
use state.Response.{Response}
use mathlib.Core.List.{append_assoc}
use state.Effects.{M, when, Result, Frame, ok, throw, length_error, effects, draw}
use state.Store.{add_session}
use state.OrderedMap.{emplace, put}
use state.Fanout.{post}
use state.Handlers.Membership.{make_session, connect, start_remote, retry_at, retry, to_port}
use state.Listeners.{
  Opening, listening, open_failed, option_failed, bind_failed, listen_failed, session_listener,
  client_listener, accept_session, accept_client,
}
use state.Repl
use state.Server.{
  listen, make_state, start, join_remote, reserve_threads, spawn_threads, run_executor,
  start_threads, wait, enter_remote,
}

-- The port that is kept for a listener: the one that it listens on, or what was set.
abbrev pub port_of : Opening → ℕ → ℕ
port_of (listening port) before = port
port_of open_failed before = before
port_of option_failed before = before
port_of bind_failed before = before
port_of listen_failed before = before

module _ ⦃p : Platform⦄ where
  open p use {resolves, refusals, is_address, random}

  session_listener_lem :
      (o : Opening) (w : World)
      → session_listener o w
        ≡ record w { config = record w.config { sessions_port = port_of o w.config.sessions_port } }
  unfolding session_listener
  session_listener_lem (listening port) w = refl
  session_listener_lem open_failed w = refl
  session_listener_lem option_failed w = refl
  session_listener_lem bind_failed w = refl
  session_listener_lem listen_failed w = refl

  client_listener_lem :
      (o : Opening) (w : World)
      → client_listener o w
        ≡ record w { config = record w.config { clients_port = port_of o w.config.clients_port } }
  unfolding client_listener
  client_listener_lem (listening port) w = refl
  client_listener_lem open_failed w = refl
  client_listener_lem option_failed w = refl
  client_listener_lem bind_failed w = refl
  client_listener_lem listen_failed w = refl

  -- The tasks of a node that waits for connections, and for the console where there is one.
  abbrev pub waiting : Bool → List Task
  waiting repl_enabled =
      session_listener_async_accept
      ∷ client_listener_async_accept
      ∷ (if repl_enabled then repl_async_read ∷ [] else [])

  -- The world of a node that waits for connections.
  abbrev pub opened : Opening → Opening → Bool → World → World
  opened sessions clients repl_enabled w = record w {
    config = record w.config {
      sessions_port = port_of sessions w.config.sessions_port;
      clients_port = port_of clients w.config.clients_port;
    };
    posted = w.posted ++ waiting repl_enabled;
  }

  when-false : (m : M (Unit {0})) (b : Bool) {f : Frame} → b ≡ false → when b m f ≡ (ok tt, f)
  unfolding effects
  when-false m b e = rw e refl

  pub when-true : (m : M (Unit {0})) (b : Bool) {f : Frame} → b ≡ true → when b m f ≡ m f
  unfolding effects
  when-true m b e = rw e refl

  abbrev pub framed : Response → World → Frame
  framed r w = record { world = w; response = r }

  -- `reserve` throws where no thread is set.
  abbrev pub run_threads : ℕ → Result (Unit {0})
  run_threads threads = if threads == 0 then throw length_error else ok tt

  -- Threads that run the event loop.
  abbrev pub working : ℕ → World → World
  working threads w = record w { running = w.running + threads }

  spawn_threads_lem : (n : ℕ) (w : World) → spawn_threads n w ≡ working n w
  unfolding spawn_threads run_executor
  spawn_threads_lem zero w = ap (λ k. record w { running = k }) (omega arith)
  spawn_threads_lem (suc n) w =
      spawn_threads_lem n (record w { running = suc w.running })
      ∙ ap (λ k. record w { running = k }) (omega arith)

  start_threads_lem :
      (n : ℕ) (r : Response) (w : World)
      → start_threads n (framed r w) ≡ (run_threads n, framed r (working n w))
  unfolding start_threads reserve_threads effects run_executor
  start_threads_lem n r w = elim (Bool-cases (n == 0)) [
    | inl e ↦
        let none_more : w.running ≡ w.running + n = ground arith in
        rw e (ap (λ k. (throw length_error, framed r (record w { running = k }))) none_more)
    | inr e ↦
        let all : suc (w.running + (n - 1)) ≡ w.running + n = ground arith in
        rw (e, spawn_threads_lem (n - 1) w)
          (ap (λ k. (ok tt, framed r (record w { running = k }))) all)
  ]

  listen_lem :
      (c : Config) (sessions clients : Opening) (r : Response) (w : World)
      → listen sessions clients c (framed r w) ≡ (
        run_threads c.threads,
        framed r (working c.threads (opened sessions clients c.repl_enabled w)),
      )
  unfolding listen effects accept_session accept_client post Repl.start
  listen_lem c sessions clients r w = elim (Bool-cases c.repl_enabled) [
    | inl e ↦ simp (session_listener_lem, client_listener_lem, e, append_assoc, start_threads_lem)
    | inr e ↦ simp (session_listener_lem, client_listener_lem, e, append_assoc, start_threads_lem)
  ]

  -- A node that joins no other and whose address is one keeps the ports that its listeners got, and
  -- waits for sessions, for clients, and for the console if that is enabled; then as many threads as
  -- are set run the event loop, or the start throws a length error where that number is 0. Nothing
  -- else has happened.
  pub start_alone :
      (c : Config) (sessions clients : Opening) (r : Response)
      → is_address c.address ≡ true
      → c.is_node ≡ false
      → start sessions clients (framed r (make_state c)) ≡ (
        run_threads c.threads,
        framed r (working c.threads (opened sessions clients c.repl_enabled (make_state c))),
      )
  unfolding start effects make_state
  start_alone c sessions clients r address alone =
      rw
        (
          address,
          when-false join_remote c.is_node alone,
          listen_lem c sessions clients r (make_state c),
        )
        refl

  retry_lem : (n : ℕ) (w : World) → retry n w ≡ record w { slept = w.slept + 3 * n }
  unfolding retry
  retry_lem zero w = ap (λ k. record w { slept = k }) (omega arith)
  retry_lem (suc n) w =
      retry_lem n (record w { slept = w.slept + 3 })
      ∙ ap (λ k. record w { slept = k }) (omega arith)

  -- The world after the session to the remote node.
  abbrev joined : ℕ → World → World
  joined n w = let v = wait w in enter_remote v.allocated (retry n (make_session v).0)

  join_remote_lem :
      (n : ℕ) (r : Response) (w : World)
      → resolves w.config.remote_address w.config.remote_sessions_port ≡ true
      → refusals w.allocated ≡ some n
      → join_remote (framed r w) ≡ (ok tt, framed r (joined n w))
  unfolding join_remote effects connect retry_at wait make_session draw
  join_remote_lem n r w known met = rw (known, met) refl

  start_joined_lem :
      (c : Config) (sessions clients : Opening) (r : Response) (n : ℕ)
      → is_address c.address ≡ true
      → c.is_node ≡ true
      → resolves c.remote_address c.remote_sessions_port ≡ true
      → refusals 0 ≡ some n
      → start sessions clients (framed r (make_state c)) ≡ (
        run_threads c.threads,
        framed r
            (working c.threads (opened sessions clients c.repl_enabled (joined n (make_state c)))),
      )
  unfolding start effects make_state
  start_joined_lem c sessions clients r n address node known met =
      rw
        (
          address,
          when-true join_remote c.is_node node,
          join_remote_lem n r (make_state c) known met,
          listen_lem c sessions clients r (joined n (make_state c)),
        )
        refl

  -- A node that joins another, whose own address is one, and whose remote host resolves and refuses the
  -- connection n times: it sleeps three seconds and three more for each refusal; its map of sessions
  -- holds the session to the remote node alone, under a drawn id and with the ports that were set, as
  -- 16-bit numbers; that session is run first, then the node waits for sessions, for clients, and for
  -- the console if that is enabled. Then as many threads as are set run the event loop, or the start
  -- throws a length error where that number is 0.
  pub start_joined :
      (c : Config) (sessions clients : Opening) (r : Response) (n : ℕ)
      → is_address c.address ≡ true
      → c.is_node ≡ true
      → resolves c.remote_address c.remote_sessions_port ≡ true
      → refusals 0 ≡ some n
      → let result = start sessions clients (framed r (make_state c)) in
        let w = result.1.world in
        (result.0 ≡ run_threads c.threads)
        × (w.slept ≡ 3 + 3 * n)
        × (w.sessions ≡ (random 1, 0) ∷ [])
        × ((w.session 0).id ≡ random 1)
        × ((w.session 0).sessions_port ≡ to_port c.remote_sessions_port)
        × ((w.session 0).clients_port ≡ to_port c.remote_clients_port)
        × (w.posted ≡ session_on_run 0 remote ∷ waiting c.repl_enabled)
        × (w.running ≡ c.threads)
  unfolding make_state make_session draw wait enter_remote start_remote post add_session emplace put
  start_joined c sessions clients r n address node known met =
      rw (start_joined_lem c sessions clients r n address node known met, retry_lem n)
        (refl, refl, refl, refl, refl, refl, refl, omega arith)

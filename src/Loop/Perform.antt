-- ===== src/Loop/Perform.antt =====
-- The handlers of clients, of the listeners and of the console, and with them every task but those of
-- the write queues, respect a relation.
use state.Common.{
  ℕ, Bool, true, false, not, ◌≡◌, refl, String, Option, none, some, str_eq, Bool-cases, inl, inr,
}
use state.Json.{Value}
use state.Clients.{Client}
use state.Platform.{Platform}
use state.World.{
  Handshake, handshake_failed, peer_gone, peer_at, handshake_host, World, Task, SessionContext,
  local, remote, session_on_send, client_on_send, session_on_run, session_async_accept,
  session_async_handshake, session_async_read, client_async_read, client_async_accept,
  session_async_write, client_async_write, session_listener_async_accept,
  client_listener_async_accept, repl_async_read, repl_async_write,
}
use state.Request.{on_client}
use state.Effects.{Result, Frame, ok, throw, hangs, read_clock, draw}
use state.Fanout.{client_send, leave_to_sessions, join_to_sessions}
use state.Handlers.Membership.{make_session}
use state.SessionIo.{change_session, register_self}
use state.SessionIo
use state.ClientIo.{change_socket, set_socket, leave, run}
use state.ClientIo
use state.Listeners.{
  on_accept_session, on_accept_client, new_session, new_client, accept_session, accept_client,
}
use state.Repl.{Read, eof, failed, line, evaluate}
use state.Repl
use state.Kernel.Relation.{kernel-Closed}
use state.Loop.{
  Outcome, perform, set_session_open, set_client_open, completed_session, completed_handshake,
  completed_client,
}
use state.Loop.Handled.{
  Handled, R, is_queueing, then_step, client_send_step, session_on_accept_step,
  session_on_read_step,
}

module _ ⦃p : Platform⦄ where
  open p use {json.{Object, parse, serialize}}

  module _ (k : Handled) where
    leave_step : (c : Client) (w : World) → R k w (leave c w)
    unfolding leave leave_to_sessions
    leave_step c w =
        then_step k _ _ _ (k.closed.remove_client_step c.id w)
          (then_step k _ _ _ (k.draw_step _) (k.closed.to_sessions_step _ _))

    client_read_step : (h : ℕ) (w : World) → R k w (ClientIo.do_read h w)
    unfolding ClientIo.do_read
    client_read_step h w = k.post_step (client_async_read h) w refl

    client_on_accept_step :
        (c : Client) (n : ℕ) (o : Bool) (w : World) → R k w (ClientIo.on_accept c n o w)
    unfolding ClientIo.on_accept
    client_on_accept_step c n true w = leave_step c w
    client_on_accept_step c n false w = then_step k _ _ _ (k.closed.clock_step w) (
        then_step k _ _ _ (k.draw_step _)
          (then_step k _ _ _ (client_send_step k _ c _) (client_read_step c.handle _)))

    client_answer_step :
        (c : Client) (v : World) (x : Result (Unit {0}) × Frame)
        → R k v x.1.world
        → R k v (ClientIo.answer c x).1
    unfolding ClientIo.answer
    client_answer_step c v (ok u, f) r =
        then_step k _ _ _ r
          (then_step k _ _ _ (client_send_step k _ c _) (client_read_step c.handle _))
    client_answer_step c v (throw e, f) r = r
    client_answer_step c v (hangs, f) r = r

    client_body_step :
        (c : Client) (read_at : ℕ) (w : World)
        → R k w (
            ClientIo.do_read c.handle (
              client_send
                (serialize (SessionIo.body_object (read_clock w).1 read_at))
                c
                (read_clock w).0))
    client_body_step c read_at w =
        then_step k _ _ _ (k.closed.clock_step w)
          (then_step k _ _ _ (client_send_step k _ c _) (client_read_step c.handle _))

    client_on_text_step :
        (c : Client) (read_at : ℕ) (v : Option (Value Object)) (w : World)
        → R k w (ClientIo.on_text c read_at v w).1
    unfolding ClientIo.on_text
    client_on_text_step c read_at (some (Value.object o)) w =
        client_answer_step c w _ (kernel-Closed k.closed o on_client c.id w)
    client_on_text_step c read_at none w = client_body_step c read_at w
    client_on_text_step c read_at (some Value.null) w = client_body_step c read_at w
    client_on_text_step c read_at (some Value.double) w = client_body_step c read_at w
    client_on_text_step c read_at (some Value.array) w = client_body_step c read_at w
    client_on_text_step c read_at (some (Value.boolean b)) w = client_body_step c read_at w
    client_on_text_step c read_at (some (Value.int64 z)) w = client_body_step c read_at w
    client_on_text_step c read_at (some (Value.uint64 n)) w = client_body_step c read_at w
    client_on_text_step c read_at (some (Value.string s)) w = client_body_step c read_at w

    client_on_read_step :
        (c : Client) (o : Option String) (w : World) → R k w (ClientIo.on_read c o w).1
    unfolding ClientIo.on_read
    client_on_read_step c none w = leave_step c w
    client_on_read_step c (some s) w =
        then_step k _ _ _ (k.closed.clock_step w) (client_on_text_step c _ (parse s) _)

    pub on_run_step : (h : ℕ) (c : SessionContext) (w : World) → R k w (SessionIo.on_run h c w)
    unfolding SessionIo.on_run
    on_run_step h local w = k.post_step (session_async_accept h) w refl
    on_run_step h remote w =
        k.post_step (session_async_handshake h (handshake_host w.config)) w refl

    new_session_step : (w : World) → R k w (new_session w)
    unfolding new_session make_session draw
    new_session_step w =
        then_step k _ _ _ (k.enter_step w) (k.post_step (session_on_run w.allocated local) _ refl)

    run_step : (c : Client) (w : World) → R k w (run c w)
    unfolding run
    run_step c w = elim (Bool-cases (w.client_socket c.handle).has_socket) [
      | inl e ↦ rw e (
          then_step k _ _ _ (k.closed.clock_step w)
            (k.post_step (client_async_accept c.handle (read_clock w).1) _ refl))
      | inr e ↦ rw e (k.closed.clock_step w)
    ]

    new_client_step : (w : World) → R k w (new_client w)
    unfolding new_client set_socket join_to_sessions
    new_client_step w = then_step k _ _ _ (k.draw_step w) (
        then_step k _ _ _ (k.closed.make_client_step w.id _ _) (
          then_step k _ _ _ (k.socket_step _ _ _ (λ s. refl)) (
            then_step k _ _ _ (k.closed.add_client_step _ _) (
              then_step k _ _ _ (k.draw_step _)
                (then_step k _ _ _ (k.closed.to_sessions_step _ _) (run_step _ _))))))

    pub accept_session_step : (w : World) → R k w (accept_session w)
    unfolding accept_session
    accept_session_step w = k.post_step session_listener_async_accept w refl

    pub accept_client_step : (w : World) → R k w (accept_client w)
    unfolding accept_client
    accept_client_step w = k.post_step client_listener_async_accept w refl

    on_accept_session_step : (b : Bool) (w : World) → R k w (on_accept_session b w)
    unfolding on_accept_session
    on_accept_session_step true w = accept_session_step w
    on_accept_session_step false w = then_step k _ _ _ (new_session_step w) (accept_session_step _)

    on_accept_client_step : (b : Bool) (w : World) → R k w (on_accept_client b w)
    unfolding on_accept_client
    on_accept_client_step true w = accept_client_step w
    on_accept_client_step false w = then_step k _ _ _ (new_client_step w) (accept_client_step _)

    evaluate_step : (text : String) (w : World) → R k w (evaluate text w).0
    unfolding evaluate
    evaluate_step text w = elim (Bool-cases (str_eq text "exit")) [
      | inl e ↦ rw e (k.closed.steps.rfl w)
      | inr e ↦ rw e (k.post_step (repl_async_write _) w refl)
    ]

    repl_read_step : (r : Read) (buffer : String) (w : World) → R k w (Repl.read r buffer w).0.0
    unfolding Repl.read
    repl_read_step eof buffer w = k.closed.steps.rfl w
    repl_read_step failed buffer w = k.closed.steps.rfl w
    repl_read_step (line n) buffer w = evaluate_step _ w

    pub repl_start_step : (w : World) → R k w (Repl.start w)
    unfolding Repl.start
    repl_start_step w = k.post_step repl_async_read w refl

    repl_write_step : (b : Bool) (w : World) → R k w (Repl.write b w)
    unfolding Repl.write
    repl_write_step true w = k.closed.steps.rfl w
    repl_write_step false w = repl_start_step w

    pub set_session_open_step : (h : ℕ) (b : Bool) (w : World) → R k w (set_session_open h b w)
    unfolding set_session_open
    set_session_open_step h b w = k.session_step h _ w (λ s. refl) (λ s. refl)

    pub set_client_open_step : (h : ℕ) (b : Bool) (w : World) → R k w (set_client_open h b w)
    unfolding set_client_open
    set_client_open_step h b w = k.socket_step h _ w (λ s. refl)

    completed_session_step :
        (h : ℕ) (o : Option String) (w : World) → R k w (completed_session h o w)
    unfolding completed_session
    completed_session_step h none w = set_session_open_step h false w
    completed_session_step h (some s) w = set_session_open_step h true w

    completed_handshake_step :
        (h : ℕ) (o : Handshake) (w : World) → R k w (completed_handshake h o w)
    unfolding completed_handshake
    completed_handshake_step h handshake_failed w = set_session_open_step h false w
    completed_handshake_step h peer_gone w = set_session_open_step h true w
    completed_handshake_step h (peer_at host) w = set_session_open_step h true w

    completed_client_step : (h : ℕ) (o : Option String) (w : World) → R k w (completed_client h o w)
    unfolding completed_client
    completed_client_step h none w = set_client_open_step h false w
    completed_client_step h (some s) w = set_client_open_step h true w

    pub perform_step :
        (t : Task) (o : Outcome t) (w : World) → is_queueing t ≡ false → R k w (perform t o w).1
    unfolding perform
    perform_step (session_on_run h c) o w e = on_run_step h c w
    perform_step (session_async_accept h) o w e =
        then_step k _ _ _ (completed_handshake_step h o w) (session_on_accept_step k h local o _)
    perform_step (session_async_handshake h host) o w e =
        then_step k _ _ _ (completed_handshake_step h o w) (session_on_accept_step k h remote o _)
    perform_step (session_async_read h) o w e =
        then_step k _ _ _ (completed_session_step h o w) (session_on_read_step k h o _)
    perform_step (client_async_accept h n) o w e =
        then_step k _ _ _ (set_client_open_step h (not o) w)
          (client_on_accept_step (w.client h) n o _)
    perform_step (client_async_read h) o w e =
        then_step k _ _ _ (completed_client_step h o w) (client_on_read_step (w.client h) o _)
    perform_step session_listener_async_accept o w e = on_accept_session_step o w
    perform_step client_listener_async_accept o w e = on_accept_client_step o w
    perform_step repl_async_read o w e = repl_read_step o.0 o.1 w
    perform_step (repl_async_write s) o w e = repl_write_step o w
    perform_step (session_on_send h m) o w e = cc
    perform_step (client_on_send h m) o w e = cc
    perform_step (session_async_write h m) o w e = cc
    perform_step (client_async_write h m) o w e = cc

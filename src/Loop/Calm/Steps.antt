-- ===== src/Loop/Calm/Steps.antt =====
-- Each call of the handlers is calm, and with them every task but those of the write queues
-- (src/objects/session.cpp and client.cpp).
use state.Common.{ℕ, suc, zero, Bool, false, ◌&&◌, ◌+◌, ◌≡◌, refl, String, arith}
use state.Clients.{Client}
use state.Platform.{Platform}
use state.World.{World, Session, ClientSocket, Task, remote, session_on_run}
use state.Effects.{read_clock, draw}
use state.Store.{
  subscribe, unsubscribe, add_client, remove_client, remove_session, remove_state_of_session,
  add_session,
}
use state.Fanout.{
  post, client_send, send_to_sessions, send_to_others_clients, send_to_subscribed_sessions,
}
use state.Fanout.Delivery.{
  posting, send_to_sessions_lem, send_to_others_clients_lem, send_to_session_lem, post_once,
}
use state.Fanout.Channels.{send_to_subscribed_sessions_lem}
use state.Sync.Messages.{sync_lem}
use state.Handlers.Delivery.{send_direct, send_remote}
use state.Handlers.Membership.{
  make_client, make_session, register_session, sync_session_at, retry, start_remote,
}
use state.SessionIo.{change_session}
use state.ClientIo.{change_socket}
use state.Server.{wait, run_executor}
use state.Kernel.Closed.{Closed}
use state.Loop.{Outcome, perform, set_session_open, set_client_open}
use state.Loop.Handled.{Handled, is_write, is_queueing}
use state.Loop.Perform.{perform_step, set_session_open_step, set_client_open_step}
use state.Loop.Calm.{Calm, one-IsSilent, map-IsSilent, if-IsSilent, steps, still, posting_step}

module _ ⦃p : Platform⦄ where
  open p use {json.{Object}}

  module _ (h : ℕ) where
    clock_step : (w : World) → Calm h w (read_clock w).0
    unfolding read_clock
    clock_step w = still w _ (omega arith) refl (λ j l. refl) (λ j l. refl)

    draw_step : (w : World) → Calm h w (draw w).0
    unfolding draw
    draw_step w = still w _ (omega arith) refl (λ j l. refl) (λ j l. refl)

    subscribe_step : (s c : ℕ) (ch : String) (w : World) → Calm h w (subscribe s c ch w).0
    unfolding subscribe
    subscribe_step s c ch w = still w _ (omega arith) refl (λ j l. refl) (λ j l. refl)

    unsubscribe_step : (s c : ℕ) (ch : String) (w : World) → Calm h w (unsubscribe s c ch w).0
    unfolding unsubscribe
    unsubscribe_step s c ch w =
        still w _ (ground arith) (ground arith) (λ j l. ground arith) (λ j l. ground arith)

    add_client_step : (c : Client) (w : World) → Calm h w (add_client c w).0
    unfolding add_client
    add_client_step c w = still w _ (omega arith) refl (λ j l. refl) (λ j l. refl)

    remove_client_step : (id : ℕ) (w : World) → Calm h w (remove_client id w).0
    unfolding remove_client
    remove_client_step id w = still w _ (omega arith) refl (λ j l. refl) (λ j l. refl)

    make_client_step : (s id : ℕ) (w : World) → Calm h w (make_client s id w).0
    unfolding make_client
    make_client_step s id w = still w _ (omega arith) refl (λ j l. refl) (λ j l. ground (arith, l))

    make_session_step : (w : World) → Calm h w (make_session w).0
    unfolding make_session draw
    make_session_step w = still w _ (omega arith) refl (λ j l. ground (arith, l)) (λ j l. refl)

    to_sessions_step : (o : Object) (w : World) → Calm h w (send_to_sessions o w).0
    to_sessions_step o w =
        rw (send_to_sessions_lem o w) (posting_step _ w (map-IsSilent h _ (λ x. refl) _))

    to_clients_step :
        (o : Object) (s c : ℕ) (w : World) → Calm h w (send_to_others_clients o s c w).0
    to_clients_step o s c w =
        rw (send_to_others_clients_lem o s c w) (posting_step _ w (map-IsSilent h _ (λ x. refl) _))

    to_subscribed_step :
        (o : Object) (ch : String) (w : World) → Calm h w (send_to_subscribed_sessions o ch w).0
    to_subscribed_step o ch w =
        rw ((send_to_subscribed_sessions_lem o ch w).0)
          (posting_step _ w (map-IsSilent h _ (λ x. refl) _))

    direct_step :
        (from : ℕ) (c : Client) (o : Object) (w : World) → Calm h w (send_direct from c o w).0
    unfolding send_direct client_send draw
    direct_step from c o w =
        rw
          (post_once ((w.client_socket c.handle).has_socket && (w.client_socket c.handle).is_open) _
            _)
          (steps.trans _ _ _ (draw_step w)
            (posting_step _ _ (if-IsSilent h _ _ (one-IsSilent h _ refl))))

    remote_step :
        (c : Client) (from : ℕ) (o : Object) (w : World) → Calm h w (send_remote c from o w).0
    unfolding send_remote draw
    remote_step c from o w =
        rw (send_to_session_lem c.session_id from c.id o w)
          (steps.trans _ _ _ (draw_step w) (posting_step _ _ (map-IsSilent h _ (λ x. refl) _)))

    sync_step : (j : ℕ) (b : Bool) (w : World) → Calm h w (sync_session_at j b w).0
    unfolding sync_session_at
    sync_step j b w = rw (sync_lem j b w) (
        steps.trans _ (posting _ w) _
          (posting_step _ w (if-IsSilent h _ _ (map-IsSilent h _ (λ x. refl) _)))
          (still _ _ (omega arith) refl (λ i l. refl) (λ i l. refl)))

    change_session_step :
        (j : ℕ) (f : Session → Session) (w : World)
        → ((s : Session) → (f s).queue ≡ s.queue)
        → Calm h w (change_session j f w)
    unfolding change_session
    change_session_step j f w e =
        still w _ (omega arith) refl (λ i l. ground (arith, e (w.session j))) (λ i l. refl)

    change_socket_step :
        (j : ℕ) (f : ClientSocket → ClientSocket) (w : World)
        → ((s : ClientSocket) → (f s).queue ≡ s.queue)
        → Calm h w (change_socket j f w)
    unfolding change_socket
    change_socket_step j f w e =
        still w _ (omega arith) refl (λ i l. refl) (λ i l. ground (arith, e (w.client_socket j)))

    register_step : (j s c : ℕ) (w : World) → Calm h w (register_session j s c w).0
    unfolding register_session
    register_step j s c w = still w _ (omega arith) refl (λ i l. ground arith) (λ i l. refl)

    post_step : (t : Task) (w : World) → is_write t ≡ false → Calm h w (post t w)
    unfolding post
    post_step t w e = posting_step _ w (one-IsSilent h t e)

    add_session_step : (j : ℕ) (w : World) → Calm h w (add_session j w).0
    unfolding add_session
    add_session_step j w = still w _ (omega arith) refl (λ i l. refl) (λ i l. refl)

    retry_step : (n : ℕ) (w : World) → Calm h w (retry n w)
    unfolding retry
    retry_step zero w = steps.rfl w
    retry_step (suc n) w =
        steps.trans w (record w { slept = w.slept + 3 }) _
          (still w _ (omega arith) refl (λ i l. refl) (λ i l. refl)) (retry_step n _)

    start_remote_step : (j s c : ℕ) (w : World) → Calm h w (start_remote j s c w).0
    unfolding start_remote
    start_remote_step j s c w =
        steps.trans w _ _ (still w _ (omega arith) refl (λ i l. ground arith) (λ i l. refl))
          (steps.trans _ _ _ (post_step (session_on_run j remote) _ refl) (add_session_step j _))

    wait_step : (w : World) → Calm h w (wait w)
    unfolding wait
    wait_step w = still w _ (omega arith) refl (λ i l. refl) (λ i l. refl)

    run_step : (w : World) → Calm h w (run_executor w)
    unfolding run_executor
    run_step w = still w _ (omega arith) refl (λ i l. refl) (λ i l. refl)

    remove_session_step : (id : ℕ) (w : World) → Calm h w (remove_session id w).0
    unfolding remove_session
    remove_session_step id w = still w _ (omega arith) refl (λ i l. refl) (λ i l. refl)

    pub release_step : (id : ℕ) (w : World) → Calm h w (remove_state_of_session id w)
    unfolding remove_state_of_session
    release_step id w = still w _ (omega arith) refl (λ i l. refl) (λ i l. refl)

    abbrev calm : Closed
    calm = record {
      R = Calm h;
      steps = steps;
      clock_step = clock_step;
      subscribe_step = subscribe_step;
      unsubscribe_step = unsubscribe_step;
      add_client_step = add_client_step;
      remove_client_step = remove_client_step;
      make_client_step = make_client_step;
      to_sessions_step = to_sessions_step;
      to_clients_step = to_clients_step;
      to_subscribed_step = to_subscribed_step;
      direct_step = direct_step;
      remote_step = remote_step;
      sync_step = sync_step;
      register_step = register_step;
      make_session_step = make_session_step;
      new_session_step = λ n s c w.
          steps.trans _ _ _ (make_session_step w)
            (steps.trans _ _ _ (retry_step n _) (start_remote_step w.allocated s c _));
    }

    abbrev handled : Handled
    handled = record {
      closed = calm;
      draw_step = draw_step;
      post_step = post_step;
      wait_step = wait_step;
      run_step = run_step;
      config_step = λ c w. still w _ (omega arith) refl (λ i l. refl) (λ i l. refl);
      session_step = λ j f w i q. change_session_step j f w q;
      socket_step = change_socket_step;
      remove_session_step = remove_session_step;
      enter_step = λ w. steps.trans _ _ _ (make_session_step w) (add_session_step w.allocated _);
      release_step = release_step;
    }

    pub performed_step :
        (t : Task) (o : Outcome t) (w : World) → is_queueing t ≡ false → Calm h w (perform t o w).1
    performed_step = perform_step handled

    pub lose_session_step : (j : ℕ) (w : World) → Calm h w (set_session_open j false w)
    lose_session_step j w = set_session_open_step handled j false w

    pub lose_client_step : (j : ℕ) (w : World) → Calm h w (set_client_open j false w)
    lose_client_step j w = set_client_open_step handled j false w

-- ===== src/Loop/Handled.antt =====
-- A relation between worlds that the handlers of all tasks respect but those of the write queues.
use state.Common.{
  ℕ, Bool, true, false, ◌≡◌, refl, String, Option, none, some, Bool-cases, inl, inr, ◌&&◌,
}
use state.Json.{Value}
use state.Clients.{Client}
use state.Platform.{Platform}
use state.World.{
  World, Handshake, handshake_failed, peer_gone, peer_at, Config, Session, ClientSocket, Task,
  SessionContext, local, remote, session_on_send, client_on_send, session_async_read,
  session_async_write, client_async_write,
}
use state.Request.{on_session}
use state.Effects.{Result, Frame, ok, throw, hangs, read_clock, draw}
use state.Store.{remove_session, remove_state_of_session, add_session}
use state.Fanout.{post, session_send, client_send}
use state.Handlers.Membership.{make_session}
use state.SessionIo.{change_session, register_self}
use state.SessionIo
use state.ClientIo.{change_socket}
use state.Server.{wait, run_executor}
use state.Kernel.Closed.{Closed}
use state.Kernel.Relation.{kernel-Closed}

-- The tasks that start a write.
abbrev pub is_write : Task → Bool
is_write (session_async_write h message) = true
is_write (client_async_write h message) = true
is_write _ = false

-- The tasks whose handlers work on a write queue.
abbrev pub is_queueing : Task → Bool
is_queueing (session_on_send h message) = true
is_queueing (client_on_send h message) = true
is_queueing t = is_write t

module _ ⦃p : Platform⦄ where
  open p use {json.{Object, parse, serialize}}

  pub record Handled : Type 1 where
    pub closed : Closed
    pub draw_step : (w : World) → closed.R w (draw w).0
    pub post_step : (t : Task) (w : World) → is_write t ≡ false → closed.R w (post t w)
    pub wait_step : (w : World) → closed.R w (wait w)
    pub run_step : (w : World) → closed.R w (run_executor w)
    pub config_step : (c : Config) (w : World) → closed.R w (record w { config = c })
    pub session_step :
        (h : ℕ) (f : Session → Session) (w : World)
        → ((s : Session) → (f s).id ≡ s.id)
        → ((s : Session) → (f s).queue ≡ s.queue)
        → closed.R w (change_session h f w)
    pub socket_step :
        (h : ℕ) (f : ClientSocket → ClientSocket) (w : World)
        → ((s : ClientSocket) → (f s).queue ≡ s.queue)
        → closed.R w (change_socket h f w)
    pub remove_session_step : (id : ℕ) (w : World) → closed.R w (remove_session id w).0
    pub enter_step : (w : World) → closed.R w (add_session w.allocated (make_session w).0).0
    pub release_step : (id : ℕ) (w : World) → closed.R w (remove_state_of_session id w)

  module _ (k : Handled) where
    abbrev pub R : World → World → Type 0
    R = k.closed.R

    pub then_step : (u v w : World) → R u v → R v w → R u w
    then_step = k.closed.steps.trans

    session_send_step : (m : String) (h : ℕ) (w : World) → R w (session_send m h w)
    unfolding session_send
    session_send_step m h w = elim (Bool-cases (w.session h).is_open) [
      | inl e ↦ rw e (k.post_step (session_on_send h m) w refl)
      | inr e ↦ rw e (k.closed.steps.rfl w)
    ]

    pub client_send_step : (m : String) (c : Client) (w : World) → R w (client_send m c w)
    unfolding client_send
    client_send_step m c w =
        elim (Bool-cases
          ((w.client_socket c.handle).has_socket && (w.client_socket c.handle).is_open)) [
            | inl e ↦ rw e (k.post_step (client_on_send c.handle m) w refl)
            | inr e ↦ rw e (k.closed.steps.rfl w)
          ]

    register_self_step : (h : ℕ) (w : World) → R w (register_self h w)
    unfolding register_self
    register_self_step h w =
        then_step _ _ _ (k.draw_step w)
          (then_step _ _ _ (k.config_step _ _) (session_send_step _ h _))

    session_read_step : (h : ℕ) (w : World) → R w (SessionIo.do_read h w)
    unfolding SessionIo.do_read
    session_read_step h w = k.post_step (session_async_read h) w refl

    pub session_on_accept_step :
        (h : ℕ) (c : SessionContext) (o : Handshake) (w : World)
        → R w (SessionIo.on_accept h c o w).1
    unfolding SessionIo.on_accept
    session_on_accept_step h c handshake_failed w = k.remove_session_step (w.session h).id w
    session_on_accept_step h c peer_gone w = k.closed.steps.rfl w
    session_on_accept_step h local (peer_at host) w =
        then_step _ _ _ (k.session_step h _ w (λ s. refl) (λ s. refl)) (session_read_step h _)
    session_on_accept_step h remote (peer_at host) w =
        then_step _ _ _ (k.session_step h _ w (λ s. refl) (λ s. refl))
          (then_step _ _ _ (register_self_step h _) (session_read_step h _))

    session_answer_step :
        (h : ℕ) (v : World) (x : Result (Unit {0}) × Frame)
        → R v x.1.world
        → R v (SessionIo.answer h x).1
    unfolding SessionIo.answer
    session_answer_step h v (ok u, f) r = elim (Bool-cases f.response.is_ack) [
      | inl e ↦ rw e (then_step _ _ _ r (session_read_step h _))
      | inr e ↦
          rw e
            (then_step _ _ _ r (then_step _ _ _ (session_send_step _ h _) (session_read_step h _)))
    ]
    session_answer_step h v (throw e, f) r = r
    session_answer_step h v (hangs, f) r = r

    session_body_step :
        (h read_at : ℕ) (w : World)
        → R w (
            SessionIo.do_read h (
              session_send
                (serialize (SessionIo.body_object (read_clock w).1 read_at))
                h
                (read_clock w).0))
    session_body_step h read_at w =
        then_step _ _ _ (k.closed.clock_step w)
          (then_step _ _ _ (session_send_step _ h _) (session_read_step h _))

    session_on_text_step :
        (h read_at : ℕ) (v : Option (Value Object)) (w : World)
        → R w (SessionIo.on_text h read_at v w).1
    unfolding SessionIo.on_text
    session_on_text_step h read_at (some (Value.object o)) w =
        session_answer_step h w _ (kernel-Closed k.closed o on_session (w.session h).id w)
    session_on_text_step h read_at none w = session_body_step h read_at w
    session_on_text_step h read_at (some Value.null) w = session_body_step h read_at w
    session_on_text_step h read_at (some Value.double) w = session_body_step h read_at w
    session_on_text_step h read_at (some Value.array) w = session_body_step h read_at w
    session_on_text_step h read_at (some (Value.boolean b)) w = session_body_step h read_at w
    session_on_text_step h read_at (some (Value.int64 z)) w = session_body_step h read_at w
    session_on_text_step h read_at (some (Value.uint64 n)) w = session_body_step h read_at w
    session_on_text_step h read_at (some (Value.string s)) w = session_body_step h read_at w

    pub session_on_read_step :
        (h : ℕ) (o : Option String) (w : World) → R w (SessionIo.on_read h o w).1
    unfolding SessionIo.on_read
    session_on_read_step h none w = k.remove_session_step (w.session h).id w
    session_on_read_step h (some s) w =
        then_step _ _ _ (k.closed.clock_step w) (session_on_text_step h _ (parse s) _)

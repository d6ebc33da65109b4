-- ===== src/Loop/Every.antt =====
-- A relation between worlds that every step of the event loop respects.
use state.Common.{
  ℕ, Bool, true, false, refl, String, List, [], ◌∷◌, ◌++◌, ◌&&◌, ltb, length, Bool-cases, inl, inr,
}
use state.Platform.{Platform}
use state.World.{
  World, Task, session_on_send, client_on_send, session_on_run, session_async_accept,
  session_async_handshake, session_async_read, client_async_read, client_async_accept,
  session_async_write, client_async_write, session_listener_async_accept,
  client_listener_async_accept, repl_async_read, repl_async_write,
}
use state.Effects.{Frame}
use state.Fanout.{post}
use state.SessionIo.{change_session}
use state.SessionIo
use state.ClientIo.{change_socket}
use state.ClientIo
use state.Server.{start}
use state.Loop.Handled.{Handled, R}
use state.Listeners.{Opening}
use state.Loop.Starting.{start-Keeps}
use state.Loop.Perform.{perform_step, set_session_open_step, set_client_open_step}
use state.Loop.{
  Outcome, perform, under_way, Step, perform_task, lose_session, lose_client, release_session,
  Reach, here, later,
}

module _ ⦃p : Platform⦄ where
  -- With the steps of the write queues and of the loop itself.
  pub record Looped : Type 1 where
    pub handled : Handled
    pub post_step : (t : Task) (w : World) → R handled w (post t w)
    pub session_queue_step :
        (h : ℕ) (q : List String) (w : World)
        → R handled w (change_session h (λ s. record s { queue = q }) w)
    pub socket_queue_step :
        (h : ℕ) (q : List String) (w : World)
        → R handled w (change_socket h (λ s. record s { queue = q }) w)
    pub taken_step : (ts : List Task) (w : World) → R handled w (under_way ts w)

  module _ (k : Looped) where
    trans : (u v w : World) → R k.handled u v → R k.handled v w → R k.handled u w
    trans = k.handled.closed.steps.trans

    session_front_step :
        (h : ℕ) (q : List String) (w : World) → R k.handled w (SessionIo.write_front h q w)
    unfolding SessionIo.write_front
    session_front_step h [] w = k.handled.closed.steps.rfl w
    session_front_step h (m ∷ q) w = k.post_step _ w

    session_on_send_step :
        (h : ℕ) (m : String) (w : World) → R k.handled w (SessionIo.on_send h m w)
    unfolding SessionIo.on_send
    session_on_send_step h m w =
        elim (Bool-cases (ltb 1 (length ((w.session h).queue ++ m ∷ [])))) [
          | inl e ↦ rw e (k.session_queue_step h _ w)
          | inr e ↦ rw e (trans _ _ _ (k.session_queue_step h _ w) (session_front_step h _ _))
        ]

    session_on_write_step :
        (h : ℕ) (b : Bool) (w : World) → R k.handled w (SessionIo.on_write h b w)
    unfolding SessionIo.on_write
    session_on_write_step h true w = k.handled.closed.steps.rfl w
    session_on_write_step h false w =
        trans _ _ _ (k.session_queue_step h _ w) (session_front_step h _ _)

    client_front_step :
        (h : ℕ) (q : List String) (w : World) → R k.handled w (ClientIo.write_front h q w)
    unfolding ClientIo.write_front
    client_front_step h [] w = k.handled.closed.steps.rfl w
    client_front_step h (m ∷ q) w =
        elim (Bool-cases ((w.client_socket h).has_socket && (w.client_socket h).is_open)) [
          | inl e ↦ rw e (k.post_step _ w)
          | inr e ↦ rw e (k.handled.closed.steps.rfl w)
        ]

    client_on_send_step : (h : ℕ) (m : String) (w : World) → R k.handled w (ClientIo.on_send h m w)
    unfolding ClientIo.on_send
    client_on_send_step h m w =
        elim (Bool-cases (ltb 1 (length ((w.client_socket h).queue ++ m ∷ [])))) [
          | inl e ↦ rw e (k.socket_queue_step h _ w)
          | inr e ↦ rw e (trans _ _ _ (k.socket_queue_step h _ w) (client_front_step h _ _))
        ]

    client_on_write_step : (h : ℕ) (b : Bool) (w : World) → R k.handled w (ClientIo.on_write h b w)
    unfolding ClientIo.on_write
    client_on_write_step h true w = k.handled.closed.steps.rfl w
    client_on_write_step h false w =
        trans _ _ _ (k.socket_queue_step h _ w) (client_front_step h _ _)

    -- Every task, those of the write queues among them.
    performed_step : (t : Task) (o : Outcome t) (w : World) → R k.handled w (perform t o w).1
    unfolding perform
    performed_step (session_on_send h m) o w = session_on_send_step h m w
    performed_step (session_async_write h m) o w = session_on_write_step h o w
    performed_step (client_on_send h m) o w = client_on_send_step h m w
    performed_step (client_async_write h m) o w = client_on_write_step h o w
    performed_step (session_on_run h c) o w = perform_step k.handled (session_on_run h c) o w refl
    performed_step (session_async_accept h) o w =
        perform_step k.handled (session_async_accept h) o w refl
    performed_step (session_async_handshake h host) o w =
        perform_step k.handled (session_async_handshake h host) o w refl
    performed_step (session_async_read h) o w =
        perform_step k.handled (session_async_read h) o w refl
    performed_step (client_async_accept h n) o w =
        perform_step k.handled (client_async_accept h n) o w refl
    performed_step (client_async_read h) o w = perform_step k.handled (client_async_read h) o w refl
    performed_step session_listener_async_accept o w =
        perform_step k.handled session_listener_async_accept o w refl
    performed_step client_listener_async_accept o w =
        perform_step k.handled client_listener_async_accept o w refl
    performed_step repl_async_read o w = perform_step k.handled repl_async_read o w refl
    performed_step (repl_async_write s) o w = perform_step k.handled (repl_async_write s) o w refl

    pub Step-kept : {v w : World} → Step v w → R k.handled v w
    Step-kept {v} (perform_task before after t o e) =
        trans _ _ _ (k.taken_step (before ++ after) v) (performed_step t o _)
    Step-kept {v} (lose_session h) = set_session_open_step k.handled h false v
    Step-kept {v} (lose_client h) = set_client_open_step k.handled h false v
    Step-kept {v} (release_session id e) = k.handled.release_step id v

    Reach-kept : {v w : World} → Reach v w → R k.handled v w
    Reach-kept {v} here = k.handled.closed.steps.rfl v
    Reach-kept (later r s) = trans _ _ _ (Reach-kept r) (Step-kept s)

    -- From before the start of a node to whatever state it can reach, the relation holds.
    pub start_step :
        (sessions clients : Opening) (f : Frame) {w : World}
        → Reach (start sessions clients f).1.world w
        → R k.handled f.world w
    start_step sessions clients f r =
        trans _ _ _ ((start-Keeps k.handled sessions clients).kept f) (Reach-kept r)

-- ===== src/Kernel/Session.antt =====
-- What another node can change in a state by a message.
use state.Common.{ℕ, ◌≡◌, String}
use state.Platform.{Platform}
use state.World.{World}
use state.Request.{Request, on_session}
use state.Effects.{M}
use state.Effects.Keeps.{Keeps, on_world-Keeps, switch_session}
use state.Kernel.Rules.{answering, next-Keeps}
use state.Kernel.SessionStep.{
  SessionStep, steps, clock_step, subscribe_step, unsubscribe_step, add_client_step,
  remove_client_step, make_client_step, to_clients_step, direct_step, sync_step, register_step,
  make_session_step, retry_step, start_remote_step,
}
use state.Fanout.{broadcast_to_clients, publish_to_clients}
use state.Handlers.Plain.{ping_handler, unimplemented_handler}
use state.Handlers.Channels.{subscribe_handler, unsubscribe_handler, is_subscribed_handler}
use state.Handlers.Delivery.{
  next_count, broadcast_handler, publish_handler, send_handler, send_on_session,
}
use state.Handlers.Membership.{
  join_handler, leave_handler, register_handler, session_handler, open_session, connect, retry_at,
}
use state.Kernel.{dispatch, handle, process, kernel}

-- What the handlers are built from, with the step that each call on the state makes.
ruleset stepping = (
  answering, switch_session, on_world-Keeps, steps, clock_step, subscribe_step, unsubscribe_step,
  add_client_step, remove_client_step, make_client_step, to_clients_step, direct_step, sync_step,
  register_step, make_session_step, start_remote_step,
)

module _ ⦃p : Platform⦄ where
  open p use {json.{Object}}

  module _ (r : Request) (node : r.context ≡ on_session) where
    abbrev Kept : M (Unit {0}) → Type 0
    Kept = Keeps (SessionStep r.entity_id)

    next_count-Keeps : (n : ℕ) → Kept (next_count r n)
    unfolding next_count
    next_count-Keeps n = next-Keeps (steps r.entity_id) (clock_step r.entity_id) r _ _

    ping-Keeps : Kept (ping_handler r)
    unfolding ping_handler
    ping-Keeps = search stepping

    unimplemented-Keeps : Kept (unimplemented_handler r)
    unfolding unimplemented_handler
    unimplemented-Keeps = search stepping

    join-Keeps : Kept (join_handler r)
    unfolding join_handler
    join-Keeps = search stepping depth 14

    leave-Keeps : Kept (leave_handler r)
    unfolding leave_handler
    leave-Keeps = search stepping depth 14

    register-Keeps : Kept (register_handler r)
    unfolding register_handler
    register-Keeps = search stepping depth 18

    retry_at_step : (n : ℕ) (w : World) → SessionStep r.entity_id w (retry_at n w).0
    unfolding retry_at
    retry_at_step n w = retry_step r.entity_id n w

    connect-Keeps : (h : ℕ) → Kept (connect h)
    unfolding connect
    connect-Keeps h = search (stepping, retry_at_step)

    open_session-Keeps : (host : String) (s c : ℕ) → Kept (open_session r host s c)
    unfolding open_session
    open_session-Keeps host s c = search (stepping, connect-Keeps) depth 14

    session-Keeps : Kept (session_handler r)
    unfolding session_handler
    session-Keeps = search (stepping, open_session-Keeps) depth 16

    is_subscribed-Keeps : Kept (is_subscribed_handler r)
    unfolding is_subscribed_handler
    is_subscribed-Keeps = search stepping depth 12

    subscribe-Keeps : Kept (subscribe_handler r)
    unfolding subscribe_handler
    subscribe-Keeps = search stepping depth 16

    unsubscribe-Keeps : Kept (unsubscribe_handler r)
    unfolding unsubscribe_handler
    unsubscribe-Keeps = search stepping depth 16

    broadcast-Keeps : Kept (broadcast_handler r)
    unfolding broadcast_handler broadcast_to_clients
    broadcast-Keeps = search (stepping, next_count-Keeps) depth 16

    publish-Keeps : Kept (publish_handler r)
    unfolding publish_handler publish_to_clients
    publish-Keeps = search (stepping, next_count-Keeps) depth 16

    send_on_session-Keeps :
        (from to : ℕ) (payload : Object) → Kept (send_on_session r from to payload)
    unfolding send_on_session
    send_on_session-Keeps from to payload = search stepping depth 12

    send-Keeps : Kept (send_handler r)
    unfolding send_handler
    send-Keeps = search (stepping, send_on_session-Keeps) depth 14

    dispatch-Keeps : (action : String) → Kept (dispatch action r)
    unfolding dispatch
    dispatch-Keeps action =
        search
          (
            stepping, ping-Keeps, send-Keeps, register-Keeps, session-Keeps, subscribe-Keeps,
            is_subscribed-Keeps, unsubscribe-Keeps, broadcast-Keeps, publish-Keeps, join-Keeps,
            leave-Keeps, unimplemented-Keeps,
          )
          depth 16

  process-Keeps :
      (o : Object) (entity : ℕ) → Keeps (SessionStep entity) (process o on_session entity)
  unfolding process handle
  process-Keeps o entity = search (stepping, dispatch-Keeps) depth 14

  -- Whatever another node sends, and whether the kernel answers, throws or hangs: it changes no
  -- subscription that is not under its own id, the id and the configuration of this state stay, and
  -- tasks are only added.
  pub kernel-SessionStep :
      (o : Object) (entity : ℕ) (w : World)
      → SessionStep entity w (kernel o on_session entity w).1.world
  unfolding kernel
  kernel-SessionStep o entity w = (process-Keeps o entity).kept _

-- ===== src/Kernel/Client.antt =====
-- What a message of a client can change in a state, whatever its contents.
use state.Common.{ℕ, ◌≡◌, String}
use state.Platform.{Platform}
use state.World.{World}
use state.Request.{Request, on_client}
use state.Effects.{M}
use state.Effects.Keeps.{
  Keeps, on_world-Keeps, switch_client, bind-Keeps, when-Keeps, lift-Keeps, on_read-Keeps,
}
use state.Kernel.Rules.{answering, next-Keeps}
use state.Store.{subscribe, unsubscribe}
use state.Fanout.{
  broadcast_to_sessions, broadcast_to_clients, publish_to_sessions, publish_to_clients,
  subscribe_to_sessions, unsubscribe_to_sessions,
}
use state.Handlers.Plain.{ping_handler, unimplemented_handler}
use state.Handlers.Channels.{subscribe_handler, unsubscribe_handler, is_subscribed_handler}
use state.Handlers.Delivery.{
  next_count, broadcast_handler, publish_handler, send_handler, send_on_client,
}
use state.Handlers.Membership.{join_handler, leave_handler, register_handler, session_handler}
use state.Kernel.{dispatch, handle, process, kernel}
use state.Kernel.ClientStep.{
  ClientStep, steps, clock_step, to_sessions_step, to_clients_step, to_subscribed_step,
  subscribe_step, unsubscribe_step, direct_step, remote_step,
}

-- What the handlers are built from, with the step that each call on the state makes.
ruleset stepping = (
  answering, switch_client, on_world-Keeps, steps, clock_step, to_sessions_step, to_clients_step,
  to_subscribed_step, direct_step, remote_step,
)

module _ ⦃p : Platform⦄ where
  open p use {json.{Object}}

  -- The handlers of requests that any sender may make.
  module _ (r : Request) (client : r.context ≡ on_client) where
    abbrev Kept : M (Unit {0}) → Type 0
    Kept = Keeps (ClientStep r.entity_id)

    next_count-Keeps : (n : ℕ) → Kept (next_count r n)
    unfolding next_count
    next_count-Keeps n = next-Keeps (steps r.entity_id) (clock_step r.entity_id) r _ _

    ping-Keeps : Kept (ping_handler r)
    unfolding ping_handler
    ping-Keeps = search stepping

    unimplemented-Keeps : Kept (unimplemented_handler r)
    unfolding unimplemented_handler
    unimplemented-Keeps = search stepping

    join-Keeps : Kept (join_handler r)
    unfolding join_handler
    join-Keeps = search stepping

    leave-Keeps : Kept (leave_handler r)
    unfolding leave_handler
    leave-Keeps = search stepping

    register-Keeps : Kept (register_handler r)
    unfolding register_handler
    register-Keeps = search stepping

    session-Keeps : Kept (session_handler r)
    unfolding session_handler
    session-Keeps = search stepping

    is_subscribed-Keeps : Kept (is_subscribed_handler r)
    unfolding is_subscribed_handler
    is_subscribed-Keeps = search stepping depth 12

    subscribe-Keeps : Kept (subscribe_handler r)
    unfolding subscribe_handler subscribe_to_sessions
    subscribe-Keeps =
        let o = steps r.entity_id in
        bind-Keeps o (search stepping) λ valid. when-Keeps o valid (
          bind-Keeps o (lift-Keeps o _) λ params. bind-Keeps o (lift-Keeps o _) λ channel.
            switch_client o r.context _ client (
              on_read-Keeps o (λ w. subscribe w.id r.entity_id channel)
                (subscribe_step r.entity_id channel) (search stepping depth 9)))

    unsubscribe-Keeps : Kept (unsubscribe_handler r)
    unfolding unsubscribe_handler unsubscribe_to_sessions
    unsubscribe-Keeps =
        let o = steps r.entity_id in
        bind-Keeps o (search stepping) λ valid. when-Keeps o valid (
          bind-Keeps o (lift-Keeps o _) λ params. bind-Keeps o (lift-Keeps o _) λ channel.
            switch_client o r.context _ client (
              on_read-Keeps o (λ w. unsubscribe w.id r.entity_id channel)
                (unsubscribe_step r.entity_id channel) (search stepping depth 9)))

    broadcast-Keeps : Kept (broadcast_handler r)
    unfolding broadcast_handler broadcast_to_clients broadcast_to_sessions
    broadcast-Keeps = search (stepping, next_count-Keeps) depth 14

    publish-Keeps : Kept (publish_handler r)
    unfolding publish_handler publish_to_clients publish_to_sessions
    publish-Keeps = search (stepping, next_count-Keeps) depth 14

    send_on_client-Keeps : (to : ℕ) (payload : Object) → Kept (send_on_client r to payload)
    unfolding send_on_client
    send_on_client-Keeps to payload = search stepping depth 12

    send-Keeps : Kept (send_handler r)
    unfolding send_handler
    send-Keeps = search (stepping, send_on_client-Keeps) depth 14

    dispatch-Keeps : (action : String) → Kept (dispatch action r)
    unfolding dispatch
    dispatch-Keeps action =
        search
          (
            stepping, ping-Keeps, send-Keeps, register-Keeps, session-Keeps, subscribe-Keeps,
            is_subscribed-Keeps, unsubscribe-Keeps, broadcast-Keeps, publish-Keeps, join-Keeps,
            leave-Keeps, unimplemented-Keeps,
          )
          depth 16

  process-Keeps : (o : Object) (entity : ℕ) → Keeps (ClientStep entity) (process o on_client entity)
  unfolding process handle
  process-Keeps o entity = search (stepping, dispatch-Keeps) depth 14

  -- Whatever a client sends, and whether the kernel answers, throws or hangs: sessions, clients,
  -- sockets and configuration stay, tasks are only added, and of the subscriptions only those of
  -- that client at this state can change.
  pub kernel-ClientStep :
      (o : Object) (entity : ℕ) (w : World)
      → ClientStep entity w (kernel o on_client entity w).1.world
  unfolding kernel
  kernel-ClientStep o entity w = (process-Keeps o entity).kept _

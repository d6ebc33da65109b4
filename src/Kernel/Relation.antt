-- ===== src/Kernel/Relation.antt =====
-- A relation between worlds that every call on the state respects, and so every message.
use state.Common.{ℕ, String, Bool-cases, Option-cases, inl, inr}
use state.Platform.{Platform}
use state.World.{World}
use state.Request.{Request, KernelContext}
use state.Effects.{M, effects, read_clock, draw}
use state.Effects.Keeps.{Keeps, on_world-Keeps, switch-Keeps}
use state.Kernel.Rules.{answering, next-Keeps}
use state.Kernel.Closed.{Closed, closed}
use state.Notices.{next}
use state.Fanout.{
  broadcast_to_sessions, broadcast_to_clients, publish_to_sessions, publish_to_clients,
  subscribe_to_sessions, unsubscribe_to_sessions,
}
use state.Handlers.Plain.{ping_handler, unimplemented_handler}
use state.Handlers.Channels.{subscribe_handler, unsubscribe_handler, is_subscribed_handler}
use state.Handlers.Delivery.{
  next_count, broadcast_handler, publish_handler, send_handler, send_on_client, send_on_session,
}
use state.Handlers.Membership.{
  join_handler, leave_handler, register_handler, session_handler, open_session, connect, retry_at,
  make_session,
}
use state.Kernel.{dispatch, handle, process, kernel}

-- What the handlers are built from, with the step that each call on the state makes.
ruleset preserving = (answering, switch-Keeps, on_world-Keeps, closed)

module _ ⦃p : Platform⦄ where
  open p use {json.{Object}, resolves, refusals}

  module _ (k : Closed) where
    abbrev Kept : M (Unit {0}) → Type 0
    Kept = Keeps k.R

    open_session-Keeps : (r : Request) (host : String) (s c : ℕ) → Kept (open_session r host s c)
    unfolding open_session effects connect retry_at make_session draw next read_clock
    open_session-Keeps r host s c = record {
      kept = λ f. elim (Bool-cases (resolves host s)) [
        | inr unknown ↦ rw unknown (k.steps.rfl f.world)
        | inl known ↦ elim (Option-cases (refusals f.world.allocated)) [
          | inl forever ↦ rw (known, forever) (k.make_session_step f.world)
          | inr (n, met) ↦
              rw (known, met)
                (k.steps.trans _ _ _ (k.new_session_step n s c f.world) (k.clock_step _))
        ]
      ];
    }

    module _ (r : Request) where
      next_count-Keeps : (n : ℕ) → Kept (next_count r n)
      unfolding next_count
      next_count-Keeps n = next-Keeps k.steps k.clock_step r _ _

      ping-Keeps : Kept (ping_handler r)
      unfolding ping_handler
      ping-Keeps = search preserving

      unimplemented-Keeps : Kept (unimplemented_handler r)
      unfolding unimplemented_handler
      unimplemented-Keeps = search preserving

      join-Keeps : Kept (join_handler r)
      unfolding join_handler
      join-Keeps = search preserving depth 14

      leave-Keeps : Kept (leave_handler r)
      unfolding leave_handler
      leave-Keeps = search preserving depth 14

      register-Keeps : Kept (register_handler r)
      unfolding register_handler
      register-Keeps = search preserving depth 18

      session-Keeps : Kept (session_handler r)
      unfolding session_handler
      session-Keeps = search (preserving, open_session-Keeps) depth 16

      is_subscribed-Keeps : Kept (is_subscribed_handler r)
      unfolding is_subscribed_handler
      is_subscribed-Keeps = search preserving depth 12

      subscribe-Keeps : Kept (subscribe_handler r)
      unfolding subscribe_handler subscribe_to_sessions
      subscribe-Keeps = search preserving depth 16

      unsubscribe-Keeps : Kept (unsubscribe_handler r)
      unfolding unsubscribe_handler unsubscribe_to_sessions
      unsubscribe-Keeps = search preserving depth 16

      broadcast-Keeps : Kept (broadcast_handler r)
      unfolding broadcast_handler broadcast_to_clients broadcast_to_sessions
      broadcast-Keeps = search (preserving, next_count-Keeps) depth 16

      publish-Keeps : Kept (publish_handler r)
      unfolding publish_handler publish_to_clients publish_to_sessions
      publish-Keeps = search (preserving, next_count-Keeps) depth 16

      send_on_client-Keeps : (to : ℕ) (payload : Object) → Kept (send_on_client r to payload)
      unfolding send_on_client
      send_on_client-Keeps to payload = search preserving depth 12

      send_on_session-Keeps :
          (from to : ℕ) (payload : Object) → Kept (send_on_session r from to payload)
      unfolding send_on_session
      send_on_session-Keeps from to payload = search preserving depth 12

      send-Keeps : Kept (send_handler r)
      unfolding send_handler
      send-Keeps = search (preserving, send_on_client-Keeps, send_on_session-Keeps) depth 14

      dispatch-Keeps : (action : String) → Kept (dispatch action r)
      unfolding dispatch
      dispatch-Keeps action =
          search
            (
              preserving, ping-Keeps, send-Keeps, register-Keeps, session-Keeps, subscribe-Keeps,
              is_subscribed-Keeps, unsubscribe-Keeps, broadcast-Keeps, publish-Keeps, join-Keeps,
              leave-Keeps, unimplemented-Keeps,
            )
            depth 16

    pub process-Keeps : (o : Object) (c : KernelContext) (entity : ℕ) → Kept (process o c entity)
    unfolding process handle
    process-Keeps o c entity = search (preserving, dispatch-Keeps) depth 14

    -- Whatever the message, the world after the kernel stands in the relation to the one before.
    pub kernel-Closed :
        (o : Object) (c : KernelContext) (entity : ℕ) (w : World)
        → k.R w (kernel o c entity w).1.world
    unfolding kernel
    kernel-Closed o c entity w = (process-Keeps o c entity).kept _

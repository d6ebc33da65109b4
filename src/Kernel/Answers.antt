-- ===== src/Kernel/Answers.antt =====
-- Every handler answers under the transaction id of its request (src/objects/kernel.cpp and
-- src/objects/handlers).
use state.Common.{ℕ, String, true, false, ◌≡◌, ◌⊎◌, refl, str_eq}
use state.Platform.{Platform}
use state.World.{World}
use state.Request.{Request, KernelContext, on_client}
use state.Response.{mark_as_processed}
use state.Effects.{Result, ok, throw, hangs, Exception, Frame, effects}
use state.Effects.Settles.{
  IsAnswer, bind-Settles, then-Settles, switch-Settles, branch-Settles, branch_else,
  if_found-Settles, before_call, when-Settles,
}
use state.Handlers.Plain.{ping_handler, unimplemented_handler}
use state.Handlers.Channels.{subscribe_handler, unsubscribe_handler, is_subscribed_handler}
use state.Handlers.Delivery.{
  next_count, broadcast_handler, publish_handler, send_handler, send_on_client, send_on_session,
}
use state.Handlers.Membership.{
  join_handler, leave_handler, register_handler, session_handler, open_session,
}
use state.Kernel.{dispatch, kernel}
use state.Validators.Judges.{
  Settled, next-Settles, mark_as_invalid-Settles, id_validator-Judges, broadcast_validator-Judges,
  is_subscribed_validator-Judges, publish_validator-Judges, register_validator-Judges,
  send_validator-Judges, session_validator-Judges, subscriptions_validator-Judges,
}
use state.Kernel.Messages.{IsAddressed, request_of, frame_of, finish, kernel-dispatch}
use state.Kernel.Ends.{AllAccept, kernel-Ended}
use state.Effects.Ends.{Ended}

ruleset answering = (
  bind-Settles, then-Settles, switch-Settles, branch-Settles, if_found-Settles, when-Settles,
  next-Settles, mark_as_invalid-Settles, id_validator-Judges, broadcast_validator-Judges,
  is_subscribed_validator-Judges, publish_validator-Judges, register_validator-Judges,
  send_validator-Judges, session_validator-Judges, subscriptions_validator-Judges,
)

module _ ⦃p : Platform⦄ where
  open p use {json.{Object, at?}}

  module _ (r : Request) where
    ping_handler-Settles : Settled r (ping_handler r)
    unfolding ping_handler
    ping_handler-Settles = search answering depth 18

    unimplemented_handler-Settles : Settled r (unimplemented_handler r)
    unfolding unimplemented_handler
    unimplemented_handler-Settles = search answering depth 18

    join_handler-Settles : Settled r (join_handler r)
    unfolding join_handler
    join_handler-Settles = search answering depth 18

    leave_handler-Settles : Settled r (leave_handler r)
    unfolding leave_handler
    leave_handler-Settles = search answering depth 18

    register_handler-Settles : Settled r (register_handler r)
    unfolding register_handler
    register_handler-Settles = search answering depth 18

    open_session-Settles : (host : String) (s c : ℕ) → Settled r (open_session r host s c)
    unfolding open_session
    open_session-Settles host s c = search answering depth 18

    session_handler-Settles : Settled r (session_handler r)
    unfolding session_handler
    session_handler-Settles = search (answering, open_session-Settles) depth 18

    is_subscribed_handler-Settles : Settled r (is_subscribed_handler r)
    unfolding is_subscribed_handler
    is_subscribed_handler-Settles = search answering depth 18

    subscribe_handler-Settles : Settled r (subscribe_handler r)
    unfolding subscribe_handler
    subscribe_handler-Settles = search (answering, before_call) depth 18

    unsubscribe_handler-Settles : Settled r (unsubscribe_handler r)
    unfolding unsubscribe_handler
    unsubscribe_handler-Settles = search (answering, before_call) depth 18

    next_count-Settles : (n : ℕ) → Settled r (next_count r n)
    unfolding next_count
    next_count-Settles n = search answering depth 18

    broadcast_handler-Settles : Settled r (broadcast_handler r)
    unfolding broadcast_handler
    broadcast_handler-Settles = search (answering, next_count-Settles) depth 18

    publish_handler-Settles : Settled r (publish_handler r)
    unfolding publish_handler
    publish_handler-Settles = search (answering, next_count-Settles) depth 18

    send_on_client-Settles : (to : ℕ) (o : Object) → Settled r (send_on_client r to o)
    unfolding send_on_client
    send_on_client-Settles to o = search answering depth 18

    send_on_session-Settles : (from to : ℕ) (o : Object) → Settled r (send_on_session r from to o)
    unfolding send_on_session
    send_on_session-Settles from to o = search answering depth 18

    send_handler-Settles : Settled r (send_handler r)
    unfolding send_handler
    send_handler-Settles =
        search (answering, send_on_client-Settles, send_on_session-Settles) depth 18

    pub dispatch-Settles :
        (action : String) → str_eq action "ack" ≡ false → Settled r (dispatch action r)
    unfolding dispatch
    dispatch-Settles action other =
        search
          (
            branch-Settles, branch_else, ping_handler-Settles, send_handler-Settles,
            register_handler-Settles, session_handler-Settles, subscribe_handler-Settles,
            is_subscribed_handler-Settles, unsubscribe_handler-Settles, broadcast_handler-Settles,
            publish_handler-Settles, join_handler-Settles, leave_handler-Settles,
            unimplemented_handler-Settles,
          )
          depth 18

-- An answer under a transaction id, as processed, or an exception.
pub data Answered ⦃p : Platform⦄ (t : ℕ) : Result (Unit {0}) × Frame → Type 0 where
  answers :
      {f : Frame}
      → IsAnswer t f.response.object
      → f.response.processed ≡ true
      → Answered t (ok tt, f)
  throws : {f : Frame} (e : Exception) → Answered t (throw e, f)

module _ ⦃p : Platform⦄ where
  open p use {json.{Object}}

  finish-Answered :
      (t : ℕ) (x : Result (Unit {0}) × Frame)
      → Ended (finish x).0
      → ((u : Unit {0}) → x.0 ≡ ok u → IsAnswer t x.1.response.object)
      → Answered t (finish x)
  unfolding effects mark_as_processed
  finish-Answered t (ok u, f) e h = answers (h u refl) refl
  finish-Answered t (throw e', f) e h = throws e'
  finish-Answered t (hangs, f) e h = elim e [ ]

  -- The kernel, on a message with an action and the usual spelling of a transaction id, the action not
  -- being ack, and the message being of a client or no peer refusing connections for ever: it throws,
  -- or it returns a processed answer whose action is ack, under the transaction id of the message (a
  -- refusal spells the nil uuid as null).
  pub kernel-Answered :
      (o : Object) (action : String) (c : KernelContext) (entity t : ℕ) (w : World)
      → IsAddressed o action t
      → str_eq action "ack" ≡ false
      → (c ≡ on_client) ⊎ AllAccept
      → Answered t (kernel o c entity w)
  kernel-Answered o action c entity t w h other a =
      let r = request_of o c entity t w in
      let e = kernel-Ended o c entity w a in
      rw (kernel-dispatch o action c entity t w h) (
        finish-Answered t (dispatch action r (frame_of w))
          (rw (← kernel-dispatch o action c entity t w h) e)
          ((dispatch-Settles r action other).settled (frame_of w)))

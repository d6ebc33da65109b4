-- ===== src/Kernel/Ends.antt =====
-- The kernel returns or throws (src/objects/kernel.cpp and the handlers that it calls).
use state.Common.{ℕ, String, Bool, none, ◌≡◌, ◌≢◌, ◌⊎◌, inl, inr, Option-cases}
use state.Json.{Value}
use state.Platform.{Platform}
use state.World.{World}
use state.Request.{Request, KernelContext, on_client}
use state.Effects.{M, effects}
use state.Effects.Ends.{Ends, Ended, ending, switch-Ends, switch_client_Ends, returned}
use state.Params.Ends.{reading, if-Ended, get_param_as_id-Ended}
use state.Validator.{is_uuid}
use state.Notices.{next, mark_as_invalid}
use state.Validators.{
  require, require_field, both, id_validator, broadcast_validator, is_subscribed_validator,
  publish_validator, register_validator, send_validator, session_validator, subscriptions_validator,
}
use state.Handlers.Plain.{ping_handler, unimplemented_handler}
use state.Handlers.Channels.{subscribe_handler, unsubscribe_handler, is_subscribed_handler}
use state.Handlers.Delivery.{
  next_count, broadcast_handler, publish_handler, send_handler, send_on_client, send_on_session,
}
use state.Handlers.Membership.{
  join_handler, leave_handler, register_handler, session_handler, open_session, connect,
}
use state.Kernel.{dispatch, handle, process, kernel, failed_transaction}

module _ ⦃p : Platform⦄ where
  open p use {json.{Object, at?}, resolves, refusals}

  -- No peer refuses connections for ever.
  abbrev pub AllAccept : Type 0
  AllAccept = (h : ℕ) → refusals h ≢ none

  pub connect-Ends : AllAccept → (h : ℕ) → Ends (connect h)
  unfolding connect effects
  connect-Ends a h = record {
    ended = λ f. elim (Option-cases (refusals h)) [
      | inl forever ↦ absurd (a h forever)
      | inr (n, met) ↦ rw met (returned tt)
    ];
  }

  module _ (r : Request) where
    next-Ends : (s : String) (fs : Object) → Ends (next r s fs)
    unfolding next
    next-Ends s fs = search ending

    mark_as_invalid-Ends : (s t : String) → Ends (mark_as_invalid r s t)
    unfolding mark_as_invalid
    mark_as_invalid-Ends s t = search ending

    require-Ends : (b : Bool) (s : String) {m : M Bool} → Ends m → Ends (require r b s m)
    unfolding require
    require-Ends b s h = search (ending, mark_as_invalid-Ends)

    id_validator-Ends : (params : Object) (a : String) → Ends (id_validator r params a)
    unfolding id_validator
    id_validator-Ends params a = search (ending, reading, require-Ends) depth 14

    require_field-Ends :
        (params : Object) (name missing : String) (test : Value Object → Bool) (wrong : String)
        {m : M Bool}
        → Ends m
        → Ends (require_field r params name missing test wrong m)
    unfolding require_field
    require_field-Ends params name missing test wrong h =
        search (ending, reading, require-Ends) depth 10

    both-Ends : (a : Bool) {m : M Bool} → Ends m → Ends (both a m)
    unfolding both
    both-Ends a h = search ending

    broadcast_validator-Ends : Ends (broadcast_validator r)
    unfolding broadcast_validator
    broadcast_validator-Ends =
        search (ending, reading, switch-Ends, require_field-Ends, id_validator-Ends) depth 16

    is_subscribed_validator-Ends : Ends (is_subscribed_validator r)
    unfolding is_subscribed_validator
    is_subscribed_validator-Ends = search (ending, reading, require_field-Ends) depth 16

    publish_validator-Ends : Ends (publish_validator r)
    unfolding publish_validator
    publish_validator-Ends =
        search (ending, reading, switch-Ends, require_field-Ends, id_validator-Ends) depth 16

    register_validator-Ends : Ends (register_validator r)
    unfolding register_validator
    register_validator-Ends = search (ending, reading, require_field-Ends) depth 16

    send_validator-Ends : Ends (send_validator r)
    unfolding send_validator
    send_validator-Ends =
        search (ending, reading, switch-Ends, require_field-Ends, id_validator-Ends, both-Ends)
          depth 16

    session_validator-Ends : Ends (session_validator r)
    unfolding session_validator
    session_validator-Ends = search (ending, reading, require_field-Ends) depth 16

    subscriptions_validator-Ends : Ends (subscriptions_validator r)
    unfolding subscriptions_validator
    subscriptions_validator-Ends =
        search (ending, reading, switch-Ends, require_field-Ends, id_validator-Ends) depth 16

    open_session-Ends : AllAccept → (host : String) (s c : ℕ) → Ends (open_session r host s c)
    unfolding open_session
    open_session-Ends a host s c = search (ending, reading, connect-Ends a, next-Ends) depth 12

ruleset handling = (
  ending, reading, switch-Ends, next-Ends, mark_as_invalid-Ends, id_validator-Ends,
  broadcast_validator-Ends, is_subscribed_validator-Ends, publish_validator-Ends,
  register_validator-Ends, send_validator-Ends, session_validator-Ends,
  subscriptions_validator-Ends,
)

module _ ⦃p : Platform⦄ where
  open p use {json.{Object, at?}}

  module _ (r : Request) where
    ping_handler-Ends : Ends (ping_handler r)
    unfolding ping_handler
    ping_handler-Ends = search handling depth 18

    unimplemented_handler-Ends : Ends (unimplemented_handler r)
    unfolding unimplemented_handler
    unimplemented_handler-Ends = search handling depth 18

    join_handler-Ends : Ends (join_handler r)
    unfolding join_handler
    join_handler-Ends = search handling depth 18

    leave_handler-Ends : Ends (leave_handler r)
    unfolding leave_handler
    leave_handler-Ends = search handling depth 18

    register_handler-Ends : Ends (register_handler r)
    unfolding register_handler
    register_handler-Ends = search handling depth 18

    subscribe_handler-Ends : Ends (subscribe_handler r)
    unfolding subscribe_handler
    subscribe_handler-Ends = search handling depth 18

    unsubscribe_handler-Ends : Ends (unsubscribe_handler r)
    unfolding unsubscribe_handler
    unsubscribe_handler-Ends = search handling depth 18

    is_subscribed_handler-Ends : Ends (is_subscribed_handler r)
    unfolding is_subscribed_handler
    is_subscribed_handler-Ends = search handling depth 18

    next_count-Ends : (n : ℕ) → Ends (next_count r n)
    unfolding next_count
    next_count-Ends n = search handling depth 18

    broadcast_handler-Ends : Ends (broadcast_handler r)
    unfolding broadcast_handler
    broadcast_handler-Ends = search (handling, next_count-Ends) depth 18

    publish_handler-Ends : Ends (publish_handler r)
    unfolding publish_handler
    publish_handler-Ends = search (handling, next_count-Ends) depth 18

    send_on_client-Ends : (to : ℕ) (o : Object) → Ends (send_on_client r to o)
    unfolding send_on_client
    send_on_client-Ends to o = search handling depth 18

    send_on_session-Ends : (from to : ℕ) (o : Object) → Ends (send_on_session r from to o)
    unfolding send_on_session
    send_on_session-Ends from to o = search handling depth 18

    send_handler-Ends : Ends (send_handler r)
    unfolding send_handler
    send_handler-Ends = search (handling, send_on_client-Ends, send_on_session-Ends) depth 18

    -- Of all handlers, only that of a session may wait for ever, and not on a message of a client.
    session_handler-Ends : (r.context ≡ on_client) ⊎ AllAccept → Ends (session_handler r)
    unfolding session_handler
    session_handler-Ends (inl c) = search (handling, switch_client_Ends) depth 18
    session_handler-Ends (inr a) = search (handling, open_session-Ends) depth 18

    dispatch-Ends :
        (action : String) → (r.context ≡ on_client) ⊎ AllAccept → Ends (dispatch action r)
    unfolding dispatch
    dispatch-Ends action a =
        search
          (
            handling, ping_handler-Ends, send_handler-Ends, register_handler-Ends,
            session_handler-Ends, subscribe_handler-Ends, is_subscribed_handler-Ends,
            unsubscribe_handler-Ends, broadcast_handler-Ends, publish_handler-Ends,
            join_handler-Ends, leave_handler-Ends, unimplemented_handler-Ends,
          )
          depth 18

  failed_transaction-Ended : (o : Object) → Ended (failed_transaction o)
  unfolding failed_transaction
  failed_transaction-Ended o = elim (Option-cases (at? "transaction_id" o)) [
    | inl e ↦ rw (e, failed_transaction) (returned 0)
    | inr (Value.string s, e) ↦
        rw (e, failed_transaction)
          (if-Ended (is_uuid s) (get_param_as_id-Ended o "transaction_id") (returned 0))
    | inr (Value.null, e) ↦ rw (e, failed_transaction) (returned 0)
    | inr (Value.double, e) ↦ rw (e, failed_transaction) (returned 0)
    | inr (Value.array, e) ↦ rw (e, failed_transaction) (returned 0)
    | inr (Value.boolean b, e) ↦ rw (e, failed_transaction) (returned 0)
    | inr (Value.int64 z, e) ↦ rw (e, failed_transaction) (returned 0)
    | inr (Value.uint64 n, e) ↦ rw (e, failed_transaction) (returned 0)
    | inr (Value.object d, e) ↦ rw (e, failed_transaction) (returned 0)
  ]

  process-Ends :
      (o : Object) (c : KernelContext) (entity : ℕ)
      → (c ≡ on_client) ⊎ AllAccept
      → Ends (process o c entity)
  unfolding process handle
  process-Ends o c entity a = search (handling, failed_transaction-Ended, dispatch-Ends) depth 16

  -- The kernel returns or throws on every message of a client, and on every message of a session if
  -- no peer refuses connections for ever.
  pub kernel-Ended :
      (o : Object) (c : KernelContext) (entity : ℕ) (w : World)
      → (c ≡ on_client) ⊎ AllAccept
      → Ended (kernel o c entity w).0
  unfolding kernel
  kernel-Ended o c entity w a = (process-Ends o c entity a).ended _

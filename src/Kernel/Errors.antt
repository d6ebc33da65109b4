-- ===== src/Kernel/Errors.antt =====
-- Messages on which the kernel throws instead of answering (src/objects/kernel.cpp).
use state.Common.{ℕ, Bool, true, false, ◌≡◌, refl, String, none, some, arith}
use state.Json.{Value}
use state.Platform.{Platform}
use state.World.{World}
use state.Request.{Request, KernelContext, on_client, on_session}
use state.Effects.{Frame, throw, out_of_range, bad_lexical_cast, effects, switch}
use state.Params.{get_params, get_params_as_value, get_param_as_id}
use state.Validator.{validator, check_action, check_transaction, check_uuid, is_uuid}
use state.Validators.{
  broadcast_validator, is_subscribed_validator, publish_validator, register_validator,
  send_validator, session_validator, subscriptions_validator,
}
use state.Handlers.Channels.{subscribe_handler, unsubscribe_handler, is_subscribed_handler}
use state.Handlers.Delivery.{broadcast_handler, publish_handler, send_handler}
use state.Handlers.Membership.{join_handler, leave_handler, register_handler, session_handler}
use state.Kernel.{handle, process, kernel}
use state.Kernel.Messages.{IsAddressed, request_of, frame_of, kernel-dispatch}
use state.Kernel.Actions.{
  Action, name, route, dispatch-name, ping, send, register, session, ack, subscribe, is_subscribed,
  unsubscribe, broadcast, publish, join, leave,
}

-- The actions whose handler reads the parameters in a context.
abbrev pub reads_params : KernelContext → Action → Bool
reads_params c ping = false
reads_params c ack = false
reads_params on_client register = false
reads_params on_client session = false
reads_params on_client join = false
reads_params on_client leave = false
reads_params c a = true

module _ ⦃p : Platform⦄ where
  open p use {json.{Object, at?}, generate, lexical_cast}

  module _ (r : Request) (missing : at? "params" r.object ≡ none) (f : Frame) where
    params_throw : get_params r ≡ throw out_of_range
    unfolding get_params
    params_throw = rw missing

    value_throw : get_params_as_value r ≡ throw out_of_range
    unfolding get_params_as_value
    value_throw = rw missing

    broadcast_throw : broadcast_handler r f ≡ (throw out_of_range, f)
    unfolding broadcast_handler broadcast_validator effects
    broadcast_throw = rw value_throw

    publish_throw : publish_handler r f ≡ (throw out_of_range, f)
    unfolding publish_handler publish_validator effects
    publish_throw = rw value_throw

    send_throw : send_handler r f ≡ (throw out_of_range, f)
    unfolding send_handler send_validator effects
    send_throw = rw value_throw

    subscribe_throw : subscribe_handler r f ≡ (throw out_of_range, f)
    unfolding subscribe_handler subscriptions_validator effects
    subscribe_throw = rw value_throw

    unsubscribe_throw : unsubscribe_handler r f ≡ (throw out_of_range, f)
    unfolding unsubscribe_handler subscriptions_validator effects
    unsubscribe_throw = rw value_throw

    is_subscribed_throw : is_subscribed_handler r f ≡ (throw out_of_range, f)
    unfolding is_subscribed_handler is_subscribed_validator effects
    is_subscribed_throw = rw value_throw

    join_throw : r.context ≡ on_session → join_handler r f ≡ (throw out_of_range, f)
    unfolding join_handler effects
    join_throw e = rw (params_throw, e, switch)

    leave_throw : r.context ≡ on_session → leave_handler r f ≡ (throw out_of_range, f)
    unfolding leave_handler effects
    leave_throw e = rw (params_throw, e, switch)

    register_throw : r.context ≡ on_session → register_handler r f ≡ (throw out_of_range, f)
    unfolding register_handler register_validator effects
    register_throw e = rw (value_throw, e, switch)

    session_throw : r.context ≡ on_session → session_handler r f ≡ (throw out_of_range, f)
    unfolding session_handler session_validator effects
    session_throw e = rw (value_throw, e, switch)

    route_throw :
        (a : Action) → reads_params r.context a ≡ true → route a r f ≡ (throw out_of_range, f)
    route_throw ping h = cc
    route_throw ack h = cc
    route_throw send h = send_throw
    route_throw subscribe h = subscribe_throw
    route_throw unsubscribe h = unsubscribe_throw
    route_throw is_subscribed h = is_subscribed_throw
    route_throw broadcast h = broadcast_throw
    route_throw publish h = publish_throw
    route_throw register h = register_throw (ground arith)
    route_throw session h = session_throw (ground arith)
    route_throw join h = join_throw (ground arith)
    route_throw leave h = leave_throw (ground arith)

  -- A message with a transaction id and an action of the protocol, but no parameters, makes the
  -- kernel throw as `at` does for a missing key, for every action whose handler reads parameters in the
  -- context.
  pub kernel_missing_params :
      (a : Action) (o : Object) (c : KernelContext) (entity t : ℕ) (w : World)
      → IsAddressed o (name a) t
      → at? "params" o ≡ none
      → reads_params c a ≡ true
      → (kernel o c entity w).0 ≡ throw out_of_range
  kernel_missing_params a o c entity t w h missing reads =
      rw
        (
          kernel-dispatch o (name a) c entity t w h,
          dispatch-name a (request_of o c entity t w),
          route_throw (request_of o c entity t w) missing (frame_of w) a reads,
        )
        refl

  -- A message with an action and a transaction id in a spelling that `string_generator` accepts and
  -- `lexical_cast` does not passes the validator, and then makes the kernel throw
  -- `boost::bad_lexical_cast`, whatever the action.
  pub kernel_bad_lexical_cast :
      (action s : String) (o : Object) (c : KernelContext) (entity : ℕ) (w : World)
      → at? "action" o ≡ some (Value.string action)
      → at? "transaction_id" o ≡ some (Value.string s)
      → is_uuid s ≡ true
      → lexical_cast s ≡ none
      → (validator o ≡ none) × ((kernel o c entity w).0 ≡ throw bad_lexical_cast)
  unfolding kernel process handle validator check_action check_transaction check_uuid effects
      get_param_as_id
  kernel_bad_lexical_cast action s o c entity w a t u l = (rw (a, t, u), rw (a, t, u, l))

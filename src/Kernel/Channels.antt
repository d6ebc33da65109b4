-- ===== src/Kernel/Channels.antt =====
-- What a subscription request does to the subscriptions of a state.
use state.Common.{
  ℕ, suc, true, not, ◌&&◌, ◌||◌, ◌≡◌, refl, String, str_eq, [], ◌++◌, map, some, ◌==◌, arith,
}
use state.Json.{Value}
use state.Platform.{Platform}
use state.World.{World, session_on_send}
use state.Request.{on_client, on_session}
use state.Response.{fresh, mark_as_processed, set_data}
use state.Notices.{next, get_status}
use state.Messages.{make_subscribe_request_object, make_unsubscribe_request_object}
use state.Effects.{Frame, Result, ok, effects, read_clock}
use state.Params.Laws.{
  get_params_lem, get_params_as_value_lem, get_param_as_string_lem, get_param_as_id_lem,
}
use state.Validators.{subscriptions_validator, require_field, require}
use state.Validators.Laws.{HasId, id_validator_lem}
use state.Store.{get_sessions, get_subscriptions, subscribe, unsubscribe}
use state.Store.Channels.{holds, holds-subscribe, holds-unsubscribe}
use state.Fanout.{subscribe_to_sessions, unsubscribe_to_sessions}
use state.Fanout.Delivery.{posting, open_sessions, send_to_sessions_lem}
use state.Handlers.Channels.{subscribe_handler, unsubscribe_handler}
use state.Kernel.{kernel}
use state.Kernel.Messages.{IsAddressed, request_of, frame_of, kernel-dispatch}
use state.Kernel.Actions

module _ ⦃p : Platform⦄ where
  open p use {json.{Object, at?, make, serialize}, clock}

  -- The subscriptions do not depend on the readings of the clock.
  unsubscribe_later :
      (s c : ℕ) (ch : String) (n : ℕ) (w : World)
      → unsubscribe s c ch (record w { readings = n }) ≡ (
        record w { readings = n; subscriptions = (unsubscribe s c ch w).0.subscriptions },
        (unsubscribe s c ch w).1,
      )
  unfolding unsubscribe
  unsubscribe_later s c ch n w = ground arith

  module _ (o ps : Object) (channel : String) (entity t : ℕ) (w : World)
      (params : at? "params" o ≡ some (Value.object ps))
      (named : at? "channel" ps ≡ some (Value.string channel)) where
    -- The result of the kernel: a processed answer with a status, on a world.
    abbrev pub answered : String → World → Result (Unit {0}) × Frame
    answered status v = (
      ok tt,
      record {
        world = record v { readings = suc (suc w.readings) };
        response =
            mark_as_processed
              (set_data t status (clock w.readings) (make []) (clock (suc w.readings)) fresh);
      },
    )

    -- The tasks that pass a message on to every session with an open websocket.
    abbrev announcing : Object → World → World
    announcing m v =
        posting (map (λ h. session_on_send h (serialize m)) (open_sessions w (get_sessions w))) v

    valid_on_client :
        (f : Frame) → subscriptions_validator (request_of o on_client entity t w) f ≡ (ok true, f)
    unfolding subscriptions_validator require_field require effects
    valid_on_client f =
        rw (get_params_as_value_lem (request_of o on_client entity t w) _ params, named) refl

    subscribe_on_client :
        IsAddressed o "subscribe" t
        → kernel o on_client entity w
          ≡ answered (get_status (subscribe w.id entity channel w).1 "ok" "no effect") (
              announcing
                (make_subscribe_request_object t entity channel)
                (record w { subscriptions = (subscribe w.id entity channel w).0.subscriptions }))
    unfolding subscribe_handler effects next read_clock mark_as_processed subscribe
        subscribe_to_sessions get_sessions
    subscribe_on_client a =
        rw
          (
            kernel-dispatch o "subscribe" on_client entity t w a,
            Actions.dispatch-name Actions.subscribe (request_of o on_client entity t w),
            valid_on_client (frame_of w),
            get_params_lem (request_of o on_client entity t w) ps params,
            get_param_as_string_lem ps "channel" channel named,
            send_to_sessions_lem (make_subscribe_request_object t entity channel) _,
          )
          refl

    unsubscribe_on_client :
        IsAddressed o "unsubscribe" t
        → kernel o on_client entity w
          ≡ answered (get_status (unsubscribe w.id entity channel w).1 "ok" "no effect") (
              announcing
                (make_unsubscribe_request_object t entity channel)
                (record w { subscriptions = (unsubscribe w.id entity channel w).0.subscriptions }))
    unfolding unsubscribe_handler effects next read_clock mark_as_processed unsubscribe_to_sessions
        get_sessions
    unsubscribe_on_client a =
        rw
          (
            kernel-dispatch o "unsubscribe" on_client entity t w a,
            Actions.dispatch-name Actions.unsubscribe (request_of o on_client entity t w),
            valid_on_client (frame_of w),
            get_params_lem (request_of o on_client entity t w) ps params,
            get_param_as_string_lem ps "channel" channel named,
            unsubscribe_later w.id entity channel (suc w.readings) w,
            send_to_sessions_lem (make_unsubscribe_request_object t entity channel) _,
          )
          refl

    module _ (u : ℕ) (h : HasId ps "client_id" u) where
      valid_on_session :
          (f : Frame)
          → subscriptions_validator (request_of o on_session entity t w) f ≡ (ok true, f)
      unfolding subscriptions_validator require_field require effects
      valid_on_session f =
          rw
            (
              get_params_as_value_lem (request_of o on_session entity t w) _ params,
              named,
              id_validator_lem (request_of o on_session entity t w) ps "client_id" u f h,
            )
            refl

      pub subscribe_on_session :
          IsAddressed o "subscribe" t
          → kernel o on_session entity w
            ≡ answered
                (get_status (subscribe entity u channel w).1 "ok" "no effect")
                (record w { subscriptions = (subscribe entity u channel w).0.subscriptions })
      unfolding subscribe_handler effects next read_clock mark_as_processed subscribe
      subscribe_on_session a =
          rw
            (
              kernel-dispatch o "subscribe" on_session entity t w a,
              Actions.dispatch-name Actions.subscribe (request_of o on_session entity t w),
              valid_on_session (frame_of w),
              get_params_lem (request_of o on_session entity t w) ps params,
              get_param_as_string_lem ps "channel" channel named,
              get_param_as_id_lem ps "client_id" h.spelling u h.present h.read,
            )
            refl

      pub unsubscribe_on_session :
          IsAddressed o "unsubscribe" t
          → kernel o on_session entity w
            ≡ answered
                (get_status (unsubscribe entity u channel w).1 "ok" "no effect")
                (record w { subscriptions = (unsubscribe entity u channel w).0.subscriptions })
      unfolding unsubscribe_handler effects next read_clock mark_as_processed
      unsubscribe_on_session a =
          rw
            (
              kernel-dispatch o "unsubscribe" on_session entity t w a,
              Actions.dispatch-name Actions.unsubscribe (request_of o on_session entity t w),
              valid_on_session (frame_of w),
              get_params_lem (request_of o on_session entity t w) ps params,
              get_param_as_string_lem ps "channel" channel named,
              get_param_as_id_lem ps "client_id" h.spelling u h.present h.read,
              unsubscribe_later entity u channel (suc w.readings) w,
            )
            refl

      -- A well-formed subscribe or unsubscribe of another node with a channel and a client adds or
      -- removes the triple of that node, that client and the channel, and no other triple; nothing
      -- is posted.
      pub kernel_channels_on_session :
          (IsAddressed o "subscribe" t
            → ((kernel o on_session entity w).0 ≡ ok tt)
              × ((kernel o on_session entity w).1.world.posted ≡ w.posted)
              × ((s c : ℕ) (ch : String)
                  → holds s c ch (kernel o on_session entity w).1.world
                    ≡ (entity == s && u == c && str_eq channel ch || holds s c ch w)))
          × (IsAddressed o "unsubscribe" t
              → ((kernel o on_session entity w).0 ≡ ok tt)
                × ((kernel o on_session entity w).1.world.posted ≡ w.posted)
                × ((s c : ℕ) (ch : String)
                    → holds s c ch (kernel o on_session entity w).1.world
                      ≡ (holds s c ch w && not (entity == s && u == c && str_eq channel ch))))
      unfolding holds get_subscriptions
      kernel_channels_on_session = (
        λ a. rw (subscribe_on_session a) (refl, refl, (holds-subscribe entity u channel w).1),
        λ a. rw (unsubscribe_on_session a) (refl, refl, (holds-unsubscribe entity u channel w).1),
      )

    -- A well-formed subscribe or unsubscribe of a client with a channel adds or removes the triple
    -- of this state, that client and the channel, and no other triple; every session with an open
    -- websocket is handed the announcement once, under the transaction id of the request, whether
    -- or not something changed.
    pub kernel_channels_on_client :
        (IsAddressed o "subscribe" t
          → ((kernel o on_client entity w).0 ≡ ok tt)
            × ((kernel o on_client entity w).1.world.posted
                ≡ w.posted
                  ++ map
                      (λ h.
                        session_on_send h
                          (serialize (make_subscribe_request_object t entity channel)))
                      (open_sessions w (get_sessions w)))
            × ((s c : ℕ) (ch : String)
                → holds s c ch (kernel o on_client entity w).1.world
                  ≡ (w.id == s && entity == c && str_eq channel ch || holds s c ch w)))
        × (IsAddressed o "unsubscribe" t
            → ((kernel o on_client entity w).0 ≡ ok tt)
              × ((kernel o on_client entity w).1.world.posted
                  ≡ w.posted
                    ++ map
                        (λ h.
                          session_on_send h
                            (serialize (make_unsubscribe_request_object t entity channel)))
                        (open_sessions w (get_sessions w)))
              × ((s c : ℕ) (ch : String)
                  → holds s c ch (kernel o on_client entity w).1.world
                    ≡ (holds s c ch w && not (w.id == s && entity == c && str_eq channel ch))))
    unfolding holds get_subscriptions
    kernel_channels_on_client = (
      λ a. rw (subscribe_on_client a) (refl, refl, (holds-subscribe w.id entity channel w).1),
      λ a. rw (unsubscribe_on_client a) (refl, refl, (holds-unsubscribe w.id entity channel w).1),
    )

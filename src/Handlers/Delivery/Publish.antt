-- ===== src/Handlers/Delivery/Publish.antt =====
-- What publish requests deliver (publish_handler.cpp).
use state.Common.{ℕ, true, ◌≡◌, refl, String, List, ◌++◌, map, keep, some}
use mathlib.Core.List.{append_assoc}
use state.Json.{Value}
use state.Platform.{Platform}
use state.World.{World, Task, session_on_send}
use state.Request.{Request, on_client, on_session}
use state.Effects.{Frame, ok, effects, read_clock}
use state.Messages.{make_publish_request_object}
use state.Notices.{next, get_status}
use state.Validators.{publish_validator, require_field, require}
use state.Effects.Cases.{switch-on_client, switch-on_session}
use state.Params.Laws.{
  get_params_lem, get_params_as_value_lem, get_param_as_object_lem, get_param_as_id_lem,
  get_param_as_string_lem,
}
use state.Validators.Laws.{HasId, id_validator_lem}
use state.Store.{get_sessions, get_subscriptions}
use state.Fanout.{publish_to_clients, publish_to_sessions}
use state.Fanout.Delivery.{send_to_others_clients_lem}
use state.Fanout.Channels.{is_receiver, is_subscribed_through, send_to_subscribed_sessions_lem}
use state.Handlers.Delivery.{next_count, publish_handler}
use state.Handlers.Delivery.Broadcast.{to_clients, others_count, answered_count}

module _ ⦃p : Platform⦄ where
  open p use {json.{Object, at?, serialize}}

  -- The tasks that hand a message to the sessions with a subscription to a channel.
  abbrev pub to_subscribed : Object → String → World → List Task
  to_subscribed o channel w =
      map (λ h. session_on_send h (serialize o)) (keep (is_receiver w channel) (get_sessions w))

  module _ (r : Request) (ps payload : Object) (channel : String) (f : Frame)
      (params : at? "params" r.object ≡ some (Value.object ps))
      (named : at? "channel" ps ≡ some (Value.string channel))
      (body : at? "payload" ps ≡ some (Value.object payload)) where
    publish_valid_client : r.context ≡ on_client → publish_validator r f ≡ (ok true, f)
    unfolding publish_validator require_field require effects
    publish_valid_client e =
        rw (get_params_as_value_lem r _ params, named, body, switch-on_client r.context _ _ e) refl

    -- A publication of a client with a channel and a payload goes to the other clients of this
    -- state with an open socket, whatever they subscribed to, and then to the open sessions with a
    -- subscription to the channel. The answer has what `send_to_others_clients` returns, and is
    -- "ok" if that is not 0; nothing else changes.
    pub publish_on_client :
        r.context ≡ on_client
        → let o = make_publish_request_object r.transaction_id r.entity_id channel payload in
          publish_handler r f ≡ (
            ok tt,
            answered_count r
                (others_count f.world)
                (to_clients o r.entity_id f.world ++ to_subscribed o channel f.world)
                f,
          )
    unfolding publish_handler effects next_count next get_status read_clock publish_to_clients
        publish_to_sessions get_sessions get_subscriptions is_subscribed_through
    publish_on_client e =
        let o = make_publish_request_object r.transaction_id r.entity_id channel payload in
        rw
          (
            publish_valid_client e,
            get_params_lem r ps params,
            get_param_as_string_lem ps "channel" channel named,
            get_param_as_object_lem ps "payload" payload body,
            switch-on_client r.context _ _ e,
            send_to_others_clients_lem o f.world.id r.entity_id f.world,
            (send_to_subscribed_sessions_lem o channel _).0,
            append_assoc f.world.posted (to_clients o r.entity_id f.world)
                (to_subscribed o channel f.world),
          )
          refl

    publish_valid_session :
        (u : ℕ)
        → HasId ps "client_id" u
        → r.context ≡ on_session
        → publish_validator r f ≡ (ok true, f)
    unfolding publish_validator require_field require effects
    publish_valid_session u h e =
        rw
          (
            get_params_as_value_lem r _ params,
            named,
            body,
            switch-on_session r.context _ _ e,
            id_validator_lem r ps "client_id" u f h,
          )
          refl

    -- A publication that another node passes on goes to the clients of this state other than the one
    -- that it names, whatever they subscribed to, and to no session.
    pub publish_on_session :
        (u : ℕ)
        → HasId ps "client_id" u
        → r.context ≡ on_session
        → publish_handler r f ≡ (
          ok tt,
          answered_count r
              (others_count f.world)
              (to_clients
                (make_publish_request_object r.transaction_id u channel payload)
                u
                f.world)
              f,
        )
    unfolding publish_handler effects next_count next get_status read_clock publish_to_clients
    publish_on_session u h e =
        rw
          (
            publish_valid_session u h e,
            get_params_lem r ps params,
            get_param_as_string_lem ps "channel" channel named,
            get_param_as_object_lem ps "payload" payload body,
            switch-on_session r.context _ _ e,
            get_param_as_id_lem ps "client_id" h.spelling u h.present h.read,
            send_to_others_clients_lem
                (make_publish_request_object r.transaction_id u channel payload) f.world.id u
                f.world,
          )
          refl

-- ===== src/Handlers/Delivery/Broadcast.antt =====
-- What broadcast and publish requests deliver (broadcast_handler.cpp, publish_handler.cpp).
use state.Common.{
  ℕ, suc, ◌+◌, ◌-◌, ◌%◌, true, ◌≡◌, refl, List, [], ◌∷◌, ◌++◌, map, keep, length, some, ltb,
  if◌then◌else◌,
}
use mathlib.Core.List.{append_assoc}
use state.Json.{Value}
use state.Platform.{Platform}
use state.World.{World, Task, session_on_send, client_on_send}
use state.Request.{Request, on_client, on_session}
use state.Response.{set_data}
use state.Effects.{Frame, ok, effects, read_clock}
use state.Messages.{make_broadcast_request_object}
use state.Notices.{next, get_status}
use state.Validators.{broadcast_validator, require_field, require}
use state.Effects.Cases.{switch-on_client, switch-on_session}
use state.Params.Laws.{
  get_params_lem, get_params_as_value_lem, get_param_as_object_lem, get_param_as_id_lem,
}
use state.Validators.Laws.{HasId, id_validator_lem}
use state.Store.{get_clients, get_sessions}
use state.Fanout.{size_mod, broadcast_to_clients, broadcast_to_sessions}
use state.Fanout.Delivery.{
  posting, open_sessions, is_reached, send_to_sessions_lem, send_to_others_clients_lem,
}
use state.Handlers.Delivery.{next_count, broadcast_handler}

module _ ⦃p : Platform⦄ where
  open p use {json.{Object, at?, make, serialize}, clock}

  -- The tasks that hand a message to the other clients of this state, and to the sessions.
  abbrev pub to_clients : Object → ℕ → World → List Task
  to_clients o sender w =
      map (λ c. client_on_send c.handle (serialize o))
        (keep (is_reached w w.id sender) (get_clients w))

  abbrev pub to_sessions : Object → World → List Task
  to_sessions o w = map (λ h. session_on_send h (serialize o)) (open_sessions w (get_sessions w))

  -- What `send_to_others_clients` returns.
  abbrev pub others_count : World → ℕ
  others_count w = (length (get_clients w) + size_mod - 1) % size_mod

  -- The frame after the answer with a count.
  abbrev pub answered_count : Request → ℕ → List Task → Frame → Frame
  answered_count r n ts f = record {
    world = record (posting ts f.world) { readings = suc f.world.readings };
    response =
        set_data r.transaction_id (if ltb 0 n then "ok" else "no effect") r.timestamp
          (make (("count", Value.uint64 n) ∷ [])) (clock f.world.readings) f.response;
  }

  module _ (r : Request) (ps payload : Object) (f : Frame)
      (params : at? "params" r.object ≡ some (Value.object ps))
      (body : at? "payload" ps ≡ some (Value.object payload)) where
    broadcast_valid_client : r.context ≡ on_client → broadcast_validator r f ≡ (ok true, f)
    unfolding broadcast_validator require_field require effects
    broadcast_valid_client e =
        rw (get_params_as_value_lem r _ params, body, switch-on_client r.context _ _ e) refl

    -- A broadcast of a client with a payload goes to the other clients of this state with an open
    -- socket and then to every open session. The answer has what `send_to_others_clients` returns,
    -- and is "ok" if that is not 0; nothing else changes.
    pub broadcast_on_client :
        r.context ≡ on_client
        → let o = make_broadcast_request_object r.transaction_id r.entity_id payload in
          broadcast_handler r f ≡ (
            ok tt,
            answered_count r
                (others_count f.world)
                (to_clients o r.entity_id f.world ++ to_sessions o f.world)
                f,
          )
    unfolding broadcast_handler effects next_count next get_status read_clock broadcast_to_clients
        broadcast_to_sessions get_sessions
    broadcast_on_client e =
        rw
          (
            broadcast_valid_client e,
            get_params_lem r ps params,
            get_param_as_object_lem ps "payload" payload body,
            switch-on_client r.context _ _ e,
            send_to_others_clients_lem
                (make_broadcast_request_object r.transaction_id r.entity_id payload) f.world.id
                r.entity_id f.world,
            send_to_sessions_lem
                (make_broadcast_request_object r.transaction_id r.entity_id payload) _,
            append_assoc f.world.posted
                (to_clients (make_broadcast_request_object r.transaction_id r.entity_id payload)
                  r.entity_id f.world)
                (to_sessions (make_broadcast_request_object r.transaction_id r.entity_id payload)
                  f.world),
          )
          refl

    broadcast_valid_session :
        (u : ℕ)
        → HasId ps "client_id" u
        → r.context ≡ on_session
        → broadcast_validator r f ≡ (ok true, f)
    unfolding broadcast_validator require_field require effects
    broadcast_valid_session u h e =
        rw
          (
            get_params_as_value_lem r _ params,
            body,
            switch-on_session r.context _ _ e,
            id_validator_lem r ps "client_id" u f h,
          )
          refl

    -- A broadcast that another node passes on goes to the clients of this state other than the one
    -- that it names, and to no session.
    pub broadcast_on_session :
        (u : ℕ)
        → HasId ps "client_id" u
        → r.context ≡ on_session
        → broadcast_handler r f ≡ (
          ok tt,
          answered_count r
              (others_count f.world)
              (to_clients (make_broadcast_request_object r.transaction_id u payload) u f.world)
              f,
        )
    unfolding broadcast_handler effects next_count next get_status read_clock broadcast_to_clients
    broadcast_on_session u h e =
        rw
          (
            broadcast_valid_session u h e,
            get_params_lem r ps params,
            get_param_as_object_lem ps "payload" payload body,
            switch-on_session r.context _ _ e,
            get_param_as_id_lem ps "client_id" h.spelling u h.present h.read,
            send_to_others_clients_lem (make_broadcast_request_object r.transaction_id u payload)
                f.world.id u f.world,
          )
          refl

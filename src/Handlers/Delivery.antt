-- ===== src/Handlers/Delivery.antt =====
-- broadcast_handler.cpp, publish_handler.cpp and send_handler.cpp.
pub mod Broadcast
pub mod Publish
pub mod Send
use state.Common.{ℕ, [], ◌∷◌, none, some, ltb, ◌==◌, if◌then◌else◌}
use state.Json.{Value}
use state.Clients.{Client}
use state.Platform.{Platform}
use state.World.{World}
use state.Request.{Request, on_session, on_client}
use state.Effects.{
  M, ◌>>=◌, ◌>>◌, pure, lift, when, on_world, get_world, switch, if_found, branch, draw,
}
use state.Params.{get_params, get_param_as_string, get_param_as_object, get_param_as_id}
use state.Messages.{send_object}
use state.Notices.{next, next_plain, get_status}
use state.Validators.{broadcast_validator, publish_validator, send_validator}
use state.Store.{get_client}
use state.Fanout.{
  broadcast_to_clients, broadcast_to_sessions, publish_to_clients, publish_to_sessions, client_send,
  send_to_session,
}

module _ ⦃p : Platform⦄ where
  open p use {json.{Object, make, serialize}}

  -- `next(request, get_status(_count > 0), {{"count", _count}})`
  unfoldable pub next_count : Request → ℕ → M (Unit {0})
  next_count r count =
      next r (get_status (ltb 0 count) "ok" "no effect") (make (("count", Value.uint64 count) ∷ []))

  unfoldable pub broadcast_handler : Request → M (Unit {0})
  broadcast_handler r = do
    valid ← broadcast_validator r
    when valid (do
      params ← lift (get_params r)
      payload ← lift (get_param_as_object params "payload")
      w ← get_world
      count ←
          switch r.context
            (do
              count ← on_world (broadcast_to_clients r w.id r.entity_id payload)
              sessions ← on_world (broadcast_to_sessions r r.entity_id payload)
              pure count)
            (do
              client_id ← lift (get_param_as_id params "client_id")
              on_world (broadcast_to_clients r w.id client_id payload))
      next_count r count)

  unfoldable pub publish_handler : Request → M (Unit {0})
  publish_handler r = do
    valid ← publish_validator r
    when valid (do
      params ← lift (get_params r)
      channel ← lift (get_param_as_string params "channel")
      payload ← lift (get_param_as_object params "payload")
      w ← get_world
      count ←
          switch r.context
            (do
              count ← on_world (publish_to_clients r w.id r.entity_id channel payload)
              sessions ← on_world (publish_to_sessions r r.entity_id channel payload)
              pure count)
            (do
              client_id ← lift (get_param_as_id params "client_id")
              on_world (publish_to_clients r w.id client_id channel payload))
      next_count r count)

  -- The message to a client of this state, with a fresh transaction id.
  unfoldable pub send_direct : ℕ → Client → Object → World → World × Unit {0}
  send_direct from_client_id c payload w =
      let (w', drawn) = draw w in
      (client_send (serialize (send_object drawn from_client_id c.id payload)) c w', tt)

  -- The call of `send_to_session`, for a client of another session.
  unfoldable pub send_remote : Client → ℕ → Object → World → World × Unit {0}
  send_remote c from_client_id payload w =
      (send_to_session c.session_id from_client_id c.id payload w, tt)

  unfoldable pub send_on_client : Request → ℕ → Object → M (Unit {0})
  send_on_client r to_client_id payload = do
    w ← get_world
    if_found (get_client to_client_id w)
        (λ c.
          branch (c.session_id == w.id)
            (do on_world (send_direct r.entity_id c payload); next_plain r "ok")
            (do on_world (send_remote c r.entity_id payload); next_plain r "ok"))
        (next_plain r "no effect")

  unfoldable pub send_on_session : Request → ℕ → ℕ → Object → M (Unit {0})
  send_on_session r from_client_id to_client_id payload = do
    w ← get_world
    if_found (get_client to_client_id w)
        (λ c.
          branch (c.session_id == w.id)
            (do on_world (send_direct from_client_id c payload); next_plain r "ok")
            (next_plain r "no effect"))
        (next_plain r "no effect")

  unfoldable pub send_handler : Request → M (Unit {0})
  send_handler r = do
    valid ← send_validator r
    when valid (do
      params ← lift (get_params r)
      to_client_id ← lift (get_param_as_id params "to_client_id")
      payload ← lift (get_param_as_object params "payload")
      switch r.context (send_on_client r to_client_id payload) (do
        from_client_id ← lift (get_param_as_id params "from_client_id")
        send_on_session r from_client_id to_client_id payload))

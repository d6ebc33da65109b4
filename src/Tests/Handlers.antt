-- ===== src/Tests/Handlers.antt =====
-- The handlers on the node of `Tests`.
use state.Common.{◌≡◌, refl, ◌++◌}
use state.Request.{on_client, on_session}
use state.Effects.{ok}
use state.Messages.{make_broadcast_request_object, make_publish_request_object}
use state.Store.{get_client}
use state.Handlers.Delivery.{broadcast_handler, publish_handler, send_handler}
use state.Handlers.Delivery.Broadcast.{
  to_clients, to_sessions, others_count, answered_count, broadcast_on_client,
}
use state.Handlers.Delivery.Publish.{to_subscribed, publish_on_client}
use state.Handlers.Delivery.Send.{
  sent_by_client, sent_by_session, send_handler_on_client, send_handler_on_session,
}
use state.Sample.{sample}
use state.Tests.{frame, payload, params, request, params-HasId_from, params-HasId_to}

broadcast_on_client_example :
    let o =
      make_broadcast_request_object
        (request "broadcast" on_client 10).transaction_id
        (request "broadcast" on_client 10).entity_id
        payload in
    broadcast_handler (request "broadcast" on_client 10) frame ≡ (
      ok tt,
      answered_count
          (request "broadcast" on_client 10)
          (others_count frame.world)
          (to_clients o (request "broadcast" on_client 10).entity_id frame.world
            ++ to_sessions o frame.world)
          frame,
    )
broadcast_on_client_example =
    broadcast_on_client (request "broadcast" on_client 10) params payload frame refl refl refl

publish_on_client_example :
    let o =
      make_publish_request_object
        (request "publish" on_client 10).transaction_id
        (request "publish" on_client 10).entity_id
        "news"
        payload in
    publish_handler (request "publish" on_client 10) frame ≡ (
      ok tt,
      answered_count
          (request "publish" on_client 10)
          (others_count frame.world)
          (to_clients o (request "publish" on_client 10).entity_id frame.world
            ++ to_subscribed o "news" frame.world)
          frame,
    )
publish_on_client_example =
    publish_on_client (request "publish" on_client 10) params payload "news" frame refl refl refl
      refl

send_handler_on_client_example :
    ((send_handler (request "send" on_client 10) frame).0 ≡ ok tt)
    × ((send_handler (request "send" on_client 10) frame).1.world.posted
        ≡ frame.world.posted
          ++ sent_by_client
              (request "send" on_client 10).entity_id
              payload
              frame.world
              (get_client 11 frame.world))
send_handler_on_client_example =
    send_handler_on_client (request "send" on_client 10) params payload 11 frame refl refl
      params-HasId_to refl

send_handler_on_session_example :
    ((send_handler (request "send" on_session 5) frame).0 ≡ ok tt)
    × ((send_handler (request "send" on_session 5) frame).1.world.posted
        ≡ frame.world.posted ++ sent_by_session 20 payload frame.world (get_client 11 frame.world))
send_handler_on_session_example =
    send_handler_on_session (request "send" on_session 5) params payload 11 frame refl refl
      params-HasId_to 20 params-HasId_from refl

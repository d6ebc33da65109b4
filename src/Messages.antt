-- ===== src/Messages.antt =====
-- The `make_*_request_object` functions of src/objects/utils.cpp, and the messages that state.cpp,
-- send_handler.cpp, session.cpp and client.cpp build in place: what one node writes to another or
-- to a client. Where the source draws a random transaction id, that id is an argument.
use state.Common.{ℕ, String, List, [], ◌∷◌}
use state.Json.{Value}
use state.Platform.{Platform}

module _ ⦃p : Platform⦄ where
  open p use {json.{Object, make}, uuid_to_string}

  -- A request: its transaction, its action and its parameters.
  abbrev pub request_object : ℕ → String → List (String × Value Object) → Object
  request_object transaction_id action params = make (
      ("transaction_id", Value.string (uuid_to_string transaction_id))
      ∷ ("action", Value.string action)
      ∷ ("params", Value.object (make params))
      ∷ [])

  abbrev pub id_param : String → ℕ → String × Value Object
  id_param name id = (name, Value.string (uuid_to_string id))

  unfoldable pub make_broadcast_request_object : ℕ → ℕ → Object → Object
  make_broadcast_request_object transaction_id client_id payload =
      request_object transaction_id "broadcast"
        (id_param "client_id" client_id ∷ ("payload", Value.object payload) ∷ [])

  unfoldable pub make_publish_request_object : ℕ → ℕ → String → Object → Object
  make_publish_request_object transaction_id client_id channel payload =
      request_object transaction_id "publish" (
        id_param "client_id" client_id
        ∷ ("channel", Value.string channel)
        ∷ ("payload", Value.object payload)
        ∷ [])

  unfoldable pub make_join_request_object : ℕ → ℕ → Object
  make_join_request_object drawn client_id =
      request_object drawn "join" (id_param "client_id" client_id ∷ [])

  unfoldable pub make_leave_request_object : ℕ → ℕ → Object
  make_leave_request_object drawn client_id =
      request_object drawn "leave" (id_param "client_id" client_id ∷ [])

  unfoldable pub make_subscribe_request_object : ℕ → ℕ → String → Object
  make_subscribe_request_object transaction_id client_id channel =
      request_object transaction_id "subscribe"
        (id_param "client_id" client_id ∷ ("channel", Value.string channel) ∷ [])

  unfoldable pub make_unsubscribe_request_object : ℕ → ℕ → String → Object
  make_unsubscribe_request_object transaction_id client_id channel =
      request_object transaction_id "unsubscribe"
        (id_param "client_id" client_id ∷ ("channel", Value.string channel) ∷ [])

  -- The message of `send_to_session` and of the send handler.
  unfoldable pub send_object : ℕ → ℕ → ℕ → Object → Object
  send_object drawn from_client_id to_client_id payload = request_object drawn "send" (
      id_param "from_client_id" from_client_id
      ∷ id_param "to_client_id" to_client_id
      ∷ ("payload", Value.object payload)
      ∷ [])

  -- The messages of `sync` put the action before the transaction.
  abbrev announcement : ℕ → String → List (String × Value Object) → Object
  announcement drawn action params = make (
      ("action", Value.string action)
      ∷ ("transaction_id", Value.string (uuid_to_string drawn))
      ∷ ("params", Value.object (make params))
      ∷ [])

  unfoldable pub sync_session_object : ℕ → String → ℕ → ℕ → Object
  sync_session_object drawn host sessions_port clients_port = announcement drawn "session" (
      ("host", Value.string host)
      ∷ ("sessions_port", Value.uint64 sessions_port)
      ∷ ("clients_port", Value.uint64 clients_port)
      ∷ [])

  unfoldable pub sync_join_object : ℕ → ℕ → Object
  sync_join_object drawn client_id = announcement drawn "join" (id_param "client_id" client_id ∷ [])

  unfoldable pub sync_subscribe_object : ℕ → ℕ → String → Object
  sync_subscribe_object drawn client_id channel =
      announcement drawn "subscribe"
        (id_param "client_id" client_id ∷ ("channel", Value.string channel) ∷ [])

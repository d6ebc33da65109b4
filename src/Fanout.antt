-- ===== src/Fanout.antt =====
-- src/objects/state.cpp: the functions that send to sessions and to clients, with `session::send`
-- and `client::send`, which hand a message to the executor if the socket is open.
pub mod Delivery
pub mod Channels
use state.Common.{
  ℕ, ◌+◌, ◌-◌, ◌%◌, ◌^◌, ◌&&◌, ◌||◌, not, List, [], ◌∷◌, ◌++◌, length, any, for_each, String, ◌==◌,
  if◌then◌else◌,
}
use state.Clients.{Client}
use state.Subscriptions.{Subscription, by_channel}
use state.Platform.{Platform}
use state.World.{World, Task, session_on_send, client_on_send}
use state.Effects.{draw}
use state.Messages.{
  make_broadcast_request_object, make_publish_request_object, make_join_request_object,
  make_leave_request_object, make_subscribe_request_object, make_unsubscribe_request_object,
  send_object,
}
use state.Request.{Request}
use state.Store.{get_sessions, get_clients}

-- The modulus of `std::size_t`.
abbrev pub size_mod : ℕ
size_mod = 2 ^ 64

-- One step of the loop that fills the set of receivers.
pub add_receiver : Subscription → List ℕ → List ℕ
add_receiver s found = if any (λ r. r == s.session_id) found then found else s.session_id ∷ found

module _ ⦃p : Platform⦄ where
  open p use {
    json.{Object, serialize},
    clients as clients_table,
    subscriptions as subscriptions_table,
  }

  unfoldable pub post : Task → World → World
  post t w = record w { posted = w.posted ++ t ∷ [] }

  -- `session::send`
  unfoldable pub session_send : String → ℕ → World → World
  session_send message h w = if (w.session h).is_open then post (session_on_send h message) w else w

  -- `client::send`
  unfoldable pub client_send : String → Client → World → World
  client_send message c w =
      if (w.client_socket c.handle).has_socket && (w.client_socket c.handle).is_open
      then post (client_on_send c.handle message) w
      else w

  pub send_to_sessions : Object → World → World × ℕ
  send_to_sessions o w =
      let hs = get_sessions w in (for_each (session_send (serialize o)) hs w, length hs)

  -- Not to the sender, nor to clients of other sessions.
  pub send_other : String → ℕ → ℕ → Client → World → World
  send_other message session_id client_id c w =
      if c.id == client_id || not (c.session_id == session_id) then w else client_send message c w

  -- The result is the size of the vector less one, in `std::size_t`.
  pub send_to_others_clients : Object → ℕ → ℕ → World → World × ℕ
  send_to_others_clients o session_id client_id w =
      let cs = get_clients w in
      (
        for_each (send_other (serialize o) session_id client_id) cs w,
        (length cs + size_mod - 1) % size_mod,
      )

  pub send_receiver : String → List ℕ → ℕ → World → World
  send_receiver message found h w =
      if any (λ r. r == (w.session h).id) found then session_send message h w else w

  -- The set of the sessions with a subscription to a channel.
  pub receivers : String → World → List ℕ
  receivers channel w =
      for_each add_receiver (subscriptions_table.equal_range by_channel channel w.subscriptions) []

  pub send_to_subscribed_sessions : Object → String → World → World × ℕ
  send_to_subscribed_sessions o channel w =
      let found = receivers channel w in
      if length found == 0
      then (w, 0)
      else (for_each (send_receiver (serialize o) found) (get_sessions w) w, length found)

  unfoldable pub broadcast_to_sessions : Request → ℕ → Object → World → World × ℕ
  broadcast_to_sessions r client_id o =
      send_to_sessions (make_broadcast_request_object r.transaction_id client_id o)

  unfoldable pub broadcast_to_clients : Request → ℕ → ℕ → Object → World → World × ℕ
  broadcast_to_clients r session_id client_id o =
      send_to_others_clients (make_broadcast_request_object r.transaction_id client_id o) session_id
        client_id

  unfoldable pub publish_to_sessions : Request → ℕ → String → Object → World → World × ℕ
  publish_to_sessions r client_id channel o =
      send_to_subscribed_sessions (make_publish_request_object r.transaction_id client_id channel o)
        channel

  unfoldable pub publish_to_clients : Request → ℕ → ℕ → String → Object → World → World × ℕ
  publish_to_clients r session_id client_id channel o =
      send_to_others_clients (make_publish_request_object r.transaction_id client_id channel o)
        session_id client_id

  unfoldable pub join_to_sessions : ℕ → World → World × ℕ
  join_to_sessions client_id w =
      let (w', drawn) = draw w in send_to_sessions (make_join_request_object drawn client_id) w'

  unfoldable pub leave_to_sessions : ℕ → World → World × ℕ
  leave_to_sessions client_id w =
      let (w', drawn) = draw w in send_to_sessions (make_leave_request_object drawn client_id) w'

  unfoldable pub subscribe_to_sessions : Request → ℕ → String → World → World × ℕ
  subscribe_to_sessions r client_id channel =
      send_to_sessions (make_subscribe_request_object r.transaction_id client_id channel)

  unfoldable pub unsubscribe_to_sessions : Request → ℕ → String → World → World × ℕ
  unsubscribe_to_sessions r client_id channel =
      send_to_sessions (make_unsubscribe_request_object r.transaction_id client_id channel)

  pub send_matching : String → ℕ → ℕ → World → World
  send_matching message session_id h w =
      if (w.session h).id == session_id then session_send message h w else w

  pub send_to_session : ℕ → ℕ → ℕ → Object → World → World
  send_to_session session_id from_client_id to_client_id payload w =
      let hs = get_sessions w in
      let (w', drawn) = draw w in
      for_each
        (send_matching (serialize (send_object drawn from_client_id to_client_id payload))
          session_id)
        hs w'

-- ===== src/Store.antt =====
-- src/objects/state.cpp: what a state keeps. Each function is one member function, under its lock:
-- it returns the changed world and its result.
pub mod Clients
pub mod Channels
pub mod Sessions
use state.Common.{
  ℕ, Bool, true, false, not, List, Option, none, some, is_some, length, String, ◌==◌,
}
use state.Clients.{Client, by_session, by_client}
use state.Subscriptions.{Subscription, by_client_channel, by_session_client_channel}
use state.Subscriptions
use state.OrderedMap
use state.Platform.{Platform}
use state.World.{World}

module _ ⦃p : Platform⦄ where
  open p use {clients as clients_table, subscriptions as subscriptions_table}

  -- The addresses of the sessions, in the order of their uuids.
  unfoldable pub get_sessions : World → List ℕ
  get_sessions w = OrderedMap.values w.sessions

  unfoldable pub get_clients : World → List Client
  get_clients w = clients_table.traverse by_client w.clients

  unfoldable pub get_subscriptions : World → List Subscription
  get_subscriptions w = subscriptions_table.traverse Subscriptions.by_session w.subscriptions

  unfoldable pub get_session : ℕ → World → Option ℕ
  get_session id w = OrderedMap.find id w.sessions

  unfoldable pub get_client : ℕ → World → Option Client
  get_client id w = clients_table.find by_client id w.clients

  unfoldable pub add_session : ℕ → World → World × Bool
  add_session handle w =
      let (sessions, inserted) = OrderedMap.emplace (w.session handle).id handle w.sessions in
      (record w { sessions = sessions }, inserted)

  unfoldable pub remove_session : ℕ → World → World × Bool
  remove_session id w = (
    record w { sessions = OrderedMap.erase id w.sessions },
    is_some (OrderedMap.find id w.sessions),
  )

  unfoldable pub add_client : Client → World → World × Bool
  add_client c w =
      let (clients, inserted) = clients_table.insert c w.clients in
      (record w { clients = clients }, inserted)

  unfoldable pub push_client : Client → World → World × Bool
  push_client c w =
      let (clients, inserted) = clients_table.insert c w.clients in
      (record w { clients = clients }, inserted)

  -- The count of the erased clients, as a `bool`.
  unfoldable pub remove_client : ℕ → World → World × Bool
  remove_client client_id w =
      let erased = length (clients_table.equal_range by_client client_id w.clients) in
      (
        record w { clients = clients_table.erase_range by_client client_id w.clients },
        not (erased == 0),
      )

  unfoldable pub subscribe : ℕ → ℕ → String → World → World × Bool
  subscribe session_id client_id channel w =
      let s : Subscription = record {
        session_id = session_id;
        client_id = client_id;
        channel = channel;
      } in
      let (subscriptions, inserted) = subscriptions_table.insert s w.subscriptions in
      (record w { subscriptions = subscriptions }, inserted)

  -- The index is unique, so the element that `find` points to is the whole range of its key.
  unfoldable pub unsubscribe : ℕ → ℕ → String → World → World × Bool
  unsubscribe session_id client_id channel w =
      elim (subscriptions_table.find by_session_client_channel (session_id, client_id, channel)
        w.subscriptions) [
          | none ↦ (w, false)
          | some _ ↦ (
            record w {
              subscriptions =
                  subscriptions_table.erase_range by_session_client_channel
                    (session_id, client_id, channel) w.subscriptions;
            },
            true,
          )
        ]

  pub is_subscribed : ℕ → String → World → Bool
  is_subscribed client_id channel w =
      is_some (subscriptions_table.find by_client_channel (client_id, channel) w.subscriptions)

  unfoldable pub remove_state_of_session : ℕ → World → World
  remove_state_of_session id w = record w {
    clients = clients_table.erase_range by_session id w.clients;
    subscriptions = subscriptions_table.erase_range Subscriptions.by_session id w.subscriptions;
  }

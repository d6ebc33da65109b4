-- ===== src/Tests/Fanout.antt =====
-- The fan-out functions on the node of `Tests`.
use state.Common.{false, ℕ, ◌+◌, ◌-◌, ◌%◌, ◌≡◌, any, map, keep, length, ◌==◌}
use state.World.{session_on_send, client_on_send}
use state.Store.{get_sessions, get_clients}
use state.Fanout.{send_to_others_clients, send_to_subscribed_sessions, receivers, size_mod}
use state.Fanout.Delivery.{posting, is_reached, send_to_others_clients_lem}
use state.Fanout.Channels.{
  IsDistinct, is_receiver, is_subscribed_through, send_to_subscribed_sessions_lem,
}
use state.Sync.{sync}
use state.Sync.Messages.{told, report, sync_lem}
use state.Sample.{sample}
use state.Sample.Documents.{print}
use state.Tests.{node, payload}

send_to_others_clients_lem_example : send_to_others_clients payload 1 10 node ≡ (
  posting
      (map
        (λ c. client_on_send c.handle (print payload))
        (keep (is_reached node 1 10) (get_clients node)))
      node,
  (length (get_clients node) + size_mod - 1) % size_mod,
)
send_to_others_clients_lem_example = send_to_others_clients_lem payload 1 10 node

send_to_subscribed_sessions_lem_example :
    (send_to_subscribed_sessions payload "news" node ≡ (
      posting
          (map
            (λ h. session_on_send h (print payload))
            (keep (is_receiver node "news") (get_sessions node)))
          node,
      length (receivers "news" node),
    ))
    × IsDistinct (receivers "news" node)
    × ((id : ℕ) → any (λ r. r == id) (receivers "news" node) ≡ is_subscribed_through node "news" id)
send_to_subscribed_sessions_lem_example = send_to_subscribed_sessions_lem payload "news" node

sync_lem_example : sync 0 false node ≡ told 0 (report 0 false node) node
sync_lem_example = sync_lem 0 false node

-- ===== src/Tests/Store.antt =====
-- The containers of a state on the node of `Tests`.
use state.Common.{
  ℕ, not, ◌≡◌, ◌&&◌, ◌||◌, is_some, none, some, ◌==◌, str_eq, String, any, if◌then◌else◌,
}
use state.Store.{
  get_client, add_client, subscribe, unsubscribe, is_subscribed, get_subscriptions, get_session,
  add_session, remove_session, remove_state_of_session,
}
use state.Store.Clients.{get_client-add_client}
use state.Store.Channels.{holds, pair, triple, holds-subscribe, holds-unsubscribe}
use state.Store.Sessions.{
  has_client, get_session-add_session-remove_session, remove_state_of_session_lem,
}
use state.Sample.{sample}
use state.Tests.{node, node-IsKeyed, client}

holds-subscribe_example :
    ((subscribe 1 11 "news" node).1 ≡ not (holds 1 11 "news" node))
    × ((s' c' : ℕ) (ch' : String)
        → holds s' c' ch' (subscribe 1 11 "news" node).0
          ≡ (1 == s' && 11 == c' && str_eq "news" ch' || holds s' c' ch' node))
    × ((c' : ℕ) (ch' : String)
        → is_subscribed c' ch' (subscribe 1 11 "news" node).0
          ≡ (11 == c' && str_eq "news" ch' || is_subscribed c' ch' node))
holds-subscribe_example = holds-subscribe 1 11 "news" node

holds-unsubscribe_example :
    ((unsubscribe 5 20 "news" node).1 ≡ holds 5 20 "news" node)
    × ((s' c' : ℕ) (ch' : String)
        → holds s' c' ch' (unsubscribe 5 20 "news" node).0
          ≡ (holds s' c' ch' node && not (5 == s' && 20 == c' && str_eq "news" ch')))
    × ((c' : ℕ) (ch' : String)
        → is_subscribed c' ch' (unsubscribe 5 20 "news" node).0
          ≡ any (λ e. pair c' ch' e && not (triple 5 20 "news" e)) (get_subscriptions node))
holds-unsubscribe_example = holds-unsubscribe 5 20 "news" node

get_client-add_client_example :
    ((add_client (client 4 40 1) node).1 ≡ not (is_some (get_client (client 4 40 1).id node)))
    × ((id : ℕ)
        → get_client id (add_client (client 4 40 1) node).0 ≡ (
            if (add_client (client 4 40 1) node).1 && (client 4 40 1).id == id
            then some (client 4 40 1)
            else get_client id node))
get_client-add_client_example = get_client-add_client (client 4 40 1) node

remove_state_of_session_lem_example :
    ((id s : ℕ)
      → has_client id s (remove_state_of_session 5 node) ≡ (has_client id s node && not (s == 5)))
    × ((s c : ℕ) (ch : String)
        → holds s c ch (remove_state_of_session 5 node) ≡ (holds s c ch node && not (s == 5)))
    × ((remove_state_of_session 5 node).sessions ≡ node.sessions)
remove_state_of_session_lem_example = remove_state_of_session_lem 5 node

get_session-add_session-remove_session_example :
    ((add_session 2 node).1 ≡ not (is_some (get_session (node.session 2).id node)))
    × ((j : ℕ)
        → get_session j (add_session 2 node).0 ≡ (
            if is_some (get_session j node)
            then get_session j node
            else (if (node.session 2).id == j then some 2 else none)))
    × ((remove_session 5 node).1 ≡ is_some (get_session 5 node))
    × ((j : ℕ)
        → get_session j (remove_session 5 node).0 ≡ (if 5 == j then none else get_session j node))
get_session-add_session-remove_session_example =
    get_session-add_session-remove_session 2 5 node node-IsKeyed

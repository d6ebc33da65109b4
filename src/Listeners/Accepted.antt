-- ===== src/Listeners/Accepted.antt =====
-- What a node does when a connection is accepted (src/objects/session_listener.cpp and
-- client_listener.cpp).
use state.Common.{
  ℕ, suc, true, false, not, ◌&&◌, ◌≡◌, refl, [], ◌∷◌, ◌++◌, map, some, none, is_some, ◌==◌, ==_self,
  if◌then◌else◌,
}
use mathlib.Core.List.{append_assoc}
use state.Clients.{Client}
use state.Platform.{Platform}
use state.World.{
  World, local, session_on_run, session_on_send, client_async_accept, client_listener_async_accept,
  session_listener_async_accept,
}
use state.OrderedMap
use state.Effects.{draw, read_clock}
use state.Messages.{make_join_request_object}
use state.Store.{get_client, get_session, get_sessions, add_client, add_session}
use state.Store.Clients.{get_client-add_client}
use state.Fanout.{post, join_to_sessions}
use state.Fanout.Delivery.{open_sessions, send_to_sessions_lem}
use state.Handlers.Membership.{make_client, make_session}
use state.ClientIo.{set_socket, run, change_socket}
use state.Listeners.{
  on_accept_client, new_client, accept_client, on_accept_session, new_session, accept_session,
}

module _ ⦃p : Platform⦄ where
  open p use {random, clock, json.{serialize}}

  -- The client of an accepted connection.
  abbrev pub accepted : World → Client
  accepted w = record {
    handle = w.allocated;
    id = random w.draws;
    session_id = w.id;
    is_local = w.id == w.id;
  }

  -- When a node accepts a client: unless a client has the drawn id, the client stands under it as one
  -- of this node, and every other id leads to what it led to; each session with an open websocket is
  -- handed a join of the client, once; then the websocket of the client is accepted, and the next
  -- client is awaited. Its websocket is not open yet and nothing is queued for it.
  pub on_accept_client_lem :
      (w : World)
      → let v = on_accept_client false w in
        let u = random w.draws in
        ((id : ℕ)
          → get_client id v ≡ (
              if not (is_some (get_client u w)) && u == id
              then some (accepted w)
              else get_client id w))
        × (v.posted
            ≡ w.posted
              ++ (map
                    (λ h.
                      session_on_send h
                        (serialize (make_join_request_object (random (suc w.draws)) u)))
                    (open_sessions w (get_sessions w))
                  ++ client_async_accept w.allocated (clock w.readings)
                    ∷ client_listener_async_accept
                    ∷ []))
        × (v.client w.allocated ≡ accepted w)
        × ((v.client_socket w.allocated).is_open ≡ false)
        × ((v.client_socket w.allocated).queue ≡ [])
        × (v.sessions ≡ w.sessions)
  unfolding on_accept_client new_client accept_client draw make_client set_socket change_socket
      join_to_sessions run read_clock post add_client get_client get_sessions
  on_accept_client_lem w =
      let known = get_client-add_client (accepted w) w in
      rw (send_to_sessions_lem, ==_self w.allocated)
        (
          λ id. rw (← known.0) (known.1 id),
          simp append_assoc,
          rw (==_self w.allocated) refl,
          rw (==_self w.allocated) refl,
          rw (==_self w.allocated) refl,
          refl,
        )

  -- When a node whose map of sessions ascends in its ids accepts a connection of another: unless a
  -- session has the drawn id, a new object stands under it, and every other id leads to what it led to;
  -- the object has the drawn id, is not registered and not open, and nothing is queued for it; its run
  -- is posted, and the next connection is awaited; clients and subscriptions stay. Where the accept
  -- fails, the next connection is awaited and nothing else happens.
  pub on_accept_session_lem :
      (w : World)
      → OrderedMap.IsAscending w.sessions
      → let v = on_accept_session false w in
        let s = v.session w.allocated in
        ((id : ℕ)
          → get_session id v ≡ (
              if is_some (get_session id w)
              then get_session id w
              else if random w.draws == id
              then some w.allocated
              else none))
        × (v.posted
            ≡ w.posted ++ session_on_run w.allocated local ∷ session_listener_async_accept ∷ [])
        × (s.id ≡ random w.draws)
        × (s.registered ≡ false)
        × (s.is_open ≡ false)
        × (s.queue ≡ [])
        × (v.clients ≡ w.clients)
        × (v.subscriptions ≡ w.subscriptions)
        × (on_accept_session true w
            ≡ record w { posted = w.posted ++ session_listener_async_accept ∷ [] })
  unfolding on_accept_session new_session accept_session make_session draw post add_session
      get_session OrderedMap.emplace
  on_accept_session_lem w ascending = (
    λ id.
        rw (==_self w.allocated)
          (OrderedMap.find-put (random w.draws) id w.allocated w.sessions ascending),
    append_assoc w.posted (session_on_run w.allocated local ∷ [])
        (session_listener_async_accept ∷ []),
    rw (==_self w.allocated) refl,
    rw (==_self w.allocated) refl,
    rw (==_self w.allocated) refl,
    rw (==_self w.allocated) refl,
    refl,
    refl,
    refl,
  )

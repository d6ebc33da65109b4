-- ===== src/ClientIo/Leaving.antt =====
-- What the loss of a client's websocket does (src/objects/client.cpp).
use state.Common.{ℕ, suc, true, ◌≡◌, ◌≢◌, refl, ap, ◌++◌, map, none}
use state.Clients.{Client}
use state.Platform.{Platform}
use state.World.{World, session_on_send}
use state.Messages.{make_leave_request_object}
use state.Effects.{ok, draw}
use state.Store.{get_client, get_sessions, remove_client}
use state.Store.Clients.{get_client-remove_client}
use state.Fanout.{leave_to_sessions}
use state.Fanout.Delivery.{posting, open_sessions, send_to_sessions_lem}
use state.ClientIo.{leave, on_accept, on_read}

module _ ⦃p : Platform⦄ where
  open p use {json.{serialize}, random}

  leave_lem :
      (c : Client) (w : World)
      → leave c w
        ≡ posting
            (map
              (λ h. session_on_send h (serialize (make_leave_request_object (random w.draws) c.id)))
              (open_sessions w (get_sessions w)))
            (record (remove_client c.id w).0 { draws = suc w.draws })
  unfolding leave leave_to_sessions draw remove_client get_sessions
  leave_lem c w =
      ap (λ x. x.0)
        (send_to_sessions_lem (make_leave_request_object (random w.draws) c.id)
          (record (remove_client c.id w).0 { draws = suc w.draws }))

  -- When the websocket of a client fails, in the handshake or in a read, the client is gone and no
  -- other is; every session with an open websocket is told of the leave once, all under one new
  -- transaction id, and nothing else is posted. The subscriptions stay.
  pub on_read-on_accept :
      (c : Client) (run_at : ℕ) (w : World)
      → (on_read c none w ≡ (ok tt, on_accept c run_at true w))
        × (get_client c.id (on_accept c run_at true w) ≡ none)
        × ((other : ℕ)
            → other ≢ c.id
            → get_client other (on_accept c run_at true w) ≡ get_client other w)
        × ((on_accept c run_at true w).posted
            ≡ w.posted
              ++ map
                  (λ h.
                    session_on_send h (serialize (make_leave_request_object (random w.draws) c.id)))
                  (open_sessions w (get_sessions w)))
        × ((on_accept c run_at true w).subscriptions ≡ w.subscriptions)
  unfolding on_accept on_read get_client remove_client
  on_read-on_accept c run_at w =
      let known = get_client-remove_client c.id w in
      rw (leave_lem c w) (refl, known.1, known.2, refl, refl)

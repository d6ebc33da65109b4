-- ===== src/Tests/Io.antt =====
-- The sockets of the node of `Tests`.
use state.Common.{ℕ, true, false, ◌≡◌, ◌≢◌, refl, ◌++◌, map, none, [], ◌∷◌}
use state.World.{World, session_on_send}
use state.Messages.{make_leave_request_object}
use state.Effects.{ok}
use state.Store.{get_client, get_sessions}
use state.Fanout.{post}
use state.Fanout.Delivery.{open_sessions}
use state.SessionIo.{change_session, on_send, on_write, write_front}
use state.SessionIo.Queue.{InOrder, start, send, wrote, Writes-InOrder}
use state.ClientIo
use state.ClientIo.Leaving.{on_read-on_accept}
use state.Sample.{sample}
use state.Sample.Documents.{print}
use state.Tests.{node, client}

abbrev two_sent : World
two_sent = on_send 0 "second" (on_send 0 "first" node)

two_sent_busy : (two_sent.session 0).queue ≢ []
unfolding on_send change_session write_front post
two_sent_busy e = cc

Writes-InOrder_example : InOrder 0 node ("first" ∷ "second" ∷ []) (on_write 0 false two_sent)
Writes-InOrder_example =
    Writes-InOrder 0 node (on_write 0 false two_sent) ("first" ∷ "second" ∷ []) refl
      (wrote two_sent_busy (send "second" (send "first" start)))

on_read-on_accept_example :
    (ClientIo.on_read (client 1 11 1) none node
      ≡ (ok tt, ClientIo.on_accept (client 1 11 1) 0 true node))
    × (get_client (client 1 11 1).id (ClientIo.on_accept (client 1 11 1) 0 true node) ≡ none)
    × ((other : ℕ)
        → other ≢ (client 1 11 1).id
        → get_client other (ClientIo.on_accept (client 1 11 1) 0 true node) ≡ get_client other node)
    × ((ClientIo.on_accept (client 1 11 1) 0 true node).posted
        ≡ node.posted
          ++ map
              (λ h.
                session_on_send h
                  (print (make_leave_request_object (sample.random node.draws) (client 1 11 1).id)))
              (open_sessions node (get_sessions node)))
    × ((ClientIo.on_accept (client 1 11 1) 0 true node).subscriptions ≡ node.subscriptions)
on_read-on_accept_example = on_read-on_accept (client 1 11 1) 0 node

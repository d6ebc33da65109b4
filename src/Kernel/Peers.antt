-- ===== src/Kernel/Peers.antt =====
-- What one node announces, the kernel of another node carries out: the messages that
-- src/objects/utils.cpp builds, taken by src/objects/kernel.cpp as messages of a session.
use state.Common.{
  ℕ, not, ◌&&◌, ◌||◌, ◌≡◌, ◌≢◌, refl, String, str_eq, List, ◌∷◌, ◌++◌, none, some, is_some, ◌==◌,
  if◌then◌else◌,
}
use state.Json.{Value}
use state.Platform.{Platform}
use state.World.{World}
use state.Request.{on_session}
use state.Effects.{ok, effects}
use state.Messages.{
  request_object, id_param, make_broadcast_request_object, make_publish_request_object,
  make_join_request_object, make_leave_request_object, make_subscribe_request_object,
  make_unsubscribe_request_object,
}
use state.Validators.Laws.{HasId}
use state.Store.{get_client, get_clients}
use state.Store.Channels.{holds}
use state.Handlers.Delivery.Broadcast.{to_clients, broadcast_on_session}
use state.Handlers.Delivery.Publish.{publish_on_session}
use state.Kernel.{kernel}
use state.Kernel.Messages.{
  IsAddressed, is_uuid-uuid_to_string, request_of, frame_of, kernel-dispatch,
}
use state.Kernel.Membership.{joined, kernel_join, kernel_leave}
use state.Kernel.Channels.{kernel_channels_on_session}
use state.Kernel.Actions

module _ ⦃p : Platform⦄ where
  open p use {json.{Object, at?, make, at?-make}, lexical_cast-uuid_to_string}

  -- A request names its action, its transaction and its parameters.
  pub request_IsAddressed :
      (t : ℕ) (action : String) (ps : List (String × Value Object))
      → IsAddressed (request_object t action ps) action t
  request_IsAddressed t action ps = record {
    acts = at?-make "action" _;
    transaction = at?-make "transaction_id" _;
  }

  pub id_param-HasId :
      (u : ℕ) (ps : List (String × Value Object))
      → HasId (make (id_param "client_id" u ∷ ps)) "client_id" u
  id_param-HasId u ps = record {
    spelling = p.uuid_to_string u;
    present = at?-make "client_id" _;
    valid = is_uuid-uuid_to_string u;
    read = lexical_cast-uuid_to_string u;
  }

  module _ (entity t u : ℕ) (w : World) where
    -- A node that receives the announcement of a join adds the client under its id, as a client of the
    -- announcing node, unless it knows the id; every other id leads to what it led to before.
    pub kernel-make_join_request_object :
        ((kernel (make_join_request_object t u) on_session entity w).0 ≡ ok tt)
        × ((id : ℕ)
            → get_client id (kernel (make_join_request_object t u) on_session entity w).1.world ≡ (
                if not (is_some (get_client u w)) && u == id
                then some (joined entity u w)
                else get_client id w))
    unfolding make_join_request_object
    kernel-make_join_request_object =
        kernel_join _ _ entity t u w (at?-make "params" _) (id_param-HasId u _)
          (request_IsAddressed t "join" _)

    -- A node that receives the announcement of a leave forgets the client, and no other client.
    pub kernel-make_leave_request_object :
        ((kernel (make_leave_request_object t u) on_session entity w).0 ≡ ok tt)
        × (get_client u (kernel (make_leave_request_object t u) on_session entity w).1.world ≡ none)
        × ((other : ℕ)
            → other ≢ u
            → get_client other (kernel (make_leave_request_object t u) on_session entity w).1.world
              ≡ get_client other w)
    unfolding make_leave_request_object
    kernel-make_leave_request_object =
        kernel_leave _ _ entity t u w (at?-make "params" _) (id_param-HasId u _)
          (request_IsAddressed t "leave" _)

    -- A node that receives the announcement of a subscription holds afterwards what it held before
    -- and the triple of the announcing node, the client and the channel; after the announcement of its
    -- end, what it held before without that triple. It passes neither on.
    pub kernel-make_subscribe_request_object :
        (channel : String)
        → ((kernel (make_subscribe_request_object t u channel) on_session entity w).0 ≡ ok tt)
          × ((kernel (make_subscribe_request_object t u channel) on_session entity w).1.world.posted
              ≡ w.posted)
          × ((s c : ℕ) (ch : String)
              → holds s c ch
                  (kernel (make_subscribe_request_object t u channel) on_session entity w).1.world
                ≡ (entity == s && u == c && str_eq channel ch || holds s c ch w))
          × ((kernel (make_unsubscribe_request_object t u channel) on_session entity w).0 ≡ ok tt)
          × ((kernel
                (make_unsubscribe_request_object t u channel)
                on_session
                entity
                w).1.world.posted
              ≡ w.posted)
          × ((s c : ℕ) (ch : String)
              → holds s c ch
                  (kernel (make_unsubscribe_request_object t u channel) on_session entity w).1.world
                ≡ (holds s c ch w && not (entity == s && u == c && str_eq channel ch)))
    unfolding make_subscribe_request_object make_unsubscribe_request_object
    kernel-make_subscribe_request_object channel =
        let a =
          (kernel_channels_on_session _ _ channel entity t w (at?-make "params" _)
              (at?-make "channel" _) u (id_param-HasId u _)).0
            (request_IsAddressed t "subscribe" _) in
        let b =
          (kernel_channels_on_session _ _ channel entity t w (at?-make "params" _)
              (at?-make "channel" _) u (id_param-HasId u _)).1
            (request_IsAddressed t "unsubscribe" _) in
        (a.0, a.1, a.2, b.0, b.1, b.2)

    -- A node that receives a broadcast hands the message, rebuilt with the same transaction, client
    -- and payload, to its own clients with an open socket other than the one that it names, and
    -- posts nothing else: it passes the broadcast on to no session.
    pub kernel-make_broadcast_request_object :
        (payload : Object)
        → ((kernel (make_broadcast_request_object t u payload) on_session entity w).0 ≡ ok tt)
          × ((kernel (make_broadcast_request_object t u payload) on_session entity w).1.world.posted
              ≡ w.posted ++ to_clients (make_broadcast_request_object t u payload) u w)
    unfolding make_broadcast_request_object get_clients effects
    kernel-make_broadcast_request_object payload =
        let o = make_broadcast_request_object t u payload in
        let r = request_of o on_session entity t w in
        rw
          (
            kernel-dispatch o "broadcast" on_session entity t w
                (request_IsAddressed t "broadcast" _),
            Actions.dispatch-name Actions.broadcast r,
            broadcast_on_session r _ payload (frame_of w) (at?-make "params" _)
                (at?-make "payload" _) u (id_param-HasId u _) refl,
          )
          (refl, refl)

    -- A node that receives a publication hands the message, rebuilt with the same transaction,
    -- client, channel and payload, to its own clients with an open socket other than the one that
    -- it names, whatever they subscribed to, and posts nothing else.
    pub kernel-make_publish_request_object :
        (channel : String) (payload : Object)
        → ((kernel (make_publish_request_object t u channel payload) on_session entity w).0 ≡ ok tt)
          × ((kernel
                (make_publish_request_object t u channel payload)
                on_session
                entity
                w).1.world.posted
              ≡ w.posted ++ to_clients (make_publish_request_object t u channel payload) u w)
    unfolding make_publish_request_object get_clients effects
    kernel-make_publish_request_object channel payload =
        let o = make_publish_request_object t u channel payload in
        let r = request_of o on_session entity t w in
        rw
          (
            kernel-dispatch o "publish" on_session entity t w (request_IsAddressed t "publish" _),
            Actions.dispatch-name Actions.publish r,
            publish_on_session r _ payload channel (frame_of w) (at?-make "params" _)
                (at?-make "channel" _) (at?-make "payload" _) u (id_param-HasId u _) refl,
          )
          (refl, refl)

-- ===== src/Tests/Kernel.antt =====
-- The kernel on the node of `Tests`.
use state.Common.{
  pos, ℕ, ◌≡◌, ◌≢◌, refl, true, not, ◌&&◌, ◌||◌, ◌++◌, map, some, none, is_some, ◌==◌, str_eq,
  String, [], ◌∷◌, if◌then◌else◌,
}
use state.Json.{Value}
use state.World.{session_on_send}
use state.Request.{on_client, on_session}
use state.Effects.{ok, throw, out_of_range, bad_lexical_cast}
use state.Messages.{
  make_broadcast_request_object, make_publish_request_object, make_join_request_object,
  make_leave_request_object, make_subscribe_request_object, make_unsubscribe_request_object,
}
use state.Validator.{validator, is_uuid}
use state.Store.{get_client, get_sessions}
use state.Store.Channels.{holds}
use state.Fanout.Delivery.{open_sessions}
use state.Handlers.Delivery.Broadcast.{to_clients}
use state.Kernel.{kernel}
use state.Kernel.Messages.{IsAddressed}
use state.Kernel.Membership.{joined}
use state.Kernel.Channels.{kernel_channels_on_client}
use state.Kernel.Peers.{
  kernel-make_join_request_object, kernel-make_leave_request_object,
  kernel-make_subscribe_request_object, kernel-make_broadcast_request_object,
  kernel-make_publish_request_object,
}
use state.Kernel.Errors.{kernel_missing_params, kernel_bad_lexical_cast}
use state.Kernel.ClientStep.{ClientStep}
use state.Kernel.Client.{kernel-ClientStep}
use state.Kernel.Actions
use state.Kernel.SessionStep.{SessionStep}
use state.Kernel.Session.{kernel-SessionStep}
use state.Sample.{sample, spell}
use state.Sample.Documents.{Document, print, make}
use state.Tests.{node, payload, params, message}

-- A request without parameters, one whose transaction id is in braces, and one whose transaction id is no uuid.
abbrev bare : String → Document
bare action =
    make (("transaction_id", Value.string (spell 3)) ∷ ("action", Value.string action) ∷ [])

bare-IsAddressed : (action : String) → IsAddressed (bare action) action 3
bare-IsAddressed action = record { acts = refl; transaction = refl }

abbrev braced : Document
braced = make (("transaction_id", Value.string "{uuu}") ∷ ("action", Value.string "ping") ∷ [])

braced-is_uuid : is_uuid "{uuu}" ≡ true
unfolding is_uuid
braced-is_uuid = refl

abbrev misnamed : Document
misnamed = make (("transaction_id", Value.string "7") ∷ ("action", Value.string "ping") ∷ [])

kernel-ClientStep_example :
    ClientStep 10 node (kernel (message "subscribe") on_client 10 node).1.world
kernel-ClientStep_example = kernel-ClientStep (message "subscribe") 10 node

kernel_channels_on_client_example :
    (IsAddressed (message "subscribe") "subscribe" 3
      → ((kernel (message "subscribe") on_client 10 node).0 ≡ ok tt)
        × ((kernel (message "subscribe") on_client 10 node).1.world.posted
            ≡ node.posted
              ++ map
                  (λ h. session_on_send h (print (make_subscribe_request_object 3 10 "news")))
                  (open_sessions node (get_sessions node)))
        × ((s c : ℕ) (ch : String)
            → holds s c ch (kernel (message "subscribe") on_client 10 node).1.world
              ≡ (node.id == s && 10 == c && str_eq "news" ch || holds s c ch node)))
    × (IsAddressed (message "subscribe") "unsubscribe" 3
        → ((kernel (message "subscribe") on_client 10 node).0 ≡ ok tt)
          × ((kernel (message "subscribe") on_client 10 node).1.world.posted
              ≡ node.posted
                ++ map
                    (λ h. session_on_send h (print (make_unsubscribe_request_object 3 10 "news")))
                    (open_sessions node (get_sessions node)))
          × ((s c : ℕ) (ch : String)
              → holds s c ch (kernel (message "subscribe") on_client 10 node).1.world
                ≡ (holds s c ch node && not (node.id == s && 10 == c && str_eq "news" ch))))
kernel_channels_on_client_example =
    kernel_channels_on_client (message "subscribe") params "news" 10 3 node refl refl

kernel-make_join_request_object_example :
    ((kernel (make_join_request_object 3 20) on_session 5 node).0 ≡ ok tt)
    × ((id : ℕ)
        → get_client id (kernel (make_join_request_object 3 20) on_session 5 node).1.world ≡ (
            if not (is_some (get_client 20 node)) && 20 == id
            then some (joined 5 20 node)
            else get_client id node))
kernel-make_join_request_object_example = kernel-make_join_request_object 5 3 20 node

kernel-make_leave_request_object_example :
    ((kernel (make_leave_request_object 3 20) on_session 5 node).0 ≡ ok tt)
    × (get_client 20 (kernel (make_leave_request_object 3 20) on_session 5 node).1.world ≡ none)
    × ((other : ℕ)
        → other ≢ 20
        → get_client other (kernel (make_leave_request_object 3 20) on_session 5 node).1.world
          ≡ get_client other node)
kernel-make_leave_request_object_example = kernel-make_leave_request_object 5 3 20 node

kernel-make_subscribe_request_object_example :
    ((kernel (make_subscribe_request_object 3 20 "news") on_session 5 node).0 ≡ ok tt)
    × ((kernel (make_subscribe_request_object 3 20 "news") on_session 5 node).1.world.posted
        ≡ node.posted)
    × ((s c : ℕ) (ch : String)
        → holds s c ch
            (kernel (make_subscribe_request_object 3 20 "news") on_session 5 node).1.world
          ≡ (5 == s && 20 == c && str_eq "news" ch || holds s c ch node))
    × ((kernel (make_unsubscribe_request_object 3 20 "news") on_session 5 node).0 ≡ ok tt)
    × ((kernel (make_unsubscribe_request_object 3 20 "news") on_session 5 node).1.world.posted
        ≡ node.posted)
    × ((s c : ℕ) (ch : String)
        → holds s c ch
            (kernel (make_unsubscribe_request_object 3 20 "news") on_session 5 node).1.world
          ≡ (holds s c ch node && not (5 == s && 20 == c && str_eq "news" ch)))
kernel-make_subscribe_request_object_example =
    kernel-make_subscribe_request_object 5 3 20 node "news"

kernel-make_broadcast_request_object_example :
    ((kernel (make_broadcast_request_object 3 20 payload) on_session 5 node).0 ≡ ok tt)
    × ((kernel (make_broadcast_request_object 3 20 payload) on_session 5 node).1.world.posted
        ≡ node.posted ++ to_clients (make_broadcast_request_object 3 20 payload) 20 node)
kernel-make_broadcast_request_object_example =
    kernel-make_broadcast_request_object 5 3 20 node payload

kernel-make_publish_request_object_example :
    ((kernel (make_publish_request_object 3 20 "news" payload) on_session 5 node).0 ≡ ok tt)
    × ((kernel (make_publish_request_object 3 20 "news" payload) on_session 5 node).1.world.posted
        ≡ node.posted ++ to_clients (make_publish_request_object 3 20 "news" payload) 20 node)
kernel-make_publish_request_object_example =
    kernel-make_publish_request_object 5 3 20 node "news" payload

kernel_missing_params_example : (kernel (bare "send") on_client 5 node).0 ≡ throw out_of_range
kernel_missing_params_example =
    kernel_missing_params Actions.send (bare "send") on_client 5 3 node (bare-IsAddressed "send")
      refl refl

kernel_bad_lexical_cast_example :
    (validator braced ≡ none) × ((kernel braced on_client 5 node).0 ≡ throw bad_lexical_cast)
kernel_bad_lexical_cast_example =
    kernel_bad_lexical_cast "ping" "{uuu}" braced on_client 5 node refl refl braced-is_uuid refl

-- A message that makes the node connect to another one.
abbrev introduction : Document
introduction = make (
    ("transaction_id", Value.string (spell 3))
    ∷ ("action", Value.string "session")
    ∷ (
      "params",
      Value.object (
          make (
            ("host", Value.string "other")
            ∷ ("sessions_port", Value.int64 (pos 9002))
            ∷ ("clients_port", Value.int64 (pos 10002))
            ∷ [])),
    )
    ∷ [])

kernel-SessionStep_example : SessionStep 5 node (kernel introduction on_session 5 node).1.world
kernel-SessionStep_example = kernel-SessionStep introduction 5 node

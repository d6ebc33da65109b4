-- ===== src/Replication/Spelled.antt =====
-- The messages of src/objects/utils.cpp and of `sync` in src/objects/state.cpp spell announcements.
use state.Common.{ℕ, String}
use state.Platform.{Platform}
use state.Messages.{
  make_join_request_object, make_leave_request_object, make_subscribe_request_object,
  make_unsubscribe_request_object, sync_join_object, sync_subscribe_object,
}
use state.Kernel.Peers.{request_IsAddressed, id_param-HasId}
use state.Replication.{Announcement, joins, leaves, subscribes, unsubscribes, Announces}

module _ ⦃p : Platform⦄ where
  open p use {
    json.{Object, serialize, at?-make},
    clients as clients_table,
    subscriptions as subscriptions_table,
  }

  make_join-Announces : (t u : ℕ) → Announces (make_join_request_object t u) (joins u)
  unfolding make_join_request_object
  make_join-Announces t u = record {
    transaction = t;
    parameters = _;
    addressed = request_IsAddressed t "join" _;
    params = at?-make "params" _;
    client = id_param-HasId u _;
    channel = tt;
  }

  make_leave-Announces : (t u : ℕ) → Announces (make_leave_request_object t u) (leaves u)
  unfolding make_leave_request_object
  make_leave-Announces t u = record {
    transaction = t;
    parameters = _;
    addressed = request_IsAddressed t "leave" _;
    params = at?-make "params" _;
    client = id_param-HasId u _;
    channel = tt;
  }

  make_subscribe-Announces :
      (t u : ℕ) (channel : String)
      → Announces (make_subscribe_request_object t u channel) (subscribes u channel)
  unfolding make_subscribe_request_object
  make_subscribe-Announces t u channel = record {
    transaction = t;
    parameters = _;
    addressed = request_IsAddressed t "subscribe" _;
    params = at?-make "params" _;
    client = id_param-HasId u _;
    channel = at?-make "channel" _;
  }

  make_unsubscribe-Announces :
      (t u : ℕ) (channel : String)
      → Announces (make_unsubscribe_request_object t u channel) (unsubscribes u channel)
  unfolding make_unsubscribe_request_object
  make_unsubscribe-Announces t u channel = record {
    transaction = t;
    parameters = _;
    addressed = request_IsAddressed t "unsubscribe" _;
    params = at?-make "params" _;
    client = id_param-HasId u _;
    channel = at?-make "channel" _;
  }

  pub sync_join-Announces : (t u : ℕ) → Announces (sync_join_object t u) (joins u)
  unfolding sync_join_object
  sync_join-Announces t u = record {
    transaction = t;
    parameters = _;
    addressed = record { acts = at?-make "action" _; transaction = at?-make "transaction_id" _ };
    params = at?-make "params" _;
    client = id_param-HasId u _;
    channel = tt;
  }

  pub sync_subscribe-Announces :
      (t u : ℕ) (channel : String)
      → Announces (sync_subscribe_object t u channel) (subscribes u channel)
  unfolding sync_subscribe_object
  sync_subscribe-Announces t u channel = record {
    transaction = t;
    parameters = _;
    addressed = record { acts = at?-make "action" _; transaction = at?-make "transaction_id" _ };
    params = at?-make "params" _;
    client = id_param-HasId u _;
    channel = at?-make "channel" _;
  }

  -- The message that announces.
  abbrev pub request : ℕ → Announcement → Object
  request t (joins u) = make_join_request_object t u
  request t (leaves u) = make_leave_request_object t u
  request t (subscribes u channel) = make_subscribe_request_object t u channel
  request t (unsubscribes u channel) = make_unsubscribe_request_object t u channel

  pub request-Announces : (t : ℕ) (a : Announcement) → Announces (request t a) a
  request-Announces t (joins u) = make_join-Announces t u
  request-Announces t (leaves u) = make_leave-Announces t u
  request-Announces t (subscribes u channel) = make_subscribe-Announces t u channel
  request-Announces t (unsubscribes u channel) = make_unsubscribe-Announces t u channel

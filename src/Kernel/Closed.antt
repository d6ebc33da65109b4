-- ===== src/Kernel/Closed.antt =====
-- What a relation between worlds must satisfy to hold between the worlds before and after a message:
-- one property for each call that the handlers make on the state.
use state.Common.{ℕ, Bool, String}
use state.Clients.{Client}
use state.Platform.{Platform}
use state.World.{World}
use state.Effects.{read_clock}
use state.Effects.Keeps.{IsPreorder}
use state.Store.{subscribe, unsubscribe, add_client, remove_client}
use state.Fanout.{send_to_sessions, send_to_others_clients, send_to_subscribed_sessions}
use state.Handlers.Delivery.{send_direct, send_remote}
use state.Handlers.Membership.{
  make_client, make_session, register_session, sync_session_at, retry, start_remote,
}

module _ ⦃p : Platform⦄ where
  open p use {json.{Object}}

  pub record Closed : Type 1 where
    pub R : World → World → Type 0
    pub steps : IsPreorder R
    pub clock_step : (w : World) → R w (read_clock w).0
    pub subscribe_step : (s c : ℕ) (ch : String) (w : World) → R w (subscribe s c ch w).0
    pub unsubscribe_step : (s c : ℕ) (ch : String) (w : World) → R w (unsubscribe s c ch w).0
    pub add_client_step : (c : Client) (w : World) → R w (add_client c w).0
    pub remove_client_step : (id : ℕ) (w : World) → R w (remove_client id w).0
    pub make_client_step : (s id : ℕ) (w : World) → R w (make_client s id w).0
    pub to_sessions_step : (o : Object) (w : World) → R w (send_to_sessions o w).0
    pub to_clients_step :
        (o : Object) (s c : ℕ) (w : World) → R w (send_to_others_clients o s c w).0
    pub to_subscribed_step :
        (o : Object) (ch : String) (w : World) → R w (send_to_subscribed_sessions o ch w).0
    pub direct_step :
        (from : ℕ) (c : Client) (o : Object) (w : World) → R w (send_direct from c o w).0
    pub remote_step :
        (c : Client) (from : ℕ) (o : Object) (w : World) → R w (send_remote c from o w).0
    pub sync_step : (h : ℕ) (b : Bool) (w : World) → R w (sync_session_at h b w).0
    pub register_step : (h s c : ℕ) (w : World) → R w (register_session h s c w).0
    pub make_session_step : (w : World) → R w (make_session w).0
    -- A new session is connected, however often that is refused, and enters the map.
    pub new_session_step :
        (n s c : ℕ) (w : World) → R w (start_remote w.allocated s c (retry n (make_session w).0)).0

  -- The same as rules for a search.
  module _ (k : Closed) where
    pub steps_rule : IsPreorder k.R
    steps_rule = k.steps

    pub clock_rule : (w : World) → k.R w (read_clock w).0
    clock_rule = k.clock_step

    pub subscribe_rule : (s c : ℕ) (ch : String) (w : World) → k.R w (subscribe s c ch w).0
    subscribe_rule = k.subscribe_step

    pub unsubscribe_rule : (s c : ℕ) (ch : String) (w : World) → k.R w (unsubscribe s c ch w).0
    unsubscribe_rule = k.unsubscribe_step

    pub add_client_rule : (c : Client) (w : World) → k.R w (add_client c w).0
    add_client_rule = k.add_client_step

    pub remove_client_rule : (id : ℕ) (w : World) → k.R w (remove_client id w).0
    remove_client_rule = k.remove_client_step

    pub make_client_rule : (s id : ℕ) (w : World) → k.R w (make_client s id w).0
    make_client_rule = k.make_client_step

    pub to_sessions_rule : (o : Object) (w : World) → k.R w (send_to_sessions o w).0
    to_sessions_rule = k.to_sessions_step

    pub to_clients_rule :
        (o : Object) (s c : ℕ) (w : World) → k.R w (send_to_others_clients o s c w).0
    to_clients_rule = k.to_clients_step

    pub to_subscribed_rule :
        (o : Object) (ch : String) (w : World) → k.R w (send_to_subscribed_sessions o ch w).0
    to_subscribed_rule = k.to_subscribed_step

    pub direct_rule :
        (from : ℕ) (c : Client) (o : Object) (w : World) → k.R w (send_direct from c o w).0
    direct_rule = k.direct_step

    pub remote_rule :
        (c : Client) (from : ℕ) (o : Object) (w : World) → k.R w (send_remote c from o w).0
    remote_rule = k.remote_step

    pub sync_rule : (h : ℕ) (b : Bool) (w : World) → k.R w (sync_session_at h b w).0
    sync_rule = k.sync_step

    pub register_rule : (h s c : ℕ) (w : World) → k.R w (register_session h s c w).0
    register_rule = k.register_step

pub ruleset closed = (
  steps_rule, clock_rule, subscribe_rule, unsubscribe_rule, add_client_rule, remove_client_rule,
  make_client_rule, to_sessions_rule, to_clients_rule, to_subscribed_rule, direct_rule, remote_rule,
  sync_rule, register_rule,
)

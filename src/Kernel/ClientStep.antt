-- ===== src/Kernel/ClientStep.antt =====
-- The steps that a message of a client may cause, one lemma for each change that the handlers make.
use state.Common.{ℕ, suc, false, ◌&&◌, ◌++◌, ◌≡◌, refl, sym, ap, ◌∙◌, List, [], String, ◌==◌, arith}
use mathlib.Core.List.{append_assoc, append-nil}
use state.Clients.{Client}
use state.Platform.{Platform}
use state.World.{World, Task}
use state.Effects.{read_clock, draw}
use state.Effects.Keeps.{IsPreorder}
use state.Store.{subscribe, unsubscribe, get_subscriptions}
use state.Store.Channels.{holds, holds-subscribe, holds-unsubscribe}
use state.Fanout.{
  client_send, send_to_sessions, send_to_others_clients, send_to_subscribed_sessions,
}
use state.Fanout.Delivery.{
  posting, send_to_sessions_lem, send_to_others_clients_lem, send_to_session_lem, post_once,
}
use state.Fanout.Channels.{send_to_subscribed_sessions_lem}
use state.Handlers.Delivery.{send_direct, send_remote}

module _ ⦃p : Platform⦄ where
  open p use {json.{Object}}

  -- A step that a client with an id may cause. Tasks are only added; subscriptions change at most
  -- for that client at this state; sessions, clients, sockets and configuration stay.
  pub record ClientStep (entity : ℕ) (v w : World) : Type 0 where
    pub id : w.id ≡ v.id
    pub config : w.config ≡ v.config
    pub sessions : w.sessions ≡ v.sessions
    pub clients : w.clients ≡ v.clients
    pub session : w.session ≡ v.session
    pub client_socket : w.client_socket ≡ v.client_socket
    pub allocated : w.allocated ≡ v.allocated
    pub others :
        (s c : ℕ) (ch : String)
        → (s == v.id && c == entity) ≡ false
        → holds s c ch w ≡ holds s c ch v
    pub tasks : List Task
    pub posted : w.posted ≡ v.posted ++ tasks

  module _ (entity : ℕ) where
    -- More tasks, draws and readings are no other change.
    pub quiet :
        (ts : List Task) (d r : ℕ) (w : World)
        → ClientStep entity w (posting ts (record w { draws = d; readings = r }))
    unfolding holds get_subscriptions
    quiet ts d r w = record {
      id = refl;
      config = refl;
      sessions = refl;
      clients = refl;
      session = refl;
      client_socket = refl;
      allocated = refl;
      others = λ s c ch h. refl;
      tasks = ts;
      posted = refl;
    }

    counting : (d r : ℕ) (w : World) → ClientStep entity w (record w { draws = d; readings = r })
    unfolding holds get_subscriptions
    counting d r w = record {
      id = refl;
      config = refl;
      sessions = refl;
      clients = refl;
      session = refl;
      client_socket = refl;
      allocated = refl;
      others = λ s c ch h. refl;
      tasks = [];
      posted = sym (append-nil w.posted);
    }

    nothing : (w : World) → ClientStep entity w w
    nothing w = counting w.draws w.readings w

    further :
        (u v w : World) → ClientStep entity u v → ClientStep entity v w → ClientStep entity u w
    further u v w a b = record {
      id = b.id ∙ a.id;
      config = b.config ∙ a.config;
      sessions = b.sessions ∙ a.sessions;
      clients = b.clients ∙ a.clients;
      session = b.session ∙ a.session;
      client_socket = b.client_socket ∙ a.client_socket;
      allocated = b.allocated ∙ a.allocated;
      others = λ s c ch h. b.others s c ch (rw a.id h) ∙ a.others s c ch h;
      tasks = a.tasks ++ b.tasks;
      posted = b.posted ∙ ap (λ ts. ts ++ b.tasks) a.posted ∙ append_assoc u.posted a.tasks b.tasks;
    }

    pub steps : IsPreorder (ClientStep entity)
    steps = record { rfl = nothing; trans = further }

    pub clock_step : (w : World) → ClientStep entity w (read_clock w).0
    unfolding read_clock
    clock_step w = counting w.draws (suc w.readings) w

    pub to_sessions_step : (o : Object) (w : World) → ClientStep entity w (send_to_sessions o w).0
    to_sessions_step o w = rw (send_to_sessions_lem o w) (quiet _ w.draws w.readings w)

    pub to_clients_step :
        (o : Object) (s c : ℕ) (w : World) → ClientStep entity w (send_to_others_clients o s c w).0
    to_clients_step o s c w = rw (send_to_others_clients_lem o s c w) (quiet _ w.draws w.readings w)

    pub to_subscribed_step :
        (o : Object) (ch : String) (w : World)
        → ClientStep entity w (send_to_subscribed_sessions o ch w).0
    to_subscribed_step o ch w =
        rw ((send_to_subscribed_sessions_lem o ch w).0) (quiet _ w.draws w.readings w)

    -- A change of the subscriptions alone.
    subscriptions_step :
        (w v : World)
        → v ≡ record w { subscriptions = v.subscriptions }
        → ((s c : ℕ) (ch : String)
            → (s == w.id && c == entity) ≡ false
            → holds s c ch v ≡ holds s c ch w)
        → ClientStep entity w v
    subscriptions_step w v e h = record {
      id = ap (λ u. u.id) e;
      config = ap (λ u. u.config) e;
      sessions = ap (λ u. u.sessions) e;
      clients = ap (λ u. u.clients) e;
      session = ap (λ u. u.session) e;
      client_socket = ap (λ u. u.client_socket) e;
      allocated = ap (λ u. u.allocated) e;
      others = h;
      tasks = [];
      posted = ap (λ u. u.posted) e ∙ sym (append-nil w.posted);
    }

    subscribe_only :
        (s : ℕ) (ch : String) (w : World)
        → (subscribe s entity ch w).0
          ≡ record w { subscriptions = (subscribe s entity ch w).0.subscriptions }
    unfolding subscribe
    subscribe_only s ch w = refl

    unsubscribe_only :
        (s : ℕ) (ch : String) (w : World)
        → (unsubscribe s entity ch w).0
          ≡ record w { subscriptions = (unsubscribe s entity ch w).0.subscriptions }
    unfolding unsubscribe
    unsubscribe_only s ch w = ground arith

    pub subscribe_step :
        (ch : String) (w : World) → ClientStep entity w (subscribe w.id entity ch w).0
    subscribe_step ch w =
        subscriptions_step w (subscribe w.id entity ch w).0 (subscribe_only w.id ch w)
          λ s c ch' h. ground (arith, (holds-subscribe w.id entity ch w).1 s c ch')

    pub unsubscribe_step :
        (ch : String) (w : World) → ClientStep entity w (unsubscribe w.id entity ch w).0
    unsubscribe_step ch w =
        subscriptions_step w (unsubscribe w.id entity ch w).0 (unsubscribe_only w.id ch w)
          λ s c ch' h. ground (arith, (holds-unsubscribe w.id entity ch w).1 s c ch')

    pub direct_step :
        (c : Client) (o : Object) (w : World) → ClientStep entity w (send_direct entity c o w).0
    unfolding send_direct draw client_send
    direct_step c o w =
        rw
          (post_once ((w.client_socket c.handle).has_socket && (w.client_socket c.handle).is_open) _
            _)
          (quiet _ (suc w.draws) w.readings w)

    pub remote_step :
        (c : Client) (o : Object) (w : World) → ClientStep entity w (send_remote c entity o w).0
    unfolding send_remote
    remote_step c o w =
        rw (send_to_session_lem c.session_id entity c.id o w) (quiet _ (suc w.draws) w.readings w)

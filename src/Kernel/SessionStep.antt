-- ===== src/Kernel/SessionStep.antt =====
-- What a message of another node can change in a state, whatever its contents.
use state.Common.{
  ℕ, suc, zero, Bool, false, ◌&&◌, ◌+◌, ◌≡◌, refl, sym, ap, ◌∙◌, List, [], ◌++◌, String, ◌==◌,
  arith,
}
use mathlib.Core.List.{append_assoc, append-nil}
use state.Clients.{Client}
use state.Platform.{Platform}
use state.World.{World, Task}
use state.Effects.{draw, read_clock}
use state.Effects.Keeps.{IsPreorder}
use state.Store.{get_subscriptions, subscribe, unsubscribe, add_client, remove_client, add_session}
use state.Store.Channels.{holds, holds-subscribe, holds-unsubscribe}
use state.Fanout.{client_send, post, send_to_others_clients}
use state.Fanout.Delivery.{send_to_others_clients_lem, post_once}
use state.Sync.Messages.{sync_lem}
use state.Handlers.Delivery.{send_direct}
use state.Handlers.Membership.{
  make_client, make_session, register_session, sync_session_at, retry, start_remote,
}

module _ ⦃p : Platform⦄ where
  open p use {json.{Object}}

  -- A step that another node with an id may cause. Tasks are only added; subscriptions change at most
  -- under the id of that node; the id and the configuration of this state stay.
  pub record SessionStep (entity : ℕ) (v w : World) : Type 0 where
    pub id : w.id ≡ v.id
    pub config : w.config ≡ v.config
    pub others : (s c : ℕ) (ch : String) → (s == entity) ≡ false → holds s c ch w ≡ holds s c ch v
    pub tasks : List Task
    pub posted : w.posted ≡ v.posted ++ tasks

  module _ (entity : ℕ) where
    -- Where the id, the configuration and the subscriptions stay.
    still :
        (v w : World) (ts : List Task)
        → w.id ≡ v.id
        → w.config ≡ v.config
        → w.subscriptions ≡ v.subscriptions
        → w.posted ≡ v.posted ++ ts
        → SessionStep entity v w
    unfolding holds get_subscriptions
    still v w ts i c s t = record {
      id = i;
      config = c;
      others = λ a b ch h. rw s refl;
      tasks = ts;
      posted = t;
    }

    pub steps : IsPreorder (SessionStep entity)
    steps = record {
      rfl = λ w. still w w [] refl refl refl (sym (append-nil w.posted));
      trans = λ u v w a b. record {
        id = b.id ∙ a.id;
        config = b.config ∙ a.config;
        others = λ s c ch h. b.others s c ch h ∙ a.others s c ch h;
        tasks = a.tasks ++ b.tasks;
        posted =
            b.posted ∙ ap (λ ts. ts ++ b.tasks) a.posted ∙ append_assoc u.posted a.tasks b.tasks;
      };
    }

    pub clock_step : (w : World) → SessionStep entity w (read_clock w).0
    unfolding read_clock
    clock_step w = still w _ [] refl refl refl (sym (append-nil w.posted))

    pub subscribe_step :
        (c : ℕ) (ch : String) (w : World) → SessionStep entity w (subscribe entity c ch w).0
    unfolding subscribe
    subscribe_step c ch w = record {
      id = refl;
      config = refl;
      others = λ s b ch' h. ground (arith, (holds-subscribe entity c ch w).1 s b ch');
      tasks = [];
      posted = sym (append-nil w.posted);
    }

    unsubscribe_id : (c : ℕ) (ch : String) (w : World) → (unsubscribe entity c ch w).0.id ≡ w.id
    unfolding unsubscribe
    unsubscribe_id c ch w = ground arith

    unsubscribe_config :
        (c : ℕ) (ch : String) (w : World) → (unsubscribe entity c ch w).0.config ≡ w.config
    unfolding unsubscribe
    unsubscribe_config c ch w = ground arith

    unsubscribe_posted :
        (c : ℕ) (ch : String) (w : World) → (unsubscribe entity c ch w).0.posted ≡ w.posted
    unfolding unsubscribe
    unsubscribe_posted c ch w = ground arith

    pub unsubscribe_step :
        (c : ℕ) (ch : String) (w : World) → SessionStep entity w (unsubscribe entity c ch w).0
    unsubscribe_step c ch w = record {
      id = unsubscribe_id c ch w;
      config = unsubscribe_config c ch w;
      others = λ s b ch' h. ground (arith, (holds-unsubscribe entity c ch w).1 s b ch');
      tasks = [];
      posted = unsubscribe_posted c ch w ∙ sym (append-nil w.posted);
    }

    pub add_client_step : (c : Client) (w : World) → SessionStep entity w (add_client c w).0
    unfolding add_client
    add_client_step c w = still w _ [] refl refl refl (sym (append-nil w.posted))

    pub remove_client_step : (id : ℕ) (w : World) → SessionStep entity w (remove_client id w).0
    unfolding remove_client
    remove_client_step id w = still w _ [] refl refl refl (sym (append-nil w.posted))

    pub make_client_step : (s id : ℕ) (w : World) → SessionStep entity w (make_client s id w).0
    unfolding make_client
    make_client_step s id w = still w _ [] refl refl refl (sym (append-nil w.posted))

    pub to_clients_step :
        (o : Object) (s c : ℕ) (w : World) → SessionStep entity w (send_to_others_clients o s c w).0
    to_clients_step o s c w =
        rw (send_to_others_clients_lem o s c w) (still w _ _ refl refl refl refl)

    pub direct_step :
        (from : ℕ) (c : Client) (o : Object) (w : World)
        → SessionStep entity w (send_direct from c o w).0
    unfolding send_direct draw client_send
    direct_step from c o w =
        rw
          (post_once ((w.client_socket c.handle).has_socket && (w.client_socket c.handle).is_open) _
            _)
          (still w _ _ refl refl refl refl)

    pub sync_step : (h : ℕ) (b : Bool) (w : World) → SessionStep entity w (sync_session_at h b w).0
    unfolding sync_session_at
    sync_step h b w = rw (sync_lem h b w) (still w _ _ refl refl refl refl)

    pub register_step : (h s c : ℕ) (w : World) → SessionStep entity w (register_session h s c w).0
    unfolding register_session
    register_step h s c w = still w _ [] refl refl refl (sym (append-nil w.posted))

    pub make_session_step : (w : World) → SessionStep entity w (make_session w).0
    unfolding make_session draw
    make_session_step w = still w _ [] refl refl refl (sym (append-nil w.posted))

    pub retry_step : (n : ℕ) (w : World) → SessionStep entity w (retry n w)
    unfolding retry
    retry_step zero w = steps.rfl w
    retry_step (suc n) w =
        steps.trans w later (retry n later)
          (still w later [] refl refl refl (sym (append-nil w.posted))) (retry_step n later)
      where
        later : World
        later = record w { slept = w.slept + 3 }

    pub start_remote_step : (h s c : ℕ) (w : World) → SessionStep entity w (start_remote h s c w).0
    unfolding start_remote post add_session
    start_remote_step h s c w = still w _ _ refl refl refl refl

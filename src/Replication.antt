-- ===== src/Replication.antt =====
-- What a node knows of the clients and subscriptions of the others, as a specification of
-- src/objects/state.cpp, utils.cpp and the handlers of join, leave, subscribe and unsubscribe.
pub mod Spelled
pub mod Heard
pub mod Sync
use state.Common.{
  ℕ, true, false, Bool-cases, inl, inr, ==_iff, ==_self, not, Bool, ◌&&◌, ◌||◌, ◌≡◌, refl, ap, ◌∙◌,
  sym, String, str_eq, Option, none, some, is_some, ◌==◌, if◌then◌else◌,
}
use state.Json.{Value}
use state.Clients.{Client}
use state.Platform.{Platform}
use state.World.{World}
use state.Request.{on_session}
use state.Effects.{ok}
use state.Validators.Laws.{HasId}
use state.Store.{get_client, get_subscriptions, add_client, remove_client, subscribe, unsubscribe}
use state.Store.Channels.{holds, holds-subscribe, holds-unsubscribe}
use state.Store.Clients.{get_client-add_client, get_client-remove_client}
use state.Handlers.Membership.{make_client}
use state.Kernel.{kernel}
use state.Kernel.Messages.{IsAddressed}
use state.Kernel.Membership.{joined, join_run, leave_run, kernel_join, kernel_leave}
use state.Kernel.Channels.{subscribe_on_session, unsubscribe_on_session, kernel_channels_on_session}

-- What one node tells another about its clients.
pub data Announcement : Type 0 where
  joins leaves : ℕ → Announcement
  subscribes unsubscribes : ℕ → String → Announcement

-- Under each id of a client the session that it is reached through, and the triples of a session, a
-- client and a channel.
pub record Directory : Type 0 where
  pub known : ℕ → Option ℕ
  pub held : ℕ → ℕ → String → Bool

-- What an announcement of the node behind a session means.
abbrev pub carry_out : ℕ → Announcement → Directory → Directory
carry_out entity (joins u) d = record d {
  known = λ id. if not (is_some (d.known u)) && u == id then some entity else d.known id;
}
carry_out entity (leaves u) d = record d { known = λ id. if u == id then none else d.known id }
carry_out entity (subscribes u channel) d = record d {
  held = λ s c ch. entity == s && u == c && str_eq channel ch || d.held s c ch;
}
carry_out entity (unsubscribes u channel) d = record d {
  held = λ s c ch. d.held s c ch && not (entity == s && u == c && str_eq channel ch);
}

abbrev pub action_of : Announcement → String
action_of (joins u) = "join"
action_of (leaves u) = "leave"
action_of (subscribes u channel) = "subscribe"
action_of (unsubscribes u channel) = "unsubscribe"

abbrev pub client_of : Announcement → ℕ
client_of (joins u) = u
client_of (leaves u) = u
client_of (subscribes u channel) = u
client_of (unsubscribes u channel) = u

abbrev pub session_of : Option Client → Option ℕ
session_of none = none
session_of (some c) = some c.session_id

joined_session :
    (x y : Option Client) (b : Bool) (c : Client) (k l : Option ℕ)
    → k ≡ session_of x
    → l ≡ session_of y
    → (if not (is_some k) && b then some c.session_id else l)
      ≡ session_of (if not (is_some x) && b then some c else y)
joined_session none y true c k l e f = rw e refl
joined_session none y false c k l e f = rw (e, f) refl
joined_session (some x) y b c k l e f = rw (e, f) refl

module _ ⦃p : Platform⦄ where
  open p use {json.{Object, at?}}

  abbrev pub NamesChannel : Announcement → Object → Type 0
  NamesChannel (joins u) ps = Unit {0}
  NamesChannel (leaves u) ps = Unit {0}
  NamesChannel (subscribes u channel) ps = at? "channel" ps ≡ some (Value.string channel)
  NamesChannel (unsubscribes u channel) ps = at? "channel" ps ≡ some (Value.string channel)

  -- A message that spells an announcement.
  pub record Announces (o : Object) (a : Announcement) : Type 0 where
    pub transaction : ℕ
    pub parameters : Object
    pub addressed : IsAddressed o (action_of a) transaction
    pub params : at? "params" o ≡ some (Value.object parameters)
    pub client : HasId parameters "client_id" (client_of a)
    pub channel : NamesChannel a parameters

  -- A state stores what a directory says.
  pub record Refines (d : Directory) (w : World) : Type 0 where
    pub known : (id : ℕ) → d.known id ≡ session_of (get_client id w)
    pub held : (s c : ℕ) (ch : String) → d.held s c ch ≡ holds s c ch w

  module _ (entity : ℕ) (o : Object) (d : Directory) (w : World) (r : Refines d w) where
    abbrev after : World
    after = (kernel o on_session entity w).1.world

    joins-Refines :
        (u : ℕ)
        → Announces o (joins u)
        → ((kernel o on_session entity w).0 ≡ ok tt) × Refines (carry_out entity (joins u) d) after
    unfolding holds get_subscriptions add_client make_client
    joins-Refines u a =
        let k = kernel_join o a.parameters entity a.transaction u w a.params a.client a.addressed in
        let run = join_run o a.parameters entity a.transaction u w a.params a.client a.addressed in
        (
          k.0,
          record {
            known = λ id.
                joined_session (get_client u w) (get_client id w) (u == id) (joined entity u w)
                  (d.known u) (d.known id) (r.known u) (r.known id)
                ∙ ap session_of (sym (k.1 id));
            held = λ s c ch. r.held s c ch ∙ sym (ap (λ x. holds s c ch x.1.world) run);
          },
        )

    leaves-Refines :
        (u : ℕ)
        → Announces o (leaves u)
        → ((kernel o on_session entity w).0 ≡ ok tt) × Refines (carry_out entity (leaves u) d) after
    unfolding holds get_subscriptions remove_client
    leaves-Refines u a =
        let k =
          kernel_leave o a.parameters entity a.transaction u w a.params a.client a.addressed in
        let run = leave_run o a.parameters entity a.transaction u w a.params a.client a.addressed in
        (
          k.0,
          record {
            known = λ id. elim (Bool-cases (u == id)) [
              | inl same ↦ rw (same, ← (==_iff u id).0 same, k.1) refl
              | inr other ↦ rw (other, k.2 id (λ e. cc (e, other, ==_self id))) (r.known id)
            ];
            held = λ s c ch. r.held s c ch ∙ sym (ap (λ x. holds s c ch x.1.world) run);
          },
        )

    subscribes-Refines :
        (u : ℕ) (channel : String)
        → Announces o (subscribes u channel)
        → ((kernel o on_session entity w).0 ≡ ok tt)
          × Refines (carry_out entity (subscribes u channel) d) after
    unfolding get_client
    subscribes-Refines u channel a =
        let k =
          (kernel_channels_on_session o a.parameters channel entity a.transaction w a.params
              a.channel u a.client).0
            a.addressed in
        let run =
          subscribe_on_session o a.parameters channel entity a.transaction w a.params a.channel u
            a.client a.addressed in
        (
          k.0,
          record {
            known = λ id. r.known id ∙ sym (ap (λ x. session_of (get_client id x.1.world)) run);
            held = λ s c ch. rw (k.2 s c ch, r.held s c ch) refl;
          },
        )

    unsubscribes-Refines :
        (u : ℕ) (channel : String)
        → Announces o (unsubscribes u channel)
        → ((kernel o on_session entity w).0 ≡ ok tt)
          × Refines (carry_out entity (unsubscribes u channel) d) after
    unfolding get_client
    unsubscribes-Refines u channel a =
        let k =
          (kernel_channels_on_session o a.parameters channel entity a.transaction w a.params
              a.channel u a.client).1
            a.addressed in
        let run =
          unsubscribe_on_session o a.parameters channel entity a.transaction w a.params a.channel u
            a.client a.addressed in
        (
          k.0,
          record {
            known = λ id. r.known id ∙ sym (ap (λ x. session_of (get_client id x.1.world)) run);
            held = λ s c ch. rw (k.2 s c ch, r.held s c ch) refl;
          },
        )

    -- The kernel that takes the announcement of another node answers it, and the state then stores
    -- what the announcement means for the clients and subscriptions that it stored before.
    pub kernel-Refines :
        (a : Announcement)
        → Announces o a
        → ((kernel o on_session entity w).0 ≡ ok tt)
          × Refines (carry_out entity a d) (kernel o on_session entity w).1.world
    kernel-Refines (joins u) a = joins-Refines u a
    kernel-Refines (leaves u) a = leaves-Refines u a
    kernel-Refines (subscribes u channel) a = subscribes-Refines u channel a
    kernel-Refines (unsubscribes u channel) a = unsubscribes-Refines u channel a

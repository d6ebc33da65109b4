-- ===== src/Sync.antt =====
-- `state::sync` of src/objects/state.cpp: what a newly registered session is told.
pub mod Messages
use state.Common.{for_each, ℕ, Bool, ◌||◌, not, ◌==◌, if◌then◌else◌}
use state.Clients.{Client, by_session}
use state.Subscriptions.{Subscription}
use state.Subscriptions
use state.Platform.{Platform}
use state.World.{World, Session}
use state.Effects.{draw}
use state.Messages.{sync_session_object, sync_join_object, sync_subscribe_object}
use state.Store.{get_sessions}
use state.Fanout.{session_send}

module _ ⦃p : Platform⦄ where
  open p use {
    json.{Object, serialize},
    clients as clients_table,
    subscriptions as subscriptions_table,
  }

  -- A message with a fresh transaction id to the session at an address.
  pub announce : (ℕ → Object) → ℕ → World → World
  announce message target w =
      let (w', drawn) = draw w in session_send (serialize (message drawn)) target w'

  -- The sessions that are not reported: the state itself, the target, and the unregistered.
  pub is_skipped : Session → ℕ → World → Bool
  is_skipped s target w = s.id == w.id || s.id == (w.session target).id || not s.registered

  pub sync_session : ℕ → ℕ → World → World
  sync_session target h w =
      let s = w.session h in
      if is_skipped s target w
      then w
      else announce (λ drawn. sync_session_object drawn s.host s.sessions_port s.clients_port)
          target w

  pub sync_client : ℕ → Client → World → World
  sync_client target c = announce (λ drawn. sync_join_object drawn c.id) target

  pub sync_subscription : ℕ → Subscription → World → World
  sync_subscription target s =
      announce (λ drawn. sync_subscribe_object drawn s.client_id s.channel) target

  -- The three blocks of `sync`.
  pub sync_sessions : ℕ → World → World
  sync_sessions target w = for_each (sync_session target) (get_sessions w) w

  pub sync_clients : ℕ → World → World
  sync_clients target w =
      for_each (sync_client target) (clients_table.equal_range by_session w.id w.clients) w

  pub sync_subscriptions : ℕ → World → World
  sync_subscriptions target w =
      for_each (sync_subscription target)
        (subscriptions_table.equal_range Subscriptions.by_session w.id w.subscriptions) w

  pub sync : ℕ → Bool → World → World
  sync target registered w =
      sync_subscriptions target
        (sync_clients target (if registered then w else sync_sessions target w))

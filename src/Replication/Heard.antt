-- ===== src/Replication/Heard.antt =====
-- What a node knows after it heard the announcements of another (src/objects/kernel.cpp and utils.cpp).
use state.Common.{ℕ, refl, List, [], ◌∷◌, map, for_each}
use state.Platform.{Platform}
use state.World.{World}
use state.Request.{on_session}
use state.Store.{get_client}
use state.Store.Channels.{holds}
use state.Kernel.{kernel}
use state.Replication.{
  Announcement, Directory, carry_out, Announces, Refines, session_of, kernel-Refines,
}
use state.Replication.Spelled.{request, request-Announces}

module _ ⦃p : Platform⦄ where
  open p use {
    json.{Object, serialize, at?-make},
    clients as clients_table,
    subscriptions as subscriptions_table,
  }

  -- The messages of a list spell the announcements of a list.
  pub data Announce : List Object → List Announcement → Type 0 where
    silence : Announce [] []
    and_then :
        {o : Object} {a : Announcement} {os : List Object} {as_ : List Announcement}
        → Announces o a
        → Announce os as_
        → Announce (o ∷ os) (a ∷ as_)

  -- The kernel takes the messages that one session brings, one after the other.
  abbrev pub hear : ℕ → List Object → World → World
  hear entity = for_each (λ o w. (kernel o on_session entity w).1.world)

  pub hear-Refines :
      (entity : ℕ) (os : List Object) (as_ : List Announcement) (d : Directory) (w : World)
      → Announce os as_
      → Refines d w
      → Refines (for_each (carry_out entity) as_ d) (hear entity os w)
  hear-Refines entity [] [] d w silence r = r
  hear-Refines entity [] (a ∷ as_) d w h r = elim h [ ]
  hear-Refines entity (o ∷ os) [] d w h r = elim h [ ]
  hear-Refines entity (o ∷ os) (a ∷ as_) d w (and_then h hs) r =
      hear-Refines entity os as_ (carry_out entity a d) (kernel o on_session entity w).1.world hs
        (kernel-Refines entity o d w r a h).1

  -- What a state stores.
  abbrev pub directory : World → Directory
  directory w = record {
    known = λ id. session_of (get_client id w);
    held = λ s c ch. holds s c ch w;
  }

  pub directory-Refines : (w : World) → Refines (directory w) w
  directory-Refines w = record { known = λ id. refl; held = λ s c ch. refl }

  requests-Announce :
      (as_ : List (ℕ × Announcement))
      → Announce (map (λ a. request a.0 a.1) as_) (map (λ a. a.1) as_)
  requests-Announce [] = silence
  requests-Announce (a ∷ as_) = and_then (request-Announces a.0 a.1) (requests-Announce as_)

  -- A node that takes, from one session, messages that announce joins, leaves, subscriptions and ends
  -- of subscriptions, of whatever number, order and transaction ids, stores afterwards the clients,
  -- each with the session that it is reached through, and the subscriptions, that come of carrying out
  -- these announcements in turn on what it stored before.
  pub hear-requests :
      (entity : ℕ) (as_ : List (ℕ × Announcement)) (w : World)
      → Refines
          (for_each (carry_out entity) (map (λ a. a.1) as_) (directory w))
          (hear entity (map (λ a. request a.0 a.1) as_) w)
  hear-requests entity as_ w =
      hear-Refines entity _ _ (directory w) w (requests-Announce as_) (directory-Refines w)

-- ===== src/Replication/Sync.antt =====
-- What a node knows after it heard what `sync` of src/objects/state.cpp tells it.
use state.Common.{
  ℕ, suc, true, not, Bool, Bool-cases, inl, inr, ◌&&◌, ◌||◌, ◌≡◌, refl, ap, ◌∙◌, sym, List, [], ◌∷◌,
  ◌++◌, map, any, for_each, String, str_eq, Option, none, some, is_some, ◌==◌, ==_iff,
  if◌then◌else◌, arith, ◌+◌, length,
}
use mathlib.Core.Bool.{and-false}
use mathlib.Core.List.{append_assoc}
use state.Clients.{Client, by_session}
use state.Subscriptions.{Subscription}
use state.Subscriptions
use state.Platform.{Platform}
use state.World.{World, session_on_send}
use state.Store.{get_client, get_subscriptions}
use state.Store.Channels.{holds, triple}
use state.MultiIndex.Laws.{any-keep, any-ext}
use state.Sync.{sync}
use state.Sync.Messages.{
  stamped, stamped-append, sessions_report, report, client_message, subscription_message, sync_lem,
}
use state.Replication.{joins, subscribes, Directory, carry_out, session_of}
use state.Replication.Spelled.{sync_join-Announces, sync_subscribe-Announces}
use state.Replication.Heard.{
  Announce, silence, and_then, hear, hear-Refines, directory, directory-Refines,
}

module _ ⦃p : Platform⦄ where
  open p use {
    json.{Object, serialize, at?-make},
    clients as clients_table,
    subscriptions as subscriptions_table,
  }

  -- What `sync` tells a session that was told of the sessions before.
  told_subscriptions-Announce :
      (target n : ℕ) (ss : List Subscription)
      → Announce
          (stamped n (map (subscription_message target) ss))
          (map (λ s. subscribes s.client_id s.channel) ss)
  told_subscriptions-Announce target n [] = silence
  told_subscriptions-Announce target n (s ∷ ss) =
      and_then (sync_subscribe-Announces _ s.client_id s.channel)
        (told_subscriptions-Announce target (suc n) ss)

  told_clients-Announce :
      (target n : ℕ) (cs : List Client) (ss : List Subscription)
      → Announce
          (stamped n (map (client_message target) cs ++ map (subscription_message target) ss))
          (map (λ c. joins c.id) cs ++ map (λ s. subscribes s.client_id s.channel) ss)
  told_clients-Announce target n [] ss = told_subscriptions-Announce target n ss
  told_clients-Announce target n (c ∷ cs) ss =
      and_then (sync_join-Announces _ c.id) (told_clients-Announce target (suc n) cs ss)

  -- Subscriptions one after the other add their triples; joins add the ids that are not known yet.
  for_each-subscribes :
      (entity : ℕ) (ss : List Subscription) (d : Directory)
      → let e = for_each (carry_out entity) (map (λ s. subscribes s.client_id s.channel) ss) d in
        ((id : ℕ) → e.known id ≡ d.known id)
        × ((s c : ℕ) (ch : String)
            → e.held s c ch ≡ (
                entity == s && any (λ x. x.client_id == c && str_eq x.channel ch) ss
                || d.held s c ch))
  for_each-subscribes entity [] d = (λ id. refl, λ s c ch. ground arith)
  for_each-subscribes entity (x ∷ ss) d =
      let r =
        for_each-subscribes entity ss (carry_out entity (subscribes x.client_id x.channel) d) in
      (r.0, λ s c ch. r.1 s c ch ∙ ground arith)

  -- What an id leads to after one join, and after that many more.
  joined_known :
      (entity u id : ℕ) (ku ki : Option ℕ) (b : Bool)
      → (u ≡ id → ku ≡ ki)
      → let k = if not (is_some ku) && u == id then some entity else ki in
        (if is_some k then k else if b then some entity else none)
        ≡ (if is_some ki then ki else if u == id || b then some entity else none)
  joined_known entity u id ku ki b same = elim (Bool-cases (u == id)) [
    | inr other ↦ rw (other, and-false (not (is_some ku))) refl
    | inl e ↦ rw (e, same ((==_iff u id).0 e)) (once ki)
  ]
    where
      once :
          (x : Option ℕ)
          → let k = if not (is_some x) && true then some entity else x in
            (if is_some k then k else if b then some entity else none)
            ≡ (if is_some x then x else some entity)
      once none = refl
      once (some n) = refl

  for_each-joins :
      (entity : ℕ) (cs : List Client) (d : Directory)
      → let e = for_each (carry_out entity) (map (λ c. joins c.id) cs) d in
        ((id : ℕ)
          → e.known id ≡ (
              if is_some (d.known id)
              then d.known id
              else if any (λ c. c.id == id) cs
              then some entity
              else none))
        × ((s c : ℕ) (ch : String) → e.held s c ch ≡ d.held s c ch)
  for_each-joins entity [] d = (λ id. ground arith, λ s c ch. refl)
  for_each-joins entity (x ∷ cs) d =
      let r = for_each-joins entity cs (carry_out entity (joins x.id) d) in
      (
        λ id.
            r.0 id
            ∙ joined_known entity x.id id (d.known x.id) (d.known id) (any (λ c. c.id == id) cs)
                (λ e. ap d.known e),
        r.1,
      )

  for_each-append {ℓ κ} :
      {A : Type ℓ} {S : Type κ} (f : A → S → S) (xs ys : List A) (s : S)
      → for_each f (xs ++ ys) s ≡ for_each f ys (for_each f xs s)
  for_each-append f [] ys s = refl
  for_each-append f (x ∷ xs) ys s = for_each-append f xs ys (f x s)

  -- Whether a client of this node has an id.
  abbrev pub own : ℕ → World → Bool
  own u w = any (λ c. c.id == u) (clients_table.equal_range by_session w.id w.clients)

  and_swap : (a b c : Bool) → ((a && b) && c) ≡ (c && a && b)
  and_swap a b c = ground arith

  is_some-session_of : (x : Option Client) → is_some (session_of x) ≡ is_some x
  is_some-session_of none = refl
  is_some-session_of (some c) = refl

  own_subscription :
      (c : ℕ) (ch : String) (w : World)
      → any
          (λ x. x.client_id == c && str_eq x.channel ch)
          (subscriptions_table.equal_range Subscriptions.by_session w.id w.subscriptions)
        ≡ holds w.id c ch w
  unfolding holds get_subscriptions
  own_subscription c ch w =
      rw
        (
          subscriptions_table.equal_range-keep Subscriptions.by_session w.id w.subscriptions,
          any-keep,
        )
        (any-ext _ (triple w.id c ch) _
          (λ x. and_swap (x.client_id == c) (str_eq x.channel ch) (x.session_id == w.id)))

  -- The messages that follow those about sessions, with the transaction ids that are left for them.
  abbrev pub directory_report : ℕ → Bool → World → List Object
  directory_report target registered w =
      stamped (w.draws + length (sessions_report target registered w)) (
        map (client_message target) (clients_table.equal_range by_session w.id w.clients)
        ++ map (subscription_message target)
            (subscriptions_table.equal_range Subscriptions.by_session w.id w.subscriptions))

  stamped-report :
      (target : ℕ) (registered : Bool) (w : World)
      → stamped w.draws (report target registered w)
        ≡ stamped w.draws (sessions_report target registered w)
          ++ directory_report target registered w
  stamped-report target registered w =
      let cs = map (client_message target) (clients_table.equal_range by_session w.id w.clients) in
      let ss =
        map (subscription_message target)
          (subscriptions_table.equal_range Subscriptions.by_session w.id w.subscriptions) in
      ap (stamped w.draws) (append_assoc (sessions_report target registered w) cs ss)
      ∙ stamped-append w.draws (sessions_report target registered w) (cs ++ ss)

  -- A node that registers is told, if its websocket is open: unless it says that it was told before,
  -- of the registered sessions but this node and itself; then, in either case, of the clients and
  -- subscriptions of this node. From the messages that follow those about sessions, the kernel of that
  -- node makes this, whatever it stored until then: every id of a client that it knew
  -- leads to the session that it led to, every other id of a client of the telling node to the session
  -- that brought the messages; and it holds the subscriptions that it held and those that the telling
  -- node holds for its own clients, under that session.
  pub hear-sync :
      (target entity : ℕ) (registered : Bool) (w v : World)
      → let os = directory_report target registered w in
        let heard = hear entity os v in
        ((sync target registered w).posted
          ≡ w.posted
            ++ (if (w.session target).is_open
                then map
                    (λ o. session_on_send target (serialize o))
                    (stamped w.draws (sessions_report target registered w) ++ os)
                else []))
        × ((u : ℕ)
            → session_of (get_client u heard) ≡ (
                if is_some (get_client u v)
                then session_of (get_client u v)
                else if own u w
                then some entity
                else none))
        × ((s c : ℕ) (ch : String)
            → holds s c ch heard ≡ (entity == s && holds w.id c ch w || holds s c ch v))
  hear-sync target entity registered w v =
      let cs = clients_table.equal_range by_session w.id w.clients in
      let ss = subscriptions_table.equal_range Subscriptions.by_session w.id w.subscriptions in
      let r =
        hear-Refines entity _ _ (directory v) v
          (told_clients-Announce target (w.draws + length (sessions_report target registered w)) cs
            ss)
          (directory-Refines v) in
      let a =
        for_each-append (carry_out entity) (map (λ c. joins c.id) cs)
          (map (λ s. subscribes s.client_id s.channel) ss) (directory v) in
      let j = for_each-joins entity cs (directory v) in
      let b =
        for_each-subscribes entity ss
          (for_each (carry_out entity) (map (λ c. joins c.id) cs) (directory v)) in
      (
        ap World.posted (sync_lem target registered w)
            ∙ ap
                (λ os.
                  w.posted
                  ++ (if (w.session target).is_open
                      then map (λ o. session_on_send target (serialize o)) os
                      else []))
                (stamped-report target registered w),
        λ u.
            sym (r.known u)
            ∙ ap (λ e. e.known u) a
            ∙ b.0 u
            ∙ j.0 u
            ∙ rw (is_some-session_of (get_client u v)) refl,
        λ s c ch.
            sym (r.held s c ch)
            ∙ ap (λ e. e.held s c ch) a
            ∙ b.1 s c ch
            ∙ rw (j.1 s c ch, own_subscription c ch w) refl,
      )

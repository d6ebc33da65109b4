-- ===== src/Sync/Messages.antt =====
-- What `state::sync` tells a node that registers (src/objects/state.cpp).
use state.Common.{
  for_each, ℕ, suc, ◌+◌, ◌&&◌, ◌==◌, ◌≡◌, refl, sym, ap, ◌∙◌, Bool, true, false, not, List, [], ◌∷◌,
  ◌++◌, map, keep, length, if◌then◌else◌, Bool-cases, inl, inr, arith,
}
use mathlib.Core.List.{append_assoc, append-nil}
use state.Clients.{Client, by_session}
use state.Subscriptions.{Subscription}
use state.Subscriptions
use state.Platform.{Platform}
use state.World.{World, Task, session_on_send}
use state.Effects.{draw}
use state.Messages.{sync_session_object, sync_join_object, sync_subscribe_object}
use state.Store.{get_sessions}
use state.Fanout.{session_send, post}
use state.Sync.{
  announce, is_skipped, sync_session, sync_client, sync_subscription, sync_sessions, sync_clients,
  sync_subscriptions, sync,
}

length-snoc {ℓ} : {A : Type ℓ} (xs : List A) (x : A) → length (xs ++ x ∷ []) ≡ suc (length xs)
length-snoc [] x = refl
length-snoc (y ∷ ys) x = ap suc (length-snoc ys x)

kept {ℓ κ} :
    {A : Type ℓ} {B : Type κ} (test : A → Bool) (f : A → B) (x : A) (xs : List A) (ys : List B)
    → (ys ++ (if test x then f x ∷ [] else [])) ++ map f (keep test xs)
      ≡ ys ++ map f (keep test (x ∷ xs))
kept test f x xs ys = elim (Bool-cases (test x)) [
  | inl e ↦ rw e (append_assoc ys (f x ∷ []) (map f (keep test xs)))
  | inr e ↦ rw (e, append-nil ys) refl
]

keep_all {ℓ} : {A : Type ℓ} (xs : List A) → keep (λ x. true) xs ≡ xs
keep_all [] = refl
keep_all (x ∷ xs) = ap (λ ys. x ∷ ys) (keep_all xs)

if_same {ℓ} : {A : Type ℓ} (b : Bool) → ◌≡◌ {A = List A} (if b then [] else []) []
if_same true = refl
if_same false = refl

map-snoc {ℓ κ} :
    {A : Type ℓ} {B : Type κ} (f : A → B) (xs : List A) (x : A)
    → map f (xs ++ x ∷ []) ≡ map f xs ++ f x ∷ []
map-snoc f [] x = refl
map-snoc f (y ∷ ys) x = ap (λ zs. f y ∷ zs) (map-snoc f ys x)

module _ ⦃p : Platform⦄ where
  open p use {
    json.{Object, serialize},
    random,
    clients as clients_table,
    subscriptions as subscriptions_table,
  }

  -- Messages with the transaction ids that are drawn for them in turn, from a count of draws on.
  abbrev pub stamped : ℕ → List (ℕ → Object) → List Object
  stamped d [] = []
  stamped d (f ∷ fs) = f (random d) ∷ stamped (suc d) fs

  stamped-snoc :
      (d : ℕ) (fs : List (ℕ → Object)) (f : ℕ → Object)
      → stamped d (fs ++ f ∷ []) ≡ stamped d fs ++ f (random (d + length fs)) ∷ []
  stamped-snoc d [] f = ap (λ n. f (random n) ∷ []) (omega arith)
  stamped-snoc d (g ∷ fs) f =
      ap (λ os. g (random d) ∷ os)
        (stamped-snoc (suc d) fs f
          ∙ ap (λ n. stamped (suc d) fs ++ f (random n) ∷ []) (omega arith))

  pub stamped-append :
      (d : ℕ) (fs gs : List (ℕ → Object))
      → stamped d (fs ++ gs) ≡ stamped d fs ++ stamped (d + length fs) gs
  stamped-append d [] gs = ap (λ n. stamped n gs) (omega arith)
  stamped-append d (f ∷ fs) gs =
      ap (λ os. f (random d) ∷ os)
        (stamped-append (suc d) fs gs ∙ ap (λ n. stamped (suc d) fs ++ stamped n gs) (omega arith))

  counted :
      (w : World) (d d' : ℕ) (ts ts' : List Task)
      → d ≡ d'
      → ts ≡ ts'
      → ◌≡◌ {A = World}
          (record w { draws = d; posted = ts })
          (record w { draws = d'; posted = ts' })
  counted w d d' ts ts' e h =
      ap (λ n. record w { draws = n; posted = ts }) e
      ∙ ap (λ us. record w { draws = d'; posted = us }) h

  module _ (target : ℕ) where
    -- The session at the address was told messages, if its websocket is open; nothing else changed
    -- but the count of draws.
    abbrev pub told : List (ℕ → Object) → World → World
    told fs w = record w {
      draws = w.draws + length fs;
      posted =
          w.posted
          ++ (if (w.session target).is_open
              then map (λ o. session_on_send target (serialize o)) (stamped w.draws fs)
              else []);
    }

    told-nil : (w : World) → told [] w ≡ w
    told-nil w =
        counted w _ _ _ _ (omega arith)
          (rw (if_same (w.session target).is_open) (append-nil w.posted))

    announce-told :
        (f : ℕ → Object) (fs : List (ℕ → Object)) (w : World)
        → announce f target (told fs w) ≡ told (fs ++ f ∷ []) w
    unfolding announce draw session_send post
    announce-told f fs w = elim (Bool-cases (w.session target).is_open) [
      | inl open_ ↦
          rw (open_, length-snoc fs f, stamped-snoc w.draws fs f, map-snoc)
            (counted w _ _ _ _ (omega arith) (append_assoc w.posted _ _))
      | inr shut ↦ rw (shut, length-snoc fs f) (counted w _ _ _ _ (omega arith) refl)
    ]

    -- A loop that tells a message for each element that passes a test.
    for_each-told :
        {A : Type 0} (body : A → World → World) (test : A → Bool) (message : A → ℕ → Object)
        (w : World)
        → ((x : A) (fs : List (ℕ → Object))
            → body x (told fs w) ≡ told (fs ++ (if test x then message x ∷ [] else [])) w)
        → (xs : List A) (fs : List (ℕ → Object))
        → for_each body xs (told fs w) ≡ told (fs ++ map message (keep test xs)) w
    for_each-told body test message w h [] fs = ap (λ gs. told gs w) (sym (append-nil fs))
    for_each-told body test message w h (x ∷ xs) fs =
        ap (for_each body xs) (h x fs)
        ∙ for_each-told body test message w h xs (fs ++ (if test x then message x ∷ [] else []))
        ∙ ap (λ gs. told gs w) (kept test message x xs fs)

    -- The messages of the three loops.
    abbrev pub session_message : World → ℕ → ℕ → Object
    session_message w h drawn =
        let s = w.session h in sync_session_object drawn s.host s.sessions_port s.clients_port

    abbrev pub client_message : Client → ℕ → Object
    client_message c drawn = sync_join_object drawn c.id

    abbrev pub subscription_message : Subscription → ℕ → Object
    subscription_message s drawn = sync_subscribe_object drawn s.client_id s.channel

    -- The registered sessions, but this node and the node that is told.
    abbrev pub is_reported : World → ℕ → Bool
    is_reported w h =
        let s = w.session h in
        s.registered && not (s.id == w.id) && not (s.id == (w.session target).id)

    not-is_skipped : (w : World) (h : ℕ) → not (is_skipped (w.session h) target w) ≡ is_reported w h
    unfolding is_skipped
    not-is_skipped w h = ground arith

    sync_session-told :
        (w : World) (h : ℕ) (fs : List (ℕ → Object))
        → sync_session target h (told fs w)
          ≡ told (fs ++ (if is_reported w h then session_message w h ∷ [] else [])) w
    unfolding sync_session is_skipped
    sync_session-told w h fs = elim (Bool-cases (is_skipped (w.session h) target w)) [
      | inl skipped ↦ rw (← not-is_skipped w h, skipped, append-nil fs) refl
      | inr reported ↦
          rw (← not-is_skipped w h, reported) (announce-told (session_message w h) fs w)
    ]

    -- What `sync` reports of sessions, and what it reports in all, in the order of reporting.
    abbrev pub sessions_report : Bool → World → List (ℕ → Object)
    sessions_report registered w =
        if registered then [] else map (session_message w) (keep (is_reported w) (get_sessions w))

    abbrev pub report : Bool → World → List (ℕ → Object)
    report registered w =
        sessions_report registered w
        ++ map client_message (clients_table.equal_range by_session w.id w.clients)
        ++ map subscription_message
            (subscriptions_table.equal_range Subscriptions.by_session w.id w.subscriptions)

    sync_sessions-told :
        (w : World)
        → sync_sessions target w
          ≡ told (map (session_message w) (keep (is_reported w) (get_sessions w))) w
    unfolding sync_sessions
    sync_sessions-told w =
        ap (for_each (sync_session target) (get_sessions w)) (sym (told-nil w))
        ∙ for_each-told (sync_session target) _ (session_message w) w (sync_session-told w)
            (get_sessions w) []

    sync_clients-told :
        (fs : List (ℕ → Object)) (w : World)
        → sync_clients target (told fs w)
          ≡ told (fs ++ map client_message (clients_table.equal_range by_session w.id w.clients)) w
    unfolding sync_clients sync_client
    sync_clients-told fs w =
        for_each-told (sync_client target) (λ c. true) client_message w
          (λ c gs. announce-told (client_message c) gs w)
          (clients_table.equal_range by_session w.id w.clients) fs
        ∙ ap (λ cs. told (fs ++ map client_message cs) w) (keep_all _)

    sync_subscriptions-told :
        (fs : List (ℕ → Object)) (w : World)
        → sync_subscriptions target (told fs w)
          ≡ told
              (fs
                ++ map subscription_message
                    (subscriptions_table.equal_range Subscriptions.by_session w.id w.subscriptions))
              w
    unfolding sync_subscriptions sync_subscription
    sync_subscriptions-told fs w =
        for_each-told (sync_subscription target) (λ s. true) subscription_message w
          (λ s gs. announce-told (subscription_message s) gs w)
          (subscriptions_table.equal_range Subscriptions.by_session w.id w.subscriptions) fs
        ∙ ap (λ ss. told (fs ++ map subscription_message ss) w) (keep_all _)

    -- A node that registers is told, if its websocket is open, in this order: unless it says that it
    -- was told before, of every session that is registered, whose id is not that of this node and not
    -- its own; of every client of this node; and of every subscription through this node. Each message
    -- has a transaction id that is drawn for it. Nothing else changes.
    pub sync_lem :
        (registered : Bool) (w : World) → sync target registered w ≡ told (report registered w) w
    unfolding sync
    sync_lem true w =
        ap (λ v. sync_subscriptions target (sync_clients target v)) (sym (told-nil w))
        ∙ ap (sync_subscriptions target) (sync_clients-told [] w)
        ∙ sync_subscriptions-told _ w
    sync_lem false w =
        ap (λ v. sync_subscriptions target (sync_clients target v)) (sync_sessions-told w)
        ∙ ap (sync_subscriptions target) (sync_clients-told _ w)
        ∙ sync_subscriptions-told _ w

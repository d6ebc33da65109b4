-- ===== src/Store/Sessions.antt =====
-- The sessions of a state, and what goes with a session (src/objects/state.cpp).
use state.Common.{
  ℕ, ◌≡◌, refl, ap, ◌∙◌, Bool, not, ◌&&◌, List, [], ◌∷◌, none, some, is_some, any, arith, ◌==◌,
  String, if◌then◌else◌,
}
use state.MultiIndex.Laws.{any-ext, any-keep, any-and_right}
use state.Subscriptions.{Subscription}
use state.Subscriptions
use state.Clients.{Client, by_session, by_client}
use state.OrderedMap
use state.OrderedMap.{
  IsAscending, put, emplace, erase, find-put, find-erase, put-IsAscending, erase-IsAscending,
}
use state.Platform.{Platform}
use state.World.{World, Session}
use state.Store.{
  get_session, add_session, remove_session, remove_state_of_session, get_subscriptions, get_clients,
}
use state.Store.Channels.{holds, triple}

client_of_other :
    (gone id s : ℕ) (c : Client)
    → (c.id == id && c.session_id == s && not (c.session_id == gone))
      ≡ (c.id == id && c.session_id == s && not (s == gone))
client_of_other gone id s c = ground arith

triple_of_other :
    (gone s c : ℕ) (ch : String) (e : Subscription)
    → (triple s c ch e && not (e.session_id == gone)) ≡ (triple s c ch e && not (s == gone))
triple_of_other gone s c ch e = ground arith

module _ ⦃p : Platform⦄ where
  open p use {clients as clients_table, subscriptions as subscriptions_table}

  -- Every entry of the list leads to a session with the id of its key.
  abbrev pub Keyed : (ℕ → Session) → List (ℕ × ℕ) → Type 0
  Keyed f [] = Unit {0}
  Keyed f ((k, h) ∷ m) = ((f h).id ≡ k) × Keyed f m

  -- The map of sessions is a `std::map` keyed by the ids of the sessions.
  pub record IsKeyed (w : World) : Type 0 where
    pub ascending : IsAscending w.sessions
    pub keyed : Keyed w.session w.sessions

  Keyed-put : (f : ℕ → Session) (h : ℕ) (m : List (ℕ × ℕ)) → Keyed f m → Keyed f (put (f h).id h m)
  unfolding put
  Keyed-put f h [] k = (refl, tt)
  Keyed-put f h ((j, g) ∷ m) k = ground (arith, Keyed-put f h m k.1)

  Keyed-erase : (f : ℕ → Session) (id : ℕ) (m : List (ℕ × ℕ)) → Keyed f m → Keyed f (erase id m)
  unfolding erase
  Keyed-erase f id [] k = tt
  Keyed-erase f id ((j, g) ∷ m) k = ground (arith, Keyed-erase f id m k.1)

  -- `add_session` keeps the map of sessions ascending, with each session under its own id.
  pub add_session-IsKeyed : (h : ℕ) (w : World) → IsKeyed w → IsKeyed (add_session h w).0
  unfolding add_session emplace
  add_session-IsKeyed h w k = record {
    ascending = put-IsAscending (w.session h).id h w.sessions k.ascending;
    keyed = Keyed-put w.session h w.sessions k.keyed;
  }

  -- `remove_session` keeps the map of sessions ascending, with each session under its own id.
  pub remove_session-IsKeyed : (id : ℕ) (w : World) → IsKeyed w → IsKeyed (remove_session id w).0
  unfolding remove_session
  remove_session-IsKeyed id w k = record {
    ascending = erase-IsAscending id w.sessions k.ascending;
    keyed = Keyed-erase w.session id w.sessions k.keyed;
  }

  Keyed-find :
      (f : ℕ → Session) (id h : ℕ) (m : List (ℕ × ℕ))
      → Keyed f m
      → OrderedMap.find id m ≡ some h
      → (f h).id ≡ id
  unfolding OrderedMap.find
  Keyed-find f id h [] k e = cc
  Keyed-find f id h ((j, g) ∷ m) k e = ground (arith, Keyed-find f id h m k.1)

  -- A session that is found has the id that it was looked up by.
  pub get_session-id :
      (id h : ℕ) (w : World) → IsKeyed w → get_session id w ≡ some h → (w.session h).id ≡ id
  unfolding get_session
  get_session-id id h w k = Keyed-find w.session id h w.sessions k.keyed

  -- Where the map is keyed, `add_session` inserts exactly if no session has the id, and never
  -- replaces one; `remove_session` says whether there was one. Both leave every other id as it was.
  pub get_session-add_session-remove_session :
      (h id : ℕ) (w : World)
      → IsKeyed w
      → ((add_session h w).1 ≡ not (is_some (get_session (w.session h).id w)))
        × ((j : ℕ)
            → get_session j (add_session h w).0 ≡ (
                if is_some (get_session j w)
                then get_session j w
                else (if (w.session h).id == j then some h else none)))
        × ((remove_session id w).1 ≡ is_some (get_session id w))
        × ((j : ℕ)
            → get_session j (remove_session id w).0 ≡ (if id == j then none else get_session j w))
  unfolding get_session add_session remove_session emplace
  get_session-add_session-remove_session h id w k = (
    refl,
    λ j. find-put (w.session h).id j h w.sessions k.ascending,
    refl,
    λ j. find-erase id j w.sessions k.ascending,
  )

  -- The clients of a state by id and session.
  pub has_client : ℕ → ℕ → World → Bool
  has_client id session_id w = any (λ c. c.id == id && c.session_id == session_id) (get_clients w)

  -- What the destructor of a session removes: every client and every subscription of that session,
  -- and none of another; the map of sessions stays.
  pub remove_state_of_session_lem :
      (gone : ℕ) (w : World)
      → ((id s : ℕ)
          → has_client id s (remove_state_of_session gone w)
            ≡ (has_client id s w && not (s == gone)))
        × ((s c : ℕ) (ch : String)
            → holds s c ch (remove_state_of_session gone w) ≡ (holds s c ch w && not (s == gone)))
        × ((remove_state_of_session gone w).sessions ≡ w.sessions)
  unfolding remove_state_of_session has_client holds get_clients get_subscriptions
  remove_state_of_session_lem gone w = (
    λ id s.
        ap (any (λ c. c.id == id && c.session_id == s))
          (clients_table.erase_range-keep by_session by_client gone w.clients)
        ∙ any-keep _ (λ c. c.id == id && c.session_id == s)
            (clients_table.traverse by_client w.clients)
        ∙ any-ext _ _ (clients_table.traverse by_client w.clients)
            (λ c. client_of_other gone id s c)
        ∙ any-and_right _ (not (s == gone)) (clients_table.traverse by_client w.clients),
    λ s c ch.
        ap (any (triple s c ch)) (
          subscriptions_table.erase_range-keep Subscriptions.by_session Subscriptions.by_session
            gone w.subscriptions)
        ∙ any-keep _ (triple s c ch)
            (subscriptions_table.traverse Subscriptions.by_session w.subscriptions)
        ∙ any-ext _ _ (subscriptions_table.traverse Subscriptions.by_session w.subscriptions)
            (λ e. triple_of_other gone s c ch e)
        ∙ any-and_right _ (not (s == gone))
            (subscriptions_table.traverse Subscriptions.by_session w.subscriptions),
    refl,
  )

-- ===== src/Fanout/Channels.antt =====
-- `send_to_subscribed_sessions` of src/objects/state.cpp: which sessions a publication reaches.
use state.Common.{
  for_each, ℕ, ◌≡◌, refl, sym, ap, ◌∙◌, Bool, false, ◌||◌, ◌&&◌, List, [], ◌∷◌, ◌++◌, any, keep,
  map, length, arith, ◌==◌, ==_iff, String, str_eq, if◌then◌else◌, Bool-cases, inl, inr,
}
use state.MultiIndex.Laws.{any-keep, any-traverse, keep-ext}
use state.Subscriptions.{Subscription, by_session, by_channel}
use state.Platform.{Platform}
use state.World.{World, Task, session_on_send}
use state.Store.{get_sessions, get_subscriptions}
use state.Fanout.{
  post, session_send, add_receiver, send_receiver, receivers, send_to_subscribed_sessions,
}
use state.Fanout.Delivery.{posting, loop-posting, post_if, and_if}

-- No number stands twice.
abbrev pub IsDistinct : List ℕ → Type 0
IsDistinct [] = Unit {0}
IsDistinct (r ∷ rs) = (any (λ s. s == r) rs ≡ false) × IsDistinct rs

add_receiver-IsDistinct :
    (s : Subscription) (found : List ℕ) → IsDistinct found → IsDistinct (add_receiver s found)
unfolding add_receiver
add_receiver-IsDistinct s found h = ground arith

fill-IsDistinct :
    (ss : List Subscription) (found : List ℕ)
    → IsDistinct found
    → IsDistinct (for_each add_receiver ss found)
fill-IsDistinct [] found h = h
fill-IsDistinct (s ∷ ss) found h =
    fill-IsDistinct ss (add_receiver s found) (add_receiver-IsDistinct s found h)

add_receiver_self :
    (s : Subscription) (found : List ℕ)
    → any (λ r. r == s.session_id) (add_receiver s found)
      ≡ (s.session_id == s.session_id || any (λ r. r == s.session_id) found)
unfolding add_receiver
add_receiver_self s found = ground arith

any-add_receiver :
    (id : ℕ) (s : Subscription) (found : List ℕ)
    → any (λ r. r == id) (add_receiver s found) ≡ (s.session_id == id || any (λ r. r == id) found)
unfolding add_receiver
any-add_receiver id s found = elim (Bool-cases (s.session_id == id)) [
  | inr other ↦ ground arith
  | inl e ↦ let same = (==_iff s.session_id id).0 e in rw (← same) (add_receiver_self s found)
]

any-fill :
    (id : ℕ) (ss : List Subscription) (found : List ℕ)
    → any (λ r. r == id) (for_each add_receiver ss found)
      ≡ (any (λ s. s.session_id == id) ss || any (λ r. r == id) found)
any-fill id [] found = refl
any-fill id (s ∷ ss) found =
    any-fill id ss (add_receiver s found) ∙ ground (arith, any-add_receiver id s found)

module _ ⦃p : Platform⦄ where
  open p use {json.{Object, serialize}, subscriptions as table}

  -- Some client subscribed to the channel through the session with an id.
  unfoldable pub is_subscribed_through : World → String → ℕ → Bool
  is_subscribed_through w channel id =
      any (λ s. s.session_id == id && str_eq s.channel channel) (get_subscriptions w)

  by_channel_any :
      (channel : String) (id : ℕ) (w : World)
      → any (λ s. s.session_id == id) (table.equal_range by_channel channel w.subscriptions)
        ≡ is_subscribed_through w channel id
  unfolding is_subscribed_through get_subscriptions
  by_channel_any channel id w =
      ap (any (λ s. s.session_id == id)) (table.equal_range-keep by_channel channel w.subscriptions)
      ∙ any-keep (λ s. str_eq s.channel channel) (λ s. s.session_id == id)
          (table.traverse by_channel w.subscriptions)
      ∙ any-traverse table by_channel by_session
          (λ s. s.session_id == id && str_eq s.channel channel) w.subscriptions

  -- The receivers are the sessions with a subscription to the channel, each once.
  pub receivers_lem :
      (channel : String) (w : World)
      → IsDistinct (receivers channel w)
        × ((id : ℕ) → any (λ r. r == id) (receivers channel w) ≡ is_subscribed_through w channel id)
  unfolding receivers is_subscribed_through get_subscriptions
  receivers_lem channel w = (
    fill-IsDistinct (table.equal_range by_channel channel w.subscriptions) [] tt,
    λ id.
        any-fill id (table.equal_range by_channel channel w.subscriptions) []
        ∙ ground (arith, by_channel_any channel id w),
  )

  send_receiver-posting :
      (message : String) (found : List ℕ) (w : World) (h : ℕ) (ts : List Task)
      → send_receiver message found h (posting ts w)
        ≡ posting
            (ts
              ++ (if any (λ r. r == (w.session h).id) found && (w.session h).is_open
                  then session_on_send h message ∷ []
                  else []))
            w
  unfolding send_receiver session_send
  send_receiver-posting message found w h ts =
      and_if (any (λ r. r == (w.session h).id) found) (w.session h).is_open (posting ts w)
        (post (session_on_send h message) (posting ts w))
      ∙ post_if (any (λ r. r == (w.session h).id) found && (w.session h).is_open)
          (session_on_send h message) ts w

  -- A session that a publication on a channel reaches.
  abbrev pub is_receiver : World → String → ℕ → Bool
  is_receiver w channel h =
      is_subscribed_through w channel (w.session h).id && (w.session h).is_open

  reached :
      (o : Object) (channel : String) (w : World)
      → for_each (send_receiver (serialize o) (receivers channel w)) (get_sessions w) w
        ≡ posting
            (map
              (λ h. session_on_send h (serialize o))
              (keep (is_receiver w channel) (get_sessions w)))
            w
  reached o channel w =
      loop-posting _ _ _ w (send_receiver-posting (serialize o) (receivers channel w) w)
        (get_sessions w)
      ∙ ap (λ hs. posting (map (λ h. session_on_send h (serialize o)) hs) w)
          (keep-ext _ _ (get_sessions w) (λ h.
            ap (λ b. b && (w.session h).is_open) ((receivers_lem channel w).1 (w.session h).id)))

  none_reached :
      (message : String) (hs : List ℕ) (w : World) → for_each (send_receiver message []) hs w ≡ w
  unfolding send_receiver
  none_reached message [] w = refl
  none_reached message (h ∷ hs) w = none_reached message hs w

  -- With no receiver the loop would send nothing, so the early return changes nothing.
  early_return :
      (message : String) (found hs : List ℕ) (w : World)
      → ◌≡◌ {A = World × ℕ}
          (if length found == 0
            then (w, 0)
            else (for_each (send_receiver message found) hs w, length found))
          (for_each (send_receiver message found) hs w, length found)
  early_return message [] hs w = ap (λ w'. (w', 0)) (sym (none_reached message hs w))
  early_return message (r ∷ rs) hs w = ground arith

  -- Each session with an open websocket through which some client is subscribed to the channel is
  -- handed the message once, in the order of the uuids; nothing else changes. The result is the
  -- number of distinct sessions with a subscription to the channel, connected or not.
  pub send_to_subscribed_sessions_lem :
      (o : Object) (channel : String) (w : World)
      → (send_to_subscribed_sessions o channel w ≡ (
        posting
            (map
              (λ h. session_on_send h (serialize o))
              (keep (is_receiver w channel) (get_sessions w)))
            w,
        length (receivers channel w),
      ))
        × IsDistinct (receivers channel w)
        × ((id : ℕ) → any (λ r. r == id) (receivers channel w) ≡ is_subscribed_through w channel id)
  unfolding send_to_subscribed_sessions
  send_to_subscribed_sessions_lem o channel w = (
    early_return (serialize o) (receivers channel w) (get_sessions w) w
        ∙ ap (λ w'. (w', length (receivers channel w))) (reached o channel w),
    (receivers_lem channel w).0,
    (receivers_lem channel w).1,
  )

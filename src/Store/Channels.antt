-- ===== src/Store/Channels.antt =====
-- The subscriptions of a state as a set of triples (src/objects/state.cpp).
use state.Common.{
  ℕ, ◌≡◌, sym, ap, ◌∙◌, Bool, true, false, not, ◌||◌, ◌&&◌, is_some, any, arith, ◌==◌, str_eq,
  eq_iff, String, Bool-cases, Option-cases, inl, inr,
}
use state.MultiIndex.{clash}
use state.MultiIndex.Laws.{
  is_some-find, any-ext, any-imp, any-keep, any-and_right, any-traverse, any-insert, any-and_not,
}
use state.Subscriptions.{
  Subscription, by_session, by_client_channel, by_session_client_channel, subscriptions_spec,
}
use state.Platform.{Platform}
use state.World.{World}
use state.Store.{get_subscriptions, subscribe, unsubscribe, is_subscribed}

-- The element of a triple.
abbrev pub triple : ℕ → ℕ → String → Subscription → Bool
triple s c ch e = e.session_id == s && e.client_id == c && str_eq e.channel ch

abbrev pub pair : ℕ → String → Subscription → Bool
pair c ch e = e.client_id == c && str_eq e.channel ch

module _ ⦃p : Platform⦄ where
  open p use {subscriptions as table}

  -- The set of triples that a state holds.
  unfoldable pub holds : ℕ → ℕ → String → World → Bool
  holds s c ch w = any (triple s c ch) (get_subscriptions w)

  -- A client is subscribed to a channel exactly if some session holds the subscription.
  is_subscribed-any :
      (c : ℕ) (ch : String) (w : World)
      → is_subscribed c ch w ≡ any (pair c ch) (get_subscriptions w)
  unfolding is_subscribed get_subscriptions
  is_subscribed-any c ch w =
      is_some-find table by_client_channel (c, ch) w.subscriptions
      ∙ any-traverse table by_client_channel by_session (pair c ch) w.subscriptions

  clash_iff :
      (a b : Subscription)
      → clash subscriptions_spec a b ≡ triple a.session_id a.client_id a.channel b
  clash_iff a b = ground arith

  module _ (s c : ℕ) (ch : String) (w : World) where
    abbrev added : Subscription
    added = record { session_id = s; client_id = c; channel = ch }

    subscribe_accepts : (subscribe s c ch w).1 ≡ not (holds s c ch w)
    unfolding subscribe holds get_subscriptions
    subscribe_accepts =
        table.insert-accepts by_session added w.subscriptions
        ∙ ap not (any-ext _ _ (table.traverse by_session w.subscriptions) (clash_iff added))

    present_of_refused :
        (table.insert added w.subscriptions).1 ≡ false
        → any (triple s c ch) (table.traverse by_session w.subscriptions) ≡ true
    unfolding subscribe holds get_subscriptions
    present_of_refused old = ground (arith, subscribe_accepts)

    -- What holds of some subscription afterwards.
    any-subscribe :
        (q : Subscription → Bool)
        → ((e : Subscription) → triple s c ch e ≡ true → q e ≡ q added)
        → any q (get_subscriptions (subscribe s c ch w).0)
          ≡ (q added || any q (get_subscriptions w))
    unfolding subscribe get_subscriptions
    any-subscribe q h = elim (Bool-cases (table.insert added w.subscriptions).1) [
      | inl new ↦ any-insert table by_session q added w.subscriptions new
      | inr old ↦ rw (table.insert-refused added w.subscriptions old) (known old)
    ]
      where
        known :
            (table.insert added w.subscriptions).1 ≡ false
            → any q (table.traverse by_session w.subscriptions)
              ≡ (q added || any q (table.traverse by_session w.subscriptions))
        known old = elim (Bool-cases (q added)) [
          | inr e ↦ rw e
          | inl e ↦ rw e (
              any-imp (triple s c ch) q (table.traverse by_session w.subscriptions)
                (λ x t. h x t ∙ e) (present_of_refused old))
        ]

    triple_congr :
        (s' c' : ℕ) (ch' : String) (e : Subscription)
        → triple s c ch e ≡ true
        → triple s' c' ch' e ≡ triple s' c' ch' added
    triple_congr s' c' ch' e h =
        ground (arith, eq_iff e.channel ch, eq_iff e.channel ch', eq_iff ch ch')

    pair_congr :
        (c' : ℕ) (ch' : String) (e : Subscription)
        → triple s c ch e ≡ true
        → pair c' ch' e ≡ pair c' ch' added
    pair_congr c' ch' e h = ground (arith, eq_iff e.channel ch, eq_iff e.channel ch', eq_iff ch ch')

    found :
        is_some (table.find by_session_client_channel (s, c, ch) w.subscriptions)
        ≡ any (triple s c ch) (table.traverse by_session w.subscriptions)
    found =
        is_some-find table by_session_client_channel (s, c, ch) w.subscriptions
        ∙ any-traverse table by_session_client_channel by_session (triple s c ch) w.subscriptions

    any-unsubscribe :
        (q : Subscription → Bool)
        → any q (get_subscriptions (unsubscribe s c ch w).0)
          ≡ any (λ e. q e && not (triple s c ch e)) (get_subscriptions w)
    unfolding unsubscribe get_subscriptions
    any-unsubscribe q =
        elim (Option-cases (table.find by_session_client_channel (s, c, ch) w.subscriptions)) [
          | inl absent ↦
              rw (absent, unsubscribe)
                (any-and_not (triple s c ch) q (table.traverse by_session w.subscriptions)
                  (sym found ∙ ap is_some absent))
          | inr (e, present) ↦
              rw (present, unsubscribe)
                (ap (any q) (
                    table.erase_range-keep by_session_client_channel by_session (s, c, ch)
                      w.subscriptions)
                  ∙ any-keep (λ e. not (triple s c ch e)) q
                      (table.traverse by_session w.subscriptions))
        ]

    unsubscribe_found : (unsubscribe s c ch w).1 ≡ holds s c ch w
    unfolding unsubscribe holds get_subscriptions
    unsubscribe_found = ground (arith, found)

    triple_without :
        (s' c' : ℕ) (ch' : String) (e : Subscription)
        → (triple s' c' ch' e && not (triple s c ch e))
          ≡ (triple s' c' ch' e && not (s == s' && c == c' && str_eq ch ch'))
    triple_without s' c' ch' e =
        ground (arith, eq_iff e.channel ch, eq_iff e.channel ch', eq_iff ch ch')

  -- `subscribe` inserts exactly if the state does not hold the triple. Afterwards it holds the triple
  -- and what it held before, and nothing else; likewise for what `is_subscribed` answers.
  pub holds-subscribe :
      (s c : ℕ) (ch : String) (w : World)
      → ((subscribe s c ch w).1 ≡ not (holds s c ch w))
        × ((s' c' : ℕ) (ch' : String)
            → holds s' c' ch' (subscribe s c ch w).0
              ≡ (s == s' && c == c' && str_eq ch ch' || holds s' c' ch' w))
        × ((c' : ℕ) (ch' : String)
            → is_subscribed c' ch' (subscribe s c ch w).0
              ≡ (c == c' && str_eq ch ch' || is_subscribed c' ch' w))
  unfolding holds
  holds-subscribe s c ch w = (
    subscribe_accepts s c ch w,
    λ s' c' ch'. any-subscribe s c ch w (triple s' c' ch') (triple_congr s c ch w s' c' ch'),
    λ c' ch'.
        is_subscribed-any c' ch' (subscribe s c ch w).0
        ∙ any-subscribe s c ch w (pair c' ch') (pair_congr s c ch w c' ch')
        ∙ ap (λ b. c == c' && str_eq ch ch' || b) (sym (is_subscribed-any c' ch' w)),
  )

  -- `unsubscribe` says whether the state held the triple. Afterwards it holds what it held before
  -- without the triple; a client stays subscribed to a channel exactly if another triple says so.
  pub holds-unsubscribe :
      (s c : ℕ) (ch : String) (w : World)
      → ((unsubscribe s c ch w).1 ≡ holds s c ch w)
        × ((s' c' : ℕ) (ch' : String)
            → holds s' c' ch' (unsubscribe s c ch w).0
              ≡ (holds s' c' ch' w && not (s == s' && c == c' && str_eq ch ch')))
        × ((c' : ℕ) (ch' : String)
            → is_subscribed c' ch' (unsubscribe s c ch w).0
              ≡ any (λ e. pair c' ch' e && not (triple s c ch e)) (get_subscriptions w))
  unfolding holds
  holds-unsubscribe s c ch w = (
    unsubscribe_found s c ch w,
    λ s' c' ch'.
        any-unsubscribe s c ch w (triple s' c' ch')
        ∙ any-ext _ _ (get_subscriptions w) (triple_without s c ch w s' c' ch')
        ∙ any-and_right (triple s' c' ch') (not (s == s' && c == c' && str_eq ch ch'))
            (get_subscriptions w),
    λ c' ch'.
        is_subscribed-any c' ch' (unsubscribe s c ch w).0 ∙ any-unsubscribe s c ch w (pair c' ch'),
  )

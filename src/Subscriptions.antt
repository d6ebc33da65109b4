-- ===== src/Subscriptions.antt =====
-- src/include/aewt/subscription.hpp and subscriptions.hpp: subscriptions and their five indices.
use state.MultiIndex.{Spec}
use state.Common.{ℕ, Bool, true, false, ◌&&◌, ◌==◌, str_eq, String, [], ◌∷◌}

pub record Subscription : Type 0 where
  pub session_id : ℕ
  pub client_id : ℕ
  pub channel : String

pub data SubscriptionTag : Type 0 where
  by_session by_client by_channel by_client_channel by_session_client_channel : SubscriptionTag

abbrev pub SubscriptionKey : SubscriptionTag → Type 0
SubscriptionKey by_session = ℕ
SubscriptionKey by_client = ℕ
SubscriptionKey by_channel = String
SubscriptionKey by_client_channel = ℕ × String
SubscriptionKey by_session_client_channel = ℕ × ℕ × String

abbrev pub subscription_key : (i : SubscriptionTag) → Subscription → SubscriptionKey i
subscription_key by_session s = s.session_id
subscription_key by_client s = s.client_id
subscription_key by_channel s = s.channel
subscription_key by_client_channel s = (s.client_id, s.channel)
subscription_key by_session_client_channel s = (s.session_id, s.client_id, s.channel)

abbrev pub subscription_same : (i : SubscriptionTag) → SubscriptionKey i → SubscriptionKey i → Bool
subscription_same by_session a b = a == b
subscription_same by_client a b = a == b
subscription_same by_channel a b = str_eq a b
subscription_same by_client_channel a b = a.0 == b.0 && str_eq a.1 b.1
subscription_same by_session_client_channel a b = a.0 == b.0 && a.1 == b.1 && str_eq a.2 b.2

abbrev pub subscription_unique : SubscriptionTag → Bool
subscription_unique by_session_client_channel = true
subscription_unique _ = false

abbrev pub subscriptions_spec : Spec Subscription
subscriptions_spec = record {
  Tag = SubscriptionTag;
  tags = by_session ∷ by_client ∷ by_channel ∷ by_client_channel ∷ by_session_client_channel ∷ [];
  unique = subscription_unique;
  Key = SubscriptionKey;
  key = subscription_key;
  same = subscription_same;
}

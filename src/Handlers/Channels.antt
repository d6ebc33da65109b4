-- ===== src/Handlers/Channels.antt =====
-- subscribe_handler.cpp, unsubscribe_handler.cpp and is_subscribed_handler.cpp.

use state.Platform.{Platform}
use state.Request.{Request}
use state.Effects.{M, ◌>>=◌, ◌>>◌, pure, lift, when, on_world, get_world, switch}
use state.Params.{get_params, get_param_as_string, get_param_as_id}
use state.Notices.{next_plain, get_status}
use state.Validators.{subscriptions_validator, is_subscribed_validator}
use state.Store.{subscribe, unsubscribe, is_subscribed}
use state.Fanout.{subscribe_to_sessions, unsubscribe_to_sessions}

module _ ⦃p : Platform⦄ where
  unfoldable pub subscribe_handler : Request → M (Unit {0})
  subscribe_handler r = do
    valid ← subscriptions_validator r
    when valid (do
      params ← lift (get_params r)
      channel ← lift (get_param_as_string params "channel")
      switch r.context
          (do
            w ← get_world
            success ← on_world (subscribe w.id r.entity_id channel)
            next_plain r (get_status success "ok" "no effect")
            count ← on_world (subscribe_to_sessions r r.entity_id channel)
            pure tt)
          (do
            client_id ← lift (get_param_as_id params "client_id")
            success ← on_world (subscribe r.entity_id client_id channel)
            next_plain r (get_status success "ok" "no effect")))

  unfoldable pub unsubscribe_handler : Request → M (Unit {0})
  unsubscribe_handler r = do
    valid ← subscriptions_validator r
    when valid (do
      params ← lift (get_params r)
      channel ← lift (get_param_as_string params "channel")
      switch r.context
          (do
            w ← get_world
            success ← on_world (unsubscribe w.id r.entity_id channel)
            next_plain r (get_status success "ok" "no effect")
            count ← on_world (unsubscribe_to_sessions r r.entity_id channel)
            pure tt)
          (do
            client_id ← lift (get_param_as_id params "client_id")
            success ← on_world (unsubscribe r.entity_id client_id channel)
            next_plain r (get_status success "ok" "no effect")))

  unfoldable pub is_subscribed_handler : Request → M (Unit {0})
  is_subscribed_handler r = do
    valid ← is_subscribed_validator r
    when valid (do
      params ← lift (get_params r)
      channel ← lift (get_param_as_string params "channel")
      switch r.context
          (do
            w ← get_world
            next_plain r (get_status (is_subscribed r.entity_id channel w) "yes" "no"))
          (next_plain r "no effect"))

-- ===== src/Kernel/Rules.antt =====
-- Answers and validators change nothing but the response and the count of clock readings.
use state.Common.{Bool, String}
use state.Json.{Value}
use state.Platform.{Platform}
use state.World.{World}
use state.Request.{Request}
use state.Effects.{M, read_clock}
use state.Effects.Keeps.{
  switch-Keeps, IsPreorder, Keeps, keeping, bind-Keeps, then-Keeps, pure-Keeps, lift-Keeps,
  get_world-Keeps, on_response-Keeps, on_world-Keeps, when-Keeps,
}
use state.Notices.{next, mark_as_invalid}
use state.Validators.{
  require, require_field, both, id_validator, broadcast_validator, is_subscribed_validator,
  publish_validator, register_validator, send_validator, session_validator, subscriptions_validator,
}

module _ ⦃p : Platform⦄ where
  open p use {json.{Object}}

  module _ {R : World → World → Type 0} (o : IsPreorder R)
      (clock : (w : World) → R w (read_clock w).0) where
    pub next-Keeps : (r : Request) (s : String) (fs : Object) → Keeps R (next r s fs)
    unfolding next
    next-Keeps r s fs =
        bind-Keeps o (on_world-Keeps o read_clock clock) (λ now. on_response-Keeps o _)

    pub mark_as_invalid-Keeps : (r : Request) (s t : String) → Keeps R (mark_as_invalid r s t)
    unfolding mark_as_invalid
    mark_as_invalid-Keeps r s t = search (keeping, on_world-Keeps, clock)

    pub require-Keeps :
        (r : Request) (b : Bool) (s : String) {m : M Bool} → Keeps R m → Keeps R (require r b s m)
    unfolding require
    require-Keeps r b s h = search (keeping, mark_as_invalid-Keeps)

    pub id_validator-Keeps :
        (r : Request) (params : Object) (a : String) → Keeps R (id_validator r params a)
    unfolding id_validator
    id_validator-Keeps r params a = search (keeping, require-Keeps) depth 12

    pub require_field-Keeps :
        (r : Request) (params : Object) (name missing : String) (test : Value Object → Bool)
        (wrong : String) {m : M Bool}
        → Keeps R m
        → Keeps R (require_field r params name missing test wrong m)
    unfolding require_field
    require_field-Keeps r params name missing test wrong h = search (keeping, require-Keeps) depth 8

    pub both-Keeps : (a : Bool) {m : M Bool} → Keeps R m → Keeps R (both a m)
    unfolding both
    both-Keeps a h = search keeping

    pub broadcast_validator-Keeps : (r : Request) → Keeps R (broadcast_validator r)
    unfolding broadcast_validator
    broadcast_validator-Keeps r =
        search (keeping, switch-Keeps, require_field-Keeps, id_validator-Keeps) depth 12

    pub is_subscribed_validator-Keeps : (r : Request) → Keeps R (is_subscribed_validator r)
    unfolding is_subscribed_validator
    is_subscribed_validator-Keeps r = search (keeping, require_field-Keeps) depth 12

    pub publish_validator-Keeps : (r : Request) → Keeps R (publish_validator r)
    unfolding publish_validator
    publish_validator-Keeps r =
        search (keeping, switch-Keeps, require_field-Keeps, id_validator-Keeps) depth 12

    pub register_validator-Keeps : (r : Request) → Keeps R (register_validator r)
    unfolding register_validator
    register_validator-Keeps r = search (keeping, require_field-Keeps) depth 12

    pub send_validator-Keeps : (r : Request) → Keeps R (send_validator r)
    unfolding send_validator
    send_validator-Keeps r =
        search (keeping, switch-Keeps, require_field-Keeps, id_validator-Keeps, both-Keeps) depth 12

    pub session_validator-Keeps : (r : Request) → Keeps R (session_validator r)
    unfolding session_validator
    session_validator-Keeps r = search (keeping, require_field-Keeps) depth 12

    pub subscriptions_validator-Keeps : (r : Request) → Keeps R (subscriptions_validator r)
    unfolding subscriptions_validator
    subscriptions_validator-Keeps r =
        search (keeping, switch-Keeps, require_field-Keeps, id_validator-Keeps) depth 12

pub ruleset answering = (
  keeping, next-Keeps, mark_as_invalid-Keeps, broadcast_validator-Keeps,
  is_subscribed_validator-Keeps, publish_validator-Keeps, register_validator-Keeps,
  send_validator-Keeps, session_validator-Keeps, subscriptions_validator-Keeps, id_validator-Keeps,
)

-- ===== src/Validators/Judges.antt =====
-- What a validator refuses it answers, under the transaction id of the request
-- (src/objects/validators).
use state.Common.{String, Bool, inl, inr, ◌==◌, Bool-cases, ==_iff}
use state.Json.{Value}
use state.Platform.{Platform}
use state.Request.{Request}
use state.Response.{mark_as_failed, set_data}
use state.Effects.{M, ◌>>=◌, effects, read_clock}
use state.Effects.Settles.{
  Settles, Judges, pure-Judges, bind-Judges, switch-Judges, refused, both-Judges,
}
use state.Notices.{next, mark_as_invalid}
use state.Validators.{
  require, require_field, both, id_validator, broadcast_validator, is_subscribed_validator,
  publish_validator, register_validator, send_validator, session_validator, subscriptions_validator,
}

ruleset judging = (pure-Judges, bind-Judges, switch-Judges, refused)

module _ ⦃p : Platform⦄ where
  open p use {json.{Object, at?, at?-make}}

  module _ (r : Request) where
    abbrev pub Settled : M (Unit {0}) → Type 0
    Settled = Settles r.transaction_id

    abbrev pub Judged : M Bool → Type 0
    Judged = Judges r.transaction_id

    pub next-Settles : (s : String) (fs : Object) → Settled (next r s fs)
    unfolding next effects read_clock set_data
    next-Settles s fs = record {
      settled = λ f a e. record {
        transaction = inl (at?-make "transaction_id" _);
        action = at?-make "action" _;
      };
    }

    pub mark_as_invalid-Settles : (s text : String) → Settled (mark_as_invalid r s text)
    unfolding mark_as_invalid effects read_clock mark_as_failed
    mark_as_invalid-Settles s text = record {
      settled = λ f a e. elim (Bool-cases (r.transaction_id == 0)) [
        | inl nil ↦ record {
          transaction =
              inr (rw nil (at?-make "transaction_id" _), (==_iff r.transaction_id 0).0 nil);
          action = at?-make "action" _;
        }
        | inr other ↦ record {
          transaction = inl (rw other (at?-make "transaction_id" _));
          action = at?-make "action" _;
        }
      ];
    }

    require-Judges : (b : Bool) (s : String) {m : M Bool} → Judged m → Judged (require r b s m)
    unfolding require
    require-Judges b s h = search (refused, mark_as_invalid-Settles)

    pub id_validator-Judges : (params : Object) (a : String) → Judged (id_validator r params a)
    unfolding id_validator
    id_validator-Judges params a = search (judging, require-Judges) depth 12

    require_field-Judges :
        (params : Object) (name missing : String) (test : Value Object → Bool) (wrong : String)
        {m : M Bool}
        → Judged m
        → Judged (require_field r params name missing test wrong m)
    unfolding require_field
    require_field-Judges params name missing test wrong h = search (judging, require-Judges) depth 8

    both_ids-Judges :
        (params : Object) (a b : String)
        → Judged (id_validator r params a >>= λ valid. both valid (id_validator r params b))
    unfolding both
    both_ids-Judges params a b =
        both-Judges (id_validator-Judges params a) (id_validator-Judges params b)

    pub broadcast_validator-Judges : Judged (broadcast_validator r)
    unfolding broadcast_validator
    broadcast_validator-Judges =
        search (judging, require_field-Judges, id_validator-Judges) depth 16

    pub is_subscribed_validator-Judges : Judged (is_subscribed_validator r)
    unfolding is_subscribed_validator
    is_subscribed_validator-Judges = search (judging, require_field-Judges) depth 16

    pub publish_validator-Judges : Judged (publish_validator r)
    unfolding publish_validator
    publish_validator-Judges = search (judging, require_field-Judges, id_validator-Judges) depth 16

    pub register_validator-Judges : Judged (register_validator r)
    unfolding register_validator
    register_validator-Judges = search (judging, require_field-Judges) depth 16

    pub send_validator-Judges : Judged (send_validator r)
    unfolding send_validator
    send_validator-Judges =
        search (judging, require_field-Judges, id_validator-Judges, both_ids-Judges) depth 16

    pub session_validator-Judges : Judged (session_validator r)
    unfolding session_validator
    session_validator-Judges = search (judging, require_field-Judges) depth 16

    pub subscriptions_validator-Judges : Judged (subscriptions_validator r)
    unfolding subscriptions_validator
    subscriptions_validator-Judges =
        search (judging, require_field-Judges, id_validator-Judges) depth 16

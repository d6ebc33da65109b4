-- ===== src/Kernel.antt =====
-- src/objects/kernel.cpp: validation of a message and the dispatch on its action.
pub mod Rules
pub mod Messages
pub mod Actions
pub mod Errors
pub mod ClientStep
pub mod Client
pub mod Refusals
pub mod Answers
pub mod Ends
pub mod Membership
pub mod Channels
pub mod Peers
pub mod SessionStep
pub mod Session
pub mod Invariant
pub mod Closed
pub mod Relation
pub mod Preservation
use state.Common.{ℕ, false, String, [], ◌∷◌, none, some, str_eq, if◌then◌else◌}
use state.Json.{Value}
use state.Platform.{Platform}
use state.World.{World}
use state.Request.{Request, KernelContext}
use state.Response.{fresh, mark_as_ack, mark_as_processed, mark_as_failed}
use state.Effects.{
  M, Frame, Result, ◌>>=◌, ◌>>◌, lift, on_world, on_response, branch, if_found, read_clock,
}
use state.Params.{at, as_string, get_param_as_id}
use state.Validator.{validator, is_uuid}
use state.Handlers.Plain.{ping_handler, unimplemented_handler}
use state.Handlers.Channels.{subscribe_handler, unsubscribe_handler, is_subscribed_handler}
use state.Handlers.Delivery.{broadcast_handler, publish_handler, send_handler}
use state.Handlers.Membership.{join_handler, leave_handler, register_handler, session_handler}

module _ ⦃p : Platform⦄ where
  open p use {json.{Object, at?}}

  -- The chain of `else if` on the action.
  pub dispatch : String → Request → M (Unit {0})
  dispatch action r = branch (str_eq action "ping") (ping_handler r) (
      branch (str_eq action "send") (send_handler r) (
        branch (str_eq action "register") (register_handler r) (
          branch (str_eq action "session") (session_handler r) (
            branch (str_eq action "ack") (on_response mark_as_ack) (
              branch (str_eq action "subscribe") (subscribe_handler r) (
                branch (str_eq action "is_subscribed") (is_subscribed_handler r) (
                  branch (str_eq action "unsubscribe") (unsubscribe_handler r) (
                    branch (str_eq action "broadcast") (broadcast_handler r) (
                      branch (str_eq action "publish") (publish_handler r) (
                        branch (str_eq action "join") (join_handler r) (
                          branch (str_eq action "leave") (leave_handler r)
                            (unimplemented_handler r))))))))))))

  -- The transaction id of the answer to a message that failed validation; nil if it has none.
  unfoldable pub failed_transaction : Object → Result ℕ
  failed_transaction o = elim (at? "transaction_id" o) [
    | none ↦ Result.ok 0
    | some (Value.string s) ↦ if is_uuid s then get_param_as_id o "transaction_id" else Result.ok 0
    | _ ↦ Result.ok 0
  ]

  pub handle : Object → KernelContext → ℕ → ℕ → M (Unit {0})
  handle o context entity_id timestamp =
      if_found (validator o)
        (λ entry. do
          transaction_id ← lift (failed_transaction o)
          now ← on_world read_clock
          on_response
              (mark_as_failed transaction_id "unprocessable entity" timestamp (entry ∷ []) now))
        (do
          transaction_id ← lift (get_param_as_id o "transaction_id")
          v ← lift (at "action" o)
          action ← lift (as_string v)
          dispatch action (record {
            transaction_id = transaction_id;
            entity_id = entity_id;
            context = context;
            object = o;
            timestamp = timestamp;
            is_local = false;
          }))

  pub process : Object → KernelContext → ℕ → M (Unit {0})
  process o context entity_id = do
    timestamp ← on_world read_clock
    handle o context entity_id timestamp
    on_response mark_as_processed

  -- The call makes a response of its own, and returns it processed.
  pub kernel : Object → KernelContext → ℕ → World → Result (Unit {0}) × Frame
  kernel o context entity_id w =
      process o context entity_id (record { world = w; response = fresh })

-- ===== src/Kernel/Messages.antt =====
-- How the kernel takes a message whose header is well formed (src/objects/kernel.cpp).
use state.Common.{ℕ, suc, true, false, ◌≡◌, refl, ap, ◌∙◌, String, some, is_some}
use state.Json.{Value}
use state.Platform.{Platform}
use state.World.{World}
use state.Request.{Request, KernelContext}
use state.Response.{fresh, mark_as_processed}
use state.Effects.{Frame, Result, effects, chain, read_clock, on_response}
use state.Params.{get_param_as_id}
use state.Validator.{validator, check_action, check_transaction, check_uuid, is_uuid}
use state.Kernel.{dispatch, handle, process, kernel}

module _ ⦃p : Platform⦄ where
  open p use {
    json.{Object, at?},
    generate,
    lexical_cast,
    clock,
    uuid_to_string,
    generate-uuid_to_string,
    lexical_cast-uuid_to_string,
    c_str-uuid_to_string,
  }

  -- A message with an action and the usual spelling of a transaction id.
  pub record IsAddressed (o : Object) (action : String) (t : ℕ) : Type 0 where
    pub acts : at? "action" o ≡ some (Value.string action)
    pub transaction : at? "transaction_id" o ≡ some (Value.string (uuid_to_string t))

  -- The request and the frame that the kernel hands to a handler.
  abbrev pub request_of : Object → KernelContext → ℕ → ℕ → World → Request
  request_of o c entity t w = record {
    transaction_id = t;
    entity_id = entity;
    context = c;
    object = o;
    timestamp = clock w.readings;
    is_local = false;
  }

  abbrev pub frame_of : World → Frame
  frame_of w = record { world = record w { readings = suc w.readings }; response = fresh }

  -- After the handler the response is marked as processed, if the handler returns.
  abbrev pub finish : Result (Unit {0}) × Frame → Result (Unit {0}) × Frame
  finish x = chain x (λ _. on_response mark_as_processed)

  pub is_uuid-uuid_to_string : (t : ℕ) → is_uuid (uuid_to_string t) ≡ true
  unfolding is_uuid
  is_uuid-uuid_to_string t =
      ap is_some (ap generate (c_str-uuid_to_string t) ∙ generate-uuid_to_string t)

  pub kernel-dispatch :
      (o : Object) (action : String) (c : KernelContext) (entity t : ℕ) (w : World)
      → IsAddressed o action t
      → kernel o c entity w ≡ finish (dispatch action (request_of o c entity t w) (frame_of w))
  unfolding kernel process handle validator check_action check_transaction check_uuid effects
      get_param_as_id read_clock
  kernel-dispatch o action c entity t w h =
      rw (h.acts, h.transaction, is_uuid-uuid_to_string t, lexical_cast-uuid_to_string t) refl

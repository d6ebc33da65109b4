-- ===== src/Notices.antt =====
-- `next`, `mark_as_invalid` and `get_status` of src/objects/utils.cpp: how a handler answers.
use state.Common.{Bool, String, [], ◌∷◌, if◌then◌else◌}
use state.Platform.{Platform}
use state.Request.{Request}
use state.Response.{mark_as_failed, set_data}
use state.Effects.{M, ◌>>=◌, on_world, on_response, read_clock}

unfoldable pub get_status : Bool → String → String → String
get_status gate on_true on_false = if gate then on_true else on_false

module _ ⦃p : Platform⦄ where
  open p use {json.{Object, make}}

  -- With the fields given by `next`'s third argument.
  unfoldable pub next : Request → String → Object → M (Unit {0})
  next r status o = do
    now ← on_world read_clock
    on_response (set_data r.transaction_id status r.timestamp o now)

  -- The same with the argument left out.
  abbrev pub next_plain : Request → String → M (Unit {0})
  next_plain r status = next r status (make [])

  unfoldable pub mark_as_invalid : Request → String → String → M (Unit {0})
  mark_as_invalid r field argument = do
    now ← on_world read_clock
    on_response (
        mark_as_failed r.transaction_id "unprocessable entity" r.timestamp ((field, argument) ∷ [])
          now)

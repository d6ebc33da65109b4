-- ===== src/Handlers/Plain.antt =====
-- ping_handler.cpp and unimplemented_handler.cpp.
use state.Platform.{Platform}
use state.Request.{Request}
use state.Effects.{M}
use state.Notices.{next_plain, mark_as_invalid}

module _ ⦃p : Platform⦄ where
  unfoldable pub ping_handler : Request → M (Unit {0})
  ping_handler r = next_plain r "pong"

  unfoldable pub unimplemented_handler : Request → M (Unit {0})
  unimplemented_handler r = mark_as_invalid r "action" "action attribute isn't implemented"

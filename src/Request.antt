-- ===== src/Request.antt =====
-- src/include/aewt/request.hpp and kernel_context.hpp.
use state.Common.{ℕ, Bool}
use state.Platform.{Platform}

pub data KernelContext : Type 0 where
  on_session on_client : KernelContext

-- The response and the state, which the source holds by reference, are threaded by `Effects`.
pub record Request ⦃p : Platform⦄ : Type 0 where
  pub transaction_id : ℕ
  pub entity_id : ℕ
  pub context : KernelContext
  pub object : p.Object
  pub timestamp : ℕ
  pub is_local : Bool

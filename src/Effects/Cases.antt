-- ===== src/Effects/Cases.antt =====
-- Which case of a `switch` or an `if` a call takes.
use state.Common.{◌≡◌, refl, some}
use state.Platform.{Platform}
use state.Request.{KernelContext, on_client, on_session}
use state.Effects.{M, switch, if_found}

module _ ⦃p : Platform⦄ {A : Type 0} where
  pub switch-on_client : (c : KernelContext) (m n : M A) → c ≡ on_client → switch c m n ≡ m
  unfolding switch
  switch-on_client on_client m n e = refl
  switch-on_client on_session m n e = cc

  pub switch-on_session : (c : KernelContext) (m n : M A) → c ≡ on_session → switch c m n ≡ n
  unfolding switch
  switch-on_session on_session m n e = refl
  switch-on_session on_client m n e = cc

  pub if_found-some : {B : Type 0} (b : B) (k : B → M A) (m : M A) → if_found (some b) k m ≡ k b
  unfolding if_found
  if_found-some b k m = refl

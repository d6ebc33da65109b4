-- ===== src/Effects/Ends.antt =====
-- That a call returns or throws: one rule for each way to build a call.
use state.Common.{Bool, true, false, Option, none, some, ◌≡◌, ◌≢◌, refl}
use state.Platform.{Platform}
use state.Request.{KernelContext, on_client, on_session}
use state.World.{World}
use state.Response.{Response}
use state.Effects.{
  Result, ok, throw, hangs, Exception, Frame, M, chain, ◌>>=◌, ◌>>◌, pure, lift, when, on_world,
  on_response, get_world, switch, branch, if_found,
}

pub data Ended {ℓ} {A : Type ℓ} : Result A → Type ℓ where
  returned : (a : A) → Ended (ok a)
  thrown : (e : Exception) → Ended (throw e)

pub Ended-hangs {ℓ} : {A : Type ℓ} {r : Result A} → Ended r → r ≢ hangs
Ended-hangs (returned a) e = cc
Ended-hangs (thrown x) e = cc

module _ ⦃p : Platform⦄ where
  -- Run on any frame, the call ends.
  pub record Ends {A : Type 0} (m : M A) : Type 0 where
    pub ended : (f : Frame) → Ended (m f).0

  chain-Ended :
      {A B : Type 0} (r : Result A × Frame) (k : A → M B)
      → Ended r.0
      → ((a : A) → Ends (k a))
      → Ended (chain r k).0
  chain-Ended (ok a, f) k h ks = (ks a).ended f
  chain-Ended (throw e, f) k h ks = thrown e
  chain-Ended (hangs, f) k h ks = absurd (Ended-hangs h refl)

  pub bind-Ends :
      {A B : Type 0} {m : M A} {k : A → M B} → Ends m → ((a : A) → Ends (k a)) → Ends (m >>= k)
  unfolding ◌>>=◌
  bind-Ends {m} {k} h ks = record { ended = λ f. chain-Ended (m f) k (h.ended f) ks }

  pub then-Ends : {B : Type 0} {m : M (Unit {0})} {n : M B} → Ends m → Ends n → Ends (m >> n)
  unfolding ◌>>◌
  then-Ends {m} {n} h k = record { ended = λ f. chain-Ended (m f) (λ _. n) (h.ended f) (λ _. k) }

  pub pure-Ends : {A : Type 0} (a : A) → Ends (pure a)
  unfolding pure
  pure-Ends a = record { ended = λ f. returned a }

  pub lift-Ends : {A : Type 0} {r : Result A} → Ended r → Ends (lift r)
  unfolding lift
  lift-Ends h = record { ended = λ f. h }

  pub get_world-Ends : Ends get_world
  unfolding get_world
  get_world-Ends = record { ended = λ f. returned f.world }

  pub on_response-Ends : (g : Response → Response) → Ends (on_response g)
  unfolding on_response
  on_response-Ends g = record { ended = λ f. returned tt }

  pub on_world-Ends : {A : Type 0} (g : World → World × A) → Ends (on_world g)
  unfolding on_world
  on_world-Ends g = record { ended = λ f. returned (g f.world).1 }

  pub when-Ends : (b : Bool) {m : M (Unit {0})} → Ends m → Ends (when b m)
  unfolding when
  when-Ends true h = record { ended = λ f. h.ended f }
  when-Ends false h = record { ended = λ f. returned tt }

  pub branch-Ends : {A : Type 0} (b : Bool) {m n : M A} → Ends m → Ends n → Ends (branch b m n)
  unfolding branch
  branch-Ends true h k = record { ended = λ f. h.ended f }
  branch-Ends false h k = record { ended = λ f. k.ended f }

  pub if_found-Ends :
      {A B : Type 0} (x : Option A) {k : A → M B} {m : M B}
      → ((a : A) → Ends (k a))
      → Ends m
      → Ends (if_found x k m)
  unfolding if_found
  if_found-Ends (some a) h k = record { ended = λ f. (h a).ended f }
  if_found-Ends none h k = record { ended = λ f. k.ended f }

  pub switch-Ends :
      {A : Type 0} (c : KernelContext) {m n : M A} → Ends m → Ends n → Ends (switch c m n)
  unfolding switch
  switch-Ends on_client h k = record { ended = λ f. h.ended f }
  switch-Ends on_session h k = record { ended = λ f. k.ended f }

  -- The case of a client only, where that is the context.
  pub switch_client_Ends :
      {A : Type 0} (c : KernelContext) {m : M A} (n : M A)
      → c ≡ on_client
      → Ends m
      → Ends (switch c m n)
  unfolding switch
  switch_client_Ends on_client n e h = record { ended = λ f. h.ended f }
  switch_client_Ends on_session n e h = cc

pub ruleset ending = (
  bind-Ends, then-Ends, pure-Ends, lift-Ends, get_world-Ends, on_response-Ends, on_world-Ends,
  when-Ends, branch-Ends, if_found-Ends, returned, thrown,
)

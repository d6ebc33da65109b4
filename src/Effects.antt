-- ===== src/Effects.antt =====
-- Calls that change the state and the response, and that may throw.
pub mod Keeps
pub mod Cases
pub mod Ends
pub mod Settles
use state.Common.{ℕ, suc, Bool, true, false, Option, some, none}
use state.Platform.{Platform}
use state.Request.{KernelContext, on_client, on_session}
use state.World.{World}
use state.Response.{Response}

-- The exception of `at` for a missing key, the `system_error` of `as_string` and its like,
-- `boost::bad_lexical_cast`, the `system_error` of `resolve` and of `make_address`, and the
-- `std::length_error` of `reserve`, and the `system_error` of `remote_endpoint`.
pub data Exception : Type 0 where
  out_of_range wrong_kind bad_lexical_cast host_not_found bad_address length_error : Exception
  not_connected : Exception

-- `hangs` is a call that never returns.
pub data Result {ℓ} (A : Type ℓ) : Type ℓ where
  ok : A → Result A
  throw : Exception → Result A
  hangs : Result A

pub record Frame ⦃p : Platform⦄ : Type 0 where
  pub world : World
  pub response : Response

module _ ⦃p : Platform⦄ where
  open p use {clock, random}

  abbrev pub M : Type 0 → Type 0
  M A = Frame → Result A × Frame

  abbrev pub chain : {A B : Type 0} → Result A × Frame → (A → M B) → Result B × Frame
  chain (ok a, f) k = k a f
  chain (throw e, f) k = (throw e, f)
  chain (hangs, f) k = (hangs, f)

  infixl 5 ◌>>=◌ ◌>>◌
  pub ◌>>=◌ : {A B : Type 0} → M A → (A → M B) → M B
  ◌>>=◌ m k f = chain (m f) k

  pub ◌>>◌ : {B : Type 0} → M (Unit {0}) → M B → M B
  ◌>>◌ m n f = chain (m f) (λ _. n)

  pub pure : {A : Type 0} → A → M A
  pure a f = (ok a, f)

  pub lift : {A : Type 0} → Result A → M A
  lift r f = (r, f)

  pub when : Bool → M (Unit {0}) → M (Unit {0})
  when true m f = m f
  when false m f = (ok tt, f)

  -- A member function of the state object.
  pub on_world : {A : Type 0} → (World → World × A) → M A
  on_world g f = let r = g f.world in (ok r.1, record f { world = r.0 })

  pub on_response : (Response → Response) → M (Unit {0})
  on_response g f = (ok tt, record f { response = g f.response })

  pub get_world : M World
  get_world f = (ok f.world, f)

  -- `switch (request.context_)`: the case of a client, then that of a session.
  pub switch : {A : Type 0} → KernelContext → M A → M A → M A
  switch on_client m n = m
  switch on_session m n = n

  -- `if (_x.has_value()) … else …`
  pub if_found : {A B : Type 0} → Option A → (A → M B) → M B → M B
  if_found (some a) k m = k a
  if_found none k m = m

  -- `if … else …`, on calls.
  unfoldable pub branch : {A : Type 0} → Bool → M A → M A → M A
  branch true m n = m
  branch false m n = n

  -- Opens all of these in a proof.
  unfoldable pub effects : Unit {0}
  unfolding ◌>>=◌ ◌>>◌ pure lift when on_world on_response get_world switch if_found branch
  effects = tt

  -- One reading of the clock, one draw of the random generator.
  unfoldable pub read_clock : World → World × ℕ
  read_clock w = (record w { readings = suc w.readings }, clock w.readings)

  unfoldable pub draw : World → World × ℕ
  draw w = (record w { draws = suc w.draws }, random w.draws)

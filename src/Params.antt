-- ===== src/Params.antt =====
-- The readers of src/objects/utils.cpp: a field of the parameters as a value of a given kind. `at`
-- throws on a missing key, `as_string` and the others on a value of another kind.
pub mod Laws
pub mod Ends
use state.Common.{ℕ, ℤ, pos, negsuc, suc, ◌-◌, Bool, String, Option, none, some}
use state.Json.{Value}
use state.Platform.{Platform}
use state.Request.{Request}
use state.Effects.{Result, ok, throw, hangs, out_of_range, wrong_kind, bad_lexical_cast}
use state.Fanout.{size_mod}

-- Binds a result of which the next step reads the value.
infixl 5 ◌>>=◌
abbrev pub ◌>>=◌ {ℓ κ} : {A : Type ℓ} {B : Type κ} → Result A → (A → Result B) → Result B
ok a >>= f = f a
throw e >>= f = throw e
hangs >>= f = hangs

abbrev pub or_throw {ℓ} : {A : Type ℓ} → Option A → Result A → Result A
or_throw (some a) e = ok a
or_throw none e = e

module _ {O : Type 0} where
  abbrev pub as_string : Value O → Result String
  as_string (Value.string s) = ok s
  as_string _ = throw wrong_kind

  abbrev pub as_object : Value O → Result O
  as_object (Value.object o) = ok o
  as_object _ = throw wrong_kind

  abbrev pub as_bool : Value O → Result Bool
  as_bool (Value.boolean b) = ok b
  as_bool _ = throw wrong_kind

  abbrev pub as_int64 : Value O → Result ℤ
  as_int64 (Value.int64 z) = ok z
  as_int64 _ = throw wrong_kind

-- The conversion of an `int64_t` to `std::size_t`.
abbrev pub to_size : ℤ → ℕ
to_size (pos n) = n
to_size (negsuc n) = size_mod - suc n

module _ ⦃p : Platform⦄ where
  open p use {json.{Object, at?}, lexical_cast}

  -- `object::at`
  abbrev pub at : String → Object → Result (Value Object)
  at k o = or_throw (at? k o) (throw out_of_range)

  pub get_param_as_string : Object → String → Result String
  get_param_as_string params field = do v ← at field params; as_string v

  pub get_param_as_number : Object → String → Result ℕ
  get_param_as_number params field = do v ← at field params; z ← as_int64 v; ok (to_size z)

  pub get_param_as_bool : Object → String → Result Bool
  get_param_as_bool params field = do v ← at field params; as_bool v

  pub get_param_as_object : Object → String → Result Object
  get_param_as_object params field = do v ← at field params; as_object v

  unfoldable pub get_param_as_id : Object → String → Result ℕ
  get_param_as_id params field = do
    v ← at field params
    s ← as_string v
    or_throw (lexical_cast s) (throw bad_lexical_cast)

  unfoldable pub get_params_as_value : Request → Result (Value Object)
  get_params_as_value r = at "params" r.object

  unfoldable pub get_params : Request → Result Object
  get_params r = do v ← at "params" r.object; as_object v

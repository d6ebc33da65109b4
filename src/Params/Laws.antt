-- ===== src/Params/Laws.antt =====
-- What the readers return for a field of the right kind.
use state.Common.{ℕ, ◌≡◌, String, some}
use state.Json.{Value}
use state.Platform.{Platform}
use state.Request.{Request}
use state.Effects.{ok}
use state.Params.{
  get_params, get_params_as_value, get_param_as_string, get_param_as_object, get_param_as_id,
}

module _ ⦃p : Platform⦄ where
  open p use {json.{Object, at?}, lexical_cast}

  pub get_params_lem :
      (r : Request) (ps : Object)
      → at? "params" r.object ≡ some (Value.object ps)
      → get_params r ≡ ok ps
  unfolding get_params
  get_params_lem r ps e = rw e

  pub get_params_as_value_lem :
      (r : Request) (v : Value Object)
      → at? "params" r.object ≡ some v
      → get_params_as_value r ≡ ok v
  unfolding get_params_as_value
  get_params_as_value_lem r v e = rw e

  module _ (o : Object) (k : String) where
    pub get_param_as_string_lem :
        (s : String) → at? k o ≡ some (Value.string s) → get_param_as_string o k ≡ ok s
    unfolding get_param_as_string
    get_param_as_string_lem s e = rw e

    pub get_param_as_object_lem :
        (d : Object) → at? k o ≡ some (Value.object d) → get_param_as_object o k ≡ ok d
    unfolding get_param_as_object
    get_param_as_object_lem d e = rw e

    pub get_param_as_id_lem :
        (s : String) (u : ℕ)
        → at? k o ≡ some (Value.string s)
        → lexical_cast s ≡ some u
        → get_param_as_id o k ≡ ok u
    unfolding get_param_as_id
    get_param_as_id_lem s u e l = rw (e, l)

-- ===== src/Validators.antt =====
-- src/objects/validators/*.cpp: the checks of the parameters, one validator for each kind of
-- request. A validator that refuses marks the response as failed and returns false.
pub mod Laws
pub mod Schema
pub mod Judges
use Prim.Native.String.{◌++◌}
use state.Common.{Bool, true, false, String, is_some}
use state.Json.{Value, is_string, is_number, is_bool, is_object}
use state.Platform.{Platform}
use state.Request.{Request, on_session, on_client}
use state.Effects.{M, ◌>>=◌, ◌>>◌, pure, lift, switch, branch}
use state.Params.{at, as_string, as_object, get_params_as_value}
use state.Validator.{is_uuid}
use state.Notices.{mark_as_invalid}

module _ ⦃p : Platform⦄ where
  open p use {json.{Object, at?}}

  -- `object::contains`
  abbrev pub contains : Object → String → Bool
  contains o k = is_some (at? k o)

  -- `if (!test) { mark_as_invalid(request, "params", message); return false; }`, then the rest.
  unfoldable pub require : Request → Bool → String → M Bool → M Bool
  require r test message rest = branch test rest (do mark_as_invalid r "params" message; pure false)

  -- The two `if`s that all validators make of a field.
  unfoldable pub require_field :
      Request → Object → String → String → (Value Object → Bool) → String → M Bool → M Bool
  require_field r params name missing test wrong rest =
      require r (contains params name) missing
        (do v ← lift (at name params); require r (test v) wrong rest)

  -- `a && b` on calls: the second is made only if the first holds.
  unfoldable pub both : Bool → M Bool → M Bool
  both a m = branch a m (pure false)

  unfoldable pub id_validator : Request → Object → String → M Bool
  id_validator r params attribute =
      require r (contains params attribute) ("params " ++ attribute ++ " attribute must be present")
        (do
          v ← lift (at attribute params)
          require r (is_string v) ("params " ++ attribute ++ " attribute must be string") (do
            s ← lift (as_string v)
            require r (is_uuid s) ("params " ++ attribute ++ " attribute must be uuid")
                (pure true)))

  unfoldable pub broadcast_validator : Request → M Bool
  broadcast_validator r = do
    v ← lift (get_params_as_value r)
    params ← lift (as_object v)
    require_field r params "payload" "params payload attribute must be present" is_object
        "params payload attribute must be object"
        (switch r.context (pure true) (id_validator r params "client_id"))

  unfoldable pub is_subscribed_validator : Request → M Bool
  is_subscribed_validator r = do
    v ← lift (get_params_as_value r)
    params ← lift (as_object v)
    require_field r params "channel" "params channel attribute must be present" is_string
        "params channel attribute must be string" (pure true)

  unfoldable pub publish_validator : Request → M Bool
  publish_validator r = do
    v ← lift (get_params_as_value r)
    params ← lift (as_object v)
    require_field r params "channel" "params channel attribute must be present" is_string
        "params channel attribute must be string"
        (require_field r params "payload" "params payload attribute must be present" is_object
          "params payload attribute must be object"
          (switch r.context (pure true) (id_validator r params "client_id")))

  unfoldable pub register_validator : Request → M Bool
  register_validator r = do
    v ← lift (get_params_as_value r)
    params ← lift (as_object v)
    require_field r params "sessions_port" "params sessions_port attribute must be present"
        is_number "params sessions_port attribute must be number"
        (require_field r params "clients_port" "params clients_port attribute must be present"
          is_number "params clients_port attribute must be number"
          (require_field r params "registered" "params registered attribute must be present" is_bool
            "params registered attribute must be boolean" (pure true)))

  unfoldable pub send_validator : Request → M Bool
  send_validator r = do
    v ← lift (get_params_as_value r)
    params ← lift (as_object v)
    require_field r params "payload" "params payload attribute must be present" is_object
        "params payload attribute must be object"
        (switch r.context (id_validator r params "to_client_id") (do
          from ← id_validator r params "from_client_id"
          both from (id_validator r params "to_client_id")))

  unfoldable pub session_validator : Request → M Bool
  session_validator r = do
    v ← lift (get_params_as_value r)
    params ← lift (as_object v)
    require_field r params "host" "params host attribute must be present" is_string
        "params host attribute must be string"
        (require_field r params "sessions_port" "params sessions_port attribute must be present"
          is_number "params sessions_port attribute must be number"
          (require_field r params "clients_port" "params clients_port attribute must be present"
            is_number "params clients_port attribute must be number" (pure true)))

  unfoldable pub subscriptions_validator : Request → M Bool
  subscriptions_validator r = do
    v ← lift (get_params_as_value r)
    params ← lift (as_object v)
    require_field r params "channel" "params channel attribute must be present" is_string
        "params channel attribute must be string"
        (switch r.context (pure true) (id_validator r params "client_id"))

-- ===== src/Validators/Schema.antt =====
-- The checks of src/objects/validators as a table: for each request the fields that its parameters
-- must have, in the order in which they are looked at, and the kind of each.
use Prim.Native.String.{◌++◌}
use state.Common.{
  Bool, true, false, Bool-cases, Option-cases, inl, inr, ◌≡◌, refl, String, List, [], ◌∷◌, Option,
  none, some, if◌then◌else◌,
}
use state.Json.{Value, is_string, is_number, is_bool, is_object}
use state.Platform.{Platform}
use state.Request.{Request, KernelContext, on_client, on_session}
use state.Effects.{M, Result, Frame, ok, effects, ◌>>=◌, pure, switch}
use state.Params.Laws.{get_params_as_value_lem}
use state.Notices.{mark_as_invalid}
use state.Validator.{is_uuid}
use state.Validators.{
  require, require_field, both, id_validator, broadcast_validator, is_subscribed_validator,
  publish_validator, register_validator, send_validator, session_validator, subscriptions_validator,
}

pub data Kind : Type 0 where
  text number boolean structure uuid : Kind

-- A field and its kind.
abbrev pub Rule : Type 0
Rule = String × Kind

-- The requests that have a validator.
pub data Validated : Type 0 where
  broadcast is_subscribed publish register send session subscriptions : Validated

-- A session names the client that its message is about; a client is that client.
abbrev pub client_rules : KernelContext → List Rule
client_rules on_client = []
client_rules on_session = ("client_id", uuid) ∷ []

abbrev pub send_rules : KernelContext → List Rule
send_rules on_client = ("to_client_id", uuid) ∷ []
send_rules on_session = ("from_client_id", uuid) ∷ ("to_client_id", uuid) ∷ []

abbrev pub schema : Validated → KernelContext → List Rule
schema broadcast c = ("payload", structure) ∷ client_rules c
schema is_subscribed c = ("channel", text) ∷ []
schema publish c = ("channel", text) ∷ ("payload", structure) ∷ client_rules c
schema register c =
    ("sessions_port", number) ∷ ("clients_port", number) ∷ ("registered", boolean) ∷ []
schema send c = ("payload", structure) ∷ send_rules c
schema session c = ("host", text) ∷ ("sessions_port", number) ∷ ("clients_port", number) ∷ []
schema subscriptions c = ("channel", text) ∷ client_rules c

abbrev pub complaint : String → String → String
complaint name what = "params " ++ name ++ " attribute must be " ++ what

abbrev pub or_else : Option String → Option String → Option String
or_else none y = y
or_else (some s) y = some s

module _ ⦃p : Platform⦄ where
  open p use {json.{Object, at?}}

  -- What is wrong with the value of a field.
  abbrev pub wrong_value : Kind → String → Value Object → Option String
  wrong_value text name v = if is_string v then none else some (complaint name "string")
  wrong_value number name v = if is_number v then none else some (complaint name "number")
  wrong_value boolean name v = if is_bool v then none else some (complaint name "boolean")
  wrong_value structure name v = if is_object v then none else some (complaint name "object")
  wrong_value uuid name (Value.string s) = if is_uuid s then none else some (complaint name "uuid")
  wrong_value uuid name _ = some (complaint name "string")

  abbrev pub broken : Rule → Option (Value Object) → Option String
  broken (name, kind) none = some (complaint name "present")
  broken (name, kind) (some v) = wrong_value kind name v

  -- The first rule that the parameters break.
  abbrev pub first_broken : List Rule → Object → Option String
  first_broken [] ps = none
  first_broken ((name, kind) ∷ rules) ps =
      or_else (broken (name, kind) (at? name ps)) (first_broken rules ps)

  abbrev pub validate : Validated → Request → M Bool
  validate broadcast = broadcast_validator
  validate is_subscribed = is_subscribed_validator
  validate publish = publish_validator
  validate register = register_validator
  validate send = send_validator
  validate session = session_validator
  validate subscriptions = subscriptions_validator

  module _ (r : Request) where
    -- A validator that found no fault changes nothing; else it marks the response with the fault.
    abbrev pub judged : Option String → Frame → Result Bool × Frame
    judged none f = (ok true, f)
    judged (some fault) f = (ok false, (mark_as_invalid r "params" fault f).1)

    module _ (ps : Object) where
      field_judged :
          (name : String) (kind : Kind) (test : Value Object → Bool) (fault : String)
          (rest : M Bool) (v : Option String) (f : Frame)
          → ((x : Value Object) → wrong_value kind name x ≡ (if test x then none else some fault))
          → rest f ≡ judged v f
          → require_field r ps name (complaint name "present") test fault rest f
            ≡ judged (or_else (broken (name, kind) (at? name ps)) v) f
      unfolding require_field require effects mark_as_invalid
      field_judged name kind test fault rest v f wrong e = elim (Option-cases (at? name ps)) [
        | inl absent ↦ rw absent refl
        | inr (x, present) ↦ elim (Bool-cases (test x)) [
          | inl good ↦ rw (present, wrong x, good) e
          | inr bad ↦ rw (present, wrong x, bad) refl
        ]
      ]

      id_judged :
          (name : String) (f : Frame)
          → id_validator r ps name f ≡ judged (first_broken ((name, uuid) ∷ []) ps) f
      unfolding id_validator require effects mark_as_invalid
      id_judged name f = elim (Option-cases (at? name ps)) [
        | inl absent ↦ rw absent refl
        | inr (Value.string s, e) ↦ elim (Bool-cases (is_uuid s)) [
          | inl good ↦ rw (e, good) refl
          | inr bad ↦ rw (e, bad) refl
        ]
        | inr (Value.null, e) ↦ rw e refl
        | inr (Value.double, e) ↦ rw e refl
        | inr (Value.array, e) ↦ rw e refl
        | inr (Value.boolean b, e) ↦ rw e refl
        | inr (Value.int64 z, e) ↦ rw e refl
        | inr (Value.uint64 n, e) ↦ rw e refl
        | inr (Value.object d, e) ↦ rw e refl
      ]

      both-judged :
          (m n : M Bool) (x y : Option String) (f : Frame)
          → m f ≡ judged (or_else x none) f
          → ((g : Frame) → n g ≡ judged y g)
          → (m >>= λ b. both b n) f ≡ judged (or_else x y) f
      unfolding both effects
      both-judged m n none y f e h = rw e (h f)
      both-judged m n (some s) y f e h = rw e refl

      client_judged :
          (c : KernelContext) (f : Frame)
          → switch c (pure true) (id_validator r ps "client_id") f
            ≡ judged (first_broken (client_rules c) ps) f
      unfolding effects
      client_judged on_client f = refl
      client_judged on_session f = id_judged "client_id" f

      send_judged :
          (c : KernelContext) (f : Frame)
          → switch c
              (id_validator r ps "to_client_id")
              (do
                from ← id_validator r ps "from_client_id"
                both from (id_validator r ps "to_client_id"))
              f
            ≡ judged (first_broken (send_rules c) ps) f
      unfolding effects
      send_judged on_client f = id_judged "to_client_id" f
      send_judged on_session f =
          both-judged (id_validator r ps "from_client_id") (id_validator r ps "to_client_id") _ _ f
            (id_judged "from_client_id" f) (id_judged "to_client_id")

      -- A validator, given parameters, is the check of a table: it passes without a change if the
      -- parameters keep the rules of its request in its context; else it fails, and marks the response
      -- as unprocessable with the first rule that they break.
      pub validate-schema :
          (v : Validated) (f : Frame)
          → at? "params" r.object ≡ some (Value.object ps)
          → validate v r f ≡ judged (first_broken (schema v r.context) ps) f
      unfolding broadcast_validator is_subscribed_validator publish_validator register_validator
          send_validator session_validator subscriptions_validator effects
      validate-schema broadcast f e = rw (get_params_as_value_lem r _ e) (
          field_judged "payload" structure is_object _ _ _ f (λ x. refl)
            (client_judged r.context f))
      validate-schema is_subscribed f e =
          rw (get_params_as_value_lem r _ e)
            (field_judged "channel" text is_string _ _ none f (λ x. refl) refl)
      validate-schema publish f e = rw (get_params_as_value_lem r _ e) (
          field_judged "channel" text is_string _ _ _ f (λ x. refl)
            (field_judged "payload" structure is_object _ _ _ f (λ x. refl)
              (client_judged r.context f)))
      validate-schema register f e = rw (get_params_as_value_lem r _ e) (
          field_judged "sessions_port" number is_number _ _ _ f (λ x. refl)
            (field_judged "clients_port" number is_number _ _ _ f (λ x. refl)
              (field_judged "registered" boolean is_bool _ _ none f (λ x. refl) refl)))
      validate-schema send f e =
          rw (get_params_as_value_lem r _ e) (
            field_judged "payload" structure is_object _ _ _ f (λ x. refl)
              (send_judged r.context f))
      validate-schema session f e = rw (get_params_as_value_lem r _ e) (
          field_judged "host" text is_string _ _ _ f (λ x. refl)
            (field_judged "sessions_port" number is_number _ _ _ f (λ x. refl)
              (field_judged "clients_port" number is_number _ _ none f (λ x. refl) refl)))
      validate-schema subscriptions f e =
          rw (get_params_as_value_lem r _ e)
            (field_judged "channel" text is_string _ _ _ f (λ x. refl) (client_judged r.context f))

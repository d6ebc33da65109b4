-- ===== src/Params/Ends.antt =====
-- The readers of src/objects/utils.cpp return or throw.
use state.Common.{String, Option, none, some, Bool, true, false, if◌then◌else◌}
use state.Json.{Value}
use state.Platform.{Platform}
use state.Request.{Request}
use state.Effects.{Result, throw, Exception, out_of_range, wrong_kind, bad_lexical_cast}
use state.Effects.Ends.{Ended, returned, thrown}
use state.Params.{
  at, as_string, as_object, as_bool, as_int64, to_size, or_throw, ◌>>=◌, get_params,
  get_params_as_value, get_param_as_string, get_param_as_number, get_param_as_bool,
  get_param_as_object, get_param_as_id,
}

then-Ended {ℓ κ} :
    {A : Type ℓ} {B : Type κ} {r : Result A} {f : A → Result B}
    → Ended r
    → ((a : A) → Ended (f a))
    → Ended (r >>= f)
then-Ended (returned a) h = h a
then-Ended (thrown e) h = thrown e

or_throw-Ended {ℓ} : {A : Type ℓ} (x : Option A) (e : Exception) → Ended (or_throw x (throw e))
or_throw-Ended none e = thrown e
or_throw-Ended (some a) e = returned a

pub if-Ended {ℓ} :
    {A : Type ℓ} (b : Bool) {r s : Result A} → Ended r → Ended s → Ended (if b then r else s)
if-Ended true h k = h
if-Ended false h k = k

module _ {O : Type 0} where
  pub as_string-Ended : (v : Value O) → Ended (as_string v)
  as_string-Ended Value.null = thrown wrong_kind
  as_string-Ended Value.double = thrown wrong_kind
  as_string-Ended Value.array = thrown wrong_kind
  as_string-Ended (Value.boolean b) = thrown wrong_kind
  as_string-Ended (Value.int64 z) = thrown wrong_kind
  as_string-Ended (Value.uint64 n) = thrown wrong_kind
  as_string-Ended (Value.string s) = returned s
  as_string-Ended (Value.object o) = thrown wrong_kind

  pub as_object-Ended : (v : Value O) → Ended (as_object v)
  as_object-Ended Value.null = thrown wrong_kind
  as_object-Ended Value.double = thrown wrong_kind
  as_object-Ended Value.array = thrown wrong_kind
  as_object-Ended (Value.boolean b) = thrown wrong_kind
  as_object-Ended (Value.int64 z) = thrown wrong_kind
  as_object-Ended (Value.uint64 n) = thrown wrong_kind
  as_object-Ended (Value.string s) = thrown wrong_kind
  as_object-Ended (Value.object o) = returned o

  pub as_bool-Ended : (v : Value O) → Ended (as_bool v)
  as_bool-Ended Value.null = thrown wrong_kind
  as_bool-Ended Value.double = thrown wrong_kind
  as_bool-Ended Value.array = thrown wrong_kind
  as_bool-Ended (Value.boolean b) = returned b
  as_bool-Ended (Value.int64 z) = thrown wrong_kind
  as_bool-Ended (Value.uint64 n) = thrown wrong_kind
  as_bool-Ended (Value.string s) = thrown wrong_kind
  as_bool-Ended (Value.object o) = thrown wrong_kind

  pub as_int64-Ended : (v : Value O) → Ended (as_int64 v)
  as_int64-Ended Value.null = thrown wrong_kind
  as_int64-Ended Value.double = thrown wrong_kind
  as_int64-Ended Value.array = thrown wrong_kind
  as_int64-Ended (Value.boolean b) = thrown wrong_kind
  as_int64-Ended (Value.int64 z) = returned z
  as_int64-Ended (Value.uint64 n) = thrown wrong_kind
  as_int64-Ended (Value.string s) = thrown wrong_kind
  as_int64-Ended (Value.object o) = thrown wrong_kind

module _ ⦃p : Platform⦄ where
  open p use {json.{Object, at?}, lexical_cast}

  pub at-Ended : (k : String) (o : Object) → Ended (at k o)
  at-Ended k o = or_throw-Ended (at? k o) out_of_range

  pub get_params-Ended : (r : Request) → Ended (get_params r)
  unfolding get_params
  get_params-Ended r = then-Ended (at-Ended "params" r.object) as_object-Ended

  pub get_params_as_value-Ended : (r : Request) → Ended (get_params_as_value r)
  unfolding get_params_as_value
  get_params_as_value-Ended r = at-Ended "params" r.object

  pub get_param_as_string-Ended : (o : Object) (k : String) → Ended (get_param_as_string o k)
  unfolding get_param_as_string
  get_param_as_string-Ended o k = then-Ended (at-Ended k o) as_string-Ended

  pub get_param_as_number-Ended : (o : Object) (k : String) → Ended (get_param_as_number o k)
  unfolding get_param_as_number
  get_param_as_number-Ended o k =
      then-Ended (at-Ended k o) (λ v. then-Ended (as_int64-Ended v) (λ z. returned (to_size z)))

  pub get_param_as_bool-Ended : (o : Object) (k : String) → Ended (get_param_as_bool o k)
  unfolding get_param_as_bool
  get_param_as_bool-Ended o k = then-Ended (at-Ended k o) as_bool-Ended

  pub get_param_as_object-Ended : (o : Object) (k : String) → Ended (get_param_as_object o k)
  unfolding get_param_as_object
  get_param_as_object-Ended o k = then-Ended (at-Ended k o) as_object-Ended

  pub get_param_as_id-Ended : (o : Object) (k : String) → Ended (get_param_as_id o k)
  unfolding get_param_as_id
  get_param_as_id-Ended o k =
      then-Ended (at-Ended k o) (λ v.
        then-Ended (as_string-Ended v) (λ s. or_throw-Ended (lexical_cast s) bad_lexical_cast))

pub ruleset reading = (
  if-Ended, as_string-Ended, as_object-Ended, at-Ended, get_params-Ended, get_params_as_value-Ended,
  get_param_as_string-Ended, get_param_as_number-Ended, get_param_as_bool-Ended,
  get_param_as_object-Ended, get_param_as_id-Ended,
)

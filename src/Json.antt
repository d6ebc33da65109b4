-- ===== src/Json.antt =====
-- Boost.JSON as the program uses it. The library is not part of the repository: objects, the
-- parser and the serialiser are an interface, `Value` is what the program reads of a value.
use state.Common.{ℕ, ℤ, ◌≡◌, Bool, String, List, [], ◌∷◌, Option, none, some, if◌then◌else◌, str_eq}

-- A value by its kind and what `as_string`, `as_object`, … return for it. Doubles and arrays are
-- only ever refused or passed on inside an object, so their contents are left out.
pub data Value (Object : Type 0) : Type 0 where
  null double array : Value Object
  boolean : Bool → Value Object
  int64 : ℤ → Value Object
  uint64 : ℕ → Value Object
  string : String → Value Object
  object : Object → Value Object

abbrev pub lookup {ℓ} : {V : Type ℓ} → String → List (String × V) → Option V
lookup k [] = none
lookup k ((j, v) ∷ m) = if str_eq j k then some v else lookup k m

pub record Json : Type 1 where
  pub Object : Type 0
  -- `if_contains`: the value of a key.
  pub at? : String → Object → Option (Value Object)
  -- The constructor from an initializer list of keys and values.
  pub make : List (String × Value Object) → Object
  pub insert_or_assign : String → Value Object → Object → Object
  pub serialize : Object → String
  -- `none` is a parse error.
  pub parse : String → Option (Value Object)
  pub at?-make : (k : String) (fs : List (String × Value Object)) → at? k (make fs) ≡ lookup k fs
  pub at?-insert_or_assign :
      (j k : String) (v : Value Object) (o : Object)
      → at? j (insert_or_assign k v o) ≡ (if str_eq k j then some v else at? j o)

module _ {O : Type 0} where
  abbrev pub is_string : Value O → Bool
  is_string (string s) = Bool.true
  is_string _ = Bool.false

  abbrev pub is_number : Value O → Bool
  is_number (int64 z) = Bool.true
  is_number (uint64 n) = Bool.true
  is_number double = Bool.true
  is_number _ = Bool.false

  abbrev pub is_bool : Value O → Bool
  is_bool (boolean b) = Bool.true
  is_bool _ = Bool.false

  abbrev pub is_object : Value O → Bool
  is_object (object o) = Bool.true
  is_object _ = Bool.false

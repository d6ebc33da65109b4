-- ===== src/Sample/Documents.antt =====
-- JSON objects as the fields that were put in, the newest first.
use Prim.Native.String.{◌++◌}
use state.Common.{
  ℕ, ℤ, ◌≡◌, refl, Bool, String, List, [], ◌∷◌, Option, none, some, if◌then◌else◌, str_eq, arith,
}
use state.Json.{Json, Value, lookup}

-- One constructor for each kind of value under a key.
pub data Document : Type 0 where
  empty : Document
  with_null with_double with_array : String → Document → Document
  with_boolean : String → Bool → Document → Document
  with_int64 : String → ℤ → Document → Document
  with_uint64 : String → ℕ → Document → Document
  with_string : String → String → Document → Document
  with_object : String → Document → Document → Document

abbrev pub put : String → Value Document → Document → Document
put k Value.null o = with_null k o
put k Value.double o = with_double k o
put k Value.array o = with_array k o
put k (Value.boolean b) o = with_boolean k b o
put k (Value.int64 z) o = with_int64 k z o
put k (Value.uint64 n) o = with_uint64 k n o
put k (Value.string s) o = with_string k s o
put k (Value.object d) o = with_object k d o

abbrev pub at? : String → Document → Option (Value Document)
at? j empty = none
at? j (with_null k o) = if str_eq k j then some Value.null else at? j o
at? j (with_double k o) = if str_eq k j then some Value.double else at? j o
at? j (with_array k o) = if str_eq k j then some Value.array else at? j o
at? j (with_boolean k b o) = if str_eq k j then some (Value.boolean b) else at? j o
at? j (with_int64 k z o) = if str_eq k j then some (Value.int64 z) else at? j o
at? j (with_uint64 k n o) = if str_eq k j then some (Value.uint64 n) else at? j o
at? j (with_string k s o) = if str_eq k j then some (Value.string s) else at? j o
at? j (with_object k d o) = if str_eq k j then some (Value.object d) else at? j o

abbrev pub make : List (String × Value Document) → Document
make [] = empty
make ((k, v) ∷ fs) = put k v (make fs)

-- A text of the fields, without the numbers.
abbrev pub print : Document → String
print empty = "."
print (with_null k o) = k ++ "=null;" ++ print o
print (with_double k o) = k ++ "=double;" ++ print o
print (with_array k o) = k ++ "=array;" ++ print o
print (with_boolean k b o) = k ++ "=boolean;" ++ print o
print (with_int64 k z o) = k ++ "=int64;" ++ print o
print (with_uint64 k n o) = k ++ "=uint64;" ++ print o
print (with_string k s o) = k ++ "=" ++ s ++ ";" ++ print o
print (with_object k d o) = k ++ "=(" ++ print d ++ ");" ++ print o

pub at?-put :
    (j k : String) (v : Value Document) (o : Document)
    → at? j (put k v o) ≡ (if str_eq k j then some v else at? j o)
at?-put j k Value.null o = refl
at?-put j k Value.double o = refl
at?-put j k Value.array o = refl
at?-put j k (Value.boolean b) o = refl
at?-put j k (Value.int64 z) o = refl
at?-put j k (Value.uint64 n) o = refl
at?-put j k (Value.string s) o = refl
at?-put j k (Value.object d) o = refl

pub at?-make_lem :
    (k : String) (fs : List (String × Value Document)) → at? k (make fs) ≡ lookup k fs
at?-make_lem k [] = refl
at?-make_lem k ((j, v) ∷ fs) = ground (arith, at?-put k j v (make fs), at?-make_lem k fs)

abbrev pub documents : Json
documents = record {
  Object = Document;
  at? = at?;
  make = make;
  insert_or_assign = put;
  serialize = print;
  parse = λ s. none;
  at?-make = at?-make_lem;
  at?-insert_or_assign = at?-put;
}

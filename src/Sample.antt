-- ===== src/Sample.antt =====
-- A platform on which the functions run: it shows that the interfaces of `Json`, `MultiIndex` and
-- `Platform` can be met, and gives tests and witnesses their inputs.
pub mod Documents
pub mod Tables
use Prim.Native.Char.{Char, code}
use Prim.Native.String.{◌++◌}
use state.Common.{
  ℕ, zero, suc, ◌+◌, ◌≡◌, refl, ap, Bool, true, false, not, ◌==◌, ◌&&◌, str_eq, if◌then◌else◌,
  String, Option, none, some, arith,
}
use state.Clients.{clients_spec}
use state.Subscriptions.{subscriptions_spec}
use state.Platform.{Platform, c_str}
use mathlib.Core.Option
use Documents.{documents}
use Tables.{listed}

-- A uuid is spelled by as many letters `u` as its number; `string_generator` also reads the spelling
-- in braces, as Boost's does.
abbrev pub letter : Char
letter = "u"

abbrev pub spell : ℕ → String
spell zero = String.[]
spell (suc n) = String.◌∷◌ letter (spell n)

abbrev pub read_plain : String → Option ℕ
read_plain String.[] = some 0
read_plain (String.◌∷◌ c s) = if code c == b'u' then Option.map suc (read_plain s) else none

abbrev pub read_closing : String → Option ℕ
read_closing String.[] = none
read_closing (String.◌∷◌ c s) =
    if code c == b'u'
    then Option.map suc (read_closing s)
    else (if code c == b'}' && str_eq s "" then some 0 else none)

abbrev pub read_braced : String → Option ℕ
read_braced String.[] = some 0
read_braced (String.◌∷◌ c s) =
    if code c == b'{' then read_closing s else read_plain (String.◌∷◌ c s)

pub read_plain-spell : (n : ℕ) → read_plain (spell n) ≡ some n
read_plain-spell zero = refl
read_plain-spell (suc n) = ap (Option.map suc) (read_plain-spell n)

pub read_braced-spell : (n : ℕ) → read_braced (spell n) ≡ some n
read_braced-spell zero = refl
read_braced-spell (suc n) = ap (Option.map suc) (read_plain-spell n)

pub c_str-spell : (n : ℕ) → c_str (spell n) ≡ spell n
c_str-spell zero = refl
c_str-spell (suc n) = ap (String.◌∷◌ letter) (c_str-spell n)

-- Every name but one resolves, and every connection is refused twice.
instance abbrev pub sample : Platform
sample = record {
  json = documents;
  generate = read_braced;
  lexical_cast = read_plain;
  uuid_to_string = spell;
  random = λ n. n + 100;
  clock = λ n. n + 1000;
  resolves = λ host port. not (str_eq host "nowhere");
  refusals = λ handle. some 2;
  is_address = λ s. true;
  decimal = spell;
  clients = listed clients_spec;
  subscriptions = listed subscriptions_spec;
  generate-uuid_to_string = read_braced-spell;
  lexical_cast-uuid_to_string = read_plain-spell;
  c_str-uuid_to_string = c_str-spell;
}

-- ===== src/Platform.antt =====
-- What the program takes from Boost and from the system, as one interface: JSON, uuids, the random
-- generator, the clock and the two multi-index containers. A uuid is the number that its sixteen
-- bytes spell, so 0 is the nil uuid and the order of uuids is that of numbers.
use Prim.Native.Char.{code}
use state.Common.{◌==◌, if◌then◌else◌, ℕ, ◌≡◌, Bool, String, Option, some}
use state.Json.{Json}
use state.MultiIndex.{MultiIndex}
use state.Clients.{clients_spec}
use state.Subscriptions.{subscriptions_spec}

-- `c_str` read as a C string: it ends at the first NUL.
abbrev pub c_str : String → String
c_str String.[] = String.[]
c_str (String.◌∷◌ c s) = if code c == 0 then String.[] else String.◌∷◌ c (c_str s)

pub record Platform : Type 1 where
  pub json : Json
  pub open json use *
  -- `string_generator`, and `lexical_cast<uuid>`, which reads fewer spellings; `none` is a throw.
  pub generate : String → Option ℕ
  pub lexical_cast : String → Option ℕ
  pub uuid_to_string : ℕ → String
  -- The n-th uuid that `random_generator` draws, and the n-th reading of the system clock.
  pub random : ℕ → ℕ
  pub clock : ℕ → ℕ
  -- Whether a host and port resolve, and how often the connection of the session object at an
  -- address is refused before it is accepted; `none` if it is never accepted.
  pub resolves : String → ℕ → Bool
  pub refusals : ℕ → Option ℕ
  -- Whether `make_address` reads a text, and how `fmt` prints a number.
  pub is_address : String → Bool
  pub decimal : ℕ → String
  pub clients : MultiIndex clients_spec
  pub subscriptions : MultiIndex subscriptions_spec
  pub generate-uuid_to_string : (u : ℕ) → generate (uuid_to_string u) ≡ some u
  pub lexical_cast-uuid_to_string : (u : ℕ) → lexical_cast (uuid_to_string u) ≡ some u
  -- No NUL stands in a spelling.
  pub c_str-uuid_to_string : (u : ℕ) → c_str (uuid_to_string u) ≡ uuid_to_string u

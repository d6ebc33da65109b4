-- ===== src/Validator.antt =====
-- src/objects/validator.cpp: the checks on every message, before its action is looked at.
use state.Common.{Bool, String, Option, none, some, is_some, if◌then◌else◌}
use state.Json.{Value, is_string}
use state.Platform.{Platform, c_str}

-- `none` for a validator that passed, else its bag, which holds one entry.
abbrev pub Verdict : Type 0
Verdict = Option (String × String)

module _ ⦃p : Platform⦄ where
  open p use {json.{Object, at?}, generate}

  unfoldable pub is_uuid : String → Bool
  is_uuid s = is_some (generate (c_str s))

  unfoldable pub check_uuid : Value Object → Verdict
  check_uuid (Value.string s) =
      if is_uuid s then none else some ("transaction_id", "transaction_id attribute must be uuid")
  check_uuid _ = some ("transaction_id", "transaction_id attribute must be string")

  unfoldable pub check_transaction : Option (Value Object) → Verdict
  check_transaction none = some ("transaction_id", "transaction_id attribute must be present")
  check_transaction (some v) = check_uuid v

  unfoldable pub check_action : Option (Value Object) → Verdict → Verdict
  check_action none rest = some ("action", "action attribute must be present")
  check_action (some v) rest =
      if is_string v then rest else some ("action", "action attribute must be string")

  -- The constructor of `validator`.
  unfoldable pub validator : Object → Verdict
  validator o = check_action (at? "action" o) (check_transaction (at? "transaction_id" o))

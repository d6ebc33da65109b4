-- ===== src/Kernel/Refusals.antt =====
-- The answer to a message that fails validation (src/objects/kernel.cpp and response.cpp).
use state.Common.{ℕ, true, ◌≡◌, ◌≢◌, String, [], none, some, is_some, ◌==◌, if◌then◌else◌}
use state.Json.{Value}
use state.Platform.{Platform, c_str}
use state.World.{World}
use state.Response.{Response}

module _ ⦃p : Platform⦄ where
  open p use {
    json.{Object, at?, make, insert_or_assign, at?-make},
    uuid_to_string,
    generate,
    lexical_cast,
  }

  -- An answer that refuses a message: its flags, and the fields that the peer reads.
  pub record IsRefusal (field reason : String) (t : ℕ) (r : Response) : Type 0 where
    pub failed : r.failed ≡ true
    pub processed : r.processed ≡ true
    pub status : at? "status" r.object ≡ some (Value.string "failed")
    pub action : at? "action" r.object ≡ some (Value.string "ack")
    pub message : at? "message" r.object ≡ some (Value.string "unprocessable entity")
    pub details :
        at? "data" r.object
        ≡ some (Value.object (insert_or_assign field (Value.string reason) (make [])))
    pub transaction :
        at? "transaction_id" r.object
        ≡ some (if t == 0 then Value.null else Value.string (uuid_to_string t))

  -- The rule that a message breaks first: the field, and what is said of it.
  pub data Breaks (o : Object) : String → String → Type 0 where
    no_action : at? "action" o ≡ none → Breaks o "action" "action attribute must be present"
    action_kind :
        (v : Value Object)
        → at? "action" o ≡ some v
        → ((s : String) → v ≢ Value.string s)
        → Breaks o "action" "action attribute must be string"
    no_transaction :
        (action : String)
        → at? "action" o ≡ some (Value.string action)
        → at? "transaction_id" o ≡ none
        → Breaks o "transaction_id" "transaction_id attribute must be present"
    transaction_kind :
        (action : String) (v : Value Object)
        → at? "action" o ≡ some (Value.string action)
        → at? "transaction_id" o ≡ some v
        → ((s : String) → v ≢ Value.string s)
        → Breaks o "transaction_id" "transaction_id attribute must be string"
    transaction_text :
        (action text : String)
        → at? "action" o ≡ some (Value.string action)
        → at? "transaction_id" o ≡ some (Value.string text)
        → generate (c_str text) ≡ none
        → Breaks o "transaction_id" "transaction_id attribute must be uuid"

  -- The transaction id under which a refusal is given: that of the message if it has one, else nil.
  -- A text that only one of the two readers of uuids takes has none.
  pub data RefusedUnder (o : Object) : ℕ → Type 0 where
    unnamed : at? "transaction_id" o ≡ none → RefusedUnder o 0
    of_a_kind :
        (v : Value Object)
        → at? "transaction_id" o ≡ some v
        → ((s : String) → v ≢ Value.string s)
        → RefusedUnder o 0
    unreadable :
        (text : String)
        → at? "transaction_id" o ≡ some (Value.string text)
        → generate (c_str text) ≡ none
        → RefusedUnder o 0
    named :
        (text : String) (t : ℕ)
        → at? "transaction_id" o ≡ some (Value.string text)
        → is_some (generate (c_str text)) ≡ true
        → lexical_cast text ≡ some t
        → RefusedUnder o t

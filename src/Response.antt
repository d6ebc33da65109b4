-- ===== src/Response.antt =====
-- src/include/aewt/response.hpp and src/objects/response.cpp.
use state.Common.{ℕ, sub_ℕ, pos, Bool, true, false, String, List, [], ◌∷◌, ◌==◌, if◌then◌else◌}
use state.Json.{Value}
use state.Platform.{Platform}

pub record Response ⦃p : Platform⦄ : Type 0 where
  pub failed : Bool
  pub processed : Bool
  pub is_ack : Bool
  pub object : p.Object

module _ ⦃p : Platform⦄ where
  open p use {json.{Object, make, insert_or_assign}, uuid_to_string}

  -- A response as its constructor leaves it.
  abbrev pub fresh : Response
  fresh = record { failed = false; processed = false; is_ack = false; object = make [] }

  unfoldable pub mark_as_ack : Response → Response
  mark_as_ack r = record r { is_ack = true }

  unfoldable pub mark_as_processed : Response → Response
  mark_as_processed r = record r { processed = true }

  -- The loop of `mark_as_failed` over the bag.
  unfoldable pub bag_object : List (String × String) → Object → Object
  bag_object [] o = o
  bag_object ((k, e) ∷ bag) o = bag_object bag (insert_or_assign k (Value.string e) o)

  -- `now` is the reading of the clock that the source takes in the call.
  unfoldable pub mark_as_failed : ℕ → String → ℕ → List (String × String) → ℕ → Response → Response
  mark_as_failed transaction_id error timestamp bag now r = record r {
    failed = true;
    object = make (
        (
          "transaction_id",
          if transaction_id == 0 then Value.null else Value.string (uuid_to_string transaction_id),
        )
        ∷ ("action", Value.string "ack")
        ∷ ("status", Value.string "failed")
        ∷ ("message", Value.string error)
        ∷ ("data", Value.object (bag_object bag (make [])))
        ∷ ("timestamp", Value.int64 (pos timestamp))
        ∷ ("runtime", Value.int64 (sub_ℕ now timestamp))
        ∷ []);
  }

  unfoldable pub set_data : ℕ → String → ℕ → Object → ℕ → Response → Response
  set_data transaction_id message timestamp o now r = record r {
    object = make (
        ("transaction_id", Value.string (uuid_to_string transaction_id))
        ∷ ("action", Value.string "ack")
        ∷ ("status", Value.string "success")
        ∷ ("message", Value.string message)
        ∷ ("timestamp", Value.int64 (pos timestamp))
        ∷ ("runtime", Value.int64 (sub_ℕ now timestamp))
        ∷ ("data", Value.object o)
        ∷ []);
  }

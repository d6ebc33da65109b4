-- ===== src/Validators/Laws.antt =====
-- An id field that the validators accept.
use state.Common.{ℕ, true, ◌≡◌, refl, String, some}
use state.Json.{Value}
use state.Platform.{Platform}
use state.Request.{Request}
use state.Effects.{Frame, ok, effects}
use state.Validator.{is_uuid}
use state.Validators.{id_validator, require}

module _ ⦃p : Platform⦄ where
  open p use {json.{Object, at?}, lexical_cast}

  -- A field that holds a uuid in a spelling that both readers accept.
  pub record HasId (params : Object) (field : String) (u : ℕ) : Type 0 where
    pub spelling : String
    pub present : at? field params ≡ some (Value.string spelling)
    pub valid : is_uuid spelling ≡ true
    pub read : lexical_cast spelling ≡ some u

  pub id_validator_lem :
      (r : Request) (params : Object) (field : String) (u : ℕ) (f : Frame)
      → HasId params field u
      → id_validator r params field f ≡ (ok true, f)
  unfolding id_validator require effects
  id_validator_lem r params field u f h = rw (h.present, h.valid) refl

-- ===== src/Handlers/Delivery/Send.antt =====
-- To whom a send request goes (send_handler.cpp).
use state.Common.{
  ℕ, true, ◌&&◌, ◌≡◌, refl, sym, ap, String, List, [], ◌∷◌, ◌++◌, map, keep, Option, none, some,
  ◌==◌, if◌then◌else◌, Bool-cases, Option-cases, inl, inr,
}
use mathlib.Core.List.{append-nil}
use state.Json.{Value}
use state.Clients.{Client}
use state.Platform.{Platform}
use state.World.{World, Task, session_on_send, client_on_send}
use state.Request.{Request, on_client, on_session}
use state.Effects.{Frame, ok, effects, read_clock, draw}
use state.Messages.{send_object}
use state.Notices.{next}
use state.Validators.{send_validator, require_field, require, both}
use state.Effects.Cases.{switch-on_client, switch-on_session}
use state.Params.Laws.{
  get_params_lem, get_params_as_value_lem, get_param_as_object_lem, get_param_as_id_lem,
}
use state.Validators.Laws.{HasId, id_validator_lem}
use state.Store.{get_client, get_sessions}
use state.Fanout.{client_send}
use state.Fanout.Delivery.{posting, post_once, send_to_session_lem}
use state.Handlers.Delivery.{
  send_handler, send_on_client, send_on_session, send_direct, send_remote,
}

module _ ⦃p : Platform⦄ where
  open p use {json.{Object, at?, serialize}, random}

  -- The message to a client, under the next transaction id drawn.
  abbrev pub letter : ℕ → Client → Object → World → String
  letter from c payload w = serialize (send_object (random w.draws) from c.id payload)

  -- The task for a client whose socket is open.
  abbrev pub directly : ℕ → Client → Object → World → List Task
  directly from c payload w =
      if (w.client_socket c.handle).has_socket && (w.client_socket c.handle).is_open
      then client_on_send c.handle (letter from c payload w) ∷ []
      else []

  -- The tasks for the session of a client of another node.
  abbrev pub forwarded : ℕ → Client → Object → World → List Task
  forwarded from c payload w =
      map (λ h. session_on_send h (letter from c payload w))
        (keep (λ h. (w.session h).id == c.session_id && (w.session h).is_open) (get_sessions w))

  abbrev pub sent_by_client : ℕ → Object → World → Option Client → List Task
  sent_by_client from payload w none = []
  sent_by_client from payload w (some c) =
      if c.session_id == w.id then directly from c payload w else forwarded from c payload w

  abbrev pub sent_by_session : ℕ → Object → World → Option Client → List Task
  sent_by_session from payload w none = []
  sent_by_session from payload w (some c) =
      if c.session_id == w.id then directly from c payload w else []

  send_direct_lem :
      (from : ℕ) (c : Client) (payload : Object) (w : World)
      → send_direct from c payload w
        ≡ (posting (directly from c payload w) (record w { draws = ℕ.suc w.draws }), tt)
  unfolding send_direct client_send draw
  send_direct_lem from c payload w =
      ap (λ w'. (w', tt))
        (post_once ((w.client_socket c.handle).has_socket && (w.client_socket c.handle).is_open) _
          _)

  module _ (r : Request) (to : ℕ) (payload : Object) (f : Frame) where
    send_on_client_lem :
        ((send_on_client r to payload f).0 ≡ ok tt)
        × ((send_on_client r to payload f).1.world.posted
            ≡ f.world.posted ++ sent_by_client r.entity_id payload f.world (get_client to f.world))
    unfolding send_on_client effects next read_clock send_remote
    send_on_client_lem = elim (Option-cases (get_client to f.world)) [
      | inl absent ↦ rw absent (refl, sym (append-nil f.world.posted))
      | inr (c, present) ↦ elim (Bool-cases (c.session_id == f.world.id)) [
        | inl local ↦
            rw (present, local, send_direct_lem r.entity_id c payload f.world) (refl, refl)
        | inr remote ↦
            rw (present, remote, send_to_session_lem c.session_id r.entity_id c.id payload f.world)
              (refl, refl)
      ]
    ]

    send_on_session_lem :
        (from : ℕ)
        → ((send_on_session r from to payload f).0 ≡ ok tt)
          × ((send_on_session r from to payload f).1.world.posted
              ≡ f.world.posted ++ sent_by_session from payload f.world (get_client to f.world))
    unfolding send_on_session effects next read_clock
    send_on_session_lem from = elim (Option-cases (get_client to f.world)) [
      | inl absent ↦ rw absent (refl, sym (append-nil f.world.posted))
      | inr (c, present) ↦ elim (Bool-cases (c.session_id == f.world.id)) [
        | inl local ↦ rw (present, local, send_direct_lem from c payload f.world) (refl, refl)
        | inr remote ↦ rw (present, remote) (refl, sym (append-nil f.world.posted))
      ]
    ]

  module _ (r : Request) (ps payload : Object) (to : ℕ) (f : Frame)
      (params : at? "params" r.object ≡ some (Value.object ps))
      (body : at? "payload" ps ≡ some (Value.object payload)) (h : HasId ps "to_client_id" to) where
    valid_client : r.context ≡ on_client → send_validator r f ≡ (ok true, f)
    unfolding send_validator require_field require effects
    valid_client e =
        rw
          (
            get_params_as_value_lem r _ params,
            body,
            switch-on_client r.context _ _ e,
            id_validator_lem r ps "to_client_id" to f h,
          )
          refl

    valid_session :
        (from : ℕ)
        → HasId ps "from_client_id" from
        → r.context ≡ on_session
        → send_validator r f ≡ (ok true, f)
    unfolding send_validator require_field require both effects
    valid_session from k e =
        rw
          (
            get_params_as_value_lem r _ params,
            body,
            switch-on_session r.context _ _ e,
            id_validator_lem r ps "from_client_id" from f k,
            id_validator_lem r ps "to_client_id" to f h,
          )
          refl

    -- A send of a client with a receiver and a payload: an unknown receiver gets nothing; one of
    -- this state is handed the message if its socket is open; for one of another node the message
    -- goes to the session of that node, if that is known and open. Nothing else is posted, and the
    -- handler returns.
    pub send_handler_on_client :
        r.context ≡ on_client
        → ((send_handler r f).0 ≡ ok tt)
          × ((send_handler r f).1.world.posted
              ≡ f.world.posted
                ++ sent_by_client r.entity_id payload f.world (get_client to f.world))
    unfolding send_handler effects
    send_handler_on_client e =
        rw
          (
            valid_client e,
            get_params_lem r ps params,
            get_param_as_id_lem ps "to_client_id" h.spelling to h.present h.read,
            get_param_as_object_lem ps "payload" payload body,
            switch-on_client r.context _ _ e,
          )
          (send_on_client_lem r to payload f)

    -- A send of another node with a sender, a receiver and a payload is handed to the receiver if
    -- it is a client of this state whose socket is open. Nothing else is posted: the message is not
    -- forwarded a second time. The handler returns.
    pub send_handler_on_session :
        (from : ℕ)
        → HasId ps "from_client_id" from
        → r.context ≡ on_session
        → ((send_handler r f).0 ≡ ok tt)
          × ((send_handler r f).1.world.posted
              ≡ f.world.posted ++ sent_by_session from payload f.world (get_client to f.world))
    unfolding send_handler effects
    send_handler_on_session from k e =
        rw
          (
            valid_session from k e,
            get_params_lem r ps params,
            get_param_as_id_lem ps "to_client_id" h.spelling to h.present h.read,
            get_param_as_object_lem ps "payload" payload body,
            switch-on_session r.context _ _ e,
            get_param_as_id_lem ps "from_client_id" k.spelling from k.present k.read,
          )
          (send_on_session_lem r to payload f from)

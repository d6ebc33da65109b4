-- ===== src/Kernel/Membership.antt =====
-- What a join or a leave of another node does to the clients of a state.
use state.Common.{
  ℕ, suc, not, ◌&&◌, ◌≡◌, ◌≢◌, refl, String, [], none, some, is_some, ◌==◌, if◌then◌else◌,
}
use state.Json.{Value}
use state.Clients.{Client}
use state.Platform.{Platform}
use state.World.{World}
use state.Request.{on_session}
use state.Response.{fresh, mark_as_processed, set_data}
use state.Notices.{next, get_status}
use state.Effects.{Frame, Result, ok, effects, read_clock}
use state.Params.Laws.{get_params_lem, get_param_as_id_lem}
use state.Validators.Laws.{HasId, id_validator_lem}
use state.Store.{get_client, add_client, remove_client}
use state.Store.Clients.{get_client-add_client, get_client-remove_client}
use state.Handlers.Membership.{join_handler, leave_handler, make_client}
use state.Kernel.{kernel}
use state.Kernel.Messages.{IsAddressed, request_of, frame_of, kernel-dispatch}
use state.Kernel.Actions.{dispatch-name, join, leave}

module _ ⦃p : Platform⦄ where
  open p use {json.{Object, at?, make}, clock}

  -- The client that a join of another node announces.
  abbrev pub joined : ℕ → ℕ → World → Client
  joined entity u w = record {
    handle = w.allocated;
    id = u;
    session_id = entity;
    is_local = w.id == entity;
  }

  module _ (o ps : Object) (entity t u : ℕ) (w : World)
      (params : at? "params" o ≡ some (Value.object ps)) (h : HasId ps "client_id" u) where
    -- The result of the kernel: a processed answer with a status, on a world.
    abbrev pub answered : String → World → Result (Unit {0}) × Frame
    answered status v = (
      ok tt,
      record {
        world = record v { readings = suc (suc w.readings) };
        response =
            mark_as_processed
              (set_data t status (clock w.readings) (make []) (clock (suc w.readings)) fresh);
      },
    )

    pub leave_run :
        IsAddressed o "leave" t
        → kernel o on_session entity w
          ≡ answered (get_status (remove_client u w).1 "ok" "no effect") (remove_client u w).0
    unfolding leave_handler effects next read_clock mark_as_processed remove_client
    leave_run a =
        rw
          (
            kernel-dispatch o "leave" on_session entity t w a,
            dispatch-name leave (request_of o on_session entity t w),
            get_params_lem (request_of o on_session entity t w) ps params,
            id_validator_lem (request_of o on_session entity t w) ps "client_id" u (frame_of w) h,
            get_param_as_id_lem ps "client_id" h.spelling u h.present h.read,
          )
          refl

    pub join_run :
        IsAddressed o "join" t
        → let new = make_client entity u (frame_of w).world in
          kernel o on_session entity w
          ≡ answered
              (get_status (add_client new.1 new.0).1 "ok" "no effect")
              (add_client new.1 new.0).0
    unfolding join_handler effects next read_clock mark_as_processed add_client make_client
    join_run a =
        rw
          (
            kernel-dispatch o "join" on_session entity t w a,
            dispatch-name join (request_of o on_session entity t w),
            get_params_lem (request_of o on_session entity t w) ps params,
            id_validator_lem (request_of o on_session entity t w) ps "client_id" u (frame_of w) h,
            get_param_as_id_lem ps "client_id" h.spelling u h.present h.read,
          )
          refl

    -- A well-formed leave of another node removes the client that it names, whatever session that
    -- client joined through, and no other client.
    pub kernel_leave :
        IsAddressed o "leave" t
        → ((kernel o on_session entity w).0 ≡ ok tt)
          × (get_client u (kernel o on_session entity w).1.world ≡ none)
          × ((other : ℕ)
              → other ≢ u
              → get_client other (kernel o on_session entity w).1.world ≡ get_client other w)
    unfolding get_client remove_client
    kernel_leave a =
        let known = get_client-remove_client u w in rw (leave_run a) (refl, known.1, known.2)

    -- A well-formed join of another node adds the client that it names as a client of that node, if
    -- no client has the id; a client that is known stays as it was, and so does every other id.
    pub kernel_join :
        IsAddressed o "join" t
        → ((kernel o on_session entity w).0 ≡ ok tt)
          × ((id : ℕ)
              → get_client id (kernel o on_session entity w).1.world ≡ (
                  if not (is_some (get_client u w)) && u == id
                  then some (joined entity u w)
                  else get_client id w))
    unfolding get_client add_client make_client
    kernel_join a =
        let known = get_client-add_client (joined entity u w) w in
        rw (join_run a) (refl, λ id. rw (← known.0) (known.1 id))

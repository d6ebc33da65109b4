-- ===== src/Handlers/Membership.antt =====
-- join_handler.cpp, leave_handler.cpp, register_handler.cpp and session_handler.cpp.
use state.Common.{
  ℕ, zero, suc, ◌+◌, ◌%◌, ◌^◌, Bool, true, false, ◌&&◌, ◌||◌, String, List, [], ◌∷◌, ◌==◌, str_eq,
  if◌then◌else◌,
}
use state.Clients.{Client}
use state.Platform.{Platform}
use state.World.{World, Session, ClientSocket, remote, session_on_run}
use state.Request.{Request}
use state.Effects.{
  M, ok, hangs, throw, host_not_found, ◌>>=◌, ◌>>◌, lift, when, on_world, get_world, switch,
  if_found, branch, draw,
}
use state.Params.{
  get_params, get_param_as_string, get_param_as_number, get_param_as_bool, get_param_as_id,
}
use state.Notices.{next_plain, get_status}
use state.Validators.{id_validator, register_validator, session_validator}
use state.Store.{add_client, remove_client, get_session, get_sessions, add_session}
use state.Fanout.{post}
use state.Sync.{sync}

-- The conversion of a `std::size_t` to `unsigned short`.
abbrev pub to_port : ℕ → ℕ
to_port n = n % 2 ^ 16

abbrev update {ℓ} : {A : Type ℓ} → (ℕ → A) → ℕ → A → ℕ → A
update f i a j = if i == j then a else f j

module _ ⦃p : Platform⦄ where
  open p use {resolves, refusals}

  -- `make_shared<client>(session_id, state, id)`, with no socket.
  unfoldable pub make_client : ℕ → ℕ → World → World × Client
  make_client session_id id w =
      let socket : ClientSocket = record { has_socket = false; is_open = false; queue = [] } in
      let c : Client = record {
        handle = w.allocated;
        id = id;
        session_id = session_id;
        is_local = w.id == session_id;
      } in
      (
        record w {
          allocated = suc w.allocated;
          client = update w.client w.allocated c;
          client_socket = update w.client_socket w.allocated socket;
        },
        c,
      )

  -- `make_shared<session>(state, socket)`: its id is drawn, its websocket is not open yet.
  unfoldable pub make_session : World → World × ℕ
  make_session w =
      let (w', drawn) = draw w in
      let s : Session = record {
        id = drawn;
        sessions_port = 0;
        clients_port = 0;
        host = "";
        registered = false;
        is_open = false;
        queue = [];
      } in
      (
        record w' { allocated = suc w'.allocated; session = update w'.session w'.allocated s },
        w'.allocated,
      )

  unfoldable pub join_handler : Request → M (Unit {0})
  join_handler r = switch r.context (next_plain r "no effect") (do
    params ← lift (get_params r)
    valid ← id_validator r params "client_id"
    when valid (do
      client_id ← lift (get_param_as_id params "client_id")
      c ← on_world (make_client r.entity_id client_id)
      inserted ← on_world (add_client c)
      next_plain r (get_status inserted "ok" "no effect")))

  unfoldable pub leave_handler : Request → M (Unit {0})
  leave_handler r = switch r.context (next_plain r "no effect") (do
    params ← lift (get_params r)
    valid ← id_validator r params "client_id"
    when valid (do
      client_id ← lift (get_param_as_id params "client_id")
      removed ← on_world (remove_client client_id)
      next_plain r (get_status removed "ok" "no effect")))

  -- `set_clients_port`, `set_sessions_port` and `mark_as_registered` on the session at an address.
  unfoldable pub register_session : ℕ → ℕ → ℕ → World → World × Unit {0}
  register_session h sessions_port clients_port w =
      let s = w.session h in
      (
        record w {
          session = update w.session h (record s {
            clients_port = to_port clients_port;
            sessions_port = to_port sessions_port;
            registered = true;
          });
        },
        tt,
      )

  unfoldable pub sync_session_at : ℕ → Bool → World → World × Unit {0}
  sync_session_at h registered w = (sync h registered w, tt)

  unfoldable pub register_handler : Request → M (Unit {0})
  register_handler r = switch r.context (next_plain r "no effect") (do
    valid ← register_validator r
    when valid (do
      params ← lift (get_params r)
      sessions_port ← lift (get_param_as_number params "sessions_port")
      clients_port ← lift (get_param_as_number params "clients_port")
      registered ← lift (get_param_as_bool params "registered")
      w ← get_world
      if_found (get_session r.entity_id w)
          (λ h. do
            on_world (register_session h sessions_port clients_port)
            on_world (sync_session_at h registered)
            next_plain r "ok")
          (next_plain r "no effect")))

  -- The loop that sets `_found`. The ports of a session are `unsigned short`.
  unfoldable pub is_connected : String → ℕ → ℕ → List ℕ → World → Bool → Bool
  is_connected host sessions_port clients_port [] w found = found
  is_connected host sessions_port clients_port (h ∷ hs) w found =
      let s = w.session h in
      is_connected host sessions_port clients_port hs w (
        str_eq s.host host && s.sessions_port == sessions_port && s.clients_port == clients_port
        || found)

  -- `while (!is_open())`: a refused connection sleeps three seconds and tries again.
  unfoldable pub retry : ℕ → World → World
  retry zero w = w
  retry (suc n) w = retry n (record w { slept = w.slept + 3 })

  unfoldable pub retry_at : ℕ → World → World × Unit {0}
  retry_at n w = (retry n w, tt)

  unfoldable pub connect : ℕ → M (Unit {0})
  connect h = if_found (refusals h) (λ n. on_world (retry_at n)) (lift hangs)

  -- `set_clients_port`, `set_sessions_port`, `run(remote)` and `add_session`.
  unfoldable pub start_remote : ℕ → ℕ → ℕ → World → World × Bool
  start_remote h sessions_port clients_port w =
      let s = w.session h in
      let w' : World = record w {
        session = update w.session h (record s {
          clients_port = to_port clients_port;
          sessions_port = to_port sessions_port;
        });
      } in
      add_session h (post (session_on_run h remote) w')

  unfoldable pub open_session : Request → String → ℕ → ℕ → M (Unit {0})
  open_session r host sessions_port clients_port = do
    lift (if resolves host sessions_port then ok tt else throw host_not_found)
    h ← on_world make_session
    connect h
    added ← on_world (start_remote h sessions_port clients_port)
    next_plain r "ok"

  unfoldable pub session_handler : Request → M (Unit {0})
  session_handler r = switch r.context (next_plain r "no effect") (do
    valid ← session_validator r
    when valid (do
      params ← lift (get_params r)
      host ← lift (get_param_as_string params "host")
      sessions_port ← lift (get_param_as_number params "sessions_port")
      clients_port ← lift (get_param_as_number params "clients_port")
      w ← get_world
      branch (is_connected host sessions_port clients_port (get_sessions w) w false)
          (next_plain r "no effect") (open_session r host sessions_port clients_port)))

-- ===== src/Server.antt =====
-- src/objects/server.cpp, with the settings of config.hpp and main.cpp: how a node is started.
pub mod Start
pub mod Obstacles
use state.Common.{
  ℕ, zero, suc, ◌-◌, ◌+◌, Bool, true, false, String, List, [], Option, none, some, ltb, ◌==◌,
  if◌then◌else◌,
}
use state.Platform.{Platform}
use state.World.{World, Config, Session, ClientSocket, SessionContext, remote, session_on_run}
use state.Clients.{Client}
use state.Effects.{
  M, ok, throw, host_not_found, bad_address, length_error, ◌>>=◌, ◌>>◌, lift, when, on_world,
  get_world,
}
use state.Store.{add_session}
use state.Fanout.{post}
use state.Handlers.Membership.{make_session, connect, start_remote}
use state.Listeners.{Opening, session_listener, client_listener, accept_session, accept_client}
use state.Repl

-- The settings as config.hpp initialises them.
abbrev pub default_config : Config
default_config = record {
  address = "0.0.0.0";
  sessions_port = 11000;
  clients_port = 12000;
  is_node = false;
  remote_address = "127.0.0.1";
  remote_sessions_port = 9000;
  remote_clients_port = 10000;
  threads = 1;
  registered = false;
  repl_enabled = true;
}

-- The command line after `boost::program_options` has read it: a value where an option was given.
pub record Options : Type 0 where
  pub address : Option String
  pub threads : Option ℕ
  pub is_node : Option Bool
  pub sessions_port : Option ℕ
  pub clients_port : Option ℕ
  pub remote_address : Option String
  pub remote_sessions_port : Option ℕ
  pub remote_clients_port : Option ℕ

abbrev pub value_or {ℓ} : {A : Type ℓ} → Option A → A → A
value_or none a = a
value_or (some a) _ = a

-- What `main` leaves in the settings of the server.
unfoldable pub main_config : Options → Config
main_config o = record default_config {
  address = value_or o.address "0.0.0.0";
  threads = value_or o.threads 4;
  is_node = value_or o.is_node false;
  sessions_port = value_or o.sessions_port 11000;
  clients_port = value_or o.clients_port 12000;
  remote_address = value_or o.remote_address "localhost";
  remote_sessions_port = value_or o.remote_sessions_port 9000;
  remote_clients_port = value_or o.remote_clients_port 10000;
}

module _ ⦃p : Platform⦄ where
  open p use {
    clients as clients_table, subscriptions as subscriptions_table, random, clock, resolves,
    is_address,
  }

  -- Nothing is allocated yet: what the heap holds is never read.
  abbrev pub no_session : Session
  no_session = record {
    id = 0;
    sessions_port = 0;
    clients_port = 0;
    host = "";
    registered = false;
    is_open = false;
    queue = [];
  }

  abbrev pub no_client : Client
  no_client = record { handle = 0; id = 0; session_id = 0; is_local = false }

  abbrev pub no_socket : ClientSocket
  no_socket = record { has_socket = false; is_open = false; queue = [] }

  -- `make_shared<state>(configuration)` at the start of the program.
  unfoldable pub make_state : Config → World
  make_state c = record {
    id = random 0;
    created_at = clock 0;
    config = c;
    sessions = [];
    clients = clients_table.empty;
    subscriptions = subscriptions_table.empty;
    session = λ h. no_session;
    client = λ h. no_client;
    client_socket = λ h. no_socket;
    allocated = 0;
    draws = 1;
    readings = 1;
    slept = 0;
    running = 0;
    posted = [];
  }

  abbrev pub changing : (World → World) → World → World × Unit {0}
  changing f w = (f w, tt)

  -- The three seconds that a node waits before it looks for the remote one.
  unfoldable pub wait : World → World
  wait w = record w { slept = w.slept + 3 }

  -- The session to the remote node, once connected: its ports, `run(remote)`, `add_session`.
  unfoldable pub enter_remote : ℕ → World → World
  enter_remote h w = (start_remote h w.config.remote_sessions_port w.config.remote_clients_port w).0

  unfoldable pub join_remote : M (Unit {0})
  join_remote = do
    on_world (changing wait)
    w ← get_world
    lift (
        if resolves w.config.remote_address w.config.remote_sessions_port
        then ok tt
        else throw host_not_found)
    h ← on_world make_session
    connect h
    on_world (changing (enter_remote h))

  -- `reserve(threads_ - 1)`: without a thread the difference is the greatest `std::size_t`.
  unfoldable pub reserve_threads : ℕ → M (Unit {0})
  reserve_threads threads = lift (if threads == 0 then throw length_error else ok tt)

  -- `run` on the executor: the thread that calls it works for the event loop until `stop`.
  unfoldable pub run_executor : World → World
  run_executor w = record w { running = suc w.running }

  -- The loop that starts threads; each calls `run`.
  unfoldable pub spawn_threads : ℕ → World → World
  spawn_threads zero w = w
  spawn_threads (suc i) w = spawn_threads i (run_executor w)

  -- The further threads, and then the calling one, which stays in `run`.
  unfoldable pub start_threads : ℕ → M (Unit {0})
  start_threads threads = do
    reserve_threads threads
    on_world (changing (spawn_threads (threads - 1)))
    on_world (changing run_executor)

  -- The listeners, the console and the threads, with the settings as they were at the start.
  unfoldable pub listen : Opening → Opening → Config → M (Unit {0})
  listen sessions clients c = do
    on_world (changing (session_listener sessions))
    on_world (changing accept_session)
    on_world (changing (client_listener clients))
    on_world (changing accept_client)
    when c.repl_enabled (on_world (changing Repl.start))
    start_threads c.threads

  -- The source blocks at the end, in `run`, which does not come back before `stop`: the result `ok` is
  -- the moment at which every thread is in `run`; what they do there is `Loop`. The two arguments are
  -- what the operating system answers to the listeners. A server answers no message: the response of the frame is not used.
  unfoldable pub start : Opening → Opening → M (Unit {0})
  start sessions clients = do
    w ← get_world
    lift (if is_address w.config.address then ok tt else throw bad_address)
    when w.config.is_node join_remote
    listen sessions clients w.config

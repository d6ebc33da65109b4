-- ===== src/Tests.antt =====
-- A node with two sessions, four clients and three subscriptions, and messages to it.
pub mod Store
pub mod Fanout
pub mod Handlers
pub mod Kernel
pub mod Io
pub mod Loop
pub mod Replication
use state.Common.{
  arith, ℕ, zero, suc, true, false, ◌+◌, ◌≡◌, refl, ◌==◌, String, List, [], ◌∷◌, some,
  if◌then◌else◌,
}
use state.Json.{Value}
use state.Clients.{Client}
use state.Subscriptions.{Subscription}
use state.World.{World, Config, Session, ClientSocket}
use state.Request.{Request, KernelContext}
use state.Response.{fresh}
use state.Effects.{Frame}
use state.Messages.{id_param}
use state.Validator.{is_uuid}
use state.Validators.Laws.{HasId}
use state.Kernel.Messages.{IsAddressed}
use state.Store.Sessions.{IsKeyed}
use state.Sample.{sample, spell}
use state.Sample.Documents.{Document, make}

abbrev pub config : Config
config = record {
  address = "0.0.0.0";
  sessions_port = 9000;
  clients_port = 10000;
  is_node = false;
  remote_address = "";
  remote_sessions_port = 0;
  remote_clients_port = 0;
  threads = 1;
  registered = false;
  repl_enabled = false;
}

-- The session at address 0 has an open websocket, the one at address 1 not.
abbrev session : ℕ → Session
session h = record {
  id = h + 5;
  sessions_port = 9001;
  clients_port = 10001;
  host = "peer";
  registered = true;
  is_open = h == 0;
  queue = [];
}

abbrev socket : ClientSocket
socket = record { has_socket = true; is_open = true; queue = [] }

abbrev pub client : ℕ → ℕ → ℕ → Client
client handle id session_id = record {
  handle = handle;
  id = id;
  session_id = session_id;
  is_local = session_id == 1;
}

-- The client at each address.
abbrev peer : ℕ → Client
peer h =
    if h == 0
    then client 0 10 1
    else (if h == 1 then client 1 11 1 else (if h == 2 then client 2 20 5 else client 3 30 6))

abbrev subscription : ℕ → ℕ → String → Subscription
subscription session_id client_id channel = record {
  session_id = session_id;
  client_id = client_id;
  channel = channel;
}

-- The node 1: its own clients 10 and 11, the clients 20 of node 5 and 30 of node 6.
abbrev pub node : World
node = record {
  id = 1;
  created_at = 0;
  config = config;
  sessions = (5, 0) ∷ (6, 1) ∷ [];
  clients = client 0 10 1 ∷ client 1 11 1 ∷ client 2 20 5 ∷ client 3 30 6 ∷ [];
  subscriptions =
      subscription 1 10 "news" ∷ subscription 5 20 "news" ∷ subscription 6 30 "sport" ∷ [];
  session = session;
  client = peer;
  client_socket = λ h. socket;
  allocated = 4;
  draws = 0;
  readings = 0;
  slept = 0;
  running = 1;
  posted = [];
}

abbrev pub payload : Document
payload = make (("text", Value.string "hello") ∷ [])

-- The parameters of all the requests: the client 20, the receiver 11, a channel and a payload.
abbrev pub params : Document
params = make (
    id_param "client_id" 20
    ∷ id_param "from_client_id" 20
    ∷ id_param "to_client_id" 11
    ∷ ("channel", Value.string "news")
    ∷ ("payload", Value.object payload)
    ∷ [])

-- A request under the transaction id 3.
abbrev pub message : String → Document
message action = make (
    ("transaction_id", Value.string (spell 3))
    ∷ ("action", Value.string action)
    ∷ ("params", Value.object params)
    ∷ [])

abbrev pub request : String → KernelContext → ℕ → Request
request action context entity = record {
  transaction_id = 3;
  entity_id = entity;
  context = context;
  object = message action;
  timestamp = 1000;
  is_local = false;
}

abbrev pub frame : Frame
frame = record { world = node; response = fresh }

pub message-IsAddressed : (action : String) → IsAddressed (message action) action 3
message-IsAddressed action = record { acts = refl; transaction = refl }

pub params-HasId_client : HasId params "client_id" 20
unfolding is_uuid
params-HasId_client = record { spelling = spell 20; present = refl; valid = refl; read = refl }

pub params-HasId_from : HasId params "from_client_id" 20
unfolding is_uuid
params-HasId_from = record { spelling = spell 20; present = refl; valid = refl; read = refl }

pub params-HasId_to : HasId params "to_client_id" 11
unfolding is_uuid
params-HasId_to = record { spelling = spell 11; present = refl; valid = refl; read = refl }

pub node-IsKeyed : IsKeyed node
node-IsKeyed = record { ascending = ground arith; keyed = (refl, (refl, tt)) }

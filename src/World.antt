-- ===== src/World.antt =====
-- src/include/aewt/state.hpp with config.hpp, session.hpp and client.hpp: the state object, the
-- objects that it points to, and what the process has handed to the event loop.
use Prim.Native.String.{◌++◌}
use state.Common.{ℕ, Bool, String, List}
use state.Clients.{Client}
use state.Platform.{Platform}

-- config.hpp
pub record Config : Type 0 where
  pub address : String
  pub sessions_port : ℕ
  pub clients_port : ℕ
  pub is_node : Bool
  pub remote_address : String
  pub remote_sessions_port : ℕ
  pub remote_clients_port : ℕ
  pub threads : ℕ
  pub registered : Bool
  pub repl_enabled : Bool

-- A `session` object: a websocket to another node.
pub record Session : Type 0 where
  pub id : ℕ
  pub sessions_port : ℕ
  pub clients_port : ℕ
  pub host : String
  pub registered : Bool
  pub is_open : Bool
  pub queue : List String

-- The part of a `client` object that changes: its optional websocket and its write queue.
pub record ClientSocket : Type 0 where
  pub has_socket : Bool
  pub is_open : Bool
  pub queue : List String

-- session_context.hpp
pub data SessionContext : Type 0 where
  local remote : SessionContext

-- What a call hands to the executor, or starts on a socket, for the object at a handle.
pub data Task : Type 0 where
  session_on_send client_on_send : ℕ → String → Task
  session_on_run : ℕ → SessionContext → Task
  session_async_accept session_async_read client_async_read : ℕ → Task
  session_async_handshake : ℕ → String → Task
  client_async_accept : ℕ → ℕ → Task
  session_async_write client_async_write : ℕ → String → Task
  session_listener_async_accept client_listener_async_accept repl_async_read : Task
  repl_async_write : String → Task

-- The `state` object with the objects behind its pointers. `sessions` is the map from a session's
-- uuid to its address; `posted` lists the tasks, the oldest first. `draws` and `readings` count the
-- uuids drawn and the readings of the clock, `allocated` the objects made, `slept` the seconds slept,
-- `running` the threads that run the event loop.
pub record World ⦃p : Platform⦄ : Type 0 where
  pub id : ℕ
  pub created_at : ℕ
  pub config : Config
  pub sessions : List (ℕ × ℕ)
  pub clients : p.clients.Table
  pub subscriptions : p.subscriptions.Table
  pub session : ℕ → Session
  pub client : ℕ → Client
  pub client_socket : ℕ → ClientSocket
  pub allocated : ℕ
  pub draws : ℕ
  pub readings : ℕ
  pub slept : ℕ
  pub running : ℕ
  pub posted : List Task

-- How the handshake of a session ends: with an error, with success although the peer is gone again, so
-- that `remote_endpoint` throws, or with the address of the remote endpoint.
pub data Handshake : Type 0 where
  handshake_failed peer_gone : Handshake
  peer_at : String → Handshake

module _ ⦃p : Platform⦄ where
  open p use {decimal}

  -- The host that a session names in its handshake, whichever node it is connected to.
  unfoldable pub handshake_host : Config → String
  handshake_host c = c.remote_address ++ ":" ++ decimal c.remote_sessions_port

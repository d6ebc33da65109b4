-- ===== src/Listeners.antt =====
-- src/objects/session_listener.cpp and client_listener.cpp: the two ports of a node.
pub mod Accepted
use state.Common.{ℕ, Bool, true, false, Option, none, some}
use state.Platform.{Platform}
use state.World.{
  World, Config, local, session_on_run, session_listener_async_accept, client_listener_async_accept,
}
use state.Effects.{draw}
use state.Store.{add_session, add_client}
use state.Fanout.{post, join_to_sessions}
use state.Handlers.Membership.{make_client, make_session}
use state.ClientIo.{set_socket, run}

-- What the operating system answers when a port is opened: an error of one of the four calls, or the
-- port that the acceptor listens on.
pub data Opening : Type 0 where
  open_failed option_failed bind_failed listen_failed : Opening
  listening : ℕ → Opening

module _ ⦃p : Platform⦄ where
  -- The constructors. A failed call ends them, and nothing is listened to.
  unfoldable pub session_listener : Opening → World → World
  session_listener (listening port) w = record w {
    config = record w.config { sessions_port = port };
  }
  session_listener open_failed w = w
  session_listener option_failed w = w
  session_listener bind_failed w = w
  session_listener listen_failed w = w

  unfoldable pub client_listener : Opening → World → World
  client_listener (listening port) w = record w { config = record w.config { clients_port = port } }
  client_listener open_failed w = w
  client_listener option_failed w = w
  client_listener bind_failed w = w
  client_listener listen_failed w = w

  unfoldable pub accept_session : World → World
  accept_session = post session_listener_async_accept

  unfoldable pub accept_client : World → World
  accept_client = post client_listener_async_accept

  -- `_session->run(local)` is a task for the executor of the socket.
  unfoldable pub new_session : World → World
  new_session w = let (w', h) = make_session w in post (session_on_run h local) (add_session h w').0

  -- `failed` is the error of the accept; either way the next connection is awaited.
  unfoldable pub on_accept_session : Bool → World → World
  on_accept_session true w = accept_session w
  on_accept_session false w = accept_session (new_session w)

  -- A client of this node: it is drawn an id, indexed and announced before its websocket is accepted.
  unfoldable pub new_client : World → World
  new_client w =
      let (w1, drawn) = draw w in
      let (w2, c) = make_client w.id drawn w1 in
      run c (join_to_sessions drawn (add_client c (set_socket c.handle w2)).0).0

  unfoldable pub on_accept_client : Bool → World → World
  on_accept_client true w = accept_client w
  on_accept_client false w = accept_client (new_client w)

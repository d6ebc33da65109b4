-- ===== src/Loop.antt =====
-- The event loop of a node: any posted task may be performed next, with any outcome, and a websocket
-- may be lost at any time. Boost.Asio is not part of the repository: what it calls is.
pub mod Handled
pub mod Perform
pub mod Calm
pub mod OneWrite
pub mod Starting
pub mod Every
pub mod WellFormed
pub mod Reading
use state.Common.{ℕ, Bool, true, false, not, String, List, [], ◌∷◌, ◌++◌, Option, none, some, ◌≡◌}
use state.Platform.{Platform}
use state.World.{
  World, Handshake, handshake_failed, peer_gone, peer_at, Session, ClientSocket, Task,
  SessionContext, local, remote, session_on_send, client_on_send, session_on_run,
  session_async_accept, session_async_handshake, session_async_read, client_async_read,
  client_async_accept, session_async_write, client_async_write, session_listener_async_accept,
  client_listener_async_accept, repl_async_read, repl_async_write,
}
use state.Effects.{Result, ok}
use state.Store.{get_session, remove_state_of_session}
use state.SessionIo.{change_session}
use state.SessionIo
use state.ClientIo.{change_socket}
use state.ClientIo
use state.Listeners.{on_accept_session, on_accept_client}
use state.Repl.{Read}
use state.Repl

-- What an operation completes with: a text, or an error; for a handshake of a session its end; for a
-- write and an accept whether there was an error; for the console what was read, with the buffer.
abbrev pub Outcome : Task → Type 0
Outcome (session_async_accept h) = Handshake
Outcome (session_async_handshake h host) = Handshake
Outcome (session_async_read h) = Option String
Outcome (client_async_read h) = Option String
Outcome (client_async_accept h run_at) = Bool
Outcome (session_async_write h message) = Bool
Outcome (client_async_write h message) = Bool
Outcome session_listener_async_accept = Bool
Outcome client_listener_async_accept = Bool
Outcome repl_async_read = Read × String
Outcome (repl_async_write text) = Bool
Outcome (session_on_send h message) = Unit {0}
Outcome (client_on_send h message) = Unit {0}
Outcome (session_on_run h context) = Unit {0}

module _ ⦃p : Platform⦄ where
  -- A handshake opens a websocket; an error closes it.
  pub set_session_open : ℕ → Bool → World → World
  set_session_open h b = change_session h (λ s. record s { is_open = b })

  pub set_client_open : ℕ → Bool → World → World
  set_client_open h b = change_socket h (λ s. record s { is_open = b })

  -- The world at a completion: the websocket is open after a handshake, and closed after an error.
  pub completed_session : ℕ → Option String → World → World
  completed_session h none = set_session_open h false
  completed_session h (some text) = set_session_open h true

  pub completed_handshake : ℕ → Handshake → World → World
  completed_handshake h handshake_failed = set_session_open h false
  completed_handshake h peer_gone = set_session_open h true
  completed_handshake h (peer_at host) = set_session_open h true

  pub completed_client : ℕ → Option String → World → World
  completed_client h none = set_client_open h false
  completed_client h (some text) = set_client_open h true

  -- The handler of a task. An exception leaves the loop.
  unfoldable pub perform : (t : Task) → Outcome t → World → Result (Unit {0}) × World
  perform (session_on_send h message) o w = (ok tt, SessionIo.on_send h message w)
  perform (client_on_send h message) o w = (ok tt, ClientIo.on_send h message w)
  perform (session_on_run h context) o w = (ok tt, SessionIo.on_run h context w)
  perform (session_async_accept h) o w = SessionIo.on_accept h local o (completed_handshake h o w)
  perform (session_async_handshake h host) o w =
      SessionIo.on_accept h remote o (completed_handshake h o w)
  perform (session_async_read h) o w = SessionIo.on_read h o (completed_session h o w)
  perform (session_async_write h message) o w = (ok tt, SessionIo.on_write h o w)
  perform (client_async_accept h run_at) o w =
      (ok tt, ClientIo.on_accept (w.client h) run_at o (set_client_open h (not o) w))
  perform (client_async_read h) o w = ClientIo.on_read (w.client h) o (completed_client h o w)
  perform (client_async_write h message) o w = (ok tt, ClientIo.on_write h o w)
  perform session_listener_async_accept o w = (ok tt, on_accept_session o w)
  perform client_listener_async_accept o w = (ok tt, on_accept_client o w)
  perform repl_async_read o w = (ok tt, (Repl.read o.0 o.1 w).0.0)
  perform (repl_async_write text) o w = (ok tt, Repl.write o w)

  -- The world with other tasks under way.
  abbrev pub under_way : List Task → World → World
  under_way ts w = record w { posted = ts }

  -- One step of the loop. The object of a session is released once no map leads to it.
  pub data Step (w : World) : World → Type 0 where
    perform_task :
        (before after : List Task) (t : Task) (o : Outcome t)
        → w.posted ≡ before ++ t ∷ after
        → Step w (perform t o (under_way (before ++ after) w)).1
    lose_session : (h : ℕ) → Step w (set_session_open h false w)
    lose_client : (h : ℕ) → Step w (set_client_open h false w)
    release_session : (id : ℕ) → get_session id w ≡ none → Step w (remove_state_of_session id w)

  pub data Reach (v : World) : World → Type 0 where
    here : Reach v v
    later : {w u : World} → Reach v w → Step w u → Reach v u

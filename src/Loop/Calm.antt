-- ===== src/Loop/Calm.antt =====
-- The handlers that work on no write queue neither change one nor start a write (src/objects/session.cpp
-- and client.cpp).
pub mod Steps
use state.Common.{
  ℕ, suc, zero, ◌<◌, ◌≤◌, Bool, true, false, ◌&&◌, ◌+◌, ◌≡◌, refl, sym, ap, ◌∙◌, String, List, [],
  ◌∷◌, ◌++◌, ◌==◌, map, keep, flat_map, Option, none, some, if◌then◌else◌, arith,
}
use mathlib.Core.List.{append-nil}
use state.Clients.{Client}
use state.Platform.{Platform}
use state.World.{
  World, Config, Session, ClientSocket, Task, SessionContext, local, remote, session_on_send,
  client_on_send, session_on_run, session_async_accept, session_async_handshake, session_async_read,
  client_async_read, client_async_accept, session_async_write, client_async_write,
  session_listener_async_accept, client_listener_async_accept, repl_async_read, repl_async_write,
}
use state.Effects.{read_clock, draw}
use state.Effects.Keeps.{IsPreorder}
use state.Store.{
  subscribe, unsubscribe, add_client, remove_client, remove_session, remove_state_of_session,
  add_session,
}
use state.Fanout.{
  post, client_send, send_to_sessions, send_to_others_clients, send_to_subscribed_sessions,
}
use state.Fanout.Delivery.{
  posting, send_to_sessions_lem, send_to_others_clients_lem, send_to_session_lem, post_once,
}
use state.Fanout.Channels.{send_to_subscribed_sessions_lem}
use state.Sync.Messages.{sync_lem}
use state.Handlers.Delivery.{send_direct, send_remote}
use state.Handlers.Membership.{
  make_client, make_session, register_session, sync_session_at, retry, start_remote,
}
use state.SessionIo.{change_session}
use state.SessionIo.Queue.{write_of, written, flat_map-append}
use state.ClientIo.{change_socket}
use state.Loop.Handled.{is_write}

-- The messages that tasks write to the socket of a client.
abbrev pub client_write_of : ℕ → Task → List String
client_write_of h (client_async_write j m) = if j == h then m ∷ [] else []
client_write_of h _ = []

abbrev pub client_written : ℕ → List Task → List String
client_written h = flat_map (client_write_of h)

-- Tasks none of which starts a write to the object at an address.
pub record IsSilent (h : ℕ) (ts : List Task) : Type 0 where
  pub sessions : written h ts ≡ []
  pub clients : client_written h ts ≡ []

nil-IsSilent : (h : ℕ) → IsSilent h []
nil-IsSilent h = record { sessions = refl; clients = refl }

pub silent :
    (h : ℕ) (t : Task) → is_write t ≡ false → (write_of h t ≡ []) × (client_write_of h t ≡ [])
silent h (session_on_send j m) e = (refl, refl)
silent h (client_on_send j m) e = (refl, refl)
silent h (session_on_run j c) e = (refl, refl)
silent h (session_async_accept j) e = (refl, refl)
silent h (session_async_handshake j host) e = (refl, refl)
silent h (session_async_read j) e = (refl, refl)
silent h (client_async_read j) e = (refl, refl)
silent h (client_async_accept j n) e = (refl, refl)
silent h session_listener_async_accept e = (refl, refl)
silent h client_listener_async_accept e = (refl, refl)
silent h repl_async_read e = (refl, refl)
silent h (repl_async_write s) e = (refl, refl)
silent h (session_async_write j m) e = cc
silent h (client_async_write j m) e = cc

pub one-IsSilent : (h : ℕ) (t : Task) → is_write t ≡ false → IsSilent h (t ∷ [])
one-IsSilent h t e = record {
  sessions = rw (silent h t e).0 refl;
  clients = rw (silent h t e).1 refl;
}

pub map-IsSilent {ℓ} :
    {A : Type ℓ} (h : ℕ) (f : A → Task)
    → ((x : A) → is_write (f x) ≡ false)
    → (xs : List A) → IsSilent h (map f xs)
map-IsSilent h f n [] = nil-IsSilent h
map-IsSilent h f n (x ∷ xs) =
    let r = map-IsSilent h f n xs in
    record {
      sessions = rw (silent h (f x) (n x)).0 r.sessions;
      clients = rw (silent h (f x) (n x)).1 r.clients;
    }

pub if-IsSilent :
    (h : ℕ) (b : Bool) (ts : List Task) → IsSilent h ts → IsSilent h (if b then ts else [])
if-IsSilent h true ts s = s
if-IsSilent h false ts s = nil-IsSilent h

module _ ⦃p : Platform⦄ where
  open p use {json.{Object, serialize}}

  -- The object at an address, if it exists, keeps its queue, and no write to it is started.
  pub record Calm (h : ℕ) (v w : World) : Type 0 where
    pub grown : v.allocated ≤ w.allocated
    pub session : h < v.allocated → (w.session h).queue ≡ (v.session h).queue
    pub client : h < v.allocated → (w.client_socket h).queue ≡ (v.client_socket h).queue
    pub writes : written h w.posted ≡ written h v.posted
    pub client_writes : client_written h w.posted ≡ client_written h v.posted

  module _ {h : ℕ} where
    pub steps : IsPreorder (Calm h)
    steps = record {
      rfl = λ w. record {
        grown = omega arith;
        session = λ l. refl;
        client = λ l. refl;
        writes = refl;
        client_writes = refl;
      };
      trans = λ u v w a b. record {
        grown = omega (arith, a.grown, b.grown);
        session = λ l. b.session (omega (arith, a.grown, l)) ∙ a.session l;
        client = λ l. b.client (omega (arith, a.grown, l)) ∙ a.client l;
        writes = b.writes ∙ a.writes;
        client_writes = b.client_writes ∙ a.client_writes;
      };
    }

    -- A step that leaves queues and tasks alone.
    pub still :
        (v w : World)
        → v.allocated ≤ w.allocated
        → w.posted ≡ v.posted
        → ((j : ℕ) → j < v.allocated → (w.session j).queue ≡ (v.session j).queue)
        → ((j : ℕ) → j < v.allocated → (w.client_socket j).queue ≡ (v.client_socket j).queue)
        → Calm h v w
    still v w a e s c = record {
      grown = a;
      session = s h;
      client = c h;
      writes = ap (written h) e;
      client_writes = ap (client_written h) e;
    }

    pub posting_step : (ts : List Task) (w : World) → IsSilent h ts → Calm h w (posting ts w)
    posting_step ts w s = record {
      grown = omega arith;
      session = λ l. refl;
      client = λ l. refl;
      writes = rw (flat_map-append (write_of h) w.posted ts, s.sessions) (append-nil _);
      client_writes =
          rw (flat_map-append (client_write_of h) w.posted ts, s.clients) (append-nil _);
    }

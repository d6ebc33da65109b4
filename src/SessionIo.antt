-- ===== src/SessionIo.antt =====
-- src/objects/session.cpp: what a session does when one of its socket operations completes.
pub mod Queue
use state.Common.{
  ℕ, suc, sub_ℕ, pos, Bool, true, false, String, List, [], ◌∷◌, ◌++◌, Option, none, some, length,
  ltb, ◌==◌, if◌then◌else◌,
}
use state.Json.{Value}
use state.Platform.{Platform}
use state.World.{
  World, Config, Session, SessionContext, local, remote, session_async_accept,
  session_async_handshake, session_async_read, session_async_write, handshake_host, Handshake,
  handshake_failed, peer_gone, peer_at,
}
use state.Request.{on_session}
use state.Response.{Response}
use state.Effects.{Result, ok, throw, not_connected, hangs, draw, read_clock, Frame}
use state.Store.{remove_session}
use state.Fanout.{post, session_send}
use state.Kernel.{kernel}

module _ ⦃p : Platform⦄ where
  open p use {json.{Object, make, serialize, parse}, uuid_to_string}

  -- The session at an address, changed.
  unfoldable pub change_session : ℕ → (Session → Session) → World → World
  change_session h f w = record w { session = λ j. if h == j then f (w.session h) else w.session j }

  unfoldable pub on_run : ℕ → SessionContext → World → World
  on_run h local w = post (session_async_accept h) w
  on_run h remote w = post (session_async_handshake h (handshake_host w.config)) w

  -- The message by which a session to a remote node registers this one.
  unfoldable pub register_object : ℕ → Config → Object
  register_object drawn c = make (
      ("transaction_id", Value.string (uuid_to_string drawn))
      ∷ ("action", Value.string "register")
      ∷ (
        "params",
        Value.object (
            make (
              ("registered", Value.boolean c.registered)
              ∷ ("clients_port", Value.uint64 c.clients_port)
              ∷ ("sessions_port", Value.uint64 c.sessions_port)
              ∷ [])),
      )
      ∷ [])

  unfoldable pub do_read : ℕ → World → World
  do_read h w = post (session_async_read h) w

  unfoldable pub register_self : ℕ → World → World
  register_self h w =
      let (w', drawn) = draw w in
      session_send (serialize (register_object drawn w.config)) h
        (record w' { config = record w'.config { registered = true } })

  unfoldable pub on_accept : ℕ → SessionContext → Handshake → World → Result (Unit {0}) × World
  on_accept h context handshake_failed w = (ok tt, (remove_session (w.session h).id w).0)
  on_accept h context peer_gone w = (throw not_connected, w)
  on_accept h local (peer_at host) w =
      (ok tt, do_read h (change_session h (λ s. record s { host = host }) w))
  on_accept h remote (peer_at host) w =
      (ok tt, do_read h (register_self h (change_session h (λ s. record s { host = host }) w)))

  -- The answer to a text that is not a JSON object.
  unfoldable pub body_object : ℕ → ℕ → Object
  body_object now read_at = make (
      ("transaction_id", Value.null)
      ∷ ("status", Value.string "failed")
      ∷ ("message", Value.string "unprocessable entity")
      ∷ ("data", Value.object (make (("body", Value.string "body must be json object") ∷ [])))
      ∷ ("timestamp", Value.int64 (pos now))
      ∷ ("runtime", Value.int64 (sub_ℕ now read_at))
      ∷ [])

  -- After the kernel: the answer is sent unless it is an acknowledgement, and the next message is
  -- read. An exception leaves the handler, and nothing more is read.
  unfoldable pub answer : ℕ → Result (Unit {0}) × Frame → Result (Unit {0}) × World
  answer h (ok _, f) = (
    ok tt,
    do_read h (
        if f.response.is_ack
        then f.world
        else session_send (serialize f.response.object) h f.world),
  )
  answer h (throw e, f) = (throw e, f.world)
  answer h (hangs, f) = (hangs, f.world)

  unfoldable pub on_text : ℕ → ℕ → Option (Value Object) → World → Result (Unit {0}) × World
  on_text h read_at (some (Value.object o)) w = answer h (kernel o on_session (w.session h).id w)
  on_text h read_at _ w =
      let (w', now) = read_clock w in
      (ok tt, do_read h (session_send (serialize (body_object now read_at)) h w'))

  -- `none` is an error, a closed websocket included; else the text in the buffer.
  unfoldable pub on_read : ℕ → Option String → World → Result (Unit {0}) × World
  on_read h none w = (ok tt, (remove_session (w.session h).id w).0)
  on_read h (some stream) w =
      let (w', read_at) = read_clock w in on_text h read_at (parse stream) w'

  unfoldable pub write_front : ℕ → List String → World → World
  write_front h [] w = w
  write_front h (message ∷ rest) w = post (session_async_write h message) w

  unfoldable pub on_send : ℕ → String → World → World
  on_send h message w =
      let queue = (w.session h).queue ++ message ∷ [] in
      let w' = change_session h (λ s. record s { queue = queue }) w in
      if ltb 1 (length queue) then w' else write_front h queue w'

  -- `queue_.erase(queue_.begin())`; the queue holds the message that was written.
  abbrev pub dropped : List String → List String
  dropped [] = []
  dropped (message ∷ rest) = rest

  -- `failed` is the error of the write.
  unfoldable pub on_write : ℕ → Bool → World → World
  on_write h true w = w
  on_write h false w =
      let queue = dropped (w.session h).queue in
      write_front h queue (change_session h (λ s. record s { queue = queue }) w)

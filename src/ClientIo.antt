-- ===== src/ClientIo.antt =====
-- src/objects/client.cpp: what a client does when one of its socket operations completes.
pub mod Leaving
use state.Common.{
  ℕ, suc, sub_ℕ, pos, Bool, true, false, ◌&&◌, String, List, [], ◌∷◌, ◌++◌, Option, none, some,
  length, ltb, ◌==◌, if◌then◌else◌,
}
use state.Json.{Value}
use state.Clients.{Client}
use state.Platform.{Platform}
use state.World.{World, ClientSocket, client_async_accept, client_async_read, client_async_write}
use state.Request.{on_client}
use state.Effects.{Result, ok, throw, hangs, draw, read_clock, Frame}
use state.Store.{remove_client}
use state.Fanout.{post, client_send, leave_to_sessions}
use state.Kernel.{kernel}
use state.SessionIo.{body_object, dropped}

module _ ⦃p : Platform⦄ where
  open p use {json.{Object, make, serialize, parse}, uuid_to_string}

  unfoldable pub change_socket : ℕ → (ClientSocket → ClientSocket) → World → World
  change_socket h f w = record w {
    client_socket = λ j. if h == j then f (w.client_socket h) else w.client_socket j;
  }

  unfoldable pub run : Client → World → World
  run c w =
      let (w', run_at) = read_clock w in
      if (w.client_socket c.handle).has_socket
      then post (client_async_accept c.handle run_at) w'
      else w'

  unfoldable pub set_socket : ℕ → World → World
  set_socket h = change_socket h λ s. record s { has_socket = true; is_open = false }

  unfoldable pub do_read : ℕ → World → World
  do_read h w = post (client_async_read h) w

  -- What every error does: the client is removed, and the sessions are told.
  unfoldable pub leave : Client → World → World
  leave c w = (leave_to_sessions c.id (remove_client c.id w).0).0

  unfoldable pub welcome_object : ℕ → ℕ → ℕ → ℕ → Object
  welcome_object drawn now run_at id = make (
      ("transaction_id", Value.string (uuid_to_string drawn))
      ∷ ("action", Value.string "welcome")
      ∷ ("status", Value.string "success")
      ∷ ("message", Value.string "accepted")
      ∷ ("timestamp", Value.int64 (pos now))
      ∷ ("runtime", Value.int64 (sub_ℕ now run_at))
      ∷ ("data", Value.object (make (("client_id", Value.string (uuid_to_string id)) ∷ [])))
      ∷ [])

  -- `failed` is the error of the handshake.
  unfoldable pub on_accept : Client → ℕ → Bool → World → World
  on_accept c run_at true w = leave c w
  on_accept c run_at false w =
      let (w', now) = read_clock w in
      let (w'', drawn) = draw w' in
      do_read c.handle (client_send (serialize (welcome_object drawn now run_at c.id)) c w'')

  -- After the kernel: the answer is sent, an acknowledgement too, and the next message is read. An
  -- exception leaves the handler, and nothing more is read.
  unfoldable pub answer : Client → Result (Unit {0}) × Frame → Result (Unit {0}) × World
  answer c (ok _, f) =
      (ok tt, do_read c.handle (client_send (serialize f.response.object) c f.world))
  answer c (throw e, f) = (throw e, f.world)
  answer c (hangs, f) = (hangs, f.world)

  unfoldable pub on_text : Client → ℕ → Option (Value Object) → World → Result (Unit {0}) × World
  on_text c read_at (some (Value.object o)) w = answer c (kernel o on_client c.id w)
  on_text c read_at _ w =
      let (w', now) = read_clock w in
      (ok tt, do_read c.handle (client_send (serialize (body_object now read_at)) c w'))

  -- `none` is an error, a closed websocket included; else the text in the buffer.
  unfoldable pub on_read : Client → Option String → World → Result (Unit {0}) × World
  on_read c none w = (ok tt, leave c w)
  on_read c (some stream) w =
      let (w', read_at) = read_clock w in on_text c read_at (parse stream) w'

  -- A write needs an open socket.
  unfoldable pub write_front : ℕ → List String → World → World
  write_front h [] w = w
  write_front h (message ∷ rest) w =
      if (w.client_socket h).has_socket && (w.client_socket h).is_open
      then post (client_async_write h message) w
      else w

  unfoldable pub on_send : ℕ → String → World → World
  on_send h message w =
      let queue = (w.client_socket h).queue ++ message ∷ [] in
      let w' = change_socket h (λ s. record s { queue = queue }) w in
      if ltb 1 (length queue) then w' else write_front h queue w'

  -- `failed` is the error of the write.
  unfoldable pub on_write : ℕ → Bool → World → World
  on_write h true w = w
  on_write h false w =
      let queue = dropped (w.client_socket h).queue in
      write_front h queue (change_socket h (λ s. record s { queue = queue }) w)

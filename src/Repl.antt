-- ===== src/Repl.antt =====
-- src/objects/repl.cpp: the console of a node.
use Prim.Native.String.{◌++◌, slice, len}
use state.Common.{
  ℕ, ◌-◌, Bool, true, false, String, List, [], ◌∷◌, length, flat_map, str_eq, if◌then◌else◌,
}
use state.Clients.{Client}
use state.Subscriptions.{Subscription}
use state.Platform.{Platform}
use state.World.{World, repl_async_read, repl_async_write}
use state.Store.{get_sessions, get_clients, get_subscriptions}
use state.Fanout.{post}

-- How a read ends: at the end of the input, with another error, or with so many characters up to and
-- with a line feed in the buffer.
pub data Read : Type 0 where
  eof failed : Read
  line : ℕ → Read

module _ ⦃p : Platform⦄ where
  open p use {uuid_to_string, decimal}

  abbrev pub rule : String
  rule = "============\n"

  unfoldable pub start : World → World
  start = post repl_async_read

  -- `fmt::print` of a line and of the rule under it.
  abbrev pub heading : String → ℕ → List String
  heading name n = (name ++ " " ++ decimal n ++ "\n") ∷ rule ∷ []

  unfoldable pub dump_session : World → ℕ → List String
  dump_session w h =
      let s = w.session h in
      ("id #" ++ uuid_to_string s.id ++ "\n")
      ∷ ("sessions_port="
          ++ decimal s.sessions_port
          ++ " clients_port="
          ++ decimal s.clients_port
          ++ "\n\n")
      ∷ []

  unfoldable pub dump_client : Client → List String
  dump_client c =
      ("id " ++ uuid_to_string c.id ++ " session_id=" ++ uuid_to_string c.session_id ++ "\n\n") ∷ []

  unfoldable pub dump_subscription : Subscription → List String
  dump_subscription s =
      ("client_id="
        ++ uuid_to_string s.client_id
        ++ " session_id="
        ++ uuid_to_string s.session_id
        ++ " channel="
        ++ s.channel
        ++ "\n\n")
      ∷ []

  -- What `dump` prints, call by call.
  unfoldable pub dump : World → List String
  dump w =
      let sessions = get_sessions w in
      let clients = get_clients w in
      let subscriptions = get_subscriptions w in
      flat_map (λ lines. lines)
        (heading "sessions" (length sessions)
          ∷ flat_map (dump_session w) sessions
          ∷ (rule ∷ [])
          ∷ heading "clients" (length clients)
          ∷ flat_map dump_client clients
          ∷ (rule ∷ [])
          ∷ heading "subscriptions" (length subscriptions)
          ∷ flat_map dump_subscription subscriptions
          ∷ (rule ∷ [])
          ∷ [])

  -- A line after `dump` and `exit` were looked for: the world with the answer under way, and what was
  -- printed.
  unfoldable pub evaluate : String → World → World × List String
  evaluate text w = (
    if str_eq text "exit" then w else post (repl_async_write ("EVALUATED: " ++ text ++ "\n")) w,
    if str_eq text "dump" then dump w else [],
  )

  -- With the buffer, which keeps what follows the line. The error streams are left out.
  unfoldable pub read : Read → String → World → (World × List String) × String
  read eof buffer w = ((w, "EOF received. Exiting REPL.\n" ∷ []), buffer)
  read failed buffer w = ((w, []), buffer)
  read (line n) buffer w = (evaluate (slice buffer 0 (n - 1)) w, slice buffer n (len buffer))

  -- `error` is the error of the write of the answer.
  unfoldable pub write : Bool → World → World
  write true w = w
  write false w = start w

-- ===== src/Tests/Loop.antt =====
-- The event loop and the start of a node, on the node of `Tests` and on a new one.
use state.Common.{
  ℕ, true, false, not, ◌≡◌, inl, refl, ap, [], ◌∷◌, ◌++◌, some, none, is_some, ◌&&◌, ◌==◌, map,
  if◌then◌else◌, arith,
}
use state.World.{
  World, Config, Task, session_on_send, client_on_send, session_on_run, session_async_write,
  client_async_write, session_async_read, client_async_read, session_listener_async_accept,
  client_listener_async_accept, client_async_accept, remote, local,
}
use state.Response.{fresh}
use state.Request.{on_client}
use state.Effects.Ends.{Ended}
use state.Messages.{make_join_request_object}
use state.Fanout.{post}
use state.Fanout.Delivery.{open_sessions}
use state.Store.{get_client, get_session, get_sessions}
use state.SessionIo.{change_session}
use state.SessionIo
use state.SessionIo.Queue.{written}
use state.ClientIo.{change_socket}
use state.ClientIo
use state.Effects.{throw, host_not_found}
use state.Listeners.{listening, bind_failed, on_accept_client, on_accept_session}
use state.Listeners.Accepted.{accepted, on_accept_client_lem, on_accept_session_lem}
use state.Server.{make_state, start}
use state.Server.Start.{start_alone, start_joined, framed, opened, working, run_threads, waiting}
use state.Server.Obstacles.{unknown_host, start_obstructed}
use state.Handlers.Membership.{to_port}
use state.Kernel.{kernel}
use state.Kernel.Ends.{AllAccept, kernel-Ended}
use state.Kernel.Answers.{Answered, kernel-Answered}
use state.Kernel.Invariant.{IsWellFormed}
use state.Loop.{perform, under_way, here, later, perform_task}
use state.Loop.WellFormed.{start-IsWellFormed}
use state.Loop.Calm.{client_written}
use state.Loop.OneWrite.{InFront}
use state.Loop.OneWrite.Reached.{session_async_write-InFront, client_async_write-InFront}
use state.Loop.Reading.{ReadsOn, session_on_read-ReadsOn, client_on_read-ReadsOn}
use state.Sample.{sample}
use state.Sample.Documents.{print}
use state.Tests.{config, node, client, message, message-IsAddressed, node-IsKeyed}

sample_accepts : AllAccept
sample_accepts h e = cc

-- A node with a port for sessions and none for clients, on which a session was accepted.
abbrev started : World
started = (start (listening 9100) bind_failed (framed fresh (make_state config))).1.world

abbrev begun : World
begun =
    (perform session_listener_async_accept false
      (under_way (client_listener_async_accept ∷ []) started)).1

start_alone_example : start (listening 9100) bind_failed (framed fresh (make_state config)) ≡ (
  run_threads config.threads,
  framed fresh (
      working config.threads
        (opened (listening 9100) bind_failed config.repl_enabled (make_state config))),
)
start_alone_example = start_alone config (listening 9100) bind_failed fresh refl refl

started_posted : started.posted ≡ session_listener_async_accept ∷ client_listener_async_accept ∷ []
unfolding make_state
started_posted =
    ap (λ x. x.1.world.posted) (start_alone config (listening 9100) bind_failed fresh refl refl)

start-IsWellFormed_example : IsWellFormed begun
start-IsWellFormed_example = start-IsWellFormed config (listening 9100) bind_failed fresh begun (
    later here (
      perform_task [] (client_listener_async_accept ∷ []) session_listener_async_accept false
        started_posted))

abbrev joining : Config
joining = record config { is_node = true; remote_sessions_port = 9002; remote_clients_port = 10002 }

start_joined_example :
    let result = start (listening 9100) bind_failed (framed fresh (make_state joining)) in
    let w = result.1.world in
    (result.0 ≡ run_threads joining.threads)
    × (w.slept ≡ 9)
    × (w.sessions ≡ (101, 0) ∷ [])
    × ((w.session 0).id ≡ 101)
    × ((w.session 0).sessions_port ≡ to_port 9002)
    × ((w.session 0).clients_port ≡ to_port 10002)
    × (w.posted ≡ session_on_run 0 remote ∷ waiting joining.repl_enabled)
    × (w.running ≡ joining.threads)
start_joined_example = start_joined joining (listening 9100) bind_failed fresh 2 refl refl refl refl

abbrev nowhere : Config
nowhere = record config { is_node = true; remote_address = "nowhere" }

start_obstructed_example :
    let result = start (listening 9100) bind_failed (framed fresh (make_state nowhere)) in
    let w = result.1.world in
    (result.0 ≡ throw host_not_found)
    × (w.posted ≡ [])
    × (w.sessions ≡ [])
    × (w.config ≡ nowhere)
    × (w.running ≡ 0)
start_obstructed_example =
    start_obstructed nowhere (listening 9100) bind_failed fresh (throw host_not_found)
      (unknown_host refl refl refl)

on_accept_session_lem_example :
    let v = on_accept_session false node in
    let s = v.session node.allocated in
    ((id : ℕ)
      → get_session id v ≡ (
          if is_some (get_session id node)
          then get_session id node
          else if sample.random node.draws == id
          then some node.allocated
          else none))
    × (v.posted
        ≡ node.posted ++ session_on_run node.allocated local ∷ session_listener_async_accept ∷ [])
    × (s.id ≡ sample.random node.draws)
    × (s.registered ≡ false)
    × (s.is_open ≡ false)
    × (s.queue ≡ [])
    × (v.clients ≡ node.clients)
    × (v.subscriptions ≡ node.subscriptions)
    × (on_accept_session true node
        ≡ record node { posted = node.posted ++ session_listener_async_accept ∷ [] })
on_accept_session_lem_example = on_accept_session_lem node node-IsKeyed.ascending

kernel-Ended_example : Ended (kernel (message "send") on_client 10 node).0
kernel-Ended_example = kernel-Ended (message "send") on_client 10 node (inl refl)

kernel-Answered_example : Answered 3 (kernel (message "publish") on_client 10 node)
kernel-Answered_example =
    kernel-Answered (message "publish") "publish" on_client 10 3 node
      (message-IsAddressed "publish") refl (inl refl)

session_on_read-ReadsOn_example :
    ReadsOn (session_async_read 0) (SessionIo.on_read 0 (some (print (message "join"))) node)
session_on_read-ReadsOn_example =
    session_on_read-ReadsOn 0 (print (message "join")) node sample_accepts

client_on_read-ReadsOn_example :
    ReadsOn
      (client_async_read 0)
      (ClientIo.on_read (client 0 10 1) (some (print (message "send"))) node)
client_on_read-ReadsOn_example =
    client_on_read-ReadsOn (client 0 10 1) (print (message "send")) node

-- A node on which a message to a session and one to a client are under way.
abbrev sending : Task → World
sending t = record node { posted = t ∷ [] }

abbrev session_sent : World
session_sent =
    (perform (session_on_send 0 "hello") tt (under_way [] (sending (session_on_send 0 "hello")))).1

session_sent_posted : session_sent.posted ≡ session_async_write 0 "hello" ∷ []
unfolding perform SessionIo.on_send SessionIo.write_front change_session post
session_sent_posted = refl

session_async_write-InFront_example : InFront "hello" (written 0 []) (session_sent.session 0).queue
session_async_write-InFront_example =
    session_async_write-InFront 0 (sending (session_on_send 0 "hello")) session_sent [] [] "hello"
      (ground arith) refl refl (later here (perform_task [] [] (session_on_send 0 "hello") tt refl))
      session_sent_posted

abbrev client_sent : World
client_sent =
    (perform (client_on_send 1 "hello") tt (under_way [] (sending (client_on_send 1 "hello")))).1

client_sent_posted : client_sent.posted ≡ client_async_write 1 "hello" ∷ []
unfolding perform ClientIo.on_send ClientIo.write_front change_socket post
client_sent_posted = refl

client_async_write-InFront_example :
    InFront "hello" (client_written 1 []) (client_sent.client_socket 1).queue
client_async_write-InFront_example =
    client_async_write-InFront 1 (sending (client_on_send 1 "hello")) client_sent [] [] "hello"
      (ground arith) refl refl (later here (perform_task [] [] (client_on_send 1 "hello") tt refl))
      client_sent_posted

on_accept_client_lem_example :
    let v = on_accept_client false node in
    ((id : ℕ)
      → get_client id v ≡ (
          if not (is_some (get_client 100 node)) && 100 == id
          then some (accepted node)
          else get_client id node))
    × (v.posted
        ≡ node.posted
          ++ (map
                (λ h. session_on_send h (print (make_join_request_object 101 100)))
                (open_sessions node (get_sessions node))
              ++ client_async_accept node.allocated 1000 ∷ client_listener_async_accept ∷ []))
    × (v.client node.allocated ≡ accepted node)
    × ((v.client_socket node.allocated).is_open ≡ false)
    × ((v.client_socket node.allocated).queue ≡ [])
    × (v.sessions ≡ node.sessions)
on_accept_client_lem_example = on_accept_client_lem node

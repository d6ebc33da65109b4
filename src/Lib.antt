-- ===== src/Lib.antt =====
-- The program is a message broker: nodes that keep websockets to each other (sessions) and to their
-- clients, and that share who is connected and who subscribed to what. A message is a JSON object
-- with an action, a transaction id and parameters; the kernel checks it, hands it to the handler of
-- its action, and returns the answer. Handlers change the state of the node and pass messages on to
-- its clients and to the other nodes.
--
-- The parts, the code that they model (paths from the root of the repository), and their files:
--
-- * The state object (src/objects/state.cpp, src/include/aewt/state.hpp). `World` holds its fields,
--   the session and client objects behind its pointers by address, and the tasks that were handed to
--   the event loop. `Store` has the member functions on sessions, clients and subscriptions, `Fanout`
--   those that send, `Sync` the one that tells a new node what this one knows. `Clients` and
--   `Subscriptions` are the indices of clients.hpp and subscriptions.hpp.
-- * The kernel (src/objects/kernel.cpp): `Kernel`, with the checks of src/objects/validator.cpp in
--   `Validator` and the answers of src/objects/response.cpp in `Response`.
-- * The helpers of src/objects/utils.cpp: `Params` reads parameters, `Messages` builds the requests
--   that nodes exchange, `Notices` answers.
-- * The handlers (src/objects/handlers/): `Handlers.Plain` has ping and the unknown actions,
--   `Handlers.Channels` the subscriptions, `Handlers.Delivery` broadcast, publish and send,
--   `Handlers.Membership` join, leave, register and session. `Validators` is src/objects/validators/.
-- * The sockets (src/objects/session.cpp, src/objects/client.cpp): `SessionIo` and `ClientIo` have
--   what each does when an operation on its websocket completes, with the outcome as an argument.
-- * The ports (src/objects/session_listener.cpp, src/objects/client_listener.cpp): `Listeners`, with
--   what the system answers when a port is opened as an argument.
-- * The start of a node (src/objects/server.cpp, with the settings of src/include/aewt/config.hpp and
--   main.cpp): `Server`. The console (src/objects/repl.cpp): `Repl`.
-- * The event loop, which runs all of these: `Loop`. A step performs any one of the posted tasks, with
--   any outcome, or loses a websocket, or releases a session that no map leads to any more.
--
-- Two specifications stand beside the code: `Replication` says what announcements between nodes mean
-- for who is connected and who subscribed to what, and `Validators.Schema` is a table of the parameters
-- of each request.
--
-- How the code is modelled:
--
-- * A member function of the state takes a world to a world and a result; it runs in one step, under
--   its lock. A handler is a function on frames, a world and a response, whose result may be an
--   exception or a call that never returns (`Effects`), so that an early exit keeps what happened
--   before it. The calls of a handler are chained as in the source, with the same guards.
-- * `session::send` and `client::send` post a task if the socket is open. A task is a value at the
--   end of the list of posted tasks, so the order of sending is the order in the list. Whether a
--   websocket is open is for Boost.Beast to say: a completion finds the flag as that library left it.
-- * Uuids are natural numbers, nil is 0. The random generator and the clock are functions of how often
--   they were asked; the world counts that. `std::size_t` wraps round at 2 ^ 64, ports at 2 ^ 16.
-- * Pointers are addresses: `allocated` is the next one, `session`, `client` and `client_socket` the
--   heap.
-- * The loop that retries a refused connection runs as often as the peer refuses, which is a
--   parameter; if the peer refuses for ever the call never returns. No other loop needs fuel, and the
--   event loop is a relation on worlds, not a function.
-- * The start of a node blocks in the call of `run` on the executor. `Server.start` ends where every
--   thread is in that call; `running` counts them, and `Loop` says what they do.
--
-- Code outside of the repository is a parameter: `Json` is Boost.JSON, `MultiIndex` the containers of
-- Boost.MultiIndex, `Platform` gathers both with uuids, clock, and the resolver. Their laws are what
-- their documentation says: reading back a field that was put in, an index that finds what was
-- inserted, a uuid that is read back from its own spelling. `Sample` is an instance on which the
-- functions run, so the laws can be met; `Tests` applies each theorem to a small node. `OrderedMap` is
-- `std::map` as a list that ascends in its keys.
--
-- Not modelled: Boost.Asio and Boost.Beast themselves, of which the loop only knows that a task that
-- was posted may be performed; the log; the reading of the command line; the interleaving of threads
-- inside of a member function or a handler, so that a step of the loop is one handler; the counting
-- of pointers: that no map leads to a session is the condition on which its destructor
-- (`remove_state_of_session`) may run; and an exception of `local_endpoint` on an acceptor that
-- listens. The buffer that `Repl.read` hands to its write is a local variable that is gone by then;
-- the model writes the text that was meant.
--
-- `Common` holds the names and helpers that the parts share.

pub mod Common
pub mod Json
pub mod MultiIndex
pub mod Clients
pub mod Subscriptions
pub mod Platform
pub mod OrderedMap
pub mod World
pub mod Request
pub mod Response
pub mod Messages
pub mod Effects
pub mod Store
pub mod Fanout
pub mod Params
pub mod Validator
pub mod Notices
pub mod Validators
pub mod Sync
pub mod Handlers
pub mod Kernel
pub mod SessionIo
pub mod ClientIo
pub mod Listeners
pub mod Server
pub mod Repl
pub mod Replication
pub mod Loop
pub mod Sample
pub mod Tests

-- ===== src/Server/Obstacles.antt =====
-- What keeps a node from starting (src/objects/server.cpp).
use state.Common.{true, false, ◌≡◌, refl, [], none}
use state.Platform.{Platform}
use state.World.{Config}
use state.Response.{Response}
use state.Effects.{Result, throw, hangs, bad_address, host_not_found, effects, draw}
use state.Handlers.Membership.{make_session, connect}
use state.Listeners.{Opening}
use state.Server.{make_state, start, join_remote, wait}
use state.Server.Start.{framed, when-true}

module _ ⦃p : Platform⦄ where
  open p use {resolves, refusals, is_address}

  -- What is wrong with the settings of a node, and what comes of it.
  pub data Obstacle (c : Config) : Result (Unit {0}) → Type 0 where
    no_address : is_address c.address ≡ false → Obstacle c (throw bad_address)
    unknown_host :
        is_address c.address ≡ true
        → c.is_node ≡ true
        → resolves c.remote_address c.remote_sessions_port ≡ false
        → Obstacle c (throw host_not_found)
    refused_for_ever :
        is_address c.address ≡ true
        → c.is_node ≡ true
        → resolves c.remote_address c.remote_sessions_port ≡ true
        → refusals 0 ≡ none
        → Obstacle c hangs

  -- A node whose own address is none throws; a node that joins another throws where the remote host
  -- does not resolve, and waits for ever where it refuses every connection. None of these has come to
  -- wait for sessions, for clients or for the console: no task is posted, no session is in the map, the
  -- settings have the ports that were set, and no thread runs the event loop.
  pub start_obstructed :
      (c : Config) (sessions clients : Opening) (r : Response) (x : Result (Unit {0}))
      → Obstacle c x
      → let result = start sessions clients (framed r (make_state c)) in
        let w = result.1.world in
        (result.0 ≡ x) × (w.posted ≡ []) × (w.sessions ≡ []) × (w.config ≡ c) × (w.running ≡ 0)
  unfolding start effects make_state join_remote connect wait make_session draw
  start_obstructed c sessions clients r x (no_address a) = rw a (refl, refl, refl, refl, refl)
  start_obstructed c sessions clients r x (unknown_host a n h) =
      rw (a, when-true join_remote c.is_node n, h) (refl, refl, refl, refl, refl)
  start_obstructed c sessions clients r x (refused_for_ever a n h e) =
      rw (a, when-true join_remote c.is_node n, h, e) (refl, refl, refl, refl, refl)

-- ===== src/Loop/WellFormed.antt =====
-- Every step of the event loop keeps a state well formed.
use state.Common.{ℕ, ◌≡◌, refl, List, [], ◌∷◌, arith}
use state.Platform.{Platform}
use state.World.{World, Config, Session, ClientSocket, Task}
use state.Effects.{draw}
use state.Store.{remove_session, remove_state_of_session}
use state.Store.Sessions.{remove_session-IsKeyed}
use state.Fanout.{post}
use state.OrderedMap.{erase}
use state.SessionIo.{change_session}
use state.ClientIo.{change_socket}
use state.Server.{wait, run_executor, make_state, start}
use state.Kernel.Invariant.{IsWellFormed, Preserves, Below, same, Keyed-congr, enter_step}
use state.Kernel.Preservation.{preserving}
use state.Loop.Handled.{Handled}
use state.Loop.Every.{Looped, start_step}
use state.Response.{Response}
use state.Listeners.{Opening}
use state.Loop.{under_way, Reach}

Below-erase : (n k : ℕ) (m : List (ℕ × ℕ)) → Below n m → Below n (erase k m)
unfolding erase
Below-erase n k [] b = tt
Below-erase n k ((j, h) ∷ m) b = ground (arith, Below-erase n k m b.1)

module _ ⦃p : Platform⦄ where
  open p use {json.{Object, parse, serialize}}

  -- Steps that change no more than tasks, sockets, tables of clients and counts.
  post_step : (t : Task) (w : World) → Preserves w (post t w)
  unfolding post
  post_step t w = same w _ refl refl (omega arith)

  change_session_step :
      (h : ℕ) (f : Session → Session) (w : World)
      → (f (w.session h)).id ≡ (w.session h).id
      → Preserves w (change_session h f w)
  unfolding change_session
  change_session_step h f w e = record {
    preserved = λ k. record {
      keyed = record {
        ascending = k.keyed.ascending;
        keyed =
            Keyed-congr w.session (change_session h f w).session w.sessions (λ j. ground (arith, e))
              k.keyed.keyed;
      };
      below = k.below;
    };
  }

  change_socket_step :
      (h : ℕ) (f : ClientSocket → ClientSocket) (w : World) → Preserves w (change_socket h f w)
  unfolding change_socket
  change_socket_step h f w = same w _ refl refl (omega arith)

  remove_session_step : (id : ℕ) (w : World) → Preserves w (remove_session id w).0
  unfolding remove_session
  remove_session_step id w = record {
    preserved = λ k. record {
      keyed = remove_session-IsKeyed id w k.keyed;
      below = Below-erase w.allocated id w.sessions k.below;
    };
  }

  draw_step : (w : World) → Preserves w (draw w).0
  unfolding draw
  draw_step w = same w _ refl refl (omega arith)

  release_step : (id : ℕ) (w : World) → Preserves w (remove_state_of_session id w)
  unfolding remove_state_of_session
  release_step id w = same w _ refl refl (omega arith)

  config_step : (c : Config) (w : World) → Preserves w (record w { config = c })
  config_step c w = same w _ refl refl (omega arith)

  wait_step : (w : World) → Preserves w (wait w)
  unfolding wait
  wait_step w = same w _ refl refl (omega arith)

  run_step : (w : World) → Preserves w (run_executor w)
  unfolding run_executor
  run_step w = same w _ refl refl (omega arith)

  abbrev handled : Handled
  handled = record {
    closed = preserving;
    draw_step = draw_step;
    post_step = λ t w e. post_step t w;
    wait_step = wait_step;
    run_step = run_step;
    config_step = config_step;
    session_step = λ h f w i q. change_session_step h f w (i (w.session h));
    socket_step = λ h f w q. change_socket_step h f w;
    remove_session_step = remove_session_step;
    enter_step = enter_step;
    release_step = release_step;
  }

  taken_step : (ts : List Task) (w : World) → Preserves w (under_way ts w)
  taken_step ts w = same w _ refl refl (omega arith)

  abbrev looped : Looped
  looped = record {
    handled = handled;
    post_step = post_step;
    session_queue_step = λ h q w. change_session_step h _ w refl;
    socket_queue_step = λ h q w. change_socket_step h _ w;
    taken_step = taken_step;
  }

  -- A new state, with no session, is well formed.
  make_state-IsWellFormed : (c : Config) → IsWellFormed (make_state c)
  unfolding make_state
  make_state-IsWellFormed c = record { keyed = record { ascending = tt; keyed = tt }; below = tt }

  -- Whatever the settings of a node, whatever the system answers to its listeners, and whether the
  -- start returns, throws or hangs: however the tasks are then interleaved, whatever they complete
  -- with and whichever websockets are lost, the ids of the map of sessions ascend, each session stands
  -- under its own id and every address of the map is allocated.
  pub start-IsWellFormed :
      (c : Config) (sessions clients : Opening) (r : Response) (w : World)
      → Reach (start sessions clients (record { world = make_state c; response = r })).1.world w
      → IsWellFormed w
  start-IsWellFormed c sessions clients r w reached =
      (start_step looped sessions clients _ reached).preserved (make_state-IsWellFormed c)

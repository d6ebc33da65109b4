-- ===== src/Loop/OneWrite/Reached.antt =====
-- Over the whole event loop, a websocket has at most one write under way (src/objects/session.cpp and
-- client.cpp).
use state.Common.{ℕ, ◌<◌, ◌≡◌, inl, String, List, [], ◌∷◌, ◌++◌}
use state.Platform.{Platform}
use state.World.{World, Task, session_async_write, client_async_write}
use state.SessionIo.Queue.{written}
use state.Loop.{Step, perform_task, lose_session, lose_client, release_session, Reach, here, later}
use state.Loop.Calm.{client_written}
use state.Loop.Calm.Steps.{lose_session_step, lose_client_step, release_step}
use state.Loop.OneWrite.{InFront}
use state.Loop.OneWrite.Steps.{InTurn, calm_InTurn, performed, session_own, client_own}

module _ ⦃p : Platform⦄ where
  module _ (h : ℕ) where
    Step-InTurn : {v w : World} → Step v w → InTurn h v → InTurn h w
    Step-InTurn {v} (perform_task before after t o e) = performed h before after t o v e
    Step-InTurn {v} (lose_session j) = calm_InTurn h _ _ (lose_session_step h j v)
    Step-InTurn {v} (lose_client j) = calm_InTurn h _ _ (lose_client_step h j v)
    Step-InTurn {v} (release_session id e) = calm_InTurn h _ _ (release_step h id v)

    pub Reach-InTurn : {v w : World} → InTurn h v → Reach v w → InTurn h w
    Reach-InTurn i here = i
    Reach-InTurn i (later r s) = Step-InTurn s (Reach-InTurn i r)

  -- However the tasks of a node are interleaved and whatever they complete with: from a state in which
  -- an object has been made and no write to its websocket is under way, whenever a write to it is under
  -- way later, the object being a session, its message stands in front of the queue of the session,
  -- and no other write to the session is under way: a completed write shortens no empty queue.
  pub session_async_write-InFront :
      (h : ℕ) (v w : World) (before after : List Task) (m : String)
      → h < v.allocated
      → written h v.posted ≡ []
      → client_written h v.posted ≡ []
      → Reach v w
      → w.posted ≡ before ++ session_async_write h m ∷ after
      → InFront m (written h (before ++ after)) (w.session h).queue
  session_async_write-InFront h v w before after m made idle none_ r e =
      session_own h before after m w e
        (Reach-InTurn h (record { made = made; session = inl idle; client = inl none_ }) r).session

  -- However the tasks of a node are interleaved and whatever they complete with: from a state in which
  -- an object has been made and no write to its websocket is under way, whenever a write to it is under
  -- way later, the object being a client, its message stands in front of the queue of the client, and
  -- no other write to the client is under way: a completed write shortens no empty queue.
  pub client_async_write-InFront :
      (h : ℕ) (v w : World) (before after : List Task) (m : String)
      → h < v.allocated
      → written h v.posted ≡ []
      → client_written h v.posted ≡ []
      → Reach v w
      → w.posted ≡ before ++ client_async_write h m ∷ after
      → InFront m (client_written h (before ++ after)) (w.client_socket h).queue
  client_async_write-InFront h v w before after m made idle none_ r e =
      client_own h before after m w e
        (Reach-InTurn h (record { made = made; session = inl idle; client = inl none_ }) r).client

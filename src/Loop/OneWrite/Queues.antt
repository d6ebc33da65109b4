-- ===== src/Loop/OneWrite/Queues.antt =====
-- What `on_send` and `on_write` of src/objects/session.cpp and client.cpp do to each queue.
use state.Common.{
  ℕ, Bool, true, false, ◌≡◌, inl, inr, Bool-cases, refl, ap, ◌∙◌, String, List, [], ◌∷◌, ◌++◌, ◌==◌,
  ltb, length,
}
use mathlib.Core.List.{append-nil}
use state.Platform.{Platform}
use state.World.{World, Task, Session, session_async_write}
use state.Fanout.{post}
use state.SessionIo.{change_session, dropped}
use state.SessionIo
use state.SessionIo.Queue.{write_of, written, flat_map-append, on_send_lem, on_write_lem}
use state.Loop.Calm.{client_write_of, client_written}
use state.Loop.OneWrite.{OneWrite}

-- The queue and the writes under way of the session, and of the client, at an address.
pub record Same (q q' ws ws' : List String) : Type 0 where
  pub queue : q' ≡ q
  pub writes : ws' ≡ ws

module _ ⦃p : Platform⦄ where
  abbrev pub SameSession : ℕ → World → World → Type 0
  SameSession h v w =
      Same (v.session h).queue (w.session h).queue (written h v.posted) (written h w.posted)

  abbrev pub SameClient : ℕ → World → World → Type 0
  SameClient h v w =
      Same (v.client_socket h).queue (w.client_socket h).queue (client_written h v.posted)
        (client_written h w.posted)

  abbrev pub SessionWrite : ℕ → World → Type 0
  SessionWrite h w = OneWrite (w.session h).queue (written h w.posted)

  abbrev pub ClientWrite : ℕ → World → Type 0
  ClientWrite h w = OneWrite (w.client_socket h).queue (client_written h w.posted)

  pub written-post :
      (h : ℕ) (t : Task) (w : World)
      → written h (post t w).posted ≡ written h w.posted ++ write_of h t
  unfolding post
  written-post h t w =
      flat_map-append (write_of h) w.posted (t ∷ [])
      ∙ ap (λ ts. written h w.posted ++ ts) (append-nil (write_of h t))

  pub client_written-post :
      (h : ℕ) (t : Task) (w : World)
      → client_written h (post t w).posted ≡ client_written h w.posted ++ client_write_of h t
  unfolding post
  client_written-post h t w =
      flat_map-append (client_write_of h) w.posted (t ∷ [])
      ∙ ap (λ ts. client_written h w.posted ++ ts) (append-nil (client_write_of h t))

  pub session_on_send_OneWrite :
      (h : ℕ) (m : String) (w : World) (q : List String)
      → (w.session h).queue ≡ q
      → OneWrite q (written h w.posted)
      → SessionWrite h (SessionIo.on_send h m w)
  session_on_send_OneWrite h m w [] e (inl n) =
      let l = on_send_lem h m w [] e in inr (rw (l.0, l.1, n) refl)
  session_on_send_OneWrite h m w [] e (inr n) =
      let l = on_send_lem h m w [] e in inr (rw (l.0, l.1, n) refl)
  session_on_send_OneWrite h m w (x ∷ q) e (inl n) =
      let l = on_send_lem h m w (x ∷ q) e in inl (rw (l.1, n) refl)
  session_on_send_OneWrite h m w (x ∷ q) e (inr n) =
      let l = on_send_lem h m w (x ∷ q) e in inr (rw (l.0, l.1, n) refl)

  pub session_on_write_OneWrite :
      (h : ℕ) (failed : Bool) (x : String) (q : List String) (w : World)
      → (w.session h).queue ≡ x ∷ q
      → written h w.posted ≡ []
      → SessionWrite h (SessionIo.on_write h failed w)
  unfolding SessionIo.on_write
  session_on_write_OneWrite h true x q w e n = inl n
  session_on_write_OneWrite h false x q w e n =
      let l = on_write_lem h w x q e in inr (rw (l.0, l.1, n) refl)

  session_front_other :
      (h j : ℕ) (q : List String) (w : World)
      → (j == h) ≡ false
      → SameSession h w (SessionIo.write_front j q w)
  unfolding SessionIo.write_front post
  session_front_other h j [] w e = record { queue = refl; writes = refl }
  session_front_other h j (m ∷ q) w e = record {
    queue = refl;
    writes = written-post h (session_async_write j m) w ∙ rw e (append-nil _);
  }

  -- The same with the queue of another session changed before.
  session_changed_other :
      (h j : ℕ) (f : Session → Session) (q : List String) (w : World)
      → (j == h) ≡ false
      → SameSession h w (change_session j f w)
        × SameSession h w (SessionIo.write_front j q (change_session j f w))
  unfolding change_session
  session_changed_other h j f q w e =
      let s = session_front_other h j q (change_session j f w) e in
      (
        record { queue = rw e refl; writes = refl },
        record { queue = s.queue ∙ rw e refl; writes = s.writes },
      )

  pub session_on_send_other :
      (h j : ℕ) (m : String) (w : World)
      → (j == h) ≡ false
      → SameSession h w (SessionIo.on_send j m w)
  unfolding SessionIo.on_send
  session_on_send_other h j m w e =
      let s = session_changed_other h j _ _ w e in
      elim (Bool-cases (ltb 1 (length ((w.session j).queue ++ m ∷ [])))) [
        | inl b ↦ rw b s.0
        | inr b ↦ rw b s.1
      ]

  pub session_on_write_other :
      (h j : ℕ) (failed : Bool) (w : World)
      → (j == h) ≡ false
      → SameSession h w (SessionIo.on_write j failed w)
  unfolding SessionIo.on_write
  session_on_write_other h j true w e = record { queue = refl; writes = refl }
  session_on_write_other h j false w e = (session_changed_other h j _ _ w e).1

  -- The queues of clients are not those of sessions.
  session_front_client :
      (h j : ℕ) (f : Session → Session) (q : List String) (w : World)
      → SameClient h w (change_session j f w)
        × SameClient h w (SessionIo.write_front j q (change_session j f w))
  unfolding SessionIo.write_front post change_session
  session_front_client h j f [] w =
      (record { queue = refl; writes = refl }, record { queue = refl; writes = refl })
  session_front_client h j f (m ∷ q) w = (
    record { queue = refl; writes = refl },
    record {
      queue = refl;
      writes = client_written-post h (session_async_write j m) w ∙ append-nil _;
    },
  )

  pub session_on_send_client :
      (h j : ℕ) (m : String) (w : World) → SameClient h w (SessionIo.on_send j m w)
  unfolding SessionIo.on_send
  session_on_send_client h j m w =
      let s = session_front_client h j _ _ w in
      elim (Bool-cases (ltb 1 (length ((w.session j).queue ++ m ∷ [])))) [
        | inl b ↦ rw b s.0
        | inr b ↦ rw b s.1
      ]

  pub session_on_write_client :
      (h j : ℕ) (failed : Bool) (w : World) → SameClient h w (SessionIo.on_write j failed w)
  unfolding SessionIo.on_write
  session_on_write_client h j true w = record { queue = refl; writes = refl }
  session_on_write_client h j false w = (session_front_client h j _ _ w).1

  session_front_allocated :
      (j : ℕ) (q : List String) (w : World) → (SessionIo.write_front j q w).allocated ≡ w.allocated
  unfolding SessionIo.write_front post
  session_front_allocated j [] w = refl
  session_front_allocated j (m ∷ q) w = refl

  pub session_on_send_allocated :
      (j : ℕ) (m : String) (w : World) → (SessionIo.on_send j m w).allocated ≡ w.allocated
  unfolding SessionIo.on_send change_session
  session_on_send_allocated j m w =
      elim (Bool-cases (ltb 1 (length ((w.session j).queue ++ m ∷ [])))) [
        | inl b ↦ rw b refl
        | inr b ↦ rw b (session_front_allocated j _ _)
      ]

  pub session_on_write_allocated :
      (j : ℕ) (failed : Bool) (w : World) → (SessionIo.on_write j failed w).allocated ≡ w.allocated
  unfolding SessionIo.on_write change_session
  session_on_write_allocated j true w = refl
  session_on_write_allocated j false w = session_front_allocated j _ _

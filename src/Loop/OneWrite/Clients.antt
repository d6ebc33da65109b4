-- ===== src/Loop/OneWrite/Clients.antt =====
-- What `on_send` and `on_write` of src/objects/client.cpp do to each queue.
use state.Common.{
  ℕ, Bool, true, false, ◌&&◌, ◌≡◌, inl, inr, Bool-cases, refl, ◌∙◌, String, List, [], ◌∷◌, ◌++◌,
  ◌==◌, ==_self, ltb, length, arith,
}
use mathlib.Core.List.{append-nil}
use state.Platform.{Platform}
use state.World.{World, ClientSocket, client_async_write}
use state.Fanout.{post}
use state.SessionIo.Queue.{two_or_more}
use state.ClientIo.{change_socket}
use state.ClientIo
use state.Loop.Calm.{client_written}
use state.Loop.OneWrite.{OneWrite}
use state.Loop.OneWrite.Queues.{
  SameSession, SameClient, ClientWrite, written-post, client_written-post,
}

module _ ⦃p : Platform⦄ where
  -- Where no write is under way, the front of the queue is written if the websocket is open.
  client_front_OneWrite :
      (h : ℕ) (q : List String) (w : World)
      → (w.client_socket h).queue ≡ q
      → client_written h w.posted ≡ []
      → ClientWrite h (ClientIo.write_front h q w)
  unfolding ClientIo.write_front post
  client_front_OneWrite h [] w e n = inl n
  client_front_OneWrite h (m ∷ q) w e n =
      elim (Bool-cases ((w.client_socket h).has_socket && (w.client_socket h).is_open)) [
        | inl b ↦
            rw b
              (inr (client_written-post h (client_async_write h m) w ∙ rw (n, ==_self h, e) refl))
        | inr b ↦ rw b (inl n)
      ]

  pub client_on_send_OneWrite :
      (h : ℕ) (m : String) (w : World) (q : List String)
      → (w.client_socket h).queue ≡ q
      → OneWrite q (client_written h w.posted)
      → ClientWrite h (ClientIo.on_send h m w)
  unfolding ClientIo.on_send change_socket
  client_on_send_OneWrite h m w [] e (inl n) =
      rw e (client_front_OneWrite h _ _ (rw (==_self h) refl) n)
  client_on_send_OneWrite h m w [] e (inr n) =
      rw e (client_front_OneWrite h _ _ (rw (==_self h) refl) n)
  client_on_send_OneWrite h m w (x ∷ q) e (inl n) = rw (e, two_or_more m q) (inl n)
  client_on_send_OneWrite h m w (x ∷ q) e (inr n) =
      rw (e, two_or_more m q) (inr (n ∙ rw (==_self h) refl))

  pub client_on_write_OneWrite :
      (h : ℕ) (failed : Bool) (w : World)
      → client_written h w.posted ≡ []
      → ClientWrite h (ClientIo.on_write h failed w)
  unfolding ClientIo.on_write change_socket
  client_on_write_OneWrite h true w n = inl n
  client_on_write_OneWrite h false w n = client_front_OneWrite h _ _ (rw (==_self h) refl) n

  -- A client at another address.
  client_changed_other :
      (h j : ℕ) (f : ClientSocket → ClientSocket) (w : World)
      → (j == h) ≡ false
      → SameClient h w (change_socket j f w)
  unfolding change_socket
  client_changed_other h j f w e = record { queue = rw e refl; writes = refl }

  client_front_other :
      (h j : ℕ) (f : ClientSocket → ClientSocket) (q : List String) (w : World)
      → (j == h) ≡ false
      → SameClient h w (ClientIo.write_front j q (change_socket j f w))
  unfolding ClientIo.write_front change_socket post
  client_front_other h j f [] w e = record { queue = rw e refl; writes = refl }
  client_front_other h j f (m ∷ q) w e =
      let v = change_socket j f w in
      elim (Bool-cases ((v.client_socket j).has_socket && (v.client_socket j).is_open)) [
        | inl b ↦ rw b (record {
          queue = rw e refl;
          writes = client_written-post h (client_async_write j m) v ∙ rw e (append-nil _);
        })
        | inr b ↦ rw b (record { queue = rw e refl; writes = refl })
      ]

  pub client_on_send_other :
      (h j : ℕ) (m : String) (w : World)
      → (j == h) ≡ false
      → SameClient h w (ClientIo.on_send j m w)
  unfolding ClientIo.on_send
  client_on_send_other h j m w e =
      elim (Bool-cases (ltb 1 (length ((w.client_socket j).queue ++ m ∷ [])))) [
        | inl b ↦ rw b (client_changed_other h j _ w e)
        | inr b ↦ rw b (client_front_other h j _ _ w e)
      ]

  pub client_on_write_other :
      (h j : ℕ) (failed : Bool) (w : World)
      → (j == h) ≡ false
      → SameClient h w (ClientIo.on_write j failed w)
  unfolding ClientIo.on_write
  client_on_write_other h j true w e = record { queue = refl; writes = refl }
  client_on_write_other h j false w e = client_front_other h j _ _ w e

  -- The queues of sessions are not those of clients.
  client_front_session :
      (h j : ℕ) (f : ClientSocket → ClientSocket) (q : List String) (w : World)
      → SameSession h w (change_socket j f w)
        × SameSession h w (ClientIo.write_front j q (change_socket j f w))
  unfolding ClientIo.write_front change_socket post
  client_front_session h j f [] w =
      (record { queue = refl; writes = refl }, record { queue = refl; writes = refl })
  client_front_session h j f (m ∷ q) w =
      let v = change_socket j f w in
      (
        record { queue = refl; writes = refl },
        elim (Bool-cases ((v.client_socket j).has_socket && (v.client_socket j).is_open)) [
          | inl b ↦ rw b (record {
            queue = refl;
            writes = written-post h (client_async_write j m) v ∙ append-nil _;
          })
          | inr b ↦ rw b (record { queue = refl; writes = refl })
        ],
      )

  pub client_on_send_session :
      (h j : ℕ) (m : String) (w : World) → SameSession h w (ClientIo.on_send j m w)
  unfolding ClientIo.on_send
  client_on_send_session h j m w =
      let s = client_front_session h j _ _ w in
      elim (Bool-cases (ltb 1 (length ((w.client_socket j).queue ++ m ∷ [])))) [
        | inl b ↦ rw b s.0
        | inr b ↦ rw b s.1
      ]

  pub client_on_write_session :
      (h j : ℕ) (failed : Bool) (w : World) → SameSession h w (ClientIo.on_write j failed w)
  unfolding ClientIo.on_write
  client_on_write_session h j true w = record { queue = refl; writes = refl }
  client_on_write_session h j false w = (client_front_session h j _ _ w).1

  client_front_allocated :
      (j : ℕ) (q : List String) (w : World) → (ClientIo.write_front j q w).allocated ≡ w.allocated
  unfolding ClientIo.write_front post
  client_front_allocated j [] w = refl
  client_front_allocated j (m ∷ q) w = ground arith

  pub client_on_send_allocated :
      (j : ℕ) (m : String) (w : World) → (ClientIo.on_send j m w).allocated ≡ w.allocated
  unfolding ClientIo.on_send change_socket
  client_on_send_allocated j m w =
      elim (Bool-cases (ltb 1 (length ((w.client_socket j).queue ++ m ∷ [])))) [
        | inl b ↦ rw b refl
        | inr b ↦ rw b (client_front_allocated j _ _)
      ]

  pub client_on_write_allocated :
      (j : ℕ) (failed : Bool) (w : World) → (ClientIo.on_write j failed w).allocated ≡ w.allocated
  unfolding ClientIo.on_write change_socket
  client_on_write_allocated j true w = refl
  client_on_write_allocated j false w = client_front_allocated j _ _

-- ===== src/Loop/OneWrite/Steps.antt =====
-- Every step of the event loop leaves at most one write under way to each websocket.
use state.Common.{
  ℕ, ◌<◌, Bool, false, ◌≡◌, inl, inr, Bool-cases, refl, sym, ap, ◌∙◌, String, List, [], ◌∷◌, ◌++◌,
  ◌==◌, ==_self, ==_iff, flat_map, arith,
}
use state.Platform.{Platform}
use state.World.{
  World, Task, session_on_send, client_on_send, session_on_run, session_async_accept,
  session_async_handshake, session_async_read, client_async_read, client_async_accept,
  session_async_write, client_async_write, session_listener_async_accept,
  client_listener_async_accept, repl_async_read, repl_async_write,
}
use state.SessionIo.{change_session}
use state.SessionIo
use state.ClientIo.{change_socket}
use state.ClientIo
use state.SessionIo.Queue.{write_of, written, flat_map-append}
use state.Loop.{Outcome, perform, under_way}
use state.Loop.Handled.{is_write, is_queueing}
use state.Loop.Calm.{Calm, client_write_of, client_written, silent}
use state.Loop.Calm.Steps.{performed_step}
use state.Loop.OneWrite.{OneWrite, InFront, OneWrite-InFront}
use state.Loop.OneWrite.Queues.{
  session_on_send_allocated, session_on_write_allocated, Same, SessionWrite, ClientWrite,
  session_on_send_OneWrite, session_on_write_OneWrite, session_on_send_other,
  session_on_write_other, session_on_send_client, session_on_write_client,
}
use state.Loop.OneWrite.Clients.{
  client_on_send_allocated, client_on_write_allocated, client_on_send_OneWrite,
  client_on_write_OneWrite, client_on_send_other, client_on_write_other, client_on_send_session,
  client_on_write_session,
}

flat_map-middle {ℓ κ} :
    {A : Type ℓ} {B : Type κ} (f : A → List B) (xs : List A) (x : A) (ys : List A)
    → flat_map f (xs ++ x ∷ ys) ≡ flat_map f xs ++ (f x ++ flat_map f ys)
flat_map-middle f xs x ys = flat_map-append f xs (x ∷ ys)

-- Without an element that gives nothing, and without one that gives one.
flat_map-removed {ℓ κ} :
    {A : Type ℓ} {B : Type κ} (f : A → List B) (xs : List A) (x : A) (ys : List A)
    → f x ≡ []
    → flat_map f (xs ++ ys) ≡ flat_map f (xs ++ x ∷ ys)
flat_map-removed f xs x ys e = rw (flat_map-middle f xs x ys, e, flat_map-append f xs ys) refl

OneWrite-Same : {q q' ws ws' : List String} → Same q q' ws ws' → OneWrite q ws → OneWrite q' ws'
OneWrite-Same s (inl e) = inl (s.writes ∙ e)
OneWrite-Same s (inr e) = inr (rw s.queue (s.writes ∙ e))

module _ ⦃p : Platform⦄ where
  -- The object at an address exists, and each of its websockets has at most one write under way.
  pub record InTurn (h : ℕ) (w : World) : Type 0 where
    pub made : h < w.allocated
    pub session : SessionWrite h w
    pub client : ClientWrite h w

  module _ (h : ℕ) where
    pub calm_InTurn : (v w : World) → Calm h v w → InTurn h v → InTurn h w
    calm_InTurn v w c i = record {
      made = omega (arith, c.grown, i.made);
      session = OneWrite-Same (record { queue = c.session i.made; writes = c.writes }) i.session;
      client =
          OneWrite-Same (record { queue = c.client i.made; writes = c.client_writes }) i.client;
    }

    module _ (before after : List Task) where
      removed_session :
          (t : Task) (v : World)
          → v.posted ≡ before ++ t ∷ after
          → write_of h t ≡ []
          → SessionWrite h v
          → SessionWrite h (under_way (before ++ after) v)
      removed_session t v e none_ s =
          OneWrite-Same
            (record {
              queue = refl;
              writes = flat_map-removed (write_of h) before t after none_ ∙ ap (written h) (sym e);
            })
            s

      removed_client :
          (t : Task) (v : World)
          → v.posted ≡ before ++ t ∷ after
          → client_write_of h t ≡ []
          → ClientWrite h v
          → ClientWrite h (under_way (before ++ after) v)
      removed_client t v e none_ s =
          OneWrite-Same
            (record {
              queue = refl;
              writes =
                  flat_map-removed (client_write_of h) before t after none_
                  ∙ ap (client_written h) (sym e);
            })
            s

      -- A task of no write queue.
      plain :
          (t : Task) (o : Outcome t) (v : World)
          → v.posted ≡ before ++ t ∷ after
          → is_queueing t ≡ false
          → is_write t ≡ false
          → InTurn h v
          → InTurn h (perform t o (under_way (before ++ after) v)).1
      plain t o v e q n i = calm_InTurn _ _ (performed_step h t o _ q) (record {
        made = i.made;
        session = removed_session t v e (silent h t n).0 i.session;
        client = removed_client t v e (silent h t n).1 i.client;
      })

      -- The write that completes is of the message in front of the queue.
      pub session_own :
          (m : String) (v : World)
          → v.posted ≡ before ++ session_async_write h m ∷ after
          → SessionWrite h v
          → InFront m (written h (before ++ after)) (v.session h).queue
      session_own m v e s = rw (flat_map-append (write_of h) before after) (
          OneWrite-InFront (written h before) (written h after) m (v.session h).queue (
            OneWrite-Same
              (record {
                queue = refl;
                writes = rw (e, flat_map-middle (write_of h) before, ==_self h) refl;
              })
              s))

      pub client_own :
          (m : String) (v : World)
          → v.posted ≡ before ++ client_async_write h m ∷ after
          → ClientWrite h v
          → InFront m (client_written h (before ++ after)) (v.client_socket h).queue
      client_own m v e s = rw (flat_map-append (client_write_of h) before after) (
          OneWrite-InFront (client_written h before) (client_written h after) m
            (v.client_socket h).queue
            (OneWrite-Same
              (record {
                queue = refl;
                writes = rw (e, flat_map-middle (client_write_of h) before, ==_self h) refl;
              })
              s))

      session_sent :
          (j : ℕ) (m : String) (v : World)
          → v.posted ≡ before ++ session_on_send j m ∷ after
          → InTurn h v
          → InTurn h (SessionIo.on_send j m (under_way (before ++ after) v))
      session_sent j m v e i =
          let u = under_way (before ++ after) v in
          let r = removed_session (session_on_send j m) v e refl i.session in
          record {
            made = rw (session_on_send_allocated j m u) i.made;
            session = elim (Bool-cases (j == h)) [
              | inl b ↦
                  rw ((==_iff j h).0 b) (session_on_send_OneWrite h m u (u.session h).queue refl r)
              | inr b ↦ OneWrite-Same (session_on_send_other h j m u b) r
            ];
            client =
                OneWrite-Same (session_on_send_client h j m u)
                  (removed_client (session_on_send j m) v e refl i.client);
          }

      session_wrote :
          (j : ℕ) (m : String) (failed : Bool) (v : World)
          → v.posted ≡ before ++ session_async_write j m ∷ after
          → InTurn h v
          → InTurn h (SessionIo.on_write j failed (under_way (before ++ after) v))
      session_wrote j m failed v e i =
          let u = under_way (before ++ after) v in
          record {
            made = rw (session_on_write_allocated j failed u) i.made;
            session = elim (Bool-cases (j == h)) [
              | inl b ↦
                  let own = session_own m v (e ∙ rw ((==_iff j h).0 b) refl) i.session in
                  rw ((==_iff j h).0 b)
                    (session_on_write_OneWrite h failed m own.rest u own.queued own.alone)
              | inr b ↦
                  OneWrite-Same (session_on_write_other h j failed u b)
                    (removed_session (session_async_write j m) v e (rw b refl) i.session)
            ];
            client =
                OneWrite-Same (session_on_write_client h j failed u)
                  (removed_client (session_async_write j m) v e refl i.client);
          }

      client_sent :
          (j : ℕ) (m : String) (v : World)
          → v.posted ≡ before ++ client_on_send j m ∷ after
          → InTurn h v
          → InTurn h (ClientIo.on_send j m (under_way (before ++ after) v))
      client_sent j m v e i =
          let u = under_way (before ++ after) v in
          let r = removed_client (client_on_send j m) v e refl i.client in
          record {
            made = rw (client_on_send_allocated j m u) i.made;
            session =
                OneWrite-Same (client_on_send_session h j m u)
                  (removed_session (client_on_send j m) v e refl i.session);
            client = elim (Bool-cases (j == h)) [
              | inl b ↦
                  rw ((==_iff j h).0 b)
                    (client_on_send_OneWrite h m u (u.client_socket h).queue refl r)
              | inr b ↦ OneWrite-Same (client_on_send_other h j m u b) r
            ];
          }

      client_wrote :
          (j : ℕ) (m : String) (failed : Bool) (v : World)
          → v.posted ≡ before ++ client_async_write j m ∷ after
          → InTurn h v
          → InTurn h (ClientIo.on_write j failed (under_way (before ++ after) v))
      client_wrote j m failed v e i =
          let u = under_way (before ++ after) v in
          record {
            made = rw (client_on_write_allocated j failed u) i.made;
            session =
                OneWrite-Same (client_on_write_session h j failed u)
                  (removed_session (client_async_write j m) v e refl i.session);
            client = elim (Bool-cases (j == h)) [
              | inl b ↦
                  let own = client_own m v (e ∙ rw ((==_iff j h).0 b) refl) i.client in
                  rw ((==_iff j h).0 b) (client_on_write_OneWrite h failed u own.alone)
              | inr b ↦
                  OneWrite-Same (client_on_write_other h j failed u b)
                    (removed_client (client_async_write j m) v e (rw b refl) i.client)
            ];
          }

      pub performed :
          (t : Task) (o : Outcome t) (v : World)
          → v.posted ≡ before ++ t ∷ after
          → InTurn h v
          → InTurn h (perform t o (under_way (before ++ after) v)).1
      unfolding perform
      performed (session_on_send j m) o v e i = session_sent j m v e i
      performed (session_async_write j m) o v e i = session_wrote j m o v e i
      performed (client_on_send j m) o v e i = client_sent j m v e i
      performed (client_async_write j m) o v e i = client_wrote j m o v e i
      performed (session_on_run j c) o v e i = plain (session_on_run j c) o v e refl refl i
      performed (session_async_accept j) o v e i = plain (session_async_accept j) o v e refl refl i
      performed (session_async_handshake j host) o v e i =
          plain (session_async_handshake j host) o v e refl refl i
      performed (session_async_read j) o v e i = plain (session_async_read j) o v e refl refl i
      performed (client_async_read j) o v e i = plain (client_async_read j) o v e refl refl i
      performed (client_async_accept j n) o v e i =
          plain (client_async_accept j n) o v e refl refl i
      performed session_listener_async_accept o v e i =
          plain session_listener_async_accept o v e refl refl i
      performed client_listener_async_accept o v e i =
          plain client_listener_async_accept o v e refl refl i
      performed repl_async_read o v e i = plain repl_async_read o v e refl refl i
      performed (repl_async_write s) o v e i = plain (repl_async_write s) o v e refl refl i

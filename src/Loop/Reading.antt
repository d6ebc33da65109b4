-- ===== src/Loop/Reading.antt =====
-- Who reads on (src/objects/session.cpp and client.cpp): each message that is read is followed by the
-- next reading, unless the handler leaves the loop by an exception.
use state.Common.{ℕ, ◌≡◌, inl, inr, refl, List, [], ◌∷◌, ◌++◌, String, Option, none, some}
use state.Json.{Value}
use state.Clients.{Client}
use state.Platform.{Platform}
use state.World.{World, Task, session_async_read, client_async_read}
use state.Request.{on_client, on_session}
use state.Effects.{Result, ok, throw, hangs, Exception, Frame}
use state.Effects.Ends.{Ended}
use state.Fanout.{post}
use state.SessionIo
use state.ClientIo
use state.Kernel.Ends.{AllAccept, kernel-Ended}

module _ ⦃p : Platform⦄ where
  open p use {json.{Object, parse}}

  -- The handler returned and posted a task last, or threw.
  pub data ReadsOn (t : Task) : Result (Unit {0}) × World → Type 0 where
    reads : {w : World} (ts : List Task) → w.posted ≡ ts ++ t ∷ [] → ReadsOn t (ok tt, w)
    leaves : {w : World} (e : Exception) → ReadsOn t (throw e, w)

  session_read : (h : ℕ) (w : World) → ReadsOn (session_async_read h) (ok tt, SessionIo.do_read h w)
  unfolding SessionIo.do_read post
  session_read h w = reads w.posted refl

  session_answer :
      (h : ℕ) (x : Result (Unit {0}) × Frame)
      → Ended x.0
      → ReadsOn (session_async_read h) (SessionIo.answer h x)
  unfolding SessionIo.answer
  session_answer h (ok u, f) e = session_read h _
  session_answer h (throw e, f) x = leaves e
  session_answer h (hangs, f) e = elim e [ ]

  session_on_text :
      (h read_at : ℕ) (v : Option (Value Object)) (w : World)
      → AllAccept
      → ReadsOn (session_async_read h) (SessionIo.on_text h read_at v w)
  unfolding SessionIo.on_text
  session_on_text h read_at (some (Value.object o)) w a =
      session_answer h _ (kernel-Ended o on_session (w.session h).id w (inr a))
  session_on_text h read_at none w a = session_read h _
  session_on_text h read_at (some Value.null) w a = session_read h _
  session_on_text h read_at (some Value.double) w a = session_read h _
  session_on_text h read_at (some Value.array) w a = session_read h _
  session_on_text h read_at (some (Value.boolean b)) w a = session_read h _
  session_on_text h read_at (some (Value.int64 z)) w a = session_read h _
  session_on_text h read_at (some (Value.uint64 n)) w a = session_read h _
  session_on_text h read_at (some (Value.string s)) w a = session_read h _

  -- A session that has read a text either posts the reading of its next message, as its last task, or
  -- leaves the loop by an exception, if no peer refuses connections for ever.
  pub session_on_read-ReadsOn :
      (h : ℕ) (text : String) (w : World)
      → AllAccept
      → ReadsOn (session_async_read h) (SessionIo.on_read h (some text) w)
  unfolding SessionIo.on_read
  session_on_read-ReadsOn h text w a = session_on_text h _ (parse text) _ a

  client_read : (h : ℕ) (w : World) → ReadsOn (client_async_read h) (ok tt, ClientIo.do_read h w)
  unfolding ClientIo.do_read post
  client_read h w = reads w.posted refl

  client_answer :
      (c : Client) (x : Result (Unit {0}) × Frame)
      → Ended x.0
      → ReadsOn (client_async_read c.handle) (ClientIo.answer c x)
  unfolding ClientIo.answer
  client_answer c (ok u, f) e = client_read c.handle _
  client_answer c (throw e, f) x = leaves e
  client_answer c (hangs, f) e = elim e [ ]

  client_on_text :
      (c : Client) (read_at : ℕ) (v : Option (Value Object)) (w : World)
      → ReadsOn (client_async_read c.handle) (ClientIo.on_text c read_at v w)
  unfolding ClientIo.on_text
  client_on_text c read_at (some (Value.object o)) w =
      client_answer c _ (kernel-Ended o on_client c.id w (inl refl))
  client_on_text c read_at none w = client_read c.handle _
  client_on_text c read_at (some Value.null) w = client_read c.handle _
  client_on_text c read_at (some Value.double) w = client_read c.handle _
  client_on_text c read_at (some Value.array) w = client_read c.handle _
  client_on_text c read_at (some (Value.boolean b)) w = client_read c.handle _
  client_on_text c read_at (some (Value.int64 z)) w = client_read c.handle _
  client_on_text c read_at (some (Value.uint64 n)) w = client_read c.handle _
  client_on_text c read_at (some (Value.string s)) w = client_read c.handle _

  -- A client that has read a text either posts the reading of its next message, as its last task, or
  -- leaves the loop by an exception; whatever peers do, it never waits for one.
  pub client_on_read-ReadsOn :
      (c : Client) (text : String) (w : World)
      → ReadsOn (client_async_read c.handle) (ClientIo.on_read c (some text) w)
  unfolding ClientIo.on_read
  client_on_read-ReadsOn c text w = client_on_text c _ (parse text) _

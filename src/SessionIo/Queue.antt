-- ===== src/SessionIo/Queue.antt =====
-- The write queue of a session (src/objects/session.cpp): one write at a time, in the order of sending.
use state.Common.{
  flat_map, ltb, ℕ, suc, true, false, ◌≡◌, ◌≢◌, refl, sym, ap, ◌∙◌, String, List, [], ◌∷◌, ◌++◌,
  ◌==◌, ==_self, length, if◌then◌else◌, arith,
}
use mathlib.Core.List.{append_assoc, append-nil}
use state.Platform.{Platform}
use state.World.{World, Task, session_async_write}
use state.Fanout.{post}
use state.SessionIo.{change_session, on_send, on_write, write_front}

-- The messages that tasks write to the socket of a session.
abbrev pub write_of : ℕ → Task → List String
write_of h (session_async_write j m) = if j == h then m ∷ [] else []
write_of h _ = []

abbrev pub written : ℕ → List Task → List String
written h = flat_map (write_of h)

-- The write that is under way.
abbrev pub front : List String → List String
front [] = []
front (m ∷ ms) = m ∷ []

pub flat_map-append {ℓ κ} :
    {A : Type ℓ} {B : Type κ} (f : A → List B) (xs ys : List A)
    → flat_map f (xs ++ ys) ≡ flat_map f xs ++ flat_map f ys
flat_map-append f [] ys = refl
flat_map-append f (x ∷ xs) ys =
    ap (λ zs. f x ++ zs) (flat_map-append f xs ys)
    ∙ sym (append_assoc (f x) (flat_map f xs) (flat_map f ys))

pub written_one :
    (h : ℕ) (m : String) (ts : List Task)
    → written h (ts ++ session_async_write h m ∷ []) ≡ written h ts ++ m ∷ []
written_one h m ts =
    flat_map-append (write_of h) ts (session_async_write h m ∷ []) ∙ rw (==_self h) refl

pub two_or_more : (m : String) (xs : List String) → ltb 1 (suc (length (xs ++ m ∷ []))) ≡ true
two_or_more m [] = refl
two_or_more m (x ∷ xs) = ground arith

module _ ⦃p : Platform⦄ where
  -- What the sends to one session, and the completions of its writes, make of a world. A write
  -- completes only while a message is queued, because each is started for the front of the queue.
  pub data Writes (h : ℕ) (v : World) : List String → World → Type 0 where
    start : Writes h v [] v
    send :
        {ms : List String} {w : World} (m : String)
        → Writes h v ms w
        → Writes h v (ms ++ m ∷ []) (on_send h m w)
    wrote :
        {ms : List String} {w : World}
        → (w.session h).queue ≢ []
        → Writes h v ms w
        → Writes h v ms (on_write h false w)
    failed : {ms : List String} {w : World} → Writes h v ms w → Writes h v ms (on_write h true w)

  -- The messages written in full, then the queue, are the messages sent; the writes started are
  -- those messages and the front of the queue.
  pub record InOrder (h : ℕ) (v : World) (ms : List String) (w : World) : Type 0 where
    pub complete : List String
    pub sent : ms ≡ complete ++ (w.session h).queue
    pub started : written h w.posted ≡ written h v.posted ++ (complete ++ front (w.session h).queue)

  -- A send to an idle session starts a write.
  abbrev pub at_once : List String → String → List String
  at_once [] m = m ∷ []
  at_once (x ∷ xs) m = []

  pub on_send_lem :
      (h : ℕ) (m : String) (w : World) (q : List String)
      → (w.session h).queue ≡ q
      → (((on_send h m w).session h).queue ≡ q ++ m ∷ [])
        × (written h (on_send h m w).posted ≡ written h w.posted ++ at_once q m)
  unfolding on_send write_front change_session post
  on_send_lem h m w [] e = rw e (rw (==_self h) refl, written_one h m w.posted)
  on_send_lem h m w (x ∷ xs) e =
      rw (e, two_or_more m xs) (rw (==_self h) refl, sym (append-nil (written h w.posted)))

  pub on_write_lem :
      (h : ℕ) (w : World) (x : String) (q : List String)
      → (w.session h).queue ≡ x ∷ q
      → (((on_write h false w).session h).queue ≡ q)
        × (written h (on_write h false w).posted ≡ written h w.posted ++ front q)
  unfolding on_write write_front change_session post
  on_write_lem h w x [] e = rw e (rw (==_self h) refl, sym (append-nil (written h w.posted)))
  on_write_lem h w x (y ∷ ys) e = rw e (rw (==_self h) refl, written_one h y w.posted)

  front-append : (q : List String) (m : String) → front q ++ at_once q m ≡ front (q ++ m ∷ [])
  front-append [] m = refl
  front-append (x ∷ xs) m = refl

  module _ (h : ℕ) (v w : World) (ms : List String) where
    send-InOrder :
        (m : String) (q : List String)
        → (w.session h).queue ≡ q
        → InOrder h v ms w
        → InOrder h v (ms ++ m ∷ []) (on_send h m w)
    send-InOrder m q e o = record {
      complete = o.complete;
      sent = rw (on_send_lem h m w q e).0 (
          ap (λ ns. ns ++ m ∷ []) (o.sent ∙ ap (λ r. o.complete ++ r) e)
          ∙ append_assoc o.complete q (m ∷ []));
      started = rw (on_send_lem h m w q e).0 (
          (on_send_lem h m w q e).1
          ∙ ap (λ ns. ns ++ at_once q m)
              (o.started ∙ ap (λ r. written h v.posted ++ (o.complete ++ front r)) e)
          ∙ append_assoc (written h v.posted) (o.complete ++ front q) (at_once q m)
          ∙ ap (λ ns. written h v.posted ++ ns)
              (append_assoc o.complete (front q) (at_once q m)
                ∙ ap (λ ns. o.complete ++ ns) (front-append q m)));
    }

    wrote-InOrder :
        (q : List String)
        → (w.session h).queue ≡ q
        → q ≢ []
        → InOrder h v ms w
        → InOrder h v ms (on_write h false w)
    wrote-InOrder [] e busy o = absurd (busy refl)
    wrote-InOrder (x ∷ q) e busy o = record {
      complete = o.complete ++ x ∷ [];
      sent =
          rw (on_write_lem h w x q e).0
            (o.sent ∙ ap (λ r. o.complete ++ r) e ∙ sym (append_assoc o.complete (x ∷ []) q));
      started = rw (on_write_lem h w x q e).0 (
          (on_write_lem h w x q e).1
          ∙ ap (λ ns. ns ++ front q)
              (o.started ∙ ap (λ r. written h v.posted ++ (o.complete ++ front r)) e)
          ∙ append_assoc (written h v.posted) (o.complete ++ x ∷ []) (front q));
    }

  -- From an empty queue on, however sends, completed writes and failed writes of a session follow
  -- one another: the messages written in full, then the queue, are the messages sent, in order; the
  -- writes started are those messages and at most one more, the front of the queue.
  pub Writes-InOrder :
      (h : ℕ) (v w : World) (ms : List String)
      → (v.session h).queue ≡ []
      → Writes h v ms w
      → InOrder h v ms w
  unfolding on_write
  Writes-InOrder h v w ms idle start = record {
    complete = [];
    sent = sym idle;
    started = rw idle (sym (append-nil (written h v.posted)));
  }
  Writes-InOrder h v w ms idle (send {ms = ns} {w = u} m s) =
      send-InOrder h v u ns m (u.session h).queue refl (Writes-InOrder h v u ns idle s)
  Writes-InOrder h v w ms idle (wrote {w = u} busy s) =
      wrote-InOrder h v u ms (u.session h).queue refl busy (Writes-InOrder h v u ms idle s)
  Writes-InOrder h v w ms idle (failed {w = u} s) = Writes-InOrder h v u ms idle s

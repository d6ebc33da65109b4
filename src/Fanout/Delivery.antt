-- ===== src/Fanout/Delivery.antt =====
-- To whom the fan-out functions of src/objects/state.cpp hand a message, and what they count.
use state.Common.{
  for_each, flat_map, ℕ, suc, ◌+◌, ◌-◌, ◌%◌, ◌≡◌, refl, sym, ap, ◌∙◌, Bool, true, false, not, ◌||◌,
  ◌&&◌, List, [], ◌∷◌, ◌++◌, keep, map, length, arith, ◌==◌, String, if◌then◌else◌, Bool-cases, inl,
  inr,
}
use mathlib.Core.List.{append_assoc, append-nil}
use state.Clients.{Client}
use state.Platform.{Platform}
use state.World.{World, Task, session_on_send, client_on_send}
use state.Effects.{draw}
use state.Messages.{send_object}
use state.Store.{get_sessions, get_clients}
use state.Fanout.{
  post, session_send, client_send, send_to_sessions, send_other, send_to_others_clients,
  send_matching, send_to_session, size_mod,
}

flat_map-keep {ℓ κ} :
    {A : Type ℓ} {B : Type κ} (test : A → Bool) (f : A → B) (xs : List A)
    → flat_map (λ x. if test x then f x ∷ [] else []) xs ≡ map f (keep test xs)
flat_map-keep test f [] = refl
flat_map-keep test f (x ∷ xs) = elim (Bool-cases (test x)) [
  | inl e ↦ rw e (ap (◌∷◌ (f x)) (flat_map-keep test f xs))
  | inr e ↦ rw e (flat_map-keep test f xs)
]

-- Two tests in a row are one.
skip_if {ℓ} :
    {A : Type ℓ} (a b r : Bool) (x y : A)
    → (if a || not b then x else (if r then y else x)) ≡ (if not a && b && r then y else x)
skip_if a b r x y = ground arith

pub and_if {ℓ} :
    {A : Type ℓ} (a b : Bool) (x y : A)
    → (if a then (if b then y else x) else x) ≡ (if a && b then y else x)
and_if true b x y = refl
and_if false b x y = refl

module _ ⦃p : Platform⦄ where
  open p use {random, json.{Object, serialize}, subscriptions as subscriptions_table}

  -- The world with more tasks handed to the executor, and nothing else changed.
  abbrev pub posting : List Task → World → World
  posting ts w = record w { posted = w.posted ++ ts }

  -- Those of the sessions at the addresses whose websocket is open.
  abbrev pub open_sessions : World → List ℕ → List ℕ
  open_sessions w = keep (λ h. (w.session h).is_open)

  -- A loop whose body posts tasks that do not depend on those posted before.
  pub for_each-posting :
      {A : Type 0} (body : A → World → World) (tasks : A → List Task) (w : World)
      → ((x : A) (ts : List Task) → body x (posting ts w) ≡ posting (ts ++ tasks x) w)
      → (xs : List A) (ts : List Task)
      → for_each body xs (posting ts w) ≡ posting (ts ++ flat_map tasks xs) w
  for_each-posting body tasks w h [] ts = simp append-nil
  for_each-posting body tasks w h (x ∷ xs) ts =
      ap (for_each body xs) (h x ts)
      ∙ for_each-posting body tasks w h xs (ts ++ tasks x)
      ∙ ap (λ us. posting us w) (append_assoc ts (tasks x) (flat_map tasks xs))

  posting-nil : (w : World) → posting [] w ≡ w
  posting-nil w = ap (λ us. record w { posted = us }) (append-nil w.posted)

  pub post_if :
      (b : Bool) (t : Task) (ts : List Task) (w : World)
      → (if b then post t (posting ts w) else posting ts w)
        ≡ posting (ts ++ (if b then t ∷ [] else [])) w
  unfolding post
  post_if true t ts w = ap (λ us. record w { posted = us }) (append_assoc w.posted ts (t ∷ []))
  post_if false t ts w = ap (λ us. posting us w) (sym (append-nil ts))

  pub loop-posting :
      {A : Type 0} (body : A → World → World) (test : A → Bool) (task : A → Task) (w : World)
      → ((x : A) (ts : List Task)
          → body x (posting ts w) ≡ posting (ts ++ (if test x then task x ∷ [] else [])) w)
      → (xs : List A) → for_each body xs w ≡ posting (map task (keep test xs)) w
  loop-posting body test task w h xs =
      ap (for_each body xs) (sym (posting-nil w))
      ∙ for_each-posting body (λ x. if test x then task x ∷ [] else []) w h xs []
      ∙ ap (λ us. posting us w) (flat_map-keep test task xs)

  pub session_send-posting :
      (message : String) (w : World) (h : ℕ) (ts : List Task)
      → session_send message h (posting ts w)
        ≡ posting (ts ++ (if (w.session h).is_open then session_on_send h message ∷ [] else [])) w
  unfolding session_send
  session_send-posting message w h ts =
      post_if (w.session h).is_open (session_on_send h message) ts w

  -- Every session with an open websocket is handed the message once, in the order of the uuids;
  -- nothing else changes. The result counts all sessions, open or not.
  pub send_to_sessions_lem :
      (o : Object) (w : World)
      → send_to_sessions o w ≡ (
        posting (map (λ h. session_on_send h (serialize o)) (open_sessions w (get_sessions w))) w,
        length (get_sessions w),
      )
  unfolding send_to_sessions
  send_to_sessions_lem o w =
      ap (λ w'. (w', length (get_sessions w)))
        (loop-posting _ _ _ w (session_send-posting (serialize o) w) (get_sessions w))

  -- A client that `send_to_others_clients` reaches: of the given session, not the sender, and with an
  -- open socket.
  abbrev pub is_reached : World → ℕ → ℕ → Client → Bool
  is_reached w session_id client_id c =
      not (c.id == client_id)
      && c.session_id == session_id
      && ((w.client_socket c.handle).has_socket && (w.client_socket c.handle).is_open)

  send_other-posting :
      (message : String) (session_id client_id : ℕ) (w : World) (c : Client) (ts : List Task)
      → send_other message session_id client_id c (posting ts w)
        ≡ posting
            (ts
              ++ (if is_reached w session_id client_id c
                  then client_on_send c.handle message ∷ []
                  else []))
            w
  unfolding send_other client_send
  send_other-posting message session_id client_id w c ts =
      skip_if (c.id == client_id) (c.session_id == session_id)
        ((w.client_socket c.handle).has_socket && (w.client_socket c.handle).is_open) (posting ts w)
        (post (client_on_send c.handle message) (posting ts w))
      ∙ post_if (is_reached w session_id client_id c) (client_on_send c.handle message) ts w

  -- Every client of the session other than the sender, with an open socket, is handed the message
  -- once; nothing else changes. The result is one less than the number of all clients, of whatever
  -- session, and wraps round to 2 ^ 64 - 1 where there are none.
  pub send_to_others_clients_lem :
      (o : Object) (session_id client_id : ℕ) (w : World)
      → send_to_others_clients o session_id client_id w ≡ (
        posting
            (map
              (λ c. client_on_send c.handle (serialize o))
              (keep (is_reached w session_id client_id) (get_clients w)))
            w,
        (length (get_clients w) + size_mod - 1) % size_mod,
      )
  unfolding send_to_others_clients
  send_to_others_clients_lem o session_id client_id w =
      ap (λ w'. (w', (length (get_clients w) + size_mod - 1) % size_mod))
        (loop-posting _ _ _ w (send_other-posting (serialize o) session_id client_id w)
          (get_clients w))

  pub post_once :
      (b : Bool) (t : Task) (w : World)
      → (if b then post t w else w) ≡ posting (if b then t ∷ [] else []) w
  unfolding post
  post_once true t w = refl
  post_once false t w = sym (posting-nil w)

  send_matching-posting :
      (message : String) (session_id : ℕ) (w : World) (h : ℕ) (ts : List Task)
      → send_matching message session_id h (posting ts w)
        ≡ posting
            (ts
              ++ (if (w.session h).id == session_id && (w.session h).is_open
                  then session_on_send h message ∷ []
                  else []))
            w
  unfolding send_matching session_send
  send_matching-posting message session_id w h ts =
      and_if ((w.session h).id == session_id) (w.session h).is_open (posting ts w)
        (post (session_on_send h message) (posting ts w))
      ∙ post_if ((w.session h).id == session_id && (w.session h).is_open)
          (session_on_send h message) ts w

  -- `send_to_session` draws a transaction id and hands the message once to every session that has
  -- the id and an open websocket; nothing else changes.
  pub send_to_session_lem :
      (session_id from_client_id to_client_id : ℕ) (payload : Object) (w : World)
      → send_to_session session_id from_client_id to_client_id payload w
        ≡ posting
            (map
              (λ h.
                session_on_send h
                  (serialize (send_object (random w.draws) from_client_id to_client_id payload)))
              (keep
                (λ h. (w.session h).id == session_id && (w.session h).is_open)
                (get_sessions w)))
            (record w { draws = suc w.draws })
  unfolding send_to_session draw
  send_to_session_lem session_id from_client_id to_client_id payload w =
      loop-posting _ _ _ (record w { draws = suc w.draws })
        (send_matching-posting
          (serialize (send_object (random w.draws) from_client_id to_client_id payload)) session_id
          (record w { draws = suc w.draws }))
        (get_sessions w)

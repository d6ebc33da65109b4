-- ===== src/Kernel/Invariant.antt =====
-- The well-formedness of a state: its map of sessions, and that new addresses are fresh.
use state.Common.{
  ℕ, suc, zero, ◌<◌, ◌≤◌, ◌+◌, Bool, ◌&&◌, ◌≡◌, refl, ◌∙◌, List, [], ◌∷◌, String, ◌==◌,
  if◌then◌else◌, arith,
}
use state.OrderedMap.{put, emplace}
use state.Clients.{Client}
use state.Platform.{Platform}
use state.World.{World, Session, session_on_run, remote}
use state.Effects.{read_clock, draw}
use state.Effects.Keeps.{IsPreorder}
use state.Store.{subscribe, unsubscribe, add_client, remove_client, add_session}
use state.Store.Sessions.{Keyed, IsKeyed, add_session-IsKeyed}
use state.Fanout.{
  client_send, post, send_to_sessions, send_to_others_clients, send_to_subscribed_sessions,
}
use state.Fanout.Delivery.{
  send_to_sessions_lem, send_to_others_clients_lem, send_to_session_lem, post_once,
}
use state.Fanout.Channels.{send_to_subscribed_sessions_lem}
use state.Sync.Messages.{sync_lem}
use state.Handlers.Delivery.{send_direct, send_remote}
use state.Handlers.Membership.{
  to_port, make_client, make_session, register_session, sync_session_at, retry, start_remote,
}

-- Every address of the list lies below a bound.
abbrev pub Below : ℕ → List (ℕ × ℕ) → Type 0
Below n [] = Unit {0}
Below n ((k, h) ∷ m) = (h < n) × Below n m

Below-mono : (n k : ℕ) (m : List (ℕ × ℕ)) → n ≤ k → Below n m → Below k m
Below-mono n k [] l b = tt
Below-mono n k ((j, h) ∷ m) l b = (omega (arith, b.0), Below-mono n k m l b.1)

Below-put : (n k h : ℕ) (m : List (ℕ × ℕ)) → h < n → Below n m → Below n (put k h m)
unfolding put
Below-put n k h [] l b = (l, tt)
Below-put n k h ((j, g) ∷ m) l b = ground (arith, Below-put n k h m l b.1)

module _ ⦃p : Platform⦄ where
  open p use {json.{Object}}

  -- Each session of the map stands under its own id, the ids ascend, and every address of the map is
  -- allocated, so that a new object shares its address with no session.
  pub record IsWellFormed (w : World) : Type 0 where
    pub keyed : IsKeyed w
    pub below : Below w.allocated w.sessions

  pub record Preserves (v w : World) : Type 0 where
    pub preserved : IsWellFormed v → IsWellFormed w

  pub steps : IsPreorder Preserves
  steps = record {
    rfl = λ w. record { preserved = λ k. k };
    trans = λ u v w a b. record { preserved = λ k. b.preserved (a.preserved k) };
  }

  -- A step that leaves the sessions alone.
  pub same :
      (v w : World)
      → w.sessions ≡ v.sessions
      → w.session ≡ v.session
      → v.allocated ≤ w.allocated
      → Preserves v w
  same v w s h a = record {
    preserved = λ k. record {
      keyed = record { ascending = rw s k.keyed.ascending; keyed = rw (s, h) k.keyed.keyed };
      below = rw s (Below-mono v.allocated w.allocated v.sessions a k.below);
    };
  }

  pub Keyed-congr :
      (f g : ℕ → Session) (m : List (ℕ × ℕ))
      → ((j : ℕ) → (g j).id ≡ (f j).id)
      → Keyed f m
      → Keyed g m
  Keyed-congr f g [] e k = tt
  Keyed-congr f g ((j, h) ∷ m) e k = (e h ∙ k.0, Keyed-congr f g m e k.1)

  Keyed-fresh :
      (f : ℕ → Session) (n : ℕ) (s : Session) (m : List (ℕ × ℕ))
      → Below n m
      → Keyed f m
      → Keyed (λ j. if n == j then s else f j) m
  Keyed-fresh f n s [] b k = tt
  Keyed-fresh f n s ((j, h) ∷ m) b k = (ground arith, Keyed-fresh f n s m b.1 k.1)

  pub clock_step : (w : World) → Preserves w (read_clock w).0
  unfolding read_clock
  clock_step w = same w _ refl refl (omega arith)

  pub subscribe_step : (s c : ℕ) (ch : String) (w : World) → Preserves w (subscribe s c ch w).0
  unfolding subscribe
  subscribe_step s c ch w = same w _ refl refl (omega arith)

  pub unsubscribe_step : (s c : ℕ) (ch : String) (w : World) → Preserves w (unsubscribe s c ch w).0
  unfolding unsubscribe
  unsubscribe_step s c ch w = same w _ (ground arith) (ground arith) (ground arith)

  pub add_client_step : (c : Client) (w : World) → Preserves w (add_client c w).0
  unfolding add_client
  add_client_step c w = same w _ refl refl (omega arith)

  pub remove_client_step : (id : ℕ) (w : World) → Preserves w (remove_client id w).0
  unfolding remove_client
  remove_client_step id w = same w _ refl refl (omega arith)

  pub make_client_step : (s id : ℕ) (w : World) → Preserves w (make_client s id w).0
  unfolding make_client
  make_client_step s id w = same w _ refl refl (omega arith)

  pub to_sessions_step : (o : Object) (w : World) → Preserves w (send_to_sessions o w).0
  to_sessions_step o w = rw (send_to_sessions_lem o w) (same w _ refl refl (omega arith))

  pub to_clients_step :
      (o : Object) (s c : ℕ) (w : World) → Preserves w (send_to_others_clients o s c w).0
  to_clients_step o s c w =
      rw (send_to_others_clients_lem o s c w) (same w _ refl refl (omega arith))

  pub to_subscribed_step :
      (o : Object) (ch : String) (w : World) → Preserves w (send_to_subscribed_sessions o ch w).0
  to_subscribed_step o ch w =
      rw ((send_to_subscribed_sessions_lem o ch w).0) (same w _ refl refl (omega arith))

  pub direct_step :
      (from : ℕ) (c : Client) (o : Object) (w : World) → Preserves w (send_direct from c o w).0
  unfolding send_direct draw client_send
  direct_step from c o w =
      rw
        (post_once ((w.client_socket c.handle).has_socket && (w.client_socket c.handle).is_open) _
          _)
        (same w _ refl refl (omega arith))

  pub remote_step :
      (c : Client) (from : ℕ) (o : Object) (w : World) → Preserves w (send_remote c from o w).0
  unfolding send_remote
  remote_step c from o w =
      rw (send_to_session_lem c.session_id from c.id o w) (same w _ refl refl (omega arith))

  pub sync_step : (h : ℕ) (b : Bool) (w : World) → Preserves w (sync_session_at h b w).0
  unfolding sync_session_at
  sync_step h b w = rw (sync_lem h b w) (same w _ refl refl (omega arith))

  pub register_step : (h s c : ℕ) (w : World) → Preserves w (register_session h s c w).0
  unfolding register_session
  register_step h s c w = record {
    preserved = λ k. record {
      keyed = record {
        ascending = k.keyed.ascending;
        keyed =
            Keyed-congr w.session (register_session h s c w).0.session w.sessions
              (λ j. ground arith) k.keyed.keyed;
      };
      below = k.below;
    };
  }

  retry_same :
      (n : ℕ) (w : World)
      → ((retry n w).sessions ≡ w.sessions)
        × ((retry n w).session ≡ w.session)
        × ((retry n w).allocated ≡ w.allocated)
  unfolding retry
  retry_same zero w = (refl, refl, refl)
  retry_same (suc n) w = retry_same n (record w { slept = w.slept + 3 })

  pub make_session_step : (w : World) → Preserves w (make_session w).0
  unfolding make_session draw
  make_session_step w = record {
    preserved = λ k. record {
      keyed = record {
        ascending = k.keyed.ascending;
        keyed = Keyed-fresh w.session w.allocated _ w.sessions k.below k.keyed.keyed;
      };
      below = Below-mono w.allocated (suc w.allocated) w.sessions (omega arith) k.below;
    };
  }

  -- The world in which `start_remote` adds the session.
  abbrev ported : ℕ → ℕ → ℕ → World → World
  ported h s c w =
      let t = w.session h in
      post (session_on_run h remote) (record w {
        session = λ j.
            if h == j
            then record t { clients_port = to_port c; sessions_port = to_port s }
            else w.session j;
      })

  ported-IsKeyed : (h s c : ℕ) (w : World) → IsKeyed w → IsKeyed (ported h s c w)
  unfolding post
  ported-IsKeyed h s c w k = record {
    ascending = k.ascending;
    keyed = Keyed-congr w.session (ported h s c w).session w.sessions (λ j. ground arith) k.keyed;
  }

  start_remote_step :
      (h s c : ℕ) (w : World) → h < w.allocated → Preserves w (start_remote h s c w).0
  unfolding start_remote post add_session emplace
  start_remote_step h s c w l = record {
    preserved = λ k. record {
      keyed = add_session-IsKeyed h (ported h s c w) (ported-IsKeyed h s c w k.keyed);
      below = Below-put w.allocated _ h w.sessions l k.below;
    };
  }

  make_session_allocated : (w : World) → (make_session w).0.allocated ≡ suc w.allocated
  unfolding make_session draw
  make_session_allocated w = refl

  -- A session that a listener accepts enters the map.
  pub enter_step : (w : World) → Preserves w (add_session w.allocated (make_session w).0).0
  unfolding make_session draw add_session emplace
  enter_step w = record {
    preserved = λ k.
        let m = (make_session_step w).preserved k in
        record {
          keyed = add_session-IsKeyed w.allocated (make_session w).0 m.keyed;
          below = Below-put (suc w.allocated) _ w.allocated w.sessions (omega arith) m.below;
        };
  }

  -- A new session is connected, however often that is refused, and enters the map.
  pub new_session_step :
      (n s c : ℕ) (w : World)
      → Preserves w (start_remote w.allocated s c (retry n (make_session w).0)).0
  new_session_step n s c w =
      let v = (make_session w).0 in
      let r = retry_same n v in
      let a = make_session_allocated w in
      steps.trans _ _ _ (make_session_step w) (
        steps.trans _ _ _ (same v (retry n v) r.0 r.1 (ground (arith, r.2)))
          (start_remote_step w.allocated s c (retry n v) (ground (arith, r.2, a))))

-- ===== src/Effects/Keeps.antt =====
-- What a call leaves as it was: a relation between the worlds before and after it, whether the call
-- returns, throws or hangs, with one rule for each way to build a call.
use state.Common.{Bool, true, false, ◌≡◌, Option, none, some}
use state.Platform.{Platform}
use state.Request.{KernelContext, on_client, on_session}
use state.World.{World}
use state.Response.{Response}
use state.Effects.{
  Result, ok, throw, hangs, Frame, M, chain, ◌>>=◌, ◌>>◌, pure, lift, when, on_world, on_response,
  get_world, switch, branch, if_found,
}

module _ ⦃p : Platform⦄ where
  -- A relation that holds along any sequence of steps.
  pub record IsPreorder (R : World → World → Type 0) : Type 0 where
    pub rfl : (w : World) → R w w
    pub trans : (u v w : World) → R u v → R v w → R u w

  -- From every frame, the world afterwards stands in the relation to the world before.
  pub record Keeps (R : World → World → Type 0) {A : Type 0} (m : M A) : Type 0 where
    pub kept : (f : Frame) → R f.world (m f).1.world

  module _ {R : World → World → Type 0} (o : IsPreorder R) where
    chain_kept :
        {A B : Type 0} (w : World) (r : Result A × Frame) (k : A → M B)
        → R w r.1.world
        → ((a : A) → Keeps R (k a))
        → R w (chain r k).1.world
    chain_kept w (ok a, f) k h ks = o.trans _ _ _ h ((ks a).kept f)
    chain_kept w (throw e, f) k h ks = h
    chain_kept w (hangs, f) k h ks = h

    pub bind-Keeps :
        {A B : Type 0} {m : M A} {k : A → M B}
        → Keeps R m
        → ((a : A) → Keeps R (k a))
        → Keeps R (m >>= k)
    unfolding ◌>>=◌
    bind-Keeps {m} {k} h ks = record { kept = λ f. chain_kept f.world (m f) k (h.kept f) ks }

    pub then-Keeps :
        {B : Type 0} {m : M (Unit {0})} {n : M B} → Keeps R m → Keeps R n → Keeps R (m >> n)
    unfolding ◌>>◌
    then-Keeps {m} {n} h k = record {
      kept = λ f. chain_kept f.world (m f) (λ _. n) (h.kept f) (λ _. k);
    }

    pub pure-Keeps : {A : Type 0} (a : A) → Keeps R (pure a)
    unfolding pure
    pure-Keeps a = record { kept = λ f. o.rfl f.world }

    pub lift-Keeps : {A : Type 0} (r : Result A) → Keeps R (lift r)
    unfolding lift
    lift-Keeps r = record { kept = λ f. o.rfl f.world }

    pub get_world-Keeps : Keeps R get_world
    unfolding get_world
    get_world-Keeps = record { kept = λ f. o.rfl f.world }

    pub on_response-Keeps : (g : Response → Response) → Keeps R (on_response g)
    unfolding on_response
    on_response-Keeps g = record { kept = λ f. o.rfl f.world }

    pub on_world-Keeps :
        {A : Type 0} (g : World → World × A) → ((w : World) → R w (g w).0) → Keeps R (on_world g)
    unfolding on_world
    on_world-Keeps g h = record { kept = λ f. h f.world }

    pub when-Keeps : (b : Bool) {m : M (Unit {0})} → Keeps R m → Keeps R (when b m)
    unfolding when
    when-Keeps true h = record { kept = λ f. h.kept f }
    when-Keeps false h = record { kept = λ f. o.rfl f.world }

    -- A call on the state that is given what was just read of it.
    pub on_read-Keeps :
        {A B : Type 0} (g : World → World → World × A) {k : World → A → M B}
        → ((w : World) → R w (g w w).0)
        → ((w : World) (a : A) → Keeps R (k w a))
        → Keeps R (get_world >>= λ w. on_world (g w) >>= k w)
    unfolding get_world on_world ◌>>=◌
    on_read-Keeps g h ks = record {
      kept = λ f. o.trans _ _ _ (h f.world) ((ks f.world (g f.world f.world).1).kept _);
    }

    pub switch-Keeps :
        {A : Type 0} (c : KernelContext) {m n : M A}
        → Keeps R m
        → Keeps R n
        → Keeps R (switch c m n)
    unfolding switch
    switch-Keeps on_client h k = record { kept = λ f. h.kept f }
    switch-Keeps on_session h k = record { kept = λ f. k.kept f }

    -- Where the context is known, one case counts.
    pub switch_client :
        {A : Type 0} (c : KernelContext) {m : M A} (n : M A)
        → c ≡ on_client
        → Keeps R m
        → Keeps R (switch c m n)
    unfolding switch
    switch_client on_client n e h = record { kept = λ f. h.kept f }
    switch_client on_session n e h = cc

    pub switch_session :
        {A : Type 0} (c : KernelContext) (m : M A) {n : M A}
        → c ≡ on_session
        → Keeps R n
        → Keeps R (switch c m n)
    unfolding switch
    switch_session on_session m e h = record { kept = λ f. h.kept f }
    switch_session on_client m e h = cc

    pub branch-Keeps :
        {A : Type 0} (b : Bool) {m n : M A} → Keeps R m → Keeps R n → Keeps R (branch b m n)
    unfolding branch
    branch-Keeps true h k = record { kept = λ f. h.kept f }
    branch-Keeps false h k = record { kept = λ f. k.kept f }

    pub if_found-Keeps :
        {A B : Type 0} (x : Option A) {k : A → M B} {m : M B}
        → ((a : A) → Keeps R (k a))
        → Keeps R m
        → Keeps R (if_found x k m)
    unfolding if_found
    if_found-Keeps (some a) h k = record { kept = λ f. (h a).kept f }
    if_found-Keeps none h k = record { kept = λ f. k.kept f }

-- All but the rules for `switch`, of which a proof lists the one that fits.
pub ruleset keeping = (
  bind-Keeps, then-Keeps, pure-Keeps, lift-Keeps, get_world-Keeps, on_response-Keeps, when-Keeps,
  branch-Keeps, if_found-Keeps,
)

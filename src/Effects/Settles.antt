-- ===== src/Effects/Settles.antt =====
-- That a call answers under a transaction id where it returns: one rule for each way to build a call.
use state.Common.{ℕ, Bool, true, false, ◌≡◌, ◌⊎◌, refl, Option, none, some}
use state.Json.{Value}
use state.Platform.{Platform}
use state.World.{World}
use state.Request.{KernelContext, on_client, on_session}
use state.Response.{Response}
use state.Effects.{
  M, Frame, Result, ok, throw, hangs, chain, ◌>>=◌, ◌>>◌, pure, when, on_world, on_response, switch,
  branch, if_found,
}

module _ ⦃p : Platform⦄ where
  open p use {json.{Object, at?, at?-make}, uuid_to_string}

  -- An answer under a transaction id; a refusal spells the nil uuid as null.
  pub record IsAnswer (t : ℕ) (o : Object) : Type 0 where
    pub transaction :
        (at? "transaction_id" o ≡ some (Value.string (uuid_to_string t)))
        ⊎ ((at? "transaction_id" o ≡ some Value.null) × (t ≡ 0))
    pub action : at? "action" o ≡ some (Value.string "ack")

  -- Where the call returns, it has answered.
  pub record Settles (t : ℕ) {A : Type 0} (m : M A) : Type 0 where
    pub settled : (f : Frame) (a : A) → (m f).0 ≡ ok a → IsAnswer t (m f).1.response.object

  -- Where the call returns false, it has answered.
  pub record Judges (t : ℕ) (m : M Bool) : Type 0 where
    pub judged : (f : Frame) → (m f).0 ≡ ok false → IsAnswer t (m f).1.response.object

  module _ {t : ℕ} where
    bind_settled :
        {A B : Type 0} (x : Result A × Frame) (k : A → M B) (b : B)
        → ((a : A) → Settles t (k a))
        → (chain x k).0 ≡ ok b
        → IsAnswer t (chain x k).1.response.object
    bind_settled (ok a, f) k b h e = (h a).settled f b e
    bind_settled (throw e', f) k b h e = cc
    bind_settled (hangs, f) k b h e = cc

    pub bind-Settles :
        {A B : Type 0} (m : M A) {k : A → M B} → ((a : A) → Settles t (k a)) → Settles t (m >>= k)
    unfolding ◌>>=◌
    bind-Settles m {k = k} h = record { settled = λ f b e. bind_settled (m f) k b h e }

    pub then-Settles : {B : Type 0} (m : M (Unit {0})) {n : M B} → Settles t n → Settles t (m >> n)
    unfolding ◌>>◌
    then-Settles m {n = n} h = record {
      settled = λ f b e. bind_settled (m f) (λ _. n) b (λ _. h) e;
    }

    pub switch-Settles :
        {A : Type 0} (c : KernelContext) {m n : M A}
        → Settles t m
        → Settles t n
        → Settles t (switch c m n)
    unfolding switch
    switch-Settles on_client h k = record { settled = λ f. h.settled f }
    switch-Settles on_session h k = record { settled = λ f. k.settled f }

    pub branch-Settles :
        {A : Type 0} (b : Bool) {m n : M A} → Settles t m → Settles t n → Settles t (branch b m n)
    unfolding branch
    branch-Settles true h k = record { settled = λ f. h.settled f }
    branch-Settles false h k = record { settled = λ f. k.settled f }

    -- The case of an `else` only, where the test fails.
    pub branch_else :
        {A : Type 0} (b : Bool) (m : M A) {n : M A}
        → b ≡ false
        → Settles t n
        → Settles t (branch b m n)
    unfolding branch
    branch_else true m e k = cc
    branch_else false m e k = record { settled = λ f. k.settled f }

    pub if_found-Settles :
        {A B : Type 0} (x : Option A) {k : A → M B} {m : M B}
        → ((a : A) → Settles t (k a))
        → Settles t m
        → Settles t (if_found x k m)
    unfolding if_found
    if_found-Settles (some a) h k = record { settled = λ f. (h a).settled f }
    if_found-Settles none h k = record { settled = λ f. k.settled f }

    called :
        {A : Type 0} (x : Result (Unit {0}) × Frame) (g : World → World × A)
        → ((u : Unit {0}) → x.0 ≡ ok u → IsAnswer t x.1.response.object)
        → (chain x (λ _. on_world g >>= λ a. pure tt)).0 ≡ ok tt
        → IsAnswer t (chain x (λ _. on_world g >>= λ a. pure tt)).1.response.object
    unfolding ◌>>=◌ on_world pure
    called (ok u, f) g h e = h u refl
    called (throw e', f) g h e = cc
    called (hangs, f) g h e = cc

    -- An answer followed by a call on the state.
    pub before_call :
        {A : Type 0} {m : M (Unit {0})} (g : World → World × A)
        → Settles t m
        → Settles t (m >> (on_world g >>= λ a. pure tt))
    unfolding ◌>>◌
    before_call {m = m} g h = record { settled = λ f u e. called (m f) g (h.settled f) e }

    -- A change of the response that leaves its object alone.
    pub before_mark :
        {m : M (Unit {0})} (g : Response → Response)
        → ((r : Response) → (g r).object ≡ r.object)
        → Settles t m
        → Settles t (m >> on_response g)
    unfolding ◌>>◌ on_response
    before_mark {m = m} g same h = record { settled = λ f u e. marked (m f) (h.settled f) e }
      where
        marked :
            (x : Result (Unit {0}) × Frame)
            → ((u : Unit {0}) → x.0 ≡ ok u → IsAnswer t x.1.response.object)
            → (chain x (λ _. on_response g)).0 ≡ ok tt
            → IsAnswer t (chain x (λ _. on_response g)).1.response.object
        marked (ok u, f) k e = rw (same f.response) (k u refl)
        marked (throw e', f) k e = cc
        marked (hangs, f) k e = cc

    -- What a validator refuses it has answered; what it accepts the handler answers.
    validated :
        (x : Result Bool × Frame) (k : M (Unit {0}))
        → (x.0 ≡ ok false → IsAnswer t x.1.response.object)
        → Settles t k
        → (chain x (λ b. when b k)).0 ≡ ok tt
        → IsAnswer t (chain x (λ b. when b k)).1.response.object
    unfolding when
    validated (ok true, f) k j h e = h.settled f tt e
    validated (ok false, f) k j h e = j refl
    validated (throw e', f) k j h e = cc
    validated (hangs, f) k j h e = cc

    pub when-Settles :
        {m : M Bool} {k : M (Unit {0})} → Judges t m → Settles t k → Settles t (m >>= λ b. when b k)
    unfolding ◌>>=◌
    when-Settles {m} {k} j h = record { settled = λ f u e. validated (m f) k (j.judged f) h e }

    pub pure-Judges : Judges t (pure true)
    unfolding pure
    pure-Judges = record { judged = λ f e. cc }

    bind_judged :
        {A : Type 0} (x : Result A × Frame) (k : A → M Bool)
        → ((a : A) → Judges t (k a))
        → (chain x k).0 ≡ ok false
        → IsAnswer t (chain x k).1.response.object
    bind_judged (ok a, f) k h e = (h a).judged f e
    bind_judged (throw e', f) k h e = cc
    bind_judged (hangs, f) k h e = cc

    pub bind-Judges :
        {A : Type 0} (m : M A) {k : A → M Bool} → ((a : A) → Judges t (k a)) → Judges t (m >>= k)
    unfolding ◌>>=◌
    bind-Judges m {k = k} h = record { judged = λ f e. bind_judged (m f) k h e }

    pub switch-Judges :
        (c : KernelContext) {m n : M Bool} → Judges t m → Judges t n → Judges t (switch c m n)
    unfolding switch
    switch-Judges on_client h k = record { judged = λ f. h.judged f }
    switch-Judges on_session h k = record { judged = λ f. k.judged f }

    -- A test whose failure is answered.
    pub refused :
        (b : Bool) {m : M Bool} {n : M (Unit {0})}
        → Judges t m
        → Settles t n
        → Judges t (branch b m (n >> pure false))
    unfolding branch ◌>>◌ pure
    refused true h k = record { judged = λ f. h.judged f }
    refused false {n = n} h k = record { judged = λ f e. refusal (n f) (k.settled f) e }
      where
        refusal :
            (x : Result (Unit {0}) × Frame)
            → ((u : Unit {0}) → x.0 ≡ ok u → IsAnswer t x.1.response.object)
            → (chain x (λ _ f. (ok false, f))).0 ≡ ok false
            → IsAnswer t (chain x (λ _ f. (ok false, f))).1.response.object
        refusal (ok u, f) h e = h u refl
        refusal (throw e', f) h e = cc
        refusal (hangs, f) h e = cc

    -- Two tests, of which the second is made where the first holds.
    pub both-Judges :
        {m n : M Bool} → Judges t m → Judges t n → Judges t (m >>= λ b. branch b n (pure false))
    unfolding ◌>>=◌ branch pure
    both-Judges {m} {n} h k = record { judged = λ f e. second (m f) (h.judged f) e }
      where
        second :
            (x : Result Bool × Frame)
            → (x.0 ≡ ok false → IsAnswer t x.1.response.object)
            → (chain x (λ b. branch b n (pure false))).0 ≡ ok false
            → IsAnswer t (chain x (λ b. branch b n (pure false))).1.response.object
        second (ok true, f) h e = k.judged f e
        second (ok false, f) h e = h refl
        second (throw e', f) h e = cc
        second (hangs, f) h e = cc

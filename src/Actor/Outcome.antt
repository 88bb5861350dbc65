-- ===== src/Actor/Outcome.antt =====
-- What a handle's method yields, from what the actor's processing yields.
use e2etest_rs.Prelude.{ℕ, zero, suc, ◌≡◌, refl, sym, ap, Option, some, [], ◌∷◌}
use mathlib.Core.Path.{subst}
use e2etest_rs.Actor.{Mailbox, idle, serve_from, settle, post, ask}
use e2etest_rs.Actor.Schedule.{settled, answered, ask-settle}
use e2etest_rs.Runner.Runtime.{◌>>=◌, Yields, yields, Yields-bind}

module _ {Message State Answer World : Type 0}
    (process : Message → State → World → Option ((Answer × State) × World)) where
  -- A message to an actor with nothing to do waits, whatever turns the actor takes.
  pub post-idle :
      (turns : ℕ) (m : Message) (s : State) (w : World)
      → post process turns m (idle s) w ≡ some (record { waiting = m ∷ []; state = s }, w)
  unfolding post serve_from ◌>>=◌
  post-idle zero m s w = refl
  post-idle (suc turns) m s w = refl

  pub ask-Yields :
      {Q : State → World → Type 0} {R : Answer × State → World → Type 0} (turns : ℕ) (m : Message)
      (box : Mailbox Message State) (w : World)
      → Yields Q (settled process box w)
      → ((s : State) (t : World) → Q s t → Yields R (process m s t))
      → Yields (λ r t. (r.1.waiting ≡ []) × R (r.0, r.1.state) t) (ask process turns m box w)
  ask-Yields {Q} {R} turns m box w h k =
      subst (Yields (λ r t. (r.1.waiting ≡ []) × R (r.0, r.1.state) t))
        (sym (ap (λ f. f w) (ask-settle process turns m box)))
        (Yields-bind (settled process box) (answered process m) w h
          λ s t q. Yields-bind (process m s) _ t (k s t q) λ r u p. yields (refl, p))

  -- The message that alone is waiting is processed.
  pub settle_one-Yields :
      {R : Answer × State → World → Type 0} (m : Message) (s : State) (w : World)
      → Yields R (process m s w)
      → Yields (λ t u. (a : Answer) × R (a, t) u) (settle process (m ∷ []) s w)
  unfolding settle
  settle_one-Yields m s w h = Yields-bind (process m s) _ w h λ r u p. yields (r.0, p)

  pub settle_none-Yields :
      {Q : State → World → Type 0} (s : State) (w : World)
      → Q s w
      → Yields Q (settle process [] s w)
  unfolding settle
  settle_none-Yields s w q = yields q

  -- A question to an actor with nothing to do, or with one message before.
  pub ask-idle-Yields :
      {R : Answer × State → World → Type 0} (turns : ℕ) (m : Message) (s : State) (w : World)
      → Yields R (process m s w)
      → Yields (λ r t. (r.1.waiting ≡ []) × R (r.0, r.1.state) t) (ask process turns m (idle s) w)
  ask-idle-Yields {R} turns m s w h =
      ask-Yields {Q = λ t u. Yields R (process m t u)} turns m (idle s) w
        (settle_none-Yields {Q = λ t u. Yields R (process m t u)} s w h) λ t u k. k

  pub ask_after-Yields :
      {R P : Answer × State → World → Type 0} (turns : ℕ) (n m : Message)
      (box : Mailbox Message State) (w : World)
      → box.waiting ≡ n ∷ []
      → Yields P (process n box.state w)
      → ((a : Answer) (s : State) (t : World) → P (a, s) t → Yields R (process m s t))
      → Yields (λ r t. (r.1.waiting ≡ []) × R (r.0, r.1.state) t) (ask process turns m box w)
  ask_after-Yields {R} {P} turns n m box w e h k =
      ask-Yields {Q = λ t u. (a : Answer) × P (a, t) u} turns m box w
        (subst (λ ms. Yields (λ t u. (a : Answer) × P (a, t) u) (settle process ms box.state w))
          (sym e) (settle_one-Yields n box.state w h))
        λ s t p. k p.0 s t p.1

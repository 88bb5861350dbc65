-- ===== src/Actor/Schedule.antt =====
-- Conversations with an actor: when the actor takes its messages does not show.
use e2etest_rs.Prelude.{
  ℕ, zero, suc, ◌≡◌, refl, sym, ◌∙◌, ap, Option, List, [], ◌∷◌, ◌++◌, ltb, length, Option-cases,
  Bool-cases, inl, inr,
}
use mathlib.Core.Path.{fun_ext}
use e2etest_rs.Actor.{capacity, Mailbox, idle, serve_from, serve, settle, make_room, post, ask}
use e2etest_rs.Runner.Runtime.{◌>>=◌, pure}

>>=-assoc :
    {S A B C : Type 0} (m : S → Option (A × S)) (f : A → S → Option (B × S))
    (g : B → S → Option (C × S))
    → ((m >>= f) >>= g) ≡ (m >>= λ a. f a >>= g)
unfolding ◌>>=◌
>>=-assoc m f g =
    fun_ext λ s. elim (Option-cases (m s)) [
      | inl e ↦ rw (e, ◌>>=◌) refl
      | inr (p, e) ↦ rw (e, ◌>>=◌) refl
    ]

>>=-congr :
    {S A B : Type 0} (m : S → Option (A × S)) {f g : A → S → Option (B × S)}
    → ((a : A) → f a ≡ g a)
    → (m >>= f) ≡ (m >>= g)
>>=-congr m h = ap (λ k. m >>= k) (fun_ext h)

module _ {Message State Answer World : Type 0}
    (process : Message → State → World → Option ((Answer × State) × World)) where
  abbrev pub settled : Mailbox Message State → World → Option (State × World)
  settled box = settle process box.waiting box.state

  serve-settle :
      (turns : ℕ) (ms : List Message) (s : State)
      → (serve_from process turns ms s >>= settled) ≡ settle process ms s
  unfolding serve_from settle ◌>>=◌
  serve-settle zero ms s = refl
  serve-settle (suc turns) [] s = refl
  serve-settle (suc turns) (m ∷ ms) s =
      >>=-assoc (process m s) (λ r. serve_from process turns ms r.1) settled
      ∙ >>=-congr (process m s) (λ r. serve-settle turns ms r.1)

  pub make_room-settle :
      (box : Mailbox Message State) → (make_room process box >>= settled) ≡ settled box
  make_room-settle box = elim (Bool-cases (ltb (length box.waiting) capacity)) [
    | inl free ↦ rw free (unfold ◌>>=◌ in refl)
    | inr full ↦ rw full (serve-settle 1 box.waiting box.state)
  ]

  -- What the actor is after it has taken a further message.
  abbrev pub then_process : Message → State → World → Option (State × World)
  then_process m s = process m s >>= λ r. pure r.1

  settle-snoc :
      (ms : List Message) (m : Message) (s : State)
      → settle process (ms ++ m ∷ []) s ≡ (settle process ms s >>= then_process m)
  unfolding settle ◌>>=◌
  settle-snoc [] m s = refl
  settle-snoc (n ∷ ms) m s =
      >>=-congr (process n s) (λ r. settle-snoc ms m r.1)
      ∙ sym (>>=-assoc (process n s) (λ r. settle process ms r.1) (then_process m))

  room-settle :
      (m : Message) (box : Mailbox Message State)
      → ((make_room process box >>= λ b. pure (record b { waiting = b.waiting ++ m ∷ [] }))
          >>= settled)
        ≡ (settled box >>= then_process m)
  unfolding ◌>>=◌
  room-settle m box =
      >>=-assoc (make_room process box) _ settled
      ∙ >>=-congr (make_room process box) (λ b. settle-snoc b.waiting m b.state)
      ∙ sym (>>=-assoc (make_room process box) settled (then_process m))
      ∙ ap (λ k. k >>= then_process m) (make_room-settle box)

  pub post-settle :
      (turns : ℕ) (m : Message) (box : Mailbox Message State)
      → (post process turns m box >>= settled) ≡ (settled box >>= then_process m)
  unfolding post
  post-settle turns m box =
      >>=-assoc (serve process turns box) _ settled
      ∙ >>=-congr (serve process turns box) (room-settle m)
      ∙ sym (>>=-assoc (serve process turns box) settled (then_process m))
      ∙ ap (λ k. k >>= then_process m) (serve-settle turns box.waiting box.state)

  -- What a question brings.
  abbrev pub answered : Message → State → World → Option ((Answer × Mailbox Message State) × World)
  answered m s = process m s >>= λ r. pure (r.0, idle r.1)

  pub ask-settle :
      (turns : ℕ) (m : Message) (box : Mailbox Message State)
      → ask process turns m box ≡ (settled box >>= answered m)
  unfolding ask
  ask-settle turns m box =
      >>=-congr (serve process turns box) (λ served.
        sym (>>=-assoc (make_room process served) settled (answered m))
        ∙ ap (λ k. k >>= answered m) (make_room-settle served))
      ∙ sym (>>=-assoc (serve process turns box) settled (answered m))
      ∙ ap (λ k. k >>= answered m) (serve-settle turns box.waiting box.state)

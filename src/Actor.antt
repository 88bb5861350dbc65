-- ===== src/Actor.antt =====
-- The actors of the crates, as their handles see them: messages go through a bounded channel of
-- tokio, in order, to one task that processes them. A handle's method either sends a message and goes
-- on, or sends it and waits for the answer. `post` and `ask` write out what is relied on of the
-- channel; when the task takes its messages is left open.
pub mod Schedule
pub mod Outcome
use e2etest_rs.Prelude.{
  ℕ, zero, suc, Bool, true, false, Option, none, some, List, [], ◌∷◌, ◌++◌, if◌then◌else◌, ltb,
  length,
}
use e2etest_rs.Runner.Runtime.{◌>>=◌, ◌>>◌, pure}

-- `mpsc::channel(10)`
abbrev pub capacity : ℕ
capacity = 10

-- The messages that the actor has not taken yet, and its state.
pub record Mailbox (Message State : Type 0) : Type 0 where
  pub waiting : List Message
  pub state : State

abbrev pub idle : {Message State : Type 0} → State → Mailbox Message State
idle s = record { waiting = []; state = s }

module _ {Message State Answer World : Type 0}
    (process : Message → State → World → Option ((Answer × State) × World)) where
  -- The actor takes as many messages as this, if they are there.
  unfoldable pub serve_from :
      ℕ → List Message → State → World → Option (Mailbox Message State × World)
  serve_from zero ms s = pure (record { waiting = ms; state = s })
  serve_from (suc turns) [] s = pure (idle s)
  serve_from (suc turns) (m ∷ ms) s = do r ← process m s; serve_from turns ms r.1

  abbrev pub serve : ℕ → Mailbox Message State → World → Option (Mailbox Message State × World)
  serve turns box = serve_from turns box.waiting box.state

  -- The actor takes all the messages.
  unfoldable pub settle : List Message → State → World → Option (State × World)
  settle [] s = pure s
  settle (m ∷ ms) s = do r ← process m s; settle ms r.1

  -- `send` waits while the channel is full.
  abbrev pub make_room : Mailbox Message State → World → Option (Mailbox Message State × World)
  make_room box = if ltb (length box.waiting) capacity then pure box else serve 1 box

  -- `send(message).await`, where the actor takes `turns` messages first
  unfoldable pub post :
      ℕ → Message → Mailbox Message State → World → Option (Mailbox Message State × World)
  post turns m box = do
    served ← serve turns box
    open_box ← make_room served
    pure (record open_box { waiting = open_box.waiting ++ m ∷ [] })

  -- `send(message).await` and `rx.await`: the answer comes when the messages before are processed.
  unfoldable pub ask :
      ℕ
      → Message
      → Mailbox Message State
      → World
      → Option ((Answer × Mailbox Message State) × World)
  ask turns m box = do
    served ← serve turns box
    open_box ← make_room served
    s ← settle open_box.waiting open_box.state
    r ← process m s
    pure (r.0, idle r.1)

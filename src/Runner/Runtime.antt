-- ===== src/Runner/Runtime.antt =====
-- What the runner calls and does not implement: the code of the tests and of the fixtures, run by
-- tokio under a timeout. The state of that code is the `World`.
use e2etest_rs.Prelude.{ℕ, ◌≡◌, refl, ap, Bool, Option, none, some}
use e2etest_rs.Prelude.Text.{Text}
use e2etest_rs.Fixture.{TypeId}
use e2etest_rs.Statistics.{Inner, Event, record_event}

-- In milliseconds.
abbrev pub Duration : Type 0
Duration = ℕ

-- What the runner reads of a `Fixture` type.
pub record FixtureType : Type 0 where
  pub type_id : TypeId
  pub timeout_setup : Option Duration
  pub timeout_teardown : Option Duration
  pub test_can_run_concurrently : Bool

-- A `Test`: its name, its timeout and its fixture.
pub record TestCase : Type 0 where
  pub name : Text
  pub timeout : Option Duration
  pub fixture : FixtureType

-- `can_run_concurrently`
abbrev pub can_run_concurrently : TestCase → Bool
can_run_concurrently t = t.fixture.test_can_run_concurrently

-- The value of a joined task, or the `JoinError` of one that panicked or timed out.
pub data Joined (A : Type 0) : Type 0 where
  joined : A → Joined A
  join_error : Joined A

-- `Result<T, ()>`
pub data Result (A : Type 0) : Type 0 where
  ok : A → Result A
  err : Result A

-- A spawned future under its timeout, as it changes the world; `Handle` is an `Arc` of a fixture.
-- `next_ready` is the executor's choice of the future that is polled next, among so many.
pub record Runtime : Type 1 where
  pub World : Type 0
  pub Handle : Type 0
  pub spawn_setup : TypeId → Duration → World → Joined (Option Handle) × World
  pub spawn_test : Text → Handle → Duration → World → Joined (Unit {0}) × World
  pub spawn_teardown : Duration → World → Joined (Unit {0}) × World
  pub drop_handle : Handle → World → World
  pub next_ready : ℕ → World → ℕ × World

-- `timeout.unwrap_or(ctx.default_timeout)`
abbrev pub unwrap_or : Option Duration → Duration → Duration
unwrap_or none d = d
unwrap_or (some t) d = t

module _ (rt : Runtime) where
  pub record State : Type 0 where
    pub stats : Inner
    pub world : rt.World

  -- A part of a run: `none` is a panic of the runner itself.
  abbrev pub Run : Type 0 → Type 0
  Run A = State → Option (A × State)

abbrev pub lift_stats : (rt : Runtime) → rt.World → Option Inner → Option (Unit {0} × State rt)
lift_stats rt w none = none
lift_stats rt w (some i) = some (tt, record { stats = i; world = w })

-- `ctx.statistics.record(name, event)`
unfoldable pub record_stats : (rt : Runtime) → Text → Event → Run rt (Unit {0})
record_stats rt name event s = lift_stats rt s.world (record_event s.stats name event)

-- `drop(fixture)`
abbrev pub dropped : (rt : Runtime) → rt.Handle → Run rt (Unit {0})
dropped rt h s = some (tt, record s { world = rt.drop_handle h s.world })

infixl 5 ◌>>=◌ ◌>>◌
unfoldable pub ◌>>=◌ :
    {S A B : Type 0} → (S → Option (A × S)) → (A → S → Option (B × S)) → S → Option (B × S)
◌>>=◌ m f s = elim (m s) [ none ↦ none | some (a, s') ↦ f a s' ]

abbrev pub ◌>>◌ :
    {S A B : Type 0} → (S → Option (A × S)) → (S → Option (B × S)) → S → Option (B × S)
m >> n = m >>= λ _. n

abbrev pub pure : {S A : Type 0} → A → S → Option (A × S)
pure a s = some (a, s)

-- The part of a run returns, with a result and a state for which `Q` holds.
pub data Yields {S A : Type 0} (Q : A → S → Type 0) : Option (A × S) → Type 0 where
  yields : {a : A} {s : S} → Q a s → Yields Q (some (a, s))

pub Yields-bind :
    {S A B : Type 0} {P : A → S → Type 0} {Q : B → S → Type 0} (m : S → Option (A × S))
    (f : A → S → Option (B × S)) (s : S)
    → Yields P (m s)
    → ((a : A) (t : S) → P a t → Yields Q (f a t))
    → Yields Q ((m >>= f) s)
unfolding ◌>>=◌
Yields-bind {S} {A} {B} {P} {Q} m f s h k = go (m s) h
  where
    go : (r : Option (A × S)) → Yields P r → Yields Q (elim r [ none ↦ none | some (a, t) ↦ f a t ])
    go none x = elim x [ ]
    go (some (a, t)) (yields x) = k a t x

-- What follows panics.
pub Yields-none :
    {S A B : Type 0} {P : A → S → Type 0} (m : S → Option (A × S)) (f : A → S → Option (B × S))
    (s : S)
    → Yields P (m s)
    → ((a : A) (t : S) → P a t → f a t ≡ none)
    → (m >>= f) s ≡ none
unfolding ◌>>=◌
Yields-none {S} {A} {B} {P} m f s h k = go (m s) h
  where
    go :
        (r : Option (A × S))
        → Yields P r
        → elim r as (λ x. Option (B × S)) [ none ↦ none | some (a, t) ↦ f a t ] ≡ none
    go none x = elim x [ ]
    go (some (a, t)) (yields x) = k a t x

-- What comes before has panicked.
pub none-bind :
    {S A B : Type 0} (m : S → Option (A × S)) (f : A → S → Option (B × S)) (s : S)
    → m s ≡ none
    → (m >>= f) s ≡ none
unfolding ◌>>=◌
none-bind {S} {A} {B} m f s h =
    ap
      (λ (r : Option (A × S)). elim r as (λ x. Option (B × S)) [
        | none ↦ none
        | some (a, t) ↦ f a t
      ])
      h

-- Whatever comes before, the rest panics.
pub bind-none :
    {S A B : Type 0} (m : S → Option (A × S)) (f : A → S → Option (B × S)) (s : S)
    → ((a : A) (t : S) → f a t ≡ none)
    → (m >>= f) s ≡ none
unfolding ◌>>=◌
bind-none {S} {A} {B} m f s h = rest (m s)
  where
    rest :
        (r : Option (A × S))
        → elim r as (λ x. Option (B × S)) [ none ↦ none | some (a, t) ↦ f a t ] ≡ none
    rest none = refl
    rest (some (a, t)) = h a t

pub Yields-some :
    {S A : Type 0} {Q : A → S → Type 0} {r : Option (A × S)}
    → Yields Q r
    → (a : A) × (s : S) × (r ≡ some (a, s)) × Q a s
Yields-some (yields {a} {s} x) = (a, s, refl, x)

pub Yields-map :
    {S A : Type 0} {P Q : A → S → Type 0} {r : Option (A × S)}
    → ((a : A) (s : S) → P a s → Q a s)
    → Yields P r
    → Yields Q r
Yields-map f (yields {a} {s} x) = yields (f a s x)

-- What holds of a result for two reasons.
pub Yields-both :
    {S A : Type 0} {P Q : A → S → Type 0} {r : Option (A × S)}
    → Yields P r
    → Yields Q r
    → Yields (λ a s. P a s × Q a s) r
Yields-both (yields x) (yields y) = yields (x, y)

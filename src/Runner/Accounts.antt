-- ===== src/Runner/Accounts.antt =====
-- Every setup, test and teardown that a run launches gets its result, and every setup its teardown.
use e2etest_rs.Prelude.{ℕ, suc, ◌≡◌, true, Option, none, some, List, any}
use e2etest_rs.Prelude.Text.{Text}
use e2etest_rs.Prelude.Collections.{IsIn}
use e2etest_rs.Statistics.{
  Task as TaskKind, Event, is_at_or_below, setup_launched, teardown_launched, test_launched,
}
use e2etest_rs.Statistics.Invariant.{Accepted, after, record_event-some}
use e2etest_rs.Statistics.Accounts.{
  Accounts, Accounts-setup_launched, Accounts-setup_result, Accounts-teardown_launched,
  Accounts-teardown_result, Accounts-test_launched, Accounts-test_result,
}
use e2etest_rs.Runner.Runtime.{
  Joined, Result, ok, err, Runtime, State, record_stats, dropped, Yields, yields, Yields-bind,
}
use e2etest_rs.Runner.Task.{setup_event, teardown_event, test_event, spawned}
use e2etest_rs.Runner.Task

module _ (rt : Runtime) where
  -- The included tests are `included`, and the accounts stand at these numbers.
  pub record At (included : List Text) (a b c d n : ℕ) (s : State rt) : Type 0 where
    pub same : s.stats.included ≡ included
    pub accounts : Accounts a b c d n s.stats

  pub record_stats-Yields :
      {Q : Unit {0} → State rt → Type 0} (name : Text) (e : Event) (s : State rt)
      → Accepted s.stats name e
      → Q tt (record s { stats = after s.stats name e })
      → Yields Q (record_stats rt name e s)
  unfolding record_stats
  record_stats-Yields name e s h q = rw (record_event-some s.stats name e h) (yields q)

  -- A spawned future, and a dropped handle, leave the statistics alone.
  pub spawned-At :
      {A : Type 0} {included : List Text} {a b c d n : ℕ} (fut : rt.World → Joined A × rt.World)
      (s : State rt)
      → At included a b c d n s
      → Yields (λ _. At included a b c d n) (Task.spawned rt fut s)
  spawned-At fut s at = yields (record { same = at.same; accounts = at.accounts })

  pub dropped-At :
      {included : List Text} {a b c d n : ℕ} (h : rt.Handle) (s : State rt)
      → At included a b c d n s
      → Yields (λ _. At included a b c d n) (dropped rt h s)
  dropped-At h s at = yields (record { same = at.same; accounts = at.accounts })

  -- The entries of a path where a test is included are accepted, and move the accounts.
  module _ (included : List Text) (name : Text) (here : any (is_at_or_below name) included ≡ true)
      {a b c d n : ℕ} where
    pub setup_launched-At :
        (s : State rt)
        → At included a b c d n s
        → Yields
            (λ _. At included (suc a) b c (suc d) (suc n))
            (record_stats rt name setup_launched s)
    setup_launched-At s at =
        record_stats-Yields name setup_launched s (rw at.same here)
          (record { same = at.same; accounts = Accounts-setup_launched name at.accounts })

    pub setup_event-At :
        {A : Type 0} (task : TaskKind) (r : Result (Option A)) (s : State rt)
        → At included (suc a) b c d n s
        → Yields (λ _. At included a b c d n) (record_stats rt name (setup_event task r) s)
    setup_event-At task (ok none) s at =
        record_stats-Yields name _ s (rw at.same here)
          (record { same = at.same; accounts = Accounts-setup_result name _ tt at.accounts })
    setup_event-At task (ok (some x)) s at =
        record_stats-Yields name _ s (rw at.same here)
          (record { same = at.same; accounts = Accounts-setup_result name _ tt at.accounts })
    setup_event-At task err s at =
        record_stats-Yields name _ s (rw at.same here)
          (record { same = at.same; accounts = Accounts-setup_result name _ tt at.accounts })

    pub teardown_launched-At :
        (s : State rt)
        → At included a b c (suc d) n s
        → Yields (λ _. At included a (suc b) c d n) (record_stats rt name teardown_launched s)
    teardown_launched-At s at =
        record_stats-Yields name teardown_launched s (rw at.same here)
          (record { same = at.same; accounts = Accounts-teardown_launched name at.accounts })

    pub teardown_event-At :
        (r : Result (Unit {0})) (s : State rt)
        → At included a (suc b) c d n s
        → Yields (λ _. At included a b c d n) (record_stats rt name (teardown_event r) s)
    teardown_event-At (ok x) s at =
        record_stats-Yields name _ s (rw at.same here)
          (record { same = at.same; accounts = Accounts-teardown_result name _ tt at.accounts })
    teardown_event-At err s at =
        record_stats-Yields name _ s (rw at.same here)
          (record { same = at.same; accounts = Accounts-teardown_result name _ tt at.accounts })

  module _ (included : List Text) (name : Text) (listed : IsIn name included) {a b c d n : ℕ} where
    pub test_launched-At :
        (s : State rt)
        → At included a b c d n s
        → Yields (λ _. At included a b (suc c) d n) (record_stats rt name test_launched s)
    test_launched-At s at =
        record_stats-Yields name test_launched s (rw at.same listed)
          (record { same = at.same; accounts = Accounts-test_launched name at.accounts })

    pub test_event-At :
        (r : Result (Unit {0})) (s : State rt)
        → At included a b (suc c) d n s
        → Yields (λ _. At included a b c d n) (record_stats rt name (test_event r) s)
    test_event-At (ok x) s at =
        record_stats-Yields name _ s (rw at.same listed)
          (record { same = at.same; accounts = Accounts-test_result name _ tt at.accounts })
    test_event-At err s at =
        record_stats-Yields name _ s (rw at.same listed)
          (record { same = at.same; accounts = Accounts-test_result name _ tt at.accounts })

  -- The three tasks of task.rs, for any futures.
  module _ (included : List Text) (name : Text) (here : any (is_at_or_below name) included ≡ true)
      {a b c d n : ℕ} where
    pub setup-At :
        (task : TaskKind) (fut : rt.World → Joined (Option rt.Handle) × rt.World) (s : State rt)
        → At included a b c d n s
        → Yields (λ _. At included a b c (suc d) (suc n)) (Task.setup rt name task fut s)
    unfolding Task.setup
    setup-At task fut s at =
        Yields-bind _ _ _ (setup_launched-At included name here s at) λ _ t at₁.
          Yields-bind _ _ _ (spawned-At fut t at₁) λ r u at₂.
            Yields-bind _ _ _ (setup_event-At included name here task r u at₂) λ _ v at₃. yields at₃

    pub teardown-At :
        (fut : rt.World → Joined (Unit {0}) × rt.World) (s : State rt)
        → At included a b c (suc d) n s
        → Yields (λ _. At included a b c d n) (Task.teardown rt name fut s)
    unfolding Task.teardown
    teardown-At fut s at =
        Yields-bind _ _ _ (teardown_launched-At included name here s at) λ _ t at₁.
          Yields-bind _ _ _ (spawned-At fut t at₁)
            λ r u at₂. teardown_event-At included name here r u at₂

-- ===== src/Runner/Closing.antt =====
-- task.rs, test.rs, group.rs: a whole group of a run, from its setup to its teardown.
use e2etest_rs.Prelude.{
  ℕ, arith, suc, ◌≤◌, ◌≡◌, Bool, true, not, Option, none, some, List, [], ◌∷◌, ◌++◌, any, filter,
  All, Bool-cases, inl, inr,
}
use e2etest_rs.Prelude.Text.{Text}
use e2etest_rs.Prelude.Text.Split.{join, path}
use e2etest_rs.Prelude.Collections.{IsIn}
use e2etest_rs.Statistics.{is_at_or_below, group as group_task}
use e2etest_rs.Filter.{Filter, consider_group, consider_test}
use e2etest_rs.Runner.Runtime.{
  Duration, FixtureType, TestCase, can_run_concurrently, Result, ok, err, Runtime, State, Run,
  unwrap_or, Yields, yields, Yields-bind, Yields-map,
}
use e2etest_rs.Runner.Group.{
  Group, Groups, node, nil, cons, name_of, Context, update_concurrency_enabled,
  is_concurrency_enabled, concurrent_tests, sequential_tests, teardown_group, with_fixture,
  run_group, run_groups,
}
use e2etest_rs.Runner.Accounts.{At, dropped-At, setup-At, teardown-At}
use e2etest_rs.Runner.Concurrent.{IsListed}
use e2etest_rs.Runner.Balance.{for_each_concurrent-At}
use e2etest_rs.Runner.Single.{for_each-At}

module _ (f : Filter) (included : List Text) where
  abbrev pub IsReadyTest : List Text → TestCase → Type 0
  IsReadyTest names t =
      consider_test f names t.name ≡ true → IsIn (path (join names) t.name) included

  unfoldable mutual
    -- A test is included at or below the group, every considered test of the group is included, and
    -- the considered subgroups are as good.
    pub IsReady : List Text → Group → Type 0
    IsReady parents (node name fixture tests groups) =
        let names = parents ++ name ∷ [] in
        (any (is_at_or_below (join names)) included ≡ true)
        × All (IsReadyTest names) tests
        × AreReady names groups

    pub AreReady : List Text → Groups → Type 0
    AreReady names nil = Unit
    AreReady names (cons g groups) =
        (consider_group f names (name_of g) ≡ true → IsReady names g) × AreReady names groups

  -- What remains of the considered tests after a further choice is included.
  chosen-Listed :
      (rt : Runtime) (timeout : Duration) (names : List Text) (p : TestCase → Bool)
      (tests : List TestCase)
      → All (IsReadyTest names) tests
      → All
          (IsListed rt timeout (join names) included)
          (filter p (filter (λ t. consider_test f names t.name) tests))
  chosen-Listed rt timeout names p [] h = tt
  chosen-Listed rt timeout names p (t ∷ tests) h =
      elim (Bool-cases (consider_test f names t.name)) [
        | inr left_out ↦ rw left_out (chosen-Listed rt timeout names p tests h.1)
        | inl taken ↦ rw taken (elim (Bool-cases (p t)) [
          | inr left_out ↦ rw left_out (chosen-Listed rt timeout names p tests h.1)
          | inl chosen ↦ rw chosen (h.0 taken, chosen-Listed rt timeout names p tests h.1)
        ])
      ]

module _ (rt : Runtime) (included : List Text) where
  -- The accounts are back, with this number of setups at least.
  abbrev pub Back : ℕ → ℕ → ℕ → ℕ → ℕ → State rt → Type 0
  Back a b c d n s = (m : ℕ) × (n ≤ m) × At rt included a b c d m s

  Back-weaken :
      {a b c d n n' : ℕ} {r : Option (Unit {0} × State rt)}
      → n ≤ n'
      → Yields (λ _. Back a b c d n') r
      → Yields (λ _. Back a b c d n) r
  Back-weaken le = Yields-map λ _ s (m, more, at). (m, omega (arith, le, more), at)

  teardown_group-At :
      (names : List Text) (fixture : FixtureType) (ctx : Context) (s : State rt) {a b c d n : ℕ}
      → any (is_at_or_below (join names)) included ≡ true
      → At rt included a b c (suc d) n s
      → Yields (λ _. Back a b c d n) (teardown_group rt names fixture ctx s)
  teardown_group-At names fixture ctx s {n = n} here at =
      Yields-map (λ _ t end. (n, omega arith, end))
        (teardown-At rt included (join names) here
          (rt.spawn_teardown (unwrap_or fixture.timeout_teardown ctx.default_timeout)) s at)

  group_fixture-At :
      (names : List Text) (fixture : FixtureType) (tests : List TestCase)
      (subgroups : Context → Run rt (Unit {0})) (ctx : Context) (r : Result (Option rt.Handle))
      (s : State rt) (a b c d n : ℕ)
      → 1 ≤ ctx.concurrency
      → any (is_at_or_below (join names)) included ≡ true
      → All (IsReadyTest ctx.filter included names) tests
      → ((t : State rt) (m : ℕ)
          → At rt included a b c (suc d) m t
          → Yields
              (λ _. Back a b c (suc d) m)
              (subgroups (update_concurrency_enabled ctx fixture.test_can_run_concurrently) t))
      → At rt included a b c (suc d) n s
      → Yields (λ _. Back a b c d n) (with_fixture rt names fixture tests subgroups ctx r s)
  group_fixture-At names fixture tests subgroups ctx (ok (some h)) s a b c d n some_run here ready
        sub at =
      let ctx' = update_concurrency_enabled ctx fixture.test_can_run_concurrently in
      Yields-bind _ _ _ (sub s n at) λ _ t₁ back.
        Yields-bind _ _ _
          (for_each_concurrent-At rt ctx.default_timeout (join names) included ctx.concurrency
            (concurrent_tests ctx' names tests) a b c (suc d) back.0 t₁ some_run
            (chosen-Listed ctx.filter included rt ctx.default_timeout names
              (λ t. is_concurrency_enabled ctx' (can_run_concurrently t)) tests ready)
            back.2)
          λ _ t₂ at₂.
            Yields-bind _ _ _
              (for_each-At rt ctx.default_timeout (join names) included
                (sequential_tests ctx' names tests) t₂
                (chosen-Listed ctx.filter included rt ctx.default_timeout names
                  (λ t. not (is_concurrency_enabled ctx' (can_run_concurrently t))) tests ready)
                at₂)
              λ _ t₃ at₃. Yields-bind _ _ _ (dropped-At rt h t₃ at₃) λ _ t₄ at₄.
                Back-weaken (omega (arith, back.1))
                  (teardown_group-At names fixture ctx t₄ here at₄)
  group_fixture-At names fixture tests subgroups ctx (ok none) s a b c d n some_run here ready sub
        at =
      teardown_group-At names fixture ctx s here at
  group_fixture-At names fixture tests subgroups ctx err s a b c d n some_run here ready sub at =
      teardown_group-At names fixture ctx s here at

  mutual
    unfolding run_group run_groups IsReady AreReady

    group-At :
        (g : Group) (parents : List Text) (ctx : Context) (s : State rt) (a b c d n : ℕ)
        → 1 ≤ ctx.concurrency
        → IsReady ctx.filter included parents g
        → At rt included a b c d n s
        → Yields (λ _. Back a b c d (suc n)) (run_group rt g parents ctx s)
    group-At (node name fixture tests groups) parents ctx s a b c d n some_run ready at =
        let names = parents ++ name ∷ [] in
        Yields-bind _ _ _
          (setup-At rt included (join names) ready.0 group_task
            (rt.spawn_setup fixture.type_id (unwrap_or fixture.timeout_setup ctx.default_timeout)) s
            at)
          λ r t at₁.
            group_fixture-At names fixture tests (run_groups rt groups names) ctx r t a b c d
              (suc n) some_run ready.0 ready.1
              (λ u m at₂.
                groups-At groups names
                  (update_concurrency_enabled ctx fixture.test_can_run_concurrently) u a b c (suc d)
                  m some_run ready.2 at₂)
              at₁

    groups-At :
        (gs : Groups) (names : List Text) (ctx : Context) (s : State rt) (a b c d n : ℕ)
        → 1 ≤ ctx.concurrency
        → AreReady ctx.filter included names gs
        → At rt included a b c d n s
        → Yields (λ _. Back a b c d n) (run_groups rt gs names ctx s)
    groups-At nil names ctx s a b c d n some_run ready at = yields (n, omega arith, at)
    groups-At (cons g gs) names ctx s a b c d n some_run ready at =
        elim (Bool-cases (consider_group ctx.filter names (name_of g))) [
          | inr left_out ↦ rw left_out (groups-At gs names ctx s a b c d n some_run ready.1 at)
          | inl considered ↦ rw considered (
              Yields-bind _ _ _ (group-At g names ctx s a b c d n some_run (ready.0 considered) at)
                λ _ t back.
                  Back-weaken (omega (arith, back.1))
                    (groups-At gs names ctx t a b c d back.0 some_run ready.1 back.2))
        ]

  -- A whole group runs to its end and never stops the run, whatever the fixtures and the tests do and
  -- however the executor interleaves them, if the group is ready and at least one test may run at a
  -- time. Every setup, teardown and test that it launched has its result and every setup its
  -- teardown: the accounts are what they were, but for the number of setups, which grows by one at
  -- least.
  pub run_group-At :
      (g : Group) (parents : List Text) (ctx : Context) (s : State rt) (a b c d n : ℕ)
      → 1 ≤ ctx.concurrency
      → IsReady ctx.filter included parents g
      → At rt included a b c d n s
      → Yields (λ _. Back a b c d (suc n)) (run_group rt g parents ctx s)
  run_group-At g parents ctx s a b c d n some_run ready at =
      group-At g parents ctx s a b c d n some_run ready at

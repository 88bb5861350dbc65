-- ===== src/Runner/Panic.antt =====
-- group.rs, statistics.rs: a run that stops at a subgroup without a test.
use e2etest_rs.Prelude.{
  ℕ, ◌≡◌, refl, ◌∙◌, ap, inl, inr, true, false, not, Option, none, some, List, [], ◌∷◌, ◌++◌, map,
  arith, any, is_empty, Bool-cases, Option-cases,
}
use e2etest_rs.Prelude.Text.{Text, text_eq_iff}
use e2etest_rs.Prelude.Text.Split.{join, path}
use e2etest_rs.Statistics.{
  is_at_or_below, setup_launched, setup_passed, record_event, group as group_task,
}
use e2etest_rs.Statistics.Invariant.{Accepted-of_record_event}
use e2etest_rs.Filter.{empty, consider_group}
use e2etest_rs.Runner.Runtime.{
  Duration, FixtureType, TestCase, Joined, joined, ok, Runtime, State, record_stats, unwrap_or,
  Yields, yields, Yields-bind, Yields-none, none-bind,
}
use e2etest_rs.Runner.Task
use e2etest_rs.Filter.Ways.{All-of_IsIn}
use e2etest_rs.Runner.Unfiltered.{any-of_first}
use e2etest_rs.Runner.Group.{
  update_concurrency_enabled, Group, Groups, node, cons, name_of, Context, test_names, run_group,
  run_groups,
}
use e2etest_rs.Runner.Run.{context, run}
use e2etest_rs.Runner.Accounts.{record_stats-Yields}
use e2etest_rs.Runner.Recording.{is_chosen, Recorded, record_tests-Recorded, chosen-IsIn}
use e2etest_rs.Runner.Complete.{begin, contains_none, any-of_all, chosen_any, IsIn-of_any}

-- The entry for a setup is refused where no test is included.
setup_launched-none :
    (rt : Runtime) (n : Text) (s : State rt)
    → any (is_at_or_below n) s.stats.included ≡ false
    → record_stats rt n setup_launched s ≡ none
unfolding record_stats
setup_launched-none rt n s h = elim (Option-cases (record_event s.stats n setup_launched)) [
  | inl e ↦ rw e refl
  | inr (i, e) ↦ ground (arith, h, (Accepted-of_record_event s.stats n setup_launched e).0)
]

run_group-none :
    (rt : Runtime) (g : Group) (parents : List Text) (ctx : Context) (s : State rt)
    → any (is_at_or_below (join (parents ++ name_of g ∷ []))) s.stats.included ≡ false
    → run_group rt g parents ctx s ≡ none
unfolding run_group Task.setup
run_group-none rt (node name fixture tests groups) parents ctx s h =
    none-bind _ _ s (none-bind _ _ s (setup_launched-none rt (join (parents ++ name ∷ [])) s h))

-- The loop over the subgroups stops at a considered one where no test is included.
run_groups-none :
    (rt : Runtime) (g : Group) (groups : Groups) (names : List Text) (ctx : Context) (s : State rt)
    → consider_group ctx.filter names (name_of g) ≡ true
    → any (is_at_or_below (join (names ++ name_of g ∷ []))) s.stats.included ≡ false
    → run_groups rt (cons g groups) names ctx s ≡ none
unfolding run_groups
run_groups-none rt g groups names ctx s considered h =
    rw considered (none-bind _ _ s (run_group-none rt g names ctx s h))

considered : (parent name : Text) → consider_group empty (parent ∷ []) name ≡ true
unfolding consider_group
considered parent name = refl

spawned-Yields :
    {A : Type 0} (rt : Runtime) (fut : rt.World → Joined A × rt.World) (s : State rt) (a : A)
    (w : rt.World)
    → fut s.world ≡ (joined a, w)
    → Yields (λ r t. (r ≡ ok a) × (t.stats.included ≡ s.stats.included)) (Task.spawned rt fut s)
spawned-Yields rt fut s a w h = rw h (yields (refl, refl))

-- A setup that the fixtures bring to its end, and the statistics let in.
setup-Yields :
    (rt : Runtime) (n : Text) (s : State rt) (fut : rt.World → Joined (Option rt.Handle) × rt.World)
    (h : rt.Handle) (w : rt.World)
    → any (is_at_or_below n) s.stats.included ≡ true
    → fut s.world ≡ (joined (some h), w)
    → Yields
        (λ r t. (r ≡ ok (some h)) × (t.stats.included ≡ s.stats.included))
        (Task.setup rt n group_task fut s)
unfolding Task.setup
setup-Yields rt n s fut h w here done =
    Yields-bind {P = λ _ t. (t.stats.included ≡ s.stats.included) × (t.world ≡ s.world)} _ _ _
      (record_stats-Yields rt n setup_launched s here (refl, refl))
      λ _ t (same, world).
        Yields-bind _ _ _ (spawned-Yields rt fut t (some h) w (ap fut world ∙ done))
          λ r u (got, same'). rw got (
            Yields-bind {P = λ _ v. v.stats.included ≡ s.stats.included} _ _ _
              (record_stats-Yields rt n setup_passed u (rw (same' ∙ same) here) (same' ∙ same))
              λ _ v same''. yields (refl, same''))

any-of_chosen :
    (ctx : Context) (root n : Text) (names : List Text) (x : Text)
    → is_chosen ctx root names x ≡ true
    → is_at_or_below n x ≡ true
    → any (is_at_or_below n) (map (path root) names) ≡ true
any-of_chosen ctx root n [] x c h = ground (arith, c)
any-of_chosen ctx root n (k ∷ names) x c h =
    ground (arith, text_eq_iff x (path root k), any-of_chosen ctx root n names x)

-- Every included test is one of the chosen ones.
none_below :
    (rt : Runtime) (ctx : Context) (root n : Text) (names : List Text) (world : rt.World)
    (s : State rt)
    → Recorded rt ctx root names (begin rt world) s
    → any (is_at_or_below n) (map (path root) names) ≡ false
    → any (is_at_or_below n) s.stats.included ≡ false
none_below rt ctx root n names world s r h =
    elim (Bool-cases (any (is_at_or_below n) s.stats.included)) [
      | inr no_test ↦ no_test
      | inl some_test ↦
          let (x, m, below) = IsIn-of_any (is_at_or_below n) s.stats.included some_test in
          ground (
            arith,
            h,
            any-of_chosen ctx root n names x (ground (arith, m, r.exact x, contains_none x)) below,
          )
    ]

-- Without filters, a run panics in the statistics if the fixture of its group is set up and the first
-- subgroup has no test at or below its path, while the group has a test somewhere.
pub run-none :
    (rt : Runtime) (name : Text) (fixture : FixtureType) (tests : List TestCase) (p : Group)
    (groups : Groups) (timeout : Duration) (concurrency : ℕ) (world : rt.World) (h : rt.Handle)
    (w : rt.World)
    → let g = node name fixture tests (cons p groups) in
      is_empty (test_names g) ≡ false
      → any (is_at_or_below (path name (name_of p))) (map (path name) (test_names g)) ≡ false
      → rt.spawn_setup fixture.type_id (unwrap_or fixture.timeout_setup timeout) world
        ≡ (joined (some h), w)
      → run rt g empty timeout concurrency world ≡ none
unfolding run run_group join
run-none rt name fixture tests p groups timeout concurrency world h w some_test empty_group done =
    Yields-none _ _ _ (record_tests-Recorded rt ctx name (test_names g) true (begin rt world))
      λ b s (flag, r).
        let goes : b ≡ false =
          flag
          ∙ ap not (
              any-of_all ctx name (test_names g) some_test (chosen_any timeout concurrency name)) in
        rw goes (
          Yields-none _ _ _
            (setup-Yields rt name s
              (rt.spawn_setup fixture.type_id (unwrap_or fixture.timeout_setup timeout)) h w
              (any-of_first name (test_names g) s.stats.included some_test (
                All-of_IsIn (test_names g) λ n m.
                  chosen-IsIn rt ctx name (test_names g) (begin rt world) s n r m
                    (chosen_any timeout concurrency name n)))
              (ap (rt.spawn_setup fixture.type_id (unwrap_or fixture.timeout_setup timeout)) r.world
                ∙ done))
            λ a t (got, same). rw got (
              none-bind _ _ t (
                run_groups-none rt p groups (name ∷ [])
                  (update_concurrency_enabled ctx fixture.test_can_run_concurrently) t
                  (considered name (name_of p))
                  (rw same (
                    none_below rt ctx name (path name (name_of p)) (test_names g) world s r
                      empty_group)))))
  where
    g : Group
    g = node name fixture tests (cons p groups)

    ctx : Context
    ctx = context empty timeout concurrency

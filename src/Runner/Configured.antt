-- ===== src/Runner/Configured.antt =====
-- lib.rs, run.rs: a whole run from its configuration, the filters included.
use e2etest_rs.Prelude.{
  ◌≡◌, refl, sym, ◌∙◌, ap, true, false, inl, inr, List, [], ◌∷◌, ◌++◌, arith, any, is_empty, All,
  Bool-cases, ◌&&◌, ◌||◌, not,
}
use mathlib.Core.Path.{subst}
use e2etest_rs.Prelude.Text.{Text, text_eq, text_eq_iff}
use e2etest_rs.Prelude.Text.Split.{join, path, rsplit_once-path, text_eq-path, HasNoColon}
use e2etest_rs.Prelude.Collections.{IsIn, contains}
use e2etest_rs.Statistics.{is_at_or_below}
use e2etest_rs.Statistics.Invariant.{any-of_IsIn}
use e2etest_rs.Fixture.{TypeId}
use e2etest_rs.Filter.{Filter, consider_test, consider_group}
use e2etest_rs.Filter
use e2etest_rs.Filter.Groups.{new-IsClosed}
use e2etest_rs.Filter.Reach.{consider_test-of_consider_group}
use e2etest_rs.Filter.Ways.{All-of_IsIn, path-below}
use e2etest_rs.Filter.Wanted.{matches_some}
use e2etest_rs.Filter.Several.{wants_group, wants_alone, wants_some_alone, consider_test-filters}
use e2etest_rs.Runner.Runtime.{Runtime, State, Yields, Yields-map}
use e2etest_rs.Runner.Group.{Group, name_of, Context, test_names}
use e2etest_rs.Runner.Run.{context, is_included, Config, run_config}
use e2etest_rs.Runner.Closing.{IsReady}
use e2etest_rs.Runner.Unfiltered.{IsInhabited, IsReady-group}
use e2etest_rs.Runner.Parts.{IsPlain, HasPlainNames, test_names-IsPlain, is_included-parts}
use e2etest_rs.Runner.Filtered.{IsReady-root}
use e2etest_rs.Runner.Recording.{is_chosen, Recorded, chosen-IsIn}
use e2etest_rs.Runner.Complete.{begin, IsIn-of_any, IsFinished, run-IsFinished}

All-at : (P : Text → Type 0) (names : List Text) (n : Text) → All P names → IsIn n names → P n
unfolding contains
All-at P [] n h m = ground (arith, m)
All-at P (k ∷ names) n h m = elim (Bool-cases (text_eq n k)) [
  | inl same ↦ subst P (sym ((text_eq_iff n k).0 same)) h.0
  | inr other ↦ All-at P names n h.1 (ground (arith, m))
]

module _ (rt : Runtime) (c : Config) (g : Group) (world : rt.World) where
  abbrev f : Filter
  f = Filter.new c.filters (name_of g) (test_names g)

  abbrev ctx : Context
  ctx = context f c.default_timeout c.concurrency

  abbrev Done : State rt → Type 0
  Done s = Recorded rt ctx (name_of g) (test_names g) (begin rt world) s

  -- Filters that select no test at all, or no filters: every test is considered.
  IsReady-bare :
      (s : State rt)
      → IsInhabited g
      → Done s
      → is_empty f.tests ≡ true
      → IsReady f s.stats.included [] g
  unfolding join consider_test
  IsReady-bare s h r bare = IsReady-group f s.stats.included [] g h (
      All-of_IsIn (test_names g) λ n m.
        chosen-IsIn rt ctx (name_of g) (test_names g) (begin rt world) s n r m (rw bare refl))

  reach :
      (s : State rt)
      → HasPlainNames g
      → Done s
      → is_empty f.tests ≡ false
      → (pre : List Text) (name : Text) → consider_group f (name_of g ∷ pre) name ≡ true
      → any (is_at_or_below (join (name_of g ∷ (pre ++ name ∷ [])))) s.stats.included ≡ true
  reach s plain r some_test pre name considered =
      let (n, h, t, m, parts, below, asked) =
        consider_test-of_consider_group c.filters (name_of g) (test_names g) pre name
          (sym (new-IsClosed c.filters (name_of g) (test_names g)).together ∙ some_test)
          considered in
      any-of_IsIn (is_at_or_below (join (name_of g ∷ (pre ++ name ∷ [])))) (path (name_of g) n)
        s.stats.included below
        (chosen-IsIn rt ctx (name_of g) (test_names g) (begin rt world) s n r m (
          sym (
            is_included-parts ctx (name_of g) n
              (All-at IsPlain (test_names g) n (test_names-IsPlain g plain) m) parts)
          ∙ asked))

  IsReady-filtered :
      (s : State rt)
      → HasPlainNames g
      → Done s
      → any (is_included ctx (name_of g)) (test_names g) ≡ true
      → is_empty f.tests ≡ false
      → IsReady f s.stats.included [] g
  unfolding join
  IsReady-filtered s plain r some_test some_entry =
      let taken =
        λ (n : Text). chosen-IsIn rt ctx (name_of g) (test_names g) (begin rt world) s n r in
      let (n, m, i) = IsIn-of_any (is_included ctx (name_of g)) (test_names g) some_test in
      IsReady-root f s.stats.included g (reach s plain r some_entry) plain
        (any-of_IsIn (is_at_or_below (name_of g)) (path (name_of g) n) s.stats.included
          (path-below (name_of g) n) (taken n m i))
        (All-of_IsIn (test_names g) taken)

-- A run of a group that has a test in each of its groups, and no colon in the names of its tests and
-- subgroups, ends without a panic of the runner, whatever the filters, the fixtures and the tests do
-- and however the executor interleaves them. At its end exactly the tests that the filters select
-- are included. If there are any, then at least one setup was launched, every setup, teardown and
-- test that was launched has its result, and every setup has its teardown; if there are none, then
-- nothing was recorded.
pub run_config-IsFinished :
    (rt : Runtime) (start : List TypeId → rt.World) (c : Config) (g : Group)
    → IsInhabited g
    → HasPlainNames g
    → Yields
        (λ _ t.
          IsFinished rt
            (context
              (Filter.new c.filters (name_of g) (test_names g))
              c.default_timeout
              c.concurrency)
            g
            t)
        (run_config rt start c g)
unfolding run_config
run_config-IsFinished rt start c g h plain =
    run-IsFinished rt g (Filter.new c.filters (name_of g) (test_names g)) c.default_timeout
      c.concurrency (start c.permanent_fixtures)
      λ s r some_test.
        elim (Bool-cases (is_empty (Filter.new c.filters (name_of g) (test_names g)).tests)) [
          | inl bare ↦ IsReady-bare rt c g (start c.permanent_fixtures) s h r bare
          | inr some_entry ↦
              IsReady-filtered rt c g (start c.permanent_fixtures) s plain r some_test some_entry
        ]

is_chosen-path :
    (ctx : Context) (root : Text) (names : List Text) (n : Text)
    → is_chosen ctx root names (path root n) ≡ (contains n names && is_included ctx root n)
unfolding contains
is_chosen-path ctx root [] n = refl
is_chosen-path ctx root (k ∷ names) n = elim (Bool-cases (text_eq n k)) [
  | inr other ↦ ground (arith, other, text_eq-path root n k, is_chosen-path ctx root names n)
  | inl same ↦
      let e : k ≡ n = sym ((text_eq_iff n k).0 same) in
      ground (
        arith,
        same,
        text_eq-path root n k,
        is_chosen-path ctx root names n,
        ap (is_included ctx root) e,
      )
]

-- At the end of such a run, a test of a subgroup is included exactly when a filter takes it alone by
-- its name, or a filter takes its whole group and no filter takes a test of this group alone, or
-- the filters ask for no test of the run at all.
pub run_config-included :
    (rt : Runtime) (start : List TypeId → rt.World) (c : Config) (root : Group) (g t : Text)
    → IsInhabited root
    → HasPlainNames root
    → HasNoColon t
    → IsIn (path g t) (test_names root)
    → Yields
        (λ _ s. contains (path (name_of root) (path g t)) s.stats.included ≡ (
          any (λ filter. wants_alone filter g t) c.filters
          || (any (λ filter. wants_group filter g) c.filters
              && not (any (wants_some_alone (test_names root) g) c.filters))
          || not (any (λ filter. matches_some filter (test_names root)) c.filters)))
        (run_config rt start c root)
run_config-included rt start c root g t h plain no_colon m =
    let names = test_names root in
    let ctx = context (Filter.new c.filters (name_of root) names) c.default_timeout c.concurrency in
    Yields-map
      (λ _ s end.
        end.chosen (path (name_of root) (path g t))
        ∙ is_chosen-path ctx (name_of root) names (path g t)
        ∙ ap (λ b. b && is_included ctx (name_of root) (path g t)) m
        ∙ sym (
            is_included-parts ctx (name_of root) (path g t)
              (All-at IsPlain names (path g t) (test_names-IsPlain root plain) m)
              (rsplit_once-path g t no_colon))
        ∙ consider_test-filters c.filters (name_of root) names g t no_colon m)
      (run_config-IsFinished rt start c root h plain)

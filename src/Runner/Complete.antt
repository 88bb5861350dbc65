-- ===== src/Runner/Complete.antt =====
-- run.rs: a whole run, from the first recorded test to the last teardown.
use e2etest_rs.Prelude.{
  ℕ, zero, suc, ◌≤◌, ◌≡◌, ◌⊎◌, refl, ◌∙◌, ap, inl, inr, Bool, true, false, List, [], ◌∷◌, arith,
  if◌then◌else◌, is_empty, not, any, All, ltb, Bool-cases,
}
use e2etest_rs.Prelude.Text.{Text, text_eq_refl}
use e2etest_rs.Prelude.Text.Split.{join, path}
use e2etest_rs.Prelude.Collections.{IsIn, contains}
use e2etest_rs.Statistics.Accounts.{Accounts}
use e2etest_rs.Statistics.{Inner}
use e2etest_rs.Statistics
use e2etest_rs.Filter.{Filter, empty, consider_test}
use e2etest_rs.Filter.Ways.{All-of_IsIn}
use e2etest_rs.Runner.Runtime.{Duration, Runtime, State, Yields, yields, Yields-bind, Yields-map}
use e2etest_rs.Runner.Group.{Group, node, name_of, Context, test_names}
use e2etest_rs.Runner.Run.{context, is_included, run}
use e2etest_rs.Runner.Closing.{IsReady, Back, run_group-At}
use e2etest_rs.Runner.Unfiltered.{IsInhabited, IsReady-group}
use e2etest_rs.Runner.Recording.{
  is_chosen, is_chosen-of_IsIn, Recorded, record_tests-Recorded, chosen-IsIn,
}

some_concurrency : (concurrency : ℕ) → 1 ≤ (if ltb 0 concurrency then concurrency else 1)
some_concurrency zero = omega arith
some_concurrency (suc n) = ground arith

Accounts-no_events : (i : Inner) → i.events ≡ [] → Accounts 0 0 0 0 0 i
Accounts-no_events i e = record {
  total = rw e refl;
  setups = rw e refl;
  teardowns = rw e refl;
  tests = rw e refl;
  pairs = rw e refl;
}

names-of_IsInhabited : (g : Group) → IsInhabited g → is_empty (test_names g) ≡ false
unfolding IsInhabited
names-of_IsInhabited (node name fixture tests groups) h = h.0

pub IsIn-of_any :
    (p : Text → Bool) (names : List Text)
    → any p names ≡ true
    → (n : Text) × IsIn n names × (p n ≡ true)
unfolding contains
IsIn-of_any p [] h = ground (arith, h)
IsIn-of_any p (k ∷ names) h = elim (Bool-cases (p k)) [
  | inl here ↦ (k, ground (arith, text_eq_refl k), here)
  | inr not_here ↦
      let (n, m, there) = IsIn-of_any p names (ground (arith, h)) in (n, ground (arith, m), there)
]

pub contains_none : (x : Text) → contains x [] ≡ false
unfolding contains
contains_none x = refl

abbrev pub begin : (rt : Runtime) → rt.World → State rt
begin rt world = record { stats = Statistics.new; world = world }

-- The record at the end of a run: the considered tests of the group are included, and no other; if
-- there are any, at least one setup was launched and nothing is open, else there is no entry.
pub record IsFinished (rt : Runtime) (ctx : Context) (g : Group) (s : State rt) : Type 0 where
  pub chosen : (x : Text) → contains x s.stats.included ≡ is_chosen ctx (name_of g) (test_names g) x
  pub balanced :
      ((any (is_included ctx (name_of g)) (test_names g) ≡ true)
        × Back rt s.stats.included 0 0 0 0 1 s)
      ⊎ ((any (is_included ctx (name_of g)) (test_names g) ≡ false) × (s.stats.events ≡ []))

-- A run ends if its groups are ready once the tests are recorded.
pub run-IsFinished :
    (rt : Runtime) (g : Group) (f : Filter) (timeout : Duration) (concurrency : ℕ)
    (world : rt.World)
    → ((s : State rt)
        → Recorded rt (context f timeout concurrency) (name_of g) (test_names g) (begin rt world) s
        → any (is_included (context f timeout concurrency) (name_of g)) (test_names g) ≡ true
        → IsReady f s.stats.included [] g)
    → Yields
        (λ _ t. IsFinished rt (context f timeout concurrency) g t)
        (run rt g f timeout concurrency world)
unfolding run
run-IsFinished rt g f timeout concurrency world ready =
    Yields-bind _ _ _ (record_tests-Recorded rt ctx root (test_names g) true (begin rt world))
      λ b u (flag, r). elim (Bool-cases (any (is_included ctx root) (test_names g))) [
        | inr none ↦
            let stays : b ≡ true = flag ∙ ap not none in
            rw stays
              (yields (record { chosen = λ x. chosen_at u x r; balanced = inr (none, r.events) }))
        | inl some_test ↦
            let goes : b ≡ false = flag ∙ ap not some_test in
            rw goes (
              Yields-map
                (λ _ t (m, more, end). record {
                  chosen = λ x. ap (contains x) end.same ∙ chosen_at u x r;
                  balanced =
                      inl (some_test, (m, more, record { same = refl; accounts = end.accounts }));
                })
                (run_group-At rt u.stats.included g [] ctx u 0 0 0 0 0
                  (some_concurrency concurrency) (ready u r some_test)
                  (record { same = refl; accounts = Accounts-no_events u.stats r.events })))
      ]
  where
    ctx : Context
    ctx = context f timeout concurrency

    root : Text
    root = name_of g

    chosen_at :
        (u : State rt) (x : Text)
        → Recorded rt ctx root (test_names g) (begin rt world) u
        → contains x u.stats.included ≡ is_chosen ctx root (test_names g) x
    chosen_at u x r = ground (arith, r.exact x, contains_none x)

-- The record at the end of a run: all the tests of the group are included, at least
-- one setup was launched, and nothing is open.
pub record IsComplete (rt : Runtime) (g : Group) (s : State rt) : Type 0 where
  pub all_included : All (λ n. IsIn (path (name_of g) n) s.stats.included) (test_names g)
  pub balanced : Back rt s.stats.included 0 0 0 0 1 s

pub chosen_any :
    (timeout : Duration) (concurrency : ℕ) (root n : Text)
    → is_included (context empty timeout concurrency) root n ≡ true
unfolding consider_test
chosen_any timeout concurrency root n = refl

pub any-of_all :
    (ctx : Context) (root : Text) (names : List Text)
    → is_empty names ≡ false
    → ((n : Text) → is_included ctx root n ≡ true)
    → any (is_included ctx root) names ≡ true
any-of_all ctx root [] h all = ground (arith, h)
any-of_all ctx root (n ∷ names) h all = rw (all n) refl

-- A run without filters, of a group that has a test in each of its groups, ends without a panic of
-- the runner, whatever the fixtures and the tests do and however the executor interleaves them. At its
-- end all tests are included, at least one setup was launched, every setup, teardown and test that
-- was launched has its result, and every setup has its teardown.
pub run-IsComplete :
    (rt : Runtime) (g : Group) (timeout : Duration) (concurrency : ℕ) (world : rt.World)
    → IsInhabited g
    → Yields (λ _ t. IsComplete rt g t) (run rt g empty timeout concurrency world)
unfolding join
run-IsComplete rt g timeout concurrency world h =
    Yields-map
      (λ _ t end. record {
        all_included = All-of_IsIn (test_names g) λ n m. ground (
          arith,
          end.chosen (path root n),
          is_chosen-of_IsIn ctx root (test_names g) n m (chosen_any timeout concurrency root n),
        );
        balanced = elim end.balanced [
          | inl (some_test, back) ↦ back
          | inr (none, e) ↦ ground (arith, any_chosen, none)
        ];
      })
      (run-IsFinished rt g empty timeout concurrency world λ s r some_test.
        IsReady-group empty s.stats.included [] g h (
          All-of_IsIn (test_names g) λ n m.
            chosen-IsIn rt ctx root (test_names g) (begin rt world) s n r m
              (chosen_any timeout concurrency root n)))
  where
    ctx : Context
    ctx = context empty timeout concurrency

    root : Text
    root = name_of g

    any_chosen : any (is_included ctx root) (test_names g) ≡ true
    any_chosen =
        any-of_all ctx root (test_names g) (names-of_IsInhabited g h)
          (chosen_any timeout concurrency root)

-- ===== src/Examples/Runs.antt =====
-- A runtime in which every fixture is set up and every test passes.
use e2etest_rs.Prelude.{ℕ, suc, true, none, some}
use e2etest_rs.Prelude.Text.{codes}
use e2etest_rs.Runner.Runtime.{TestCase, joined, Runtime, State}
use e2etest_rs.Prelude.{List, [], ◌∷◌, arith, refl}
use e2etest_rs.Runner.Runtime.{Yields}
use e2etest_rs.Prelude.Text.{Text, text_eq, starts_with}
use e2etest_rs.Prelude.Text.Split.{path, join}
use e2etest_rs.Prelude.Collections.{IsIn, contains}
use e2etest_rs.Filter.{empty}
use e2etest_rs.Runner.Accounts.{At}
use e2etest_rs.Runner.Pool.{for_each_concurrent}
use e2etest_rs.Runner.Group.{Group, node, nil, Context, run_group}
use e2etest_rs.Runner.Run.{context}
use e2etest_rs.Runner.Balance.{for_each_concurrent-At}
use e2etest_rs.Runner.Closing.{IsReady, AreReady, Back, run_group-At}
use e2etest_rs.Runner.Group.{cons, test_names, names_below}
use e2etest_rs.Runner.Run.{run}
use e2etest_rs.Runner.Unfiltered.{IsInhabited, AreInhabited}
use e2etest_rs.Runner.Complete.{IsComplete, run-IsComplete}
use e2etest_rs.Examples.Records.{with_test}

-- The world counts the calls.
abbrev pub counting : Runtime
counting = record {
  World = ℕ;
  Handle = Unit;
  spawn_setup = λ t d w. (joined (some tt), suc w);
  spawn_test = λ n h d w. (joined tt, suc w);
  spawn_teardown = λ d w. (joined tt, suc w);
  drop_handle = λ h w. w;
  next_ready = λ n w. (w, w);
}

abbrev pub simple : TestCase
simple = record {
  name = codes "simple";
  timeout = none;
  fixture = record {
    type_id = 0;
    timeout_setup = none;
    timeout_teardown = none;
    test_can_run_concurrently = true;
  };
}

abbrev pub start : State counting
start = record { stats = with_test; world = 0 }

abbrev pub included : List Text
included = codes "all::crud::simple" ∷ []

pub start-At : At counting included 0 0 0 0 0 start
start-At = record {
  same = refl;
  accounts = record { total = refl; setups = refl; teardowns = refl; tests = refl; pairs = refl };
}

pub simple-IsIn : IsIn (path (codes "all::crud") (codes "simple")) included
unfolding contains text_eq
simple-IsIn = refl

for_each_concurrent-At_example :
    Yields
      (λ _. At counting included 0 0 0 0 1)
      (for_each_concurrent counting 60000 (codes "all::crud") 2 (simple ∷ []) start)
for_each_concurrent-At_example =
    for_each_concurrent-At counting 60000 (codes "all::crud") included 2 (simple ∷ []) 0 0 0 0 0
      start (omega arith) (simple-IsIn, tt) start-At

abbrev pub crud : Group
crud = node (codes "crud") simple.fixture (simple ∷ []) nil

abbrev ctx : Context
ctx = context empty 60000 2

crud-IsReady : IsReady ctx.filter included (codes "all" ∷ []) crud
unfolding IsReady AreReady starts_with text_eq join contains
crud-IsReady = (refl, (λ _. refl, tt), tt)

run_group-At_example :
    Yields
      (λ _. Back counting included 0 0 0 0 1)
      (run_group counting crud (codes "all" ∷ []) ctx start)
run_group-At_example =
    run_group-At counting included crud (codes "all" ∷ []) ctx start 0 0 0 0 0 (omega arith)
      crud-IsReady start-At

abbrev pub everything : Group
everything = node (codes "all") simple.fixture [] (cons crud nil)

pub everything-IsInhabited : IsInhabited everything
unfolding IsInhabited AreInhabited test_names names_below
everything-IsInhabited = (refl, ((refl, tt), tt))

run-IsComplete_example :
    Yields (λ _ t. IsComplete counting everything t) (run counting everything empty 60000 2 0)
run-IsComplete_example = run-IsComplete counting everything 60000 2 0 everything-IsInhabited

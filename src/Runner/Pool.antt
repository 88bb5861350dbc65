-- ===== src/Runner/Pool.antt =====
-- `for_each_concurrent(Some(limit), run_test)` and `for_each(run_test)` of group.rs. The first loop is
-- the futures crate's: `drive` writes out what is relied on of it, with the order of the polls open.
use e2etest_rs.Prelude.{
  ℕ, zero, suc, ◌*◌, none, some, List, [], ◌∷◌, ◌++◌, if◌then◌else◌, ltb, length,
}
use e2etest_rs.Prelude.Text.{Text}
use e2etest_rs.Runner.Runtime.{Duration, TestCase, Runtime, Run, ◌>>=◌, ◌>>◌, pure}
use e2etest_rs.Runner.Test.{run_test}
use e2etest_rs.Runner.Steps.{Phase, starting, setting_up, testing, tearing_down, finished, advance}

module _ (H : Type 0) where
  abbrev pub Running : Type 0
  Running = List (TestCase × Phase H)

  -- A finished test leaves.
  abbrev pub put : TestCase → Phase H → Running → Running
  put t finished rest = rest
  put t starting rest = (t, starting) ∷ rest
  put t setting_up rest = (t, setting_up) ∷ rest
  put t (testing h) rest = (t, testing h) ∷ rest
  put t tearing_down rest = (t, tearing_down) ∷ rest

  -- New tests are taken from the stream while fewer than `limit` run.
  unfoldable pub fill : ℕ → List TestCase → Running → List TestCase × Running
  fill limit [] running = ([], running)
  fill limit (t ∷ waiting) running =
      let more = fill limit waiting (running ++ (t, starting) ∷ []) in
      if ltb (length running) limit then more else (t ∷ waiting, running)

module _ (rt : Runtime) (default_timeout : Duration) (group_name : Text) where
  -- The test at a place is polled, or the last one if there are fewer.
  unfoldable pub advance_nth : ℕ → Running rt.Handle → Run rt (Running rt.Handle)
  advance_nth n [] = pure []
  advance_nth n ((t, p) ∷ []) = do
    p' ← advance rt default_timeout group_name t p
    pure (put rt.Handle t p' [])
  advance_nth zero ((t, p) ∷ u ∷ rest) = do
    p' ← advance rt default_timeout group_name t p
    pure (put rt.Handle t p' (u ∷ rest))
  advance_nth (suc n) ((t, p) ∷ u ∷ rest) = do
    rest' ← advance_nth n (u ∷ rest)
    pure ((t, p) ∷ rest')

  abbrev pub choose : ℕ → Run rt ℕ
  choose n s = let (k, w) = rt.next_ready n s.world in some (k, record s { world = w })

  -- One of the running tests is polled, if there is one, and the loop goes on with the others.
  abbrev pub poll_one :
      (Running rt.Handle → Run rt (Unit {0})) → Running rt.Handle → Run rt (Unit {0})
  poll_one again [] s = some (tt, s)
  poll_one again (r ∷ rs) s =
      (do k ← choose (length (r ∷ rs)); next ← advance_nth k (r ∷ rs); again next) s

  -- The loop of the executor. On no fuel it returns nothing.
  unfoldable pub drive : ℕ → ℕ → List TestCase → Running rt.Handle → Run rt (Unit {0})
  drive zero limit waiting running s = none
  drive (suc fuel) limit waiting running s =
      let (waiting', running') = fill rt.Handle limit waiting running in
      poll_one (λ next. drive fuel limit waiting' next) running' s

  -- A test is polled four times at most.
  unfoldable pub for_each_concurrent : ℕ → List TestCase → Run rt (Unit {0})
  for_each_concurrent limit tests = drive (suc (4 * length tests)) limit tests []

  unfoldable pub for_each : List TestCase → Run rt (Unit {0})
  for_each [] = pure tt
  for_each (t ∷ tests) = do run_test rt default_timeout group_name t; for_each tests

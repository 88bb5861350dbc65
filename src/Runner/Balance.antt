-- ===== src/Runner/Balance.antt =====
-- group.rs: the loops over the tests of a group come to their end with balanced accounts.
use e2etest_rs.Prelude.{
  ℕ, zero, suc, ◌+◌, ◌*◌, ◌≤◌, ◌<◌, ◌≡◌, refl, List, [], ◌∷◌, arith, length, All,
}
use e2etest_rs.Prelude.Text.{Text}
use e2etest_rs.Runner.Runtime.{
  Duration, TestCase, Runtime, State, ◌>>=◌, pure, Yields, yields, Yields-bind, Yields-map,
}
use e2etest_rs.Runner.Steps.{Phase, advance}
use e2etest_rs.Runner.Pool.{Running, put, fill, advance_nth, poll_one, drive, for_each_concurrent}
use e2etest_rs.Runner.Accounts.{At}
use e2etest_rs.Runner.Concurrent.{
  open_setups, open_teardowns, open_tests, owed, begun, weight, total, At-cast, IsListed,
  advance-At,
}
use e2etest_rs.Runner.Interleaving.{gone, put-PutAt, put-All, fill-Filled}

module _ (rt : Runtime) (default_timeout : Duration) (group_name : Text)
    (included : List Text) where
  abbrev pub Listed : TestCase × Phase rt.Handle → Type 0
  Listed x = IsListed rt default_timeout group_name included x.0

  -- The accounts with what the running tests owe on top.
  abbrev pub AtRunning : ℕ → ℕ → ℕ → ℕ → ℕ → Running rt.Handle → State rt → Type 0
  AtRunning a b c d n rs =
      At rt included (a + total open_setups rs) (b + total open_teardowns rs)
        (c + total open_tests rs) (d + total owed rs) (n + total begun rs)

  -- One of the running tests was polled: `left` of them left, and the polls to come are fewer.
  pub record Polled (a b c d n : ℕ) (rs us : Running rt.Handle) (s : State rt) : Type 0 where
    pub left : ℕ
    pub at : AtRunning a b c d (n + left) us s
    pub lighter : total weight us < total weight rs
    pub counts : length us + left ≡ length rs
    pub listed : All Listed us

  poll-Polled :
      (a b c d n : ℕ) (t : TestCase) (p : Phase rt.Handle) (rest : Running rt.Handle) (s : State rt)
      → IsListed rt default_timeout group_name included t
      → All Listed rest
      → AtRunning a b c d n ((t, p) ∷ rest) s
      → Yields
          (Polled a b c d n ((t, p) ∷ rest))
          ((do p' ← advance rt default_timeout group_name t p; pure (put rt.Handle t p' rest)) s)
  poll-Polled a b c d n t p rest s l ls at =
      Yields-bind _ _ _
        (advance-At rt default_timeout group_name included (a + total open_setups rest)
          (b + total open_teardowns rest) (c + total open_tests rest) (d + total owed rest)
          (n + total begun rest) t p s l (At-cast at (omega arith)))
        λ p' u (at', less).
          let k = put-PutAt t p' rest in
          yields (record {
            left = gone p';
            at = At-cast at' (omega (arith, k));
            lighter = omega (arith, k, less);
            counts = omega (arith, k);
            listed = put-All Listed t p' rest (λ q. l) ls;
          })

  pub advance_nth-Polled :
      (a b c d n : ℕ) (k : ℕ) (r : TestCase × Phase rt.Handle) (rs : Running rt.Handle)
      (s : State rt)
      → All Listed (r ∷ rs)
      → AtRunning a b c d n (r ∷ rs) s
      → Yields (Polled a b c d n (r ∷ rs)) (advance_nth rt default_timeout group_name k (r ∷ rs) s)
  unfolding advance_nth
  advance_nth-Polled a b c d n k (t, p) [] s l at = poll-Polled a b c d n t p [] s l.0 tt at
  advance_nth-Polled a b c d n zero (t, p) (u ∷ rest) s l at =
      poll-Polled a b c d n t p (u ∷ rest) s l.0 l.1 at
  advance_nth-Polled a b c d n (suc k) (t, p) (u ∷ rest) s l at =
      Yields-bind _ _ _
        (advance_nth-Polled (a + open_setups p) (b + open_teardowns p) (c + open_tests p)
          (d + owed p) (n + begun p) k u rest s l.1 (At-cast at (omega arith)))
        λ us v polled. yields (record {
          left = polled.left;
          at = At-cast polled.at (omega arith);
          lighter = omega (arith, polled.lighter);
          counts = omega (arith, polled.counts);
          listed = (l.0, polled.listed);
        })

  -- The rest of the loop ends, from accounts that are balanced but for what the running tests owe.
  abbrev Ends : ℕ → ℕ → List TestCase → Type 0
  Ends fuel limit waiting =
      (a b c d n : ℕ) (rs : Running rt.Handle) (s : State rt)
      → All Listed rs
      → AtRunning a b c d n rs s
      → 4 * length waiting + total weight rs < fuel
      → Yields (λ _. At rt included a b c d (n + (length waiting + length rs)))
          (drive rt default_timeout group_name fuel limit waiting rs s)

  poll_one-At :
      (fuel limit : ℕ) (waiting : List TestCase)
      → Ends fuel limit waiting
      → (a b c d n : ℕ) (rs : Running rt.Handle) (s : State rt)
      → (length rs ≡ 0 → length waiting ≡ 0)
      → All Listed rs
      → AtRunning a b c d n rs s
      → 4 * length waiting + total weight rs < suc fuel
      → Yields
          (λ _. At rt included a b c d (n + (length waiting + length rs)))
          (poll_one rt default_timeout group_name
            (λ next. drive rt default_timeout group_name fuel limit waiting next)
            rs
            s)
  poll_one-At fuel limit waiting ends a b c d n [] s idle l at less =
      yields (At-cast at (omega (arith, idle refl)))
  poll_one-At fuel limit waiting ends a b c d n (r ∷ rs) s idle l at less =
      Yields-bind {P = λ _ t. AtRunning a b c d n (r ∷ rs) t} _ _ _
        (yields (record { same = at.same; accounts = at.accounts }))
        λ k t at₁. Yields-bind _ _ _ (advance_nth-Polled a b c d n k r rs t l at₁) λ us u polled.
          Yields-map (λ _ v end. At-cast end (omega (arith, polled.counts)))
            (ends a b c d (n + polled.left) us u polled.listed polled.at
              (omega (arith, polled.lighter, less)))

  drive-At :
      (fuel limit : ℕ) (waiting : List TestCase)
      → 1 ≤ limit
      → All (IsListed rt default_timeout group_name included) waiting
      → Ends fuel limit waiting
  unfolding drive
  drive-At zero limit waiting some_run w a b c d n rs s l at less = absurd (omega arith)
  drive-At (suc fuel) limit waiting some_run w a b c d n rs s l at less =
      let f = fill-Filled limit (IsListed rt default_timeout group_name included) waiting rs w l in
      Yields-map (λ _ t end. At-cast end (omega (arith, f.counts)))
        (poll_one-At fuel limit (fill rt.Handle limit waiting rs).0
          (drive-At fuel limit (fill rt.Handle limit waiting rs).0 some_run f.still) a b c d n
          (fill rt.Handle limit waiting rs).1 s (f.takes some_run) f.all
          (At-cast at (omega (arith, f))) (omega (arith, f.weighs, less)))

  -- The concurrent tests of a group all end, however the executor interleaves them, if at least one
  -- may run at a time and all are included tests: no entry is refused, every setup, teardown and test
  -- that was launched has its result, every setup has its teardown, and there is one setup more for
  -- each test. The other accounts are what they were.
  pub for_each_concurrent-At :
      (limit : ℕ) (tests : List TestCase) (a b c d n : ℕ) (s : State rt)
      → 1 ≤ limit
      → All (IsListed rt default_timeout group_name included) tests
      → At rt included a b c d n s
      → Yields
          (λ _. At rt included a b c d (n + length tests))
          (for_each_concurrent rt default_timeout group_name limit tests s)
  unfolding for_each_concurrent
  for_each_concurrent-At limit tests a b c d n s some_run l at =
      Yields-map (λ _ t end. At-cast end (omega arith))
        (drive-At (suc (4 * length tests)) limit tests some_run l a b c d n [] s tt
          (At-cast at (omega arith)) (omega arith))

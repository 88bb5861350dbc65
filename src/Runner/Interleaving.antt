-- ===== src/Runner/Interleaving.antt =====
-- group.rs: the loop over concurrent tests, whichever test the executor polls next.
use e2etest_rs.Prelude.{
  ℕ, suc, ◌+◌, ◌*◌, ◌≤◌, ◌≡◌, refl, List, [], ◌∷◌, ◌++◌, arith, ltb, length, All, All-append,
  length-append, Bool-cases, inl, inr,
}
use e2etest_rs.Runner.Runtime.{TestCase}
use e2etest_rs.Runner.Steps.{Phase, starting, setting_up, testing, tearing_down, finished}
use e2etest_rs.Runner.Pool.{Running, put, fill}
use e2etest_rs.Runner.Concurrent.{
  open_setups, open_teardowns, open_tests, owed, begun, weight, remaining, total,
}

module _ {H : Type 0} where
  total-append :
      (f : Phase H → ℕ) (rs us : Running H) → total f (rs ++ us) ≡ total f rs + total f us
  total-append f [] us = omega arith
  total-append f ((t, p) ∷ rs) us = omega (arith, total-append f rs us)

  -- Whether the test has left.
  abbrev pub gone : Phase H → ℕ
  gone finished = 1
  gone starting = 0
  gone setting_up = 0
  gone (testing h) = 0
  gone tearing_down = 0

  -- What a test at this phase adds to the sums over the running tests.
  pub record PutAt (p : Phase H) (rest put_rest : Running H) : Type 0 where
    pub setups : total open_setups put_rest ≡ open_setups p + total open_setups rest
    pub teardowns : total open_teardowns put_rest ≡ open_teardowns p + total open_teardowns rest
    pub tests : total open_tests put_rest ≡ open_tests p + total open_tests rest
    pub pairs : total owed put_rest ≡ owed p + total owed rest
    pub begins : total begun put_rest + gone p ≡ begun p + total begun rest
    pub weighs : total weight put_rest ≡ remaining p + total weight rest
    pub counts : length put_rest + gone p ≡ suc (length rest)

  pub put-PutAt : (t : TestCase) (p : Phase H) (rest : Running H) → PutAt p rest (put H t p rest)
  put-PutAt t finished rest = omega arith
  put-PutAt t starting rest = omega arith
  put-PutAt t setting_up rest = omega arith
  put-PutAt t (testing h) rest = omega arith
  put-PutAt t tearing_down rest = omega arith

  pub put-All :
      (P : TestCase × Phase H → Type 0) (t : TestCase) (p : Phase H) (rest : Running H)
      → ((q : Phase H) → P (t, q))
      → All P rest
      → All P (put H t p rest)
  put-All P t finished rest h l = l
  put-All P t starting rest h l = (h starting, l)
  put-All P t setting_up rest h l = (h setting_up, l)
  put-All P t (testing x) rest h l = (h (testing x), l)
  put-All P t tearing_down rest h l = (h tearing_down, l)

  -- What taking new tests changes: nothing is owed by a test that has not started.
  pub record Filled (limit : ℕ) (P : TestCase → Type 0) (waiting : List TestCase)
      (running : Running H) (r : List TestCase × Running H) : Type 0 where
    pub setups : total open_setups r.1 ≡ total open_setups running
    pub teardowns : total open_teardowns r.1 ≡ total open_teardowns running
    pub tests : total open_tests r.1 ≡ total open_tests running
    pub pairs : total owed r.1 ≡ total owed running
    pub begins : total begun r.1 ≡ total begun running
    pub weighs : 4 * length r.0 + total weight r.1 ≡ 4 * length waiting + total weight running
    pub counts : length r.0 + length r.1 ≡ length waiting + length running
    pub takes : 1 ≤ limit → length r.1 ≡ 0 → length r.0 ≡ 0
    pub still : All P r.0
    pub all : All (λ x. P x.0) r.1

  pub fill-Filled :
      (limit : ℕ) (P : TestCase → Type 0) (waiting : List TestCase) (running : Running H)
      → All P waiting
      → All (λ x. P x.0) running
      → Filled limit P waiting running (fill H limit waiting running)
  unfolding fill
  fill-Filled limit P [] running w l = record {
    setups = refl;
    teardowns = refl;
    tests = refl;
    pairs = refl;
    begins = refl;
    weighs = refl;
    counts = refl;
    takes = λ _ _. refl;
    still = tt;
    all = l;
  }
  fill-Filled limit P (t ∷ waiting) running w l = elim (Bool-cases (ltb (length running) limit)) [
    | inr full ↦ rw full (record {
      setups = refl;
      teardowns = refl;
      tests = refl;
      pairs = refl;
      begins = refl;
      weighs = refl;
      counts = refl;
      takes = λ h e. ground arith;
      still = w;
      all = l;
    })
    | inl more ↦
        rw more
          let new : Running H = (t, starting) ∷ [] in
            let f =
              fill-Filled limit P waiting (running ++ new) w.1
                (All-append _ running new l (w.0, tt)) in
            record {
              setups = omega (arith, f.setups, total-append open_setups running new);
              teardowns = omega (arith, f.teardowns, total-append open_teardowns running new);
              tests = omega (arith, f.tests, total-append open_tests running new);
              pairs = omega (arith, f.pairs, total-append owed running new);
              begins = omega (arith, f.begins, total-append begun running new);
              weighs = omega (arith, f.weighs, total-append weight running new);
              counts = omega (arith, f.counts, length-append running new);
              takes = f.takes;
              still = f.still;
              all = f.all;
            }
  ]

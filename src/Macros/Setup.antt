-- ===== src/Macros/Setup.antt =====
-- crates/e2etest-macros/src/lib.rs: the fixture that the macros generate, set up by the manager of
-- crates/e2etest/src/fixture.rs.
use e2etest_rs.Prelude.{
  ℕ, zero, suc, ◌≡◌, ◌≢◌, refl, sym, ◌∙◌, ap, Bool, true, false, Option, none, some, List, [], ◌∷◌,
  arith, all, All, All-map, if◌then◌else◌,
}
use mathlib.Core.Path.{subst}
use e2etest_rs.Fixture.{
  TypeId, SetupProgram, give, skip, setup, Inner, Arc, Outcome, ready, panicked, unfinished,
  is_given, resume, run_program, keep, setup_fixture,
}
use e2etest_rs.Fixture.Setup.{IsRanked, run_program-keeps, has_cached-insert_cached}
use e2etest_rs.Fixture.Later.{
  knows, holds_of, holds_of-insert_cached, knows-of_get_arc, setup_fixture-IsKept,
}
use e2etest_rs.Fixture.Lifecycle.{get_arc-setup_fixture}

-- `Some(Self(#(setup.setup::<#fixtures>().await?),*))`: a `None` ends it at once.
abbrev pub setup_each : List TypeId → List TypeId → SetupProgram
setup_each fixtures [] = give fixtures
setup_each fixtures (f ∷ fs) = setup f (λ given. if given then setup_each fixtures fs else skip)

abbrev pub generated_setup : List TypeId → SetupProgram
generated_setup fixtures = setup_each fixtures fixtures

-- `#(#fixtures::test_can_run_concurrently() &&)* true`
abbrev pub generated_can_run_concurrently : (TypeId → Bool) → List TypeId → Bool
generated_can_run_concurrently can_run fixtures = all can_run fixtures

given_of_resume :
    {A : Type 0} (o : Outcome (Option Arc)) (rest : Bool → Outcome A × Inner) (i : Inner) (a : A)
    → (resume (is_given o) rest i).0 ≡ ready a
    → (rest false).0 ≢ ready a
    → (b : Arc) × (o ≡ ready (some b))
given_of_resume (ready none) rest i a h n = absurd (n h)
given_of_resume (ready (some b)) rest i a h n = (b, refl)
given_of_resume panicked rest i a h n = cc
given_of_resume unfinished rest i a h n = cc

run_program-given :
    (call : TypeId → Inner → Outcome (Option Arc) × Inner) (t : TypeId) (next : Bool → SetupProgram)
    (i : Inner) (a : Arc)
    → (call t i).0 ≡ ready (some a)
    → run_program call (setup t next) i ≡ run_program call (next true) (call t i).1
unfolding run_program
run_program-given call t next i a e = rw e refl

module _ (rank : TypeId → ℕ) (programs : TypeId → SetupProgram)
    (ranked : (t : TypeId) → IsRanked rank (rank t) (programs t)) where
  keep-knows :
      (t u : TypeId) (o : Outcome (Option (List TypeId)) × Inner)
      → knows o.1 u ≡ true
      → knows (keep t o).1 u ≡ true
  keep-knows t u (ready none, i) h = h
  keep-knows t u (ready (some holds), i) h = ground (
    arith,
    h,
    has_cached-insert_cached rank programs ranked (record { type_id = t; holds = holds }) i.cache u,
  )
  keep-knows t u (panicked, i) h = h
  keep-knows t u (unfinished, i) h = h

  setup_fixture-knows :
      (fuel : ℕ) (t u : TypeId) (i : Inner)
      → knows i u ≡ true
      → knows (setup_fixture programs fuel t i).1 u ≡ true
  setup_fixture-knows fuel t u i h =
      (setup_fixture-IsKept rank programs ranked fuel t u i i (h, refl, refl)).0

  -- A generated setup that succeeds holds all the fixtures, and each of them is there.
  setup_each-gives :
      (fuel n : ℕ) (fixtures fs holds : List TypeId) (i : Inner)
      → IsRanked rank n (setup_each fixtures fs)
      → (run_program (setup_fixture programs fuel) (setup_each fixtures fs) i).0
        ≡ ready (some holds)
      → (holds ≡ fixtures)
        × All
            (λ f.
              knows (run_program (setup_fixture programs fuel) (setup_each fixtures fs) i).1 f
              ≡ true)
            fs
  unfolding run_program
  setup_each-gives fuel n fixtures [] holds i r h = (cc, tt)
  setup_each-gives fuel n fixtures (f ∷ fs) holds i r h =
      let call = setup_fixture programs fuel in
      let (a, e) = given_of_resume (call f i).0 _ (call f i).1 (some holds) h (λ k. cc) in
      let e' =
        run_program-given call f (λ given. if given then setup_each fixtures fs else skip) i a e in
      let (d, k) =
        setup_each-gives fuel n fixtures fs holds (call f i).1 (r.1 true)
          (ap (λ o. o.0) (sym e') ∙ h) in
      subst (λ o. (holds ≡ fixtures) × All (λ g. knows o.1 g ≡ true) (f ∷ fs)) (sym e')
        (
          d,
          (
            run_program-keeps rank call n (λ j. knows j f ≡ true)
                (λ v j _ l. setup_fixture-knows fuel v f j l) (setup_each fixtures fs) (call f i).1
                (r.1 true)
                (knows-of_get_arc (call f i).1 f a
                  (get_arc-setup_fixture rank programs ranked fuel f i a e)),
            k,
          ),
        )

  keep-gives :
      (fuel : ℕ) (t : TypeId) (fixtures : List TypeId) (o : Outcome (Option (List TypeId)) × Inner)
      (a : Arc)
      → ((holds : List TypeId)
          → o.0 ≡ ready (some holds)
          → (holds ≡ fixtures) × All (λ f. knows o.1 f ≡ true) fixtures)
      → (keep t o).0 ≡ ready (some a)
      → (holds_of t (keep t o).1.cache ≡ some fixtures)
        × All (λ f. knows (keep t o).1 f ≡ true) fixtures
  keep-gives fuel t fixtures (ready none, i) a h e = cc
  keep-gives fuel t fixtures (ready (some holds), i) a h e = (
    holds_of-insert_cached (record { type_id = t; holds = holds }) i.cache
        ∙ ap some (h holds refl).0,
    All-map _ _ fixtures (λ f. keep-knows t f (ready (some holds), i)) (h holds refl).1,
  )
  keep-gives fuel t fixtures (panicked, i) a h e = cc
  keep-gives fuel t fixtures (unfinished, i) a h e = cc

  -- For fixtures that need and hold fixtures of lower rank alone: when the manager sets up a fixture
  -- that the macros generated, which it did not have, and returns an `Arc`, then the manager has every
  -- one of the listed fixtures, and the cached fixture holds exactly those, in their order.
  pub generated_setup-gives :
      (fuel : ℕ) (t : TypeId) (fixtures : List TypeId) (i : Inner) (a : Arc)
      → programs t ≡ generated_setup fixtures
      → knows i t ≡ false
      → (setup_fixture programs fuel t i).0 ≡ ready (some a)
      → let i' = (setup_fixture programs fuel t i).1 in
        (holds_of t i'.cache ≡ some fixtures) × All (λ f. knows i' f ≡ true) fixtures
  unfolding setup_fixture
  generated_setup-gives zero t fixtures i a p fresh e = cc
  generated_setup-gives (suc fuel) t fixtures i a p fresh e =
      let call = setup_fixture programs fuel in
      let o = run_program call (generated_setup fixtures) i in
      let opened : setup_fixture programs (suc fuel) t i ≡ keep t o = rw (fresh, p) refl in
      subst (λ q. (holds_of t q.1.cache ≡ some fixtures) × All (λ f. knows q.1 f ≡ true) fixtures)
        (sym opened)
        (keep-gives fuel t fixtures o a
          (λ holds h.
            setup_each-gives fuel (rank t) fixtures fixtures holds i
              (subst (IsRanked rank (rank t)) p (ranked t)) h)
          (ap (λ q. q.0) (sym opened) ∙ e))

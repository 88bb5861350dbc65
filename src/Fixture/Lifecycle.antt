-- ===== src/Fixture/Lifecycle.antt =====
-- fixture.rs: a fixture that was set up can be had again, and is torn down in the end.
use e2etest_rs.Prelude.{
  ℕ, zero, suc, ◌≡◌, refl, sym, ◌∙◌, ap, false, ◌||◌, Option, none, some, List, [], ◌∷◌, arith,
  ◌==◌, any, length, Bool-cases, inl, inr,
}
use mathlib.Core.Path.{subst}
use e2etest_rs.Fixture.{
  TypeId, SetupProgram, Inner, Arc, has_permanent, has_cached, get_arc, Outcome, ready, panicked,
  unfinished, run_program, keep, setup_fixture, with_permanent, teardown,
}
use e2etest_rs.Fixture.TeardownEnds.{teardown_ends, never}
use e2etest_rs.Fixture.Setup.{
  IsRanked, IsTidy, run_program-keeps, setup_fixture-IsTidy, has_cached-insert_cached,
}

module _ (rank : TypeId → ℕ) (programs : TypeId → SetupProgram)
    (ranked : (t : TypeId) → IsRanked rank (rank t) (programs t)) where
  permanent-keep :
      (t : TypeId) (o : Outcome (Option (List TypeId)) × Inner)
      → (keep t o).1.permanent ≡ o.1.permanent
  permanent-keep t (ready none, i) = refl
  permanent-keep t (ready (some holds), i) = refl
  permanent-keep t (panicked, i) = refl
  permanent-keep t (unfinished, i) = refl

  pub permanent-setup_fixture :
      (fuel : ℕ) (t : TypeId) (i : Inner)
      → (setup_fixture programs fuel t i).1.permanent ≡ i.permanent
  unfolding setup_fixture
  permanent-setup_fixture zero t i = refl
  permanent-setup_fixture (suc fuel) t i =
      elim (Bool-cases (has_permanent i t || has_cached i.cache t)) [
        | inl old ↦ rw old
        | inr fresh ↦
            let call = setup_fixture programs fuel in
            rw fresh (
              permanent-keep t (run_program call (programs t) i)
              ∙ run_program-keeps rank call (rank t) (λ j. j.permanent ≡ i.permanent)
                  (λ u j _ e. permanent-setup_fixture fuel u j ∙ e) (programs t) i (ranked t) refl)
      ]

  permanent-run_program :
      (fuel : ℕ) (t : TypeId) (i : Inner)
      → (run_program (setup_fixture programs fuel) (programs t) i).1.permanent ≡ i.permanent
  permanent-run_program fuel t i =
      run_program-keeps rank (setup_fixture programs fuel) (rank t) (λ j. j.permanent ≡ i.permanent)
        (λ u j _ e. permanent-setup_fixture fuel u j ∙ e) (programs t) i (ranked t) refl

  get_arc-keep :
      (t : TypeId) (o : Outcome (Option (List TypeId)) × Inner) (a : Arc)
      → has_permanent o.1 t ≡ false
      → (keep t o).0 ≡ ready (some a)
      → get_arc (keep t o).1 t ≡ some a
  unfolding get_arc
  get_arc-keep t (ready none, i) a fresh e = cc
  get_arc-keep t (ready (some holds), i) a fresh e = ground (
    arith,
    fresh,
    e,
    has_cached-insert_cached rank programs ranked (record { type_id = t; holds = holds }) i.cache t,
  )
  get_arc-keep t (panicked, i) a fresh e = cc
  get_arc-keep t (unfinished, i) a fresh e = cc

  -- Right after a setup, `get` finds the `Arc` that the setup returned.
  pub get_arc-setup_fixture :
      (fuel : ℕ) (t : TypeId) (i : Inner) (a : Arc)
      → (setup_fixture programs fuel t i).0 ≡ ready (some a)
      → get_arc (setup_fixture programs fuel t i).1 t ≡ some a
  unfolding setup_fixture
  get_arc-setup_fixture zero t i a e = cc
  get_arc-setup_fixture (suc fuel) t i a e =
      elim (Bool-cases (has_permanent i t || has_cached i.cache t)) [
        | inl old ↦ ground (arith, old, e)
        | inr fresh ↦
            subst (λ r. r.0 ≡ ready (some a) → get_arc r.1 t ≡ some a) (sym (opened fresh))
              (get_arc-keep t (run_program (setup_fixture programs fuel) (programs t) i) a
                (ap (any (λ p. p == t)) (permanent-run_program fuel t i) ∙ ground arith))
              e
      ]
    where
      opened :
          (has_permanent i t || has_cached i.cache t) ≡ false
          → setup_fixture programs (suc fuel) t i
            ≡ keep t (run_program (setup_fixture programs fuel) (programs t) i)
      opened fresh = rw fresh

  setup_of_known :
      (n : ℕ) (t : TypeId) (i : Inner) (a : Arc)
      → get_arc i t ≡ some a
      → setup_fixture programs (suc n) t i ≡ (ready (some a), i)
  unfolding setup_fixture get_arc
  setup_of_known n t i a g = elim (Bool-cases (has_permanent i t || has_cached i.cache t)) [
    | inl old ↦ rw old (ap {B = Outcome (Option Arc) × Inner} (λ o. (ready o, i)) g)
    | inr fresh ↦ absurd (ground arith)
  ]

  -- For fixtures that need and hold fixtures of lower rank alone: setting up a fixture for which a
  -- setup has returned an `Arc` runs no program: it returns the same `Arc` and changes nothing.
  pub setup_fixture_again :
      (fuel more : ℕ) (t : TypeId) (i : Inner) (a : Arc)
      → (setup_fixture programs fuel t i).0 ≡ ready (some a)
      → let i' = (setup_fixture programs fuel t i).1 in
        setup_fixture programs (suc more) t i' ≡ (ready (some a), i')
  setup_fixture_again fuel more t i a e =
      setup_of_known more t (setup_fixture programs fuel t i).1 a
        (get_arc-setup_fixture fuel t i a e)

  -- The fixtures of a run: each is set up, and may fail, skip or panic.
  abbrev pub setup_all : ℕ → List TypeId → Inner → Inner
  setup_all fuel [] i = i
  setup_all fuel (t ∷ ts) i = setup_all fuel ts (setup_fixture programs fuel t i).1

  setup_all-IsTidy :
      (fuel : ℕ) (ts : List TypeId) (i : Inner)
      → IsTidy rank programs ranked i
      → IsTidy rank programs ranked (setup_all fuel ts i)
  setup_all-IsTidy fuel [] i tidy = tidy
  setup_all-IsTidy fuel (t ∷ ts) i tidy =
      setup_all-IsTidy fuel ts _ (setup_fixture-IsTidy rank programs ranked fuel t i tidy)

  -- For fixtures that need and hold fixtures of lower rank alone, whatever was set up, in any order
  -- and with any failures: once nothing outside the manager holds a fixture and no teardown fails,
  -- a teardown ends with an empty cache.
  pub teardown_after_setups :
      (permanent : List TypeId) (fuel : ℕ) (ts : List TypeId) (outside : TypeId → ℕ)
      (unheld : (t : TypeId) → outside t ≡ 0)
      → let cache = (setup_all fuel ts (with_permanent permanent)).cache in
        (log : List TypeId) × (teardown outside (λ _. false) (suc (length cache)) cache
          ≡ some (record { done = log; cache = []; failed = false }))
  unfolding never
  teardown_after_setups permanent fuel ts outside unheld =
      teardown_ends outside unheld rank _ _ (omega arith)
        (setup_all-IsTidy fuel ts (with_permanent permanent)
          (record { unique = tt; below = tt })).below

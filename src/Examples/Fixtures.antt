-- ===== src/Examples/Fixtures.antt =====
-- A fixture that sets another one up and holds it.
use e2etest_rs.Prelude.{ℕ, zero, suc, ◌≡◌, refl, Bool, true, false, some, List, [], ◌∷◌, arith}
use e2etest_rs.Fixture.{
  TypeId, SetupProgram, give, skip, panic, setup, Cached, cached_arc, ready, run_program, extract,
  insert_cached, setup_fixture, new, with_permanent, Teardown, teardown, get_arc,
}
use e2etest_rs.Fixture.Setup.{IsRanked}
use e2etest_rs.Fixture.Lifecycle.{setup_fixture_again, setup_all, teardown_after_setups}
use e2etest_rs.Fixture.Later.{holds_of, get_arc-setup_all}
use e2etest_rs.Fixture.TeardownOrder.{IsSafe, remove_all, teardown_ordered}

abbrev rank : TypeId → ℕ
rank t = t

abbrev with_zero : Bool → SetupProgram
with_zero true = give (0 ∷ [])
with_zero false = panic

-- Fixture 1 needs fixture 0 and holds it; the others skip.
abbrev programs : TypeId → SetupProgram
programs zero = give []
programs (suc zero) = setup 0 with_zero
programs (suc (suc t)) = skip

with_zero-IsRanked : (b : Bool) → IsRanked rank 1 (with_zero b)
with_zero-IsRanked true = (omega arith, tt)
with_zero-IsRanked false = tt

ranked : (t : TypeId) → IsRanked rank (rank t) (programs t)
ranked zero = tt
ranked (suc zero) = (omega arith, with_zero-IsRanked)
ranked (suc (suc t)) = tt

setup_fixture_again_example :
    setup_fixture programs 1 1 (setup_fixture programs 2 1 new).1
    ≡ (ready (some (cached_arc 1)), (setup_fixture programs 2 1 new).1)
unfolding setup_fixture run_program
setup_fixture_again_example = setup_fixture_again rank programs ranked 2 0 1 new (cached_arc 1) refl

-- Fixtures 1 and 0 are set up again, and 2 skips.
get_arc-setup_all_example :
    (get_arc
        (setup_all rank programs ranked 2 (1 ∷ 2 ∷ 0 ∷ []) (setup_fixture programs 2 1 new).1)
        1
      ≡ some (cached_arc 1))
    × (holds_of 1
          (setup_all rank programs ranked 2
            (1 ∷ 2 ∷ 0 ∷ [])
            (setup_fixture programs 2 1 new).1).cache
        ≡ holds_of 1 (setup_fixture programs 2 1 new).1.cache)
unfolding setup_fixture run_program
get_arc-setup_all_example =
    get_arc-setup_all rank programs ranked 2 2 1 (1 ∷ 2 ∷ 0 ∷ []) new (cached_arc 1) refl

teardown_after_setups_example :
    (log : List TypeId) × (teardown
        (λ _. 0)
        (λ _. false)
        3
        (setup_all rank programs ranked 2 (1 ∷ 0 ∷ []) (with_permanent [])).cache
      ≡ some (record { done = log; cache = []; failed = false }))
unfolding teardown extract setup_fixture run_program insert_cached
teardown_after_setups_example =
    teardown_after_setups rank programs ranked [] 2 (1 ∷ 0 ∷ []) (λ _. 0) (λ t. refl)

abbrev two_cached : List Cached
two_cached = record { type_id = 0; holds = [] } ∷ record { type_id = 1; holds = 0 ∷ [] } ∷ []

teardown_ordered_example :
    (r : Teardown) × (teardown (λ _. 0) (λ _. false) 3 two_cached ≡ some r)
    × IsSafe (λ _. 0) two_cached r.done
    × (r.cache ≡ remove_all r.done two_cached)
teardown_ordered_example =
    teardown_ordered (λ _. 0) (λ _. false) 3 two_cached (omega arith) (refl, (refl, tt))

-- ===== src/Examples/Generated.antt =====
-- What the macros make of a function and of some groups, and a fixture that they generate.
use e2etest_rs.Prelude.{
  ℕ, suc, ◌≡◌, refl, Bool, true, false, none, some, [], ◌∷◌, arith, if◌then◌else◌, zero, All,
}
use e2etest_rs.Prelude.Text.{codes}
use e2etest_rs.Fixture.{
  TypeId, SetupProgram, give, skip, setup, setup_fixture, run_program, insert_cached, new,
  cached_arc,
}
use e2etest_rs.Fixture.Setup.{IsRanked}
use e2etest_rs.Macros.{ItemFn, GroupCode, TestCode, generate_group, generate_test}
use e2etest_rs.Macros.Parameters.{ok, GroupParams, TestParams, ◌>>=◌}
use e2etest_rs.Macros.Registration.{registered}
use e2etest_rs.Macros.Setup.{generated_setup, generated_setup-gives}
use e2etest_rs.Fixture.Later.{knows, holds_of}
use e2etest_rs.Examples.Expansion.{tokens}

abbrev in_db : TestParams tokens
in_db = record { group = codes "suite" ∷ codes "db" ∷ []; timeout = some 5 }

abbrev reads_rows_code : TestCode ℕ
reads_rows_code = record {
  fixture = codes "_E2etestTestFixturereads_rows";
  type_name = codes "_E2etestTestreads_rows";
  register = codes "_e2etest_register_reads_rows";
  name = codes "reads_rows";
  timeout = some 5;
  fixtures = (codes "Cluster" ∷ []) ∷ [];
  slice = codes "suite" ∷ codes "_E2ETEST_db_TESTS" ∷ [];
}

abbrev db : GroupParams
db = record { name = codes "db"; fixtures = codes "Cluster" ∷ []; parent = none }

abbrev db_code : GroupCode
db_code = record {
  tests = codes "_E2ETEST_db_TESTS";
  groups = codes "_E2ETEST_db_GROUPS";
  fixture = codes "_E2etestGroupFixturedb";
  type_name = codes "_E2etestGroupdb";
  function = codes "db";
  fixtures = codes "Cluster" ∷ [];
  slice = none;
}

registered_example :
    ((t : TestParams tokens) (run : ItemFn) (code : TestCode ℕ)
      → t.group ≡ codes "suite" ∷ codes "db" ∷ []
      → generate_test tokens t run ≡ ok code
      → code.slice ≡ codes "suite" ∷ codes "_E2ETEST_db_TESTS" ∷ [])
    × ((sub : GroupParams)
        → sub.parent ≡ some (codes "suite" ∷ codes "db" ∷ [])
        → (code : GroupCode) × (generate_group tokens sub ≡ ok code)
          × (code.slice ≡ some (codes "suite" ∷ codes "_E2ETEST_db_GROUPS" ∷ [])))
    × ((root : GroupParams)
        → root.parent ≡ none
        → (code : GroupCode) × (generate_group tokens root ≡ ok code) × (code.slice ≡ none))
unfolding generate_group ◌>>=◌
registered_example = registered tokens db db_code (codes "suite" ∷ []) refl

-- Fixture 2 is generated for the fixtures 0 and 1.
abbrev programs : TypeId → SetupProgram
programs zero = give []
programs (suc zero) = give []
programs (suc (suc t)) = generated_setup (0 ∷ 1 ∷ [])

abbrev rank : TypeId → ℕ
rank t = t

given-IsRanked :
    (t : TypeId) (b : Bool)
    → IsRanked rank
        (suc (suc t))
        (if b then (setup 1 (λ given. if given then give (0 ∷ 1 ∷ []) else skip)) else skip)
given-IsRanked t false = tt
given-IsRanked t true = (omega arith, rest)
  where
    rest : (b : Bool) → IsRanked rank (suc (suc t)) (if b then give (0 ∷ 1 ∷ []) else skip)
    rest true = (omega arith, (omega arith, tt))
    rest false = tt

ranked : (t : TypeId) → IsRanked rank (rank t) (programs t)
ranked zero = tt
ranked (suc zero) = tt
ranked (suc (suc t)) = (omega arith, given-IsRanked t)

generated_setup-gives_example :
    let i = (setup_fixture programs 3 2 new).1 in
    (holds_of 2 i.cache ≡ some (0 ∷ 1 ∷ [])) × All (λ f. knows i f ≡ true) (0 ∷ 1 ∷ [])
unfolding setup_fixture run_program insert_cached
generated_setup-gives_example =
    generated_setup-gives rank programs ranked 3 2 (0 ∷ 1 ∷ []) new (cached_arc 2) refl refl refl

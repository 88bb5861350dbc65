-- ===== src/Macros.antt =====
-- crates/e2etest-macros/src/lib.rs: the macros `group!` and `#[test]`, from their parameters to the
-- names and the parts of the code that they generate. Parsing tokens and changing the case of names
-- are libraries': the record `Syn`.
pub mod Parameters
pub mod Parsing
pub mod Generated
pub mod Arguments
pub mod Registration
pub mod Halting
pub mod Setup
use e2etest_rs.Prelude.{
  ℕ, zero, suc, Bool, true, false, not, ◌&&◌, Option, none, some, List, [], ◌∷◌, ◌++◌,
  if◌then◌else◌, is_empty, map,
}
use e2etest_rs.Prelude.Text.{Text, codes, text_eq}
use e2etest_rs.Macros.Parameters.{
  Syn, Result, ok, error, ◌>>=◌, GroupParams, TestParams, parse_group_params, parse_test_params,
}

-- A type in the arguments of a generic type, and a segment of a path with its arguments in brackets.
pub data GenericArgument : Type 0 where
  type_path : List Text → GenericArgument
  other_argument : GenericArgument

pub record Segment : Type 0 where
  pub ident : Text
  pub arguments : Option (List GenericArgument)

-- An argument of a function, by the form of its type.
pub data FnArg : Type 0 where
  receiver : FnArg
  typed_path : List Segment → FnArg
  typed_other : FnArg

-- What `#[test]` reads of the function: `returns_default` is `ReturnType::Default`.
pub record ItemFn : Type 0 where
  pub ident : Text
  pub is_async : Bool
  pub returns_default : Bool
  pub inputs : List FnArg

abbrev pub argument_error : Text
argument_error = codes "Expected arguments of type Arc<Fixture>"

abbrev pub first_type : Option (List GenericArgument) → Result (List Text)
first_type (some (type_path p ∷ args)) = ok p
first_type _ = error argument_error

-- `Arc<Fixture>`
abbrev pub fixture_of : FnArg → Result (List Text)
fixture_of (typed_path (segment ∷ segments)) =
    if text_eq segment.ident (codes "Arc")
    then first_type segment.arguments
    else error argument_error
fixture_of _ = error argument_error

-- `map(..).collect::<Result<_>>()`: the first error counts.
unfoldable pub collect : {A B : Type 0} → (A → Result B) → List A → Result (List B)
collect f [] = ok []
collect f (x ∷ xs) = f x >>= λ y. collect f xs >>= λ ys. ok (y ∷ ys)

abbrev pub some_fixtures : List (List Text) → Result (List (List Text))
some_fixtures [] =
    error (codes "Expected the test function to have at least one argument of type Arc<Fixture>")
some_fixtures (f ∷ fs) = ok (f ∷ fs)

unfoldable pub take_fixtures : ItemFn → Result (List (List Text))
unfolding collect
take_fixtures run = collect fixture_of run.inputs >>= some_fixtures

-- The last segment of a path is replaced, if there is one.
unfoldable pub with_last : (Text → Text) → List Text → Option (List Text)
with_last f [] = none
with_last f (x ∷ []) = some (f x ∷ [])
with_last f (x ∷ y ∷ path) = elim (with_last f (y ∷ path)) [ none ↦ none | some p ↦ some (x ∷ p) ]

abbrev pub guard : Bool → Text → Result (Unit {0})
guard true e = ok tt
guard false e = error e

abbrev pub expect_last : Option (List Text) → Text → Result (List Text)
expect_last none e = error e
expect_last (some p) e = ok p

-- The names in the generated code, the slice that the test is put into, and its parts.
pub record TestCode (Expr : Type 0) : Type 0 where
  pub fixture : Text
  pub type_name : Text
  pub register : Text
  pub name : Text
  pub timeout : Option Expr
  pub fixtures : List (List Text)
  pub slice : List Text

pub record GroupCode : Type 0 where
  pub tests : Text
  pub groups : Text
  pub fixture : Text
  pub type_name : Text
  pub function : Text
  pub fixtures : List Text
  pub slice : Option (List Text)

module _ (syn : Syn) where
  abbrev pub group_groups_name : Text → Text
  group_groups_name name = codes "_E2ETEST_" ++ syn.constant_case name ++ codes "_GROUPS"

  abbrev pub group_tests_name : Text → Text
  group_tests_name name = codes "_E2ETEST_" ++ syn.constant_case name ++ codes "_TESTS"

  abbrev pub group_fixture_name : Text → Text
  group_fixture_name name = codes "_E2etestGroupFixture" ++ syn.pascal_case name

  abbrev pub group_type_name : Text → Text
  group_type_name name = codes "_E2etestGroup" ++ syn.pascal_case name

  abbrev pub test_fixture_name : Text → Text
  test_fixture_name name = codes "_E2etestTestFixture" ++ syn.pascal_case name

  abbrev pub test_type_name : Text → Text
  test_type_name name = codes "_E2etestTest" ++ syn.pascal_case name

  abbrev pub test_register_name : Text → Text
  test_register_name name = codes "_e2etest_register_" ++ syn.snake_case name

  abbrev pub slice_of_parent : Option (List Text) → Result (Option (List Text))
  slice_of_parent none = ok none
  slice_of_parent (some parent) =
      expect_last (with_last group_groups_name parent)
        (codes "Expected parent path to have at least one segment")
      >>= λ p. ok (some p)

  unfoldable pub generate_group : GroupParams → Result GroupCode
  generate_group params = slice_of_parent params.parent >>= λ slice. ok (record {
    tests = group_tests_name params.name;
    groups = group_groups_name params.name;
    fixture = group_fixture_name params.name;
    type_name = group_type_name params.name;
    function = params.name;
    fixtures = params.fixtures;
    slice = slice;
  })

  unfoldable pub generate_test : TestParams syn → ItemFn → Result (TestCode syn.Expr)
  generate_test params run =
      expect_last (with_last group_tests_name params.group)
        (codes "Expected group path to have at least one segment")
      >>= λ slice. guard run.is_async (codes "Expected the test function to be async") >>= λ _.
          guard run.returns_default (codes "Expected the test function to return ()") >>= λ _.
          take_fixtures run >>= λ fixtures. ok (record {
            fixture = test_fixture_name run.ident;
            type_name = test_type_name run.ident;
            register = test_register_name run.ident;
            name = run.ident;
            timeout = params.timeout;
            fixtures = fixtures;
            slice = slice;
          })

  -- `group!`, with fuel for the parameters
  unfoldable pub group : ℕ → syn.Stream → Result GroupCode
  unfolding generate_group
  group fuel item = parse_group_params syn fuel item >>= generate_group

  -- `#[test]`, on a function
  unfoldable pub test : ℕ → syn.Stream → ItemFn → Result (TestCode syn.Expr)
  unfolding generate_test
  test fuel attr run = parse_test_params syn fuel attr >>= λ params. generate_test params run

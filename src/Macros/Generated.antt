-- ===== src/Macros/Generated.antt =====
-- crates/e2etest-macros/src/lib.rs: which functions `#[test]` accepts.
use e2etest_rs.Prelude.{◌≡◌, ◌≢◌, ◌↔◌, refl, sym, ap, true, List, [], ◌∷◌, ◌++◌, ◌∙◌}
use e2etest_rs.Prelude.Text.{Text}
use e2etest_rs.Macros.{
  ItemFn, take_fixtures, generate_test, guard, group_tests_name, TestCode, test_fixture_name,
  test_type_name, test_register_name,
}
use e2etest_rs.Macros.Parameters.{Syn, ok, TestParams}
use e2etest_rs.Macros.Arguments.{
  ok_of_bind, bind_ok, of_with_last, AreArcs, fixtures-of_take, take-fixtures, true-of_guard,
  some-of_expect, ok_injective, expect-with_last,
}

module _ (syn : Syn) where
  -- The code for a function with these fixtures, put into this slice.
  abbrev pub code_of : TestParams syn → ItemFn → List (List Text) → List Text → TestCode syn.Expr
  code_of params run fixtures slice = record {
    fixture = test_fixture_name syn run.ident;
    type_name = test_type_name syn run.ident;
    register = test_register_name syn run.ident;
    name = run.ident;
    timeout = params.timeout;
    fixtures = fixtures;
    slice = slice;
  }

  -- What is asked of the function and of the path, and what comes of them.
  abbrev pub IsTestOf : TestParams syn → ItemFn → TestCode syn.Expr → Type 0
  IsTestOf params run code =
      (front : List Text) × (last : Text) × (fixtures : List (List Text)) × (params.group
        ≡ front ++ last ∷ [])
      × (run.is_async ≡ true)
      × (run.returns_default ≡ true)
      × (fixtures ≢ [])
      × AreArcs run.inputs fixtures
      × (code ≡ code_of params run fixtures (front ++ group_tests_name syn last ∷ []))

  pub generate_test_iff :
      (params : TestParams syn) (run : ItemFn) (code : TestCode syn.Expr)
      → (generate_test syn params run ≡ ok code) ↔ IsTestOf params run code
  unfolding generate_test
  generate_test_iff params run code = (
    λ h.
        let (slice, e₁, h₁) = ok_of_bind _ _ code h in
        let (u, e₂, h₂) = ok_of_bind _ _ code h₁ in
        let (v, e₃, h₃) = ok_of_bind _ _ code h₂ in
        let (fixtures, e₄, h₄) = ok_of_bind (take_fixtures run) _ code h₃ in
        let (front, last, d, c) =
          of_with_last (group_tests_name syn) params.group slice (some-of_expect _ _ slice e₁) in
        let (n, arcs) = fixtures-of_take run fixtures e₄ in
        (
          front,
          last,
          fixtures,
          d,
          true-of_guard _ _ u e₂,
          true-of_guard _ _ v e₃,
          n,
          arcs,
          sym (ok_injective h₄) ∙ ap (code_of params run fixtures) c,
        ),
    λ (front, last, fixtures, d, a, r, n, arcs, c).
        bind_ok _ _ _ (expect-with_last (group_tests_name syn) front last params.group _ d)
        ∙ bind_ok (guard run.is_async _) _ tt (rw a refl)
        ∙ bind_ok (guard run.returns_default _) _ tt (rw r refl)
        ∙ bind_ok (take_fixtures run) _ fixtures (take-fixtures run fixtures n arcs)
        ∙ ap ok (sym c),
  )

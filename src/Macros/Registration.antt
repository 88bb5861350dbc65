-- ===== src/Macros/Registration.antt =====
-- crates/e2etest-macros/src/lib.rs: where the generated code registers tests and groups.
use e2etest_rs.Prelude.{◌≡◌, refl, sym, ap, none, some, List, [], ◌∷◌, ◌++◌, ◌∙◌}
use e2etest_rs.Prelude.Text.{Text}
use e2etest_rs.Macros.{
  ItemFn, generate_test, generate_group, with_last, slice_of_parent, group_groups_name,
  group_tests_name, TestCode, GroupCode,
}
use e2etest_rs.Macros.Parameters.{Syn, ok, GroupParams, TestParams}
use e2etest_rs.Macros.Arguments.{
  ok_of_bind, bind_ok, with_last-snoc, ok_injective, expect-with_last, some_injective,
}
use e2etest_rs.Macros.Generated.{generate_test_iff}

module _ (syn : Syn) where
  names_of_group :
      (params : GroupParams) (owner : GroupCode)
      → generate_group syn params ≡ ok owner
      → (owner.tests ≡ group_tests_name syn owner.function)
        × (owner.groups ≡ group_groups_name syn owner.function)
  unfolding generate_group
  names_of_group params owner h =
      let (slice, e, k) = ok_of_bind _ _ owner h in
      let f = ok_injective k in
      (
        sym (ap (λ o. o.tests) f) ∙ ap (λ o. group_tests_name syn o.function) f,
        sym (ap (λ o. o.groups) f) ∙ ap (λ o. group_groups_name syn o.function) f,
      )

  slice_of_test :
      (t : TestParams syn) (run : ItemFn) (code : TestCode syn.Expr)
      → generate_test syn t run ≡ ok code
      → with_last (group_tests_name syn) t.group ≡ some code.slice
  slice_of_test t run code h =
      let (front, last, fixtures, d, a, r, n, arcs, c) = (generate_test_iff syn t run code).0 h in
      rw d (with_last-snoc (group_tests_name syn) front last) ∙ ap (λ o. some o.slice) (sym c)

  sub-group :
      (sub : GroupParams) (front : List Text) (last : Text)
      → sub.parent ≡ some (front ++ last ∷ [])
      → (code : GroupCode) × (generate_group syn sub ≡ ok code)
        × (code.slice ≡ some (front ++ group_groups_name syn last ∷ []))
  unfolding generate_group
  sub-group sub front last d = (
    _,
    bind_ok (slice_of_parent syn sub.parent) _ (some (front ++ group_groups_name syn last ∷ []))
        (rw d (bind_ok _ _ _ (expect-with_last (group_groups_name syn) front last _ _ refl))),
    refl,
  )

  root-group :
      (root : GroupParams)
      → root.parent ≡ none
      → (code : GroupCode) × (generate_group syn root ≡ ok code) × (code.slice ≡ none)
  unfolding generate_group
  root-group root d = (_, bind_ok (slice_of_parent syn root.parent) _ none (rw d refl), refl)

  -- What `group!` generates is called by the path of its function: a test with that path as its group
  -- is put into the slice of tests that was generated with the function, and a group with that path as
  -- its parent into the slice of groups, behind the same modules. Both succeed whenever the path has a
  -- segment, and a group without a parent is put into no slice.
  pub registered :
      (params : GroupParams) (owner : GroupCode) (front : List Text)
      → generate_group syn params ≡ ok owner
      → ((t : TestParams syn) (run : ItemFn) (code : TestCode syn.Expr)
          → t.group ≡ front ++ owner.function ∷ []
          → generate_test syn t run ≡ ok code
          → code.slice ≡ front ++ owner.tests ∷ [])
        × ((sub : GroupParams)
            → sub.parent ≡ some (front ++ owner.function ∷ [])
            → (code : GroupCode) × (generate_group syn sub ≡ ok code)
              × (code.slice ≡ some (front ++ owner.groups ∷ [])))
        × ((root : GroupParams)
            → root.parent ≡ none
            → (code : GroupCode) × (generate_group syn root ≡ ok code) × (code.slice ≡ none))
  registered params owner front h =
      let (e₁, e₂) = names_of_group params owner h in
      (
        λ t run code d c. some_injective (
            sym (slice_of_test t run code c)
            ∙ rw (d, e₁) (with_last-snoc (group_tests_name syn) front owner.function)),
        λ sub d.
            let (code, k, c) = sub-group sub front owner.function d in (code, k, c ∙ rw e₂ refl),
        root-group,
      )

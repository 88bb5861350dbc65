-- ===== src/Macros/Parsing.antt =====
-- crates/e2etest-macros/src/lib.rs: the loops over the parameters end, and with them both macros.
use e2etest_rs.Prelude.{ℕ, zero, suc, ◌<◌, ◌≤◌, ◌≡◌, ◌≢◌, some, List, arith, Bool-cases, inl, inr}
use e2etest_rs.Prelude.Text.{Text, codes, text_eq}
use e2etest_rs.Macros.{ItemFn, group, test}
use e2etest_rs.Macros.Parameters.{
  Syn, unfinished, FieldType, GroupParams, TestParams, expect_token, group_parameter, group_loop,
  parse_group_params, test_parameter, test_loop, parse_test_params,
}
use e2etest_rs.Macros.Halting.{
  Halts, Halts-bind, Halts-parse, Any, finished, field_idents-Halts, generate_test-Halts,
  generate_group-Halts,
}

-- The tokens left. The comma takes one, and no parser puts one back.
module _ (syn : Syn) (size : syn.Stream → ℕ)
    (comma-takes : (s s' : syn.Stream) → syn.comma s ≡ some s' → size s' < size s)
    (equals-le : (s s' : syn.Stream) → syn.equals s ≡ some s' → size s' ≤ size s)
    (ident-le : (s : syn.Stream) (r : Text × syn.Stream) → syn.ident s ≡ some r → size r.1 ≤ size s)
    (path-le : (s : syn.Stream) (r : List Text × syn.Stream)
      → syn.path s ≡ some r
      → size r.1 ≤ size s)
    (fields-le : (s : syn.Stream) (r : List FieldType × syn.Stream)
      → syn.fields s ≡ some r
      → size r.1 ≤ size s)
    (expr-le : (s : syn.Stream) (r : syn.Expr × syn.Stream)
      → syn.expr s ≡ some r
      → size r.1 ≤ size s) where
  abbrev Within : {A : Type 0} → ℕ → A × syn.Stream → Type 0
  Within n r = size r.1 ≤ n

  group_parameter-Halts :
      (name : Text) (params : GroupParams) (s : syn.Stream)
      → Halts (Within (size s)) (group_parameter syn name params s)
  unfolding Halts
  group_parameter-Halts name params s = elim (Bool-cases (text_eq name (codes "fixtures"))) [
    | inl e ↦ rw e (
        Halts-bind _ (λ t. size t ≤ size s) _ _ (Halts-parse _ _ (equals-le s))
          λ s₁ h₁.
            Halts-bind _ (Within (size s₁)) _ _ (Halts-parse _ _ (fields-le s₁))
              λ r h₂. Halts-bind _ Any _ _ (field_idents-Halts r.0) λ xs _. omega (arith, h₁, h₂))
    | inr e ↦ elim (Bool-cases (text_eq name (codes "parent"))) [
      | inl d ↦
          rw (e, d)
            (Halts-bind _ (λ t. size t ≤ size s) _ _ (Halts-parse _ _ (equals-le s))
              λ s₁ h₁.
                Halts-bind _ (Within (size s₁)) _ _ (Halts-parse _ _ (path-le s₁))
                  λ r h₂. omega (arith, h₁, h₂))
      | inr d ↦ rw (e, d) tt
    ]
  ]

  group_loop-Halts :
      (fuel : ℕ) (params : GroupParams) (s : syn.Stream)
      → size s < fuel
      → Halts Any (group_loop syn fuel params s)
  unfolding group_loop Halts
  group_loop-Halts zero params s h = absurd (omega (arith, h))
  group_loop-Halts (suc fuel) params s h = elim (Bool-cases (syn.at_end s)) [
    | inl e ↦ rw (e, Halts) tt
    | inr e ↦
        rw (e, Halts)
          (Halts-bind _ (λ t. size t < size s) _ _ (Halts-parse _ _ (comma-takes s))
            λ s₁ h₁. Halts-bind _ (Within (size s₁)) _ _ (Halts-parse _ _ (ident-le s₁)) λ r h₂.
              Halts-bind _ (Within (size r.1)) _ _ (group_parameter-Halts r.0 params r.1)
                λ q h₃. group_loop-Halts fuel q.0 q.1 (omega (arith, h, h₁, h₂, h₃)))
  ]

  test_parameter-Halts :
      (name : Text) (params : TestParams syn) (s : syn.Stream)
      → Halts (Within (size s)) (test_parameter syn name params s)
  unfolding Halts
  test_parameter-Halts name params s = elim (Bool-cases (text_eq name (codes "timeout"))) [
    | inl e ↦ rw e (
        Halts-bind _ (λ t. size t ≤ size s) _ _ (Halts-parse _ _ (equals-le s))
          λ s₁ h₁.
            Halts-bind _ (Within (size s₁)) _ _ (Halts-parse _ _ (expr-le s₁))
              λ r h₂. omega (arith, h₁, h₂))
    | inr e ↦ rw e tt
  ]

  test_loop-Halts :
      (fuel : ℕ) (params : TestParams syn) (s : syn.Stream)
      → size s < fuel
      → Halts Any (test_loop syn fuel params s)
  unfolding test_loop Halts
  test_loop-Halts zero params s h = absurd (omega (arith, h))
  test_loop-Halts (suc fuel) params s h = elim (Bool-cases (syn.at_end s)) [
    | inl e ↦ rw (e, Halts) tt
    | inr e ↦
        rw (e, Halts)
          (Halts-bind _ (λ t. size t < size s) _ _ (Halts-parse _ _ (comma-takes s))
            λ s₁ h₁. Halts-bind _ (Within (size s₁)) _ _ (Halts-parse _ _ (ident-le s₁)) λ r h₂.
              Halts-bind _ (Within (size r.1)) _ _ (test_parameter-Halts r.0 params r.1)
                λ q h₃. test_loop-Halts fuel q.0 q.1 (omega (arith, h, h₁, h₂, h₃)))
  ]

  expect_token-Halts : (v word : Text) → Halts Any (expect_token syn v word)
  unfolding Halts
  expect_token-Halts v word = elim (Bool-cases (text_eq v word)) [
    | inl e ↦ rw e tt
    | inr e ↦ rw e tt
  ]

  parse_group_params-Halts :
      (fuel : ℕ) (s : syn.Stream) → size s < fuel → Halts Any (parse_group_params syn fuel s)
  unfolding parse_group_params
  parse_group_params-Halts fuel s h =
      Halts-bind _ (Within (size s)) _ _ (Halts-parse _ _ (ident-le s)) λ v h₁.
        Halts-bind _ Any _ _ (expect_token-Halts v.0 (codes "name")) λ _ _.
          Halts-bind _ (λ t. size t ≤ size v.1) _ _ (Halts-parse _ _ (equals-le v.1))
            λ s₁ h₂.
              Halts-bind _ (Within (size s₁)) _ _ (Halts-parse _ _ (ident-le s₁))
                λ r h₃. group_loop-Halts fuel _ r.1 (omega (arith, h, h₁, h₂, h₃))

  parse_test_params-Halts :
      (fuel : ℕ) (s : syn.Stream) → size s < fuel → Halts Any (parse_test_params syn fuel s)
  unfolding parse_test_params
  parse_test_params-Halts fuel s h =
      Halts-bind _ (Within (size s)) _ _ (Halts-parse _ _ (ident-le s)) λ v h₁.
        Halts-bind _ Any _ _ (expect_token-Halts v.0 (codes "group")) λ _ _.
          Halts-bind _ (λ t. size t ≤ size v.1) _ _ (Halts-parse _ _ (equals-le v.1))
            λ s₁ h₂.
              Halts-bind _ (Within (size s₁)) _ _ (Halts-parse _ _ (path-le s₁))
                λ r h₃. test_loop-Halts fuel _ r.1 (omega (arith, h, h₁, h₂, h₃))

  -- When the comma takes a token off the stream, and no other parser puts one back, both macros end
  -- on every stream and for every function: with more fuel than tokens their result is the code or
  -- an error.
  pub macros-finish :
      (fuel : ℕ) (s : syn.Stream) (run : ItemFn)
      → size s < fuel
      → (group syn fuel s ≢ unfinished) × (test syn fuel s run ≢ unfinished)
  unfolding group test
  macros-finish fuel s run h = (
    finished _ (
        Halts-bind Any Any _ _ (parse_group_params-Halts fuel s h)
          λ params _. generate_group-Halts syn params),
    finished _ (
        Halts-bind Any Any _ _ (parse_test_params-Halts fuel s h)
          λ params _. generate_test-Halts syn params run),
  )

-- ===== src/Macros/Parameters.antt =====
-- crates/e2etest-macros/src/lib.rs: the parameters of the macros.
use e2etest_rs.Prelude.{
  ℕ, zero, suc, Bool, true, false, Option, none, some, List, [], ◌∷◌, ◌++◌, if◌then◌else◌,
}
use e2etest_rs.Prelude.Text.{Text, codes, text_eq}

-- `syn::Result`, by the message of the error. `syn_error` is an error of the library's parsers, and
-- `unfinished` is the model's own: the fuel is used up.
pub data Result (A : Type 0) : Type 0 where
  ok : A → Result A
  error : Text → Result A
  syn_error : Result A
  unfinished : Result A

infixl 5 ◌>>=◌
unfoldable pub ◌>>=◌ : {A B : Type 0} → Result A → (A → Result B) → Result B
ok a >>= f = f a
error e >>= f = error e
syn_error >>= f = syn_error
unfinished >>= f = unfinished

-- A field of a tuple of types, by the segments of its path if it is a path.
pub data FieldType : Type 0 where
  path_field : List Text → FieldType
  other_field : FieldType

-- The parsers take tokens off the stream, or fail.
pub record Syn : Type 1 where
  pub Stream : Type 0
  pub Expr : Type 0
  pub at_end : Stream → Bool
  pub ident : Stream → Option (Text × Stream)
  pub equals : Stream → Option Stream
  pub comma : Stream → Option Stream
  pub path : Stream → Option (List Text × Stream)
  pub fields : Stream → Option (List FieldType × Stream)
  pub expr : Stream → Option (Expr × Stream)
  pub lowercase : Text → Text
  pub constant_case : Text → Text
  pub pascal_case : Text → Text
  pub snake_case : Text → Text

-- An option of the library's, in the result.
abbrev pub parse : {A : Type 0} → Option A → Result A
parse none = syn_error
parse (some a) = ok a

pub record GroupParams : Type 0 where
  pub name : Text
  pub fixtures : List Text
  pub parent : Option (List Text)

abbrev pub single : List Text → Result Text
single (name ∷ []) = ok name
single _ = error (codes "Expected a single pathtuple of Fixture with at least one element")

abbrev pub field_ident : FieldType → Result Text
field_ident (path_field segments) = single segments
field_ident other_field = error (codes "Expected a type implementing Fixture")

-- The first error counts.
unfoldable pub field_idents : List FieldType → Result (List Text)
field_idents [] = ok []
field_idents (f ∷ fs) = field_ident f >>= λ x. field_idents fs >>= λ xs. ok (x ∷ xs)

module _ (syn : Syn) where
  pub record TestParams : Type 0 where
    pub group : List Text
    pub timeout : Option syn.Expr

  abbrev pub expect_token : Text → Text → Result (Unit {0})
  expect_token v word =
      if text_eq v word then ok tt else error (codes "expected '" ++ word ++ codes "' token")

  -- One further parameter of a group, after the comma and the name.
  abbrev pub group_parameter : Text → GroupParams → syn.Stream → Result (GroupParams × syn.Stream)
  group_parameter name params s =
      if text_eq name (codes "fixtures")
      then (parse (syn.equals s) >>= λ s₁. parse (syn.fields s₁) >>= λ r.
          field_idents r.0 >>= λ xs. ok (record params { fixtures = xs }, r.1))
      else if text_eq name (codes "parent")
      then (parse (syn.equals s) >>= λ s₁.
          parse (syn.path s₁) >>= λ r. ok (record params { parent = some r.0 }, r.1))
      else error (codes "unexpected parameter, expected 'fixtures' or 'parent'")

  -- The `while` loop.
  unfoldable pub group_loop : ℕ → GroupParams → syn.Stream → Result GroupParams
  group_loop zero params s = unfinished
  group_loop (suc fuel) params s = elim (syn.at_end s) [
    | true ↦ ok params
    | false ↦ parse (syn.comma s) >>= λ s₁. parse (syn.ident s₁) >>= λ r.
        group_parameter r.0 params r.1 >>= λ q. group_loop fuel q.0 q.1
  ]

  -- `GroupParams::parse`
  unfoldable pub parse_group_params : ℕ → syn.Stream → Result GroupParams
  parse_group_params fuel s = parse (syn.ident s) >>= λ v. expect_token v.0 (codes "name") >>= λ _.
      parse (syn.equals v.1) >>= λ s₁. parse (syn.ident s₁) >>= λ r.
      group_loop fuel (record { name = syn.lowercase r.0; fixtures = []; parent = none }) r.1

  abbrev pub test_parameter : Text → TestParams → syn.Stream → Result (TestParams × syn.Stream)
  test_parameter name params s =
      if text_eq name (codes "timeout")
      then (parse (syn.equals s) >>= λ s₁.
          parse (syn.expr s₁) >>= λ r. ok (record params { timeout = some r.0 }, r.1))
      else error (codes "unexpected parameter, expected 'timeout'")

  unfoldable pub test_loop : ℕ → TestParams → syn.Stream → Result TestParams
  test_loop zero params s = unfinished
  test_loop (suc fuel) params s = elim (syn.at_end s) [
    | true ↦ ok params
    | false ↦ parse (syn.comma s) >>= λ s₁.
        parse (syn.ident s₁) >>= λ r. test_parameter r.0 params r.1 >>= λ q. test_loop fuel q.0 q.1
  ]

  -- `TestParams::parse`
  unfoldable pub parse_test_params : ℕ → syn.Stream → Result TestParams
  parse_test_params fuel s = parse (syn.ident s) >>= λ v. expect_token v.0 (codes "group") >>= λ _.
      parse (syn.equals v.1) >>= λ s₁.
      parse (syn.path s₁) >>= λ r. test_loop fuel (record { group = r.0; timeout = none }) r.1

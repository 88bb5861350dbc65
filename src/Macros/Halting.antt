-- ===== src/Macros/Halting.antt =====
-- crates/e2etest-macros/src/lib.rs: the parts of the macros without a loop always end.
use e2etest_rs.Prelude.{
  ◌≡◌, ◌≢◌, Option, none, some, List, [], ◌∷◌, Bool-cases, inl, inr, refl, true, false, Bool,
}
use e2etest_rs.Prelude.Text.{Text, codes, text_eq}
use e2etest_rs.Macros.{
  FnArg, receiver, typed_path, typed_other, ItemFn, GenericArgument, type_path, other_argument,
  fixture_of, first_type, take_fixtures, some_fixtures, collect, generate_test, generate_group,
  guard, expect_last, slice_of_parent,
}
use e2etest_rs.Macros.Parameters.{
  Syn, Result, ok, error, syn_error, unfinished, ◌>>=◌, parse, FieldType, path_field, other_field,
  field_idents, GroupParams, TestParams,
}

-- The result is not the model's own, and a value in it satisfies `P`.
unfoldable pub Halts : {A : Type 0} → (A → Type 0) → Result A → Type 0
Halts P unfinished = ⊥
Halts P syn_error = Unit
Halts P (error message) = Unit
Halts P (ok result) = P result

pub Halts-bind :
    {A B : Type 0} (Q : B → Type 0) (P : A → Type 0) (r : Result A) (rest : A → Result B)
    → Halts P r
    → ((x : A) → P x → Halts Q (rest x))
    → Halts Q (r >>= rest)
unfolding Halts ◌>>=◌
Halts-bind Q P (ok a) f h k = k a h
Halts-bind Q P (error e) f h k = tt
Halts-bind Q P syn_error f h k = tt
Halts-bind Q P unfinished f h k = absurd h

pub Halts-parse :
    {A : Type 0} (P : A → Type 0) (o : Option A) → ((a : A) → o ≡ some a → P a) → Halts P (parse o)
unfolding Halts
Halts-parse P none h = tt
Halts-parse P (some a) h = h a refl

abbrev pub Any : {A : Type 0} → A → Type 0
Any a = Unit

pub finished : {A : Type 0} (r : Result A) → Halts Any r → r ≢ unfinished
unfolding Halts
finished (ok a) h = λ e. cc
finished (error m) h = λ e. cc
finished syn_error h = λ e. cc
finished unfinished h = absurd h

pub field_idents-Halts : (fs : List FieldType) → Halts Any (field_idents fs)
unfolding field_idents Halts ◌>>=◌
field_idents-Halts [] = tt
field_idents-Halts (path_field (x ∷ []) ∷ fs) =
    Halts-bind Any Any (field_idents fs) _ (field_idents-Halts fs) λ _ _. tt
field_idents-Halts (path_field [] ∷ fs) = tt
field_idents-Halts (path_field (x ∷ y ∷ r) ∷ fs) = tt
field_idents-Halts (other_field ∷ fs) = tt

pub first_type-Halts : (o : Option (List GenericArgument)) → Halts Any (first_type o)
unfolding Halts
first_type-Halts none = tt
first_type-Halts (some []) = tt
first_type-Halts (some (type_path p ∷ args)) = tt
first_type-Halts (some (other_argument ∷ args)) = tt

pub fixture_of-Halts : (a : FnArg) → Halts Any (fixture_of a)
unfolding Halts
fixture_of-Halts receiver = tt
fixture_of-Halts typed_other = tt
fixture_of-Halts (typed_path []) = tt
fixture_of-Halts (typed_path (s ∷ r)) = elim (Bool-cases (text_eq s.ident (codes "Arc"))) [
  | inl e ↦ rw e (first_type-Halts s.arguments)
  | inr e ↦ rw e tt
]

pub collect-Halts :
    {A B : Type 0} (f : A → Result B)
    → ((a : A) → Halts Any (f a))
    → (xs : List A) → Halts Any (collect f xs)
unfolding collect Halts
collect-Halts f h [] = tt
collect-Halts f h (x ∷ xs) =
    Halts-bind Any Any (f x) _ (h x)
      λ _ _. Halts-bind Any Any (collect f xs) _ (collect-Halts f h xs) λ _ _. tt

pub expect_last-Halts : (o : Option (List Text)) (e : Text) → Halts Any (expect_last o e)
unfolding Halts
expect_last-Halts none e = tt
expect_last-Halts (some p) e = tt

pub guard-Halts : (b : Bool) (e : Text) → Halts Any (guard b e)
unfolding Halts
guard-Halts true e = tt
guard-Halts false e = tt

pub some_fixtures-Halts : (fs : List (List Text)) → Halts Any (some_fixtures fs)
unfolding Halts
some_fixtures-Halts [] = tt
some_fixtures-Halts (f ∷ fs) = tt

module _ (syn : Syn) where
  pub generate_test-Halts :
      (params : TestParams syn) (run : ItemFn) → Halts Any (generate_test syn params run)
  unfolding generate_test take_fixtures Halts
  generate_test-Halts params run = Halts-bind Any Any _ _ (expect_last-Halts _ _) λ _ _.
      Halts-bind Any Any _ _ (guard-Halts _ _) λ _ _.
        Halts-bind Any Any _ _ (guard-Halts _ _) λ _ _.
          Halts-bind Any Any (take_fixtures run) _
            (Halts-bind Any Any (collect fixture_of run.inputs) some_fixtures
              (collect-Halts fixture_of fixture_of-Halts run.inputs) λ fs _. some_fixtures-Halts fs)
            λ _ _. tt

  pub slice_of_parent-Halts : (parent : Option (List Text)) → Halts Any (slice_of_parent syn parent)
  unfolding Halts
  slice_of_parent-Halts none = tt
  slice_of_parent-Halts (some p) = Halts-bind Any Any _ _ (expect_last-Halts _ _) λ _ _. tt

  pub generate_group-Halts : (params : GroupParams) → Halts Any (generate_group syn params)
  unfolding generate_group Halts
  generate_group-Halts params =
      Halts-bind Any Any (slice_of_parent syn params.parent) _ (slice_of_parent-Halts params.parent)
        λ _ _. tt

-- ===== src/Runner/Filtered.antt =====
-- run.rs: a run with filters, once the tests are recorded.
use e2etest_rs.Prelude.{
  ◌≡◌, refl, sym, ◌∙◌, ap, true, List, [], ◌∷◌, ◌++◌, map, any, All, All-left, All-right, All-unmap,
}
use mathlib.Core.List.{append_assoc, append-nil}
use mathlib.Core.Path.{subst}
use e2etest_rs.Prelude.Text.{Text}
use e2etest_rs.Prelude.Text.Split.{
  HasNoColon, split, split-cons, split-path, split_self, join, path, sep,
}
use e2etest_rs.Prelude.Collections.{IsIn}
use e2etest_rs.Statistics.{is_at_or_below}
use e2etest_rs.Filter.{Filter, consider_test, consider_group}
use e2etest_rs.Runner.Runtime.{TestCase}
use e2etest_rs.Runner.Group.{Group, Groups, node, nil, cons, name_of, test_names, names_below}
use e2etest_rs.Runner.Run.{init, last}
use e2etest_rs.Runner.Closing.{IsReadyTest, IsReady, AreReady}
use e2etest_rs.Runner.Unfiltered.{join-snoc}
use e2etest_rs.Runner.Parts.{HasPlainNames, HavePlainNames}

module _ (f : Filter) (included : List Text) where
  -- The test at this path below the groups is included if it is considered.
  abbrev pub IsAsked : List Text → Text → Type 0
  IsAsked names n =
      consider_test f (names ++ init (split n)) (last (split n)) ≡ true
      → IsIn (path (join names) n) included

  tests_ready :
      (names : List Text) (tests : List TestCase)
      → All (λ t. HasNoColon t.name) tests
      → All (IsAsked names) (map (λ t. t.name) tests)
      → All (IsReadyTest f included names) tests
  tests_ready names [] plain asked = tt
  tests_ready names (t ∷ tests) plain asked = (
    λ c. asked.0 (rw (split_self t.name plain.0, append-nil names) c),
    tests_ready names tests plain.1 asked.1,
  )

  parts_below :
      (names : List Text) (p n : Text)
      → HasNoColon p
      → (names ++ init (split (path p n)) ≡ (names ++ p ∷ []) ++ init (split n))
        × (last (split (path p n)) ≡ last (split n))
  parts_below names p n plain =
      let (q, qs, e) = split-cons n in
      rw (split-path p n plain, e) (sym (append_assoc names (p ∷ []) (init (q ∷ qs))), refl)

  IsAsked-below :
      (r : Text) (pre : List Text) (p n : Text)
      → HasNoColon p
      → IsAsked (r ∷ pre) (path p n)
      → IsAsked (r ∷ (pre ++ p ∷ [])) n
  IsAsked-below r pre p n plain asked c =
      let (above, self) = parts_below (r ∷ pre) p n plain in
      subst (λ t. IsIn t included)
        (sym (append_assoc (join (r ∷ pre)) (sep ++ p) (sep ++ n))
          ∙ ap (λ t. path t n) (sym (join-snoc r pre p)))
        (asked (rw (above, self) c))

  -- Every considered group has an included test at or below it.
  module _ (root : Text)
      (reach : (pre : List Text) (name : Text)
        → consider_group f (root ∷ pre) name ≡ true
        → any (is_at_or_below (join (root ∷ (pre ++ name ∷ [])))) included ≡ true) where
    AreReady-groups :
        (pre : List Text) (gs : Groups)
        → HavePlainNames gs
        → All (IsAsked (root ∷ pre)) (names_below gs)
        → AreReady f included (root ∷ pre) gs
    unfolding HasPlainNames HavePlainNames test_names names_below IsReady AreReady
    AreReady-groups pre nil plain asked = tt
    AreReady-groups pre (cons (node name fixture tests groups) gs) plain asked =
        let mine =
          All-unmap _ (IsAsked (root ∷ (pre ++ name ∷ []))) (path name)
            (names_below groups ++ map (λ t. t.name) tests)
            (λ n. IsAsked-below root pre name n plain.0)
            (All-left _ (map (path name) (names_below groups ++ map (λ t. t.name) tests))
              (names_below gs) asked) in
        (
          λ c. (
            reach pre name c,
            tests_ready (root ∷ (pre ++ name ∷ [])) tests plain.1.1
                (All-right _ (names_below groups) (map (λ t. t.name) tests) mine),
            AreReady-groups (pre ++ name ∷ []) groups plain.1.0
                (All-left _ (names_below groups) (map (λ t. t.name) tests) mine),
          ),
          AreReady-groups pre gs plain.2 (
              All-right _ (map (path name) (names_below groups ++ map (λ t. t.name) tests))
                (names_below gs) asked),
        )

  -- The groups are ready if every considered one has an included test at or below it.
  pub IsReady-root :
      (g : Group)
      → ((pre : List Text) (name : Text)
          → consider_group f (name_of g ∷ pre) name ≡ true
          → any (is_at_or_below (join (name_of g ∷ (pre ++ name ∷ [])))) included ≡ true)
      → HasPlainNames g
      → any (is_at_or_below (name_of g)) included ≡ true
      → All (IsAsked (name_of g ∷ [])) (test_names g)
      → IsReady f included [] g
  unfolding HasPlainNames test_names IsReady join
  IsReady-root (node name fixture tests groups) reach plain some_test asked = (
    some_test,
    tests_ready (name ∷ []) tests plain.1
        (All-right _ (names_below groups) (map (λ t. t.name) tests) asked),
    AreReady-groups name reach [] groups plain.0
        (All-left _ (names_below groups) (map (λ t. t.name) tests) asked),
  )

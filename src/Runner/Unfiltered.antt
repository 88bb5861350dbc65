-- ===== src/Runner/Unfiltered.antt =====
-- run.rs: a run without filters, from the first recorded test to the last teardown.
use e2etest_rs.Prelude.{
  ◌≡◌, refl, sym, ◌∙◌, ap, true, false, List, [], ◌∷◌, ◌++◌, map, arith, any, is_empty, All,
  All-left, All-right, All-unmap,
}
use mathlib.Core.List.{append_assoc}
use mathlib.Core.Path.{subst}
use e2etest_rs.Prelude.Text.{Text}
use e2etest_rs.Prelude.Text.Split.{join, path, sep}
use e2etest_rs.Prelude.Collections.{IsIn}
use e2etest_rs.Statistics.{is_at_or_below}
use e2etest_rs.Statistics.Invariant.{any-of_IsIn}
use e2etest_rs.Filter.{Filter}
use e2etest_rs.Filter.Ways.{path-below}
use e2etest_rs.Runner.Runtime.{TestCase}
use e2etest_rs.Runner.Group.{Group, Groups, node, nil, cons, name_of, test_names, names_below}
use e2etest_rs.Runner.Closing.{IsReadyTest, IsReady, AreReady}

-- The path of a subgroup.
pub join-snoc :
    (p : Text) (ps : List Text) (q : Text) → join (p ∷ (ps ++ q ∷ [])) ≡ path (join (p ∷ ps)) q
unfolding join
join-snoc p [] q = refl
join-snoc p (r ∷ ps) q =
    ap (λ t. p ++ (sep ++ t)) (join-snoc r ps q)
    ∙ sym (append_assoc p (sep ++ join (r ∷ ps)) (sep ++ q))

join-snoc_under :
    (ps : List Text) (p q : Text) → join ((ps ++ p ∷ []) ++ q ∷ []) ≡ path (join (ps ++ p ∷ [])) q
join-snoc_under [] p q = join-snoc p [] q
join-snoc_under (a ∷ ps) p q = join-snoc a (ps ++ p ∷ []) q

pub any-of_first :
    (a : Text) (names included : List Text)
    → is_empty names ≡ false
    → All (λ n. IsIn (path a n) included) names
    → any (is_at_or_below a) included ≡ true
any-of_first a [] included h l = ground (arith, h)
any-of_first a (n ∷ names) included h l =
    any-of_IsIn (is_at_or_below a) (path a n) included (path-below a n) l.0

unfoldable mutual
  -- The group and every group below it has a test below it.
  pub IsInhabited : Group → Type 0
  IsInhabited (node name fixture tests groups) =
      (is_empty (test_names (node name fixture tests groups)) ≡ false) × AreInhabited groups

  pub AreInhabited : Groups → Type 0
  AreInhabited nil = Unit
  AreInhabited (cons g groups) = IsInhabited g × AreInhabited groups

module _ (f : Filter) (included : List Text) where
  abbrev Includes : List Text → List Text → Type 0
  Includes names tests = All (λ n. IsIn (path (join names) n) included) tests

  tests-Ready :
      (names : List Text) (tests : List TestCase)
      → Includes names (map (λ t. t.name) tests)
      → All (IsReadyTest f included names) tests
  tests-Ready names [] l = tt
  tests-Ready names (t ∷ tests) l = (λ _. l.0, tests-Ready names tests l.1)

  mutual
    unfolding IsInhabited AreInhabited test_names names_below IsReady AreReady

    pub IsReady-group :
        (parents : List Text) (g : Group)
        → IsInhabited g
        → Includes (parents ++ name_of g ∷ []) (test_names g)
        → IsReady f included parents g
    IsReady-group parents (node name fixture tests groups) h l =
        let names = parents ++ name ∷ [] in
        (
          any-of_first (join names) (test_names (node name fixture tests groups)) included h.0 l,
          tests-Ready names tests (All-right _ (names_below groups) (map (λ t. t.name) tests) l),
          AreReady-groups parents name groups h.1
              (All-left _ (names_below groups) (map (λ t. t.name) tests) l),
        )

    AreReady-groups :
        (parents : List Text) (name : Text) (gs : Groups)
        → AreInhabited gs
        → Includes (parents ++ name ∷ []) (names_below gs)
        → AreReady f included (parents ++ name ∷ []) gs
    AreReady-groups parents name nil h l = tt
    AreReady-groups parents name (cons g gs) h l = (
      λ _. IsReady-group (parents ++ name ∷ []) g h.0 (
          All-unmap _ _ (path (name_of g)) (test_names g)
            (λ n m.
              subst (λ p. IsIn p included)
                (sym (append_assoc (join (parents ++ name ∷ [])) (sep ++ name_of g) (sep ++ n))
                  ∙ ap (λ p. path p n) (sym (join-snoc_under parents name (name_of g))))
                m)
            (All-left _ (map (path (name_of g)) (test_names g)) (names_below gs) l)),
      AreReady-groups parents name gs h.1
          (All-right _ (map (path (name_of g)) (test_names g)) (names_below gs) l),
    )

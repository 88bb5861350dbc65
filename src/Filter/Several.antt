-- ===== src/Filter/Several.antt =====
-- filter.rs: which tests several filters select together.
use e2etest_rs.Prelude.{
  ◌≡◌, refl, ◌∙◌, ap, inl, inr, Bool, true, not, ◌&&◌, ◌||◌, List, [], ◌∷◌, arith, any, is_empty,
  Bool-cases,
}
use e2etest_rs.Prelude.Text.{Text, text_eq_refl}
use e2etest_rs.Prelude.Text.Split.{rsplit_once, rsplit_once-path, split, path, HasNoColon}
use e2etest_rs.Prelude.Collections.{IsIn, contains, get}
use e2etest_rs.Statistics.Invariant.{any-of_IsIn}
use e2etest_rs.Filter.{Filter, empty, apply_filter, apply_filters, new, consider_test}
use e2etest_rs.Filter.Observed.{
  consider_names_lem, is_in_group, is_test, Grows, takes, takes_alone, takes_test,
  takes_alone-takes, takes_test-alone, visit-Grows,
}
use e2etest_rs.Filter.Entries.{entry, is_empty-visit}
use e2etest_rs.Filter.Wanted.{
  wanted, matches_some, whole_of, body_of-step, join-split-under, taken-wanted_name,
}

-- `Filter::new`'s two ways to take a test: with its whole group, or alone by its name.
abbrev pub wants_group : Text → Text → Bool
wants_group filter g = whole_of (rsplit_once filter) filter g

abbrev pub wants_alone : Text → Text → Text → Bool
wants_alone filter g t = wanted filter g t && not (wants_group filter g)

-- Whether the filter takes some test of the group alone.
abbrev pub wants_some_alone : List Text → Text → Text → Bool
wants_some_alone names g filter =
    any (λ n. takes_alone (wants_group filter) (wanted filter) g (rsplit_once n)) names

module _ (parent : Text) (names : List Text) where
  filter-Grows :
      (g t filter : Text) (f : Filter)
      → let w = wants_group filter in
        let n = wanted filter in
        Grows t
          (entry parent f g)
          (entry parent (apply_filter filter parent names f) g)
          (any (λ x. takes w n g (rsplit_once x)) names)
          (any (λ x. takes_alone w n g (rsplit_once x)) names)
          (any (λ x. takes_test w n g t (rsplit_once x)) names)
  filter-Grows g t filter f =
      rw (body_of-step (rsplit_once filter) filter parent)
        (visit-Grows (wants_group filter) (wanted filter) parent g t names f)

  is_empty-apply :
      (filter : Text) (f : Filter)
      → is_empty (apply_filter filter parent names f).tests
        ≡ (is_empty f.tests && not (matches_some filter names))
  is_empty-apply filter f = rw (body_of-step (rsplit_once filter) filter parent) (
      is_empty-visit (wants_group filter) (wanted filter) parent names f
      ∙ ap (λ b. is_empty f.tests && not b) (taken-wanted_name filter parent names))

  pub is_empty-apply_filters :
      (filters : List Text) (f : Filter)
      → is_empty (apply_filters filters parent names f).tests
        ≡ (is_empty f.tests && not (any (λ filter. matches_some filter names) filters))
  unfolding apply_filters
  is_empty-apply_filters [] f = ground arith
  is_empty-apply_filters (filter ∷ filters) f = ground (
    arith,
    is_empty-apply filter f,
    is_empty-apply_filters filters (apply_filter filter parent names f),
  )

  -- A test of the run that stands in a subgroup.
  module _ (g t : Text) (plain : HasNoColon t) (m : IsIn (path g t) names) where
    in_group_lem : any (λ n. is_in_group g (rsplit_once n)) names ≡ true
    in_group_lem =
        any-of_IsIn (λ n. is_in_group g (rsplit_once n)) (path g t) names
          (rw (rsplit_once-path g t plain) (text_eq_refl g)) m

    is_test_lem : any (λ n. is_test g t (rsplit_once n)) names ≡ true
    is_test_lem =
        any-of_IsIn (λ n. is_test g t (rsplit_once n)) (path g t) names
          (rw (rsplit_once-path g t plain) (ground (arith, text_eq_refl g, text_eq_refl t))) m

    one-Grows :
        (filter : Text) (f : Filter)
        → Grows t
            (entry parent f g)
            (entry parent (apply_filter filter parent names f) g)
            (wants_some_alone names g filter || wants_group filter g)
            (wants_some_alone names g filter)
            (wants_alone filter g t)
    one-Grows filter f = ground (
      arith,
      filter-Grows g t filter f,
      takes_alone-takes (wants_group filter) (wanted filter) g names,
      takes_test-alone (wants_group filter) (wanted filter) g t names,
      in_group_lem,
      is_test_lem,
    )

    all-Grows :
        (filters : List Text) (f : Filter)
        → Grows t
            (entry parent f g)
            (entry parent (apply_filters filters parent names f) g)
            (any (wants_some_alone names g) filters || any (λ filter. wants_group filter g) filters)
            (any (wants_some_alone names g) filters)
            (any (λ filter. wants_alone filter g t) filters)
    unfolding apply_filters
    all-Grows [] f = ground arith
    all-Grows (filter ∷ filters) f =
        ground (arith, one-Grows filter f, all-Grows filters (apply_filter filter parent names f))

    -- A test that is taken alone is one that its group has.
    some_alone-of_alone :
        (filters : List Text)
        → any (λ filter. wants_alone filter g t) filters ≡ true
        → any (wants_some_alone names g) filters ≡ true
    some_alone-of_alone [] h = cc
    some_alone-of_alone (filter ∷ filters) h = elim (Bool-cases (wants_alone filter g t)) [
      | inl here ↦
          let k : wants_some_alone names g filter ≡ true =
            any-of_IsIn (λ n. takes_alone (wants_group filter) (wanted filter) g (rsplit_once n))
              (path g t) names
              (rw (rsplit_once-path g t plain) (ground (arith, here, text_eq_refl g))) m in
          rw k refl
      | inr later ↦ ground (arith, some_alone-of_alone filters)
    ]

-- With any filters, a test of the run that stands in a subgroup and has no colon in its name is
-- considered exactly when a filter takes it alone by its name, or a filter takes its whole group and
-- no filter takes a test of this group alone, or the filters ask for no test of the run at all.
pub consider_test-filters :
    (filters : List Text) (parent : Text) (names : List Text) (g t : Text)
    → HasNoColon t
    → IsIn (path g t) names
    → consider_test (new filters parent names) (parent ∷ split g) t ≡ (
        any (λ filter. wants_alone filter g t) filters
        || (any (λ filter. wants_group filter g) filters
            && not (any (wants_some_alone names g) filters))
        || not (any (λ filter. matches_some filter names) filters))
unfolding consider_test new get contains
consider_test-filters filters parent names g t plain m = ground (
  arith,
  join-split-under parent g,
  consider_names_lem (entry parent (apply_filters filters parent names empty) g) t,
  all-Grows parent names g t plain m filters empty,
  is_empty-apply_filters parent names filters empty,
  some_alone-of_alone parent names g t plain m filters,
)

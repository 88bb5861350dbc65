-- ===== src/Filter/Entries.antt =====
-- filter.rs: the entries that the loop over the test names makes for one filter.
use e2etest_rs.Prelude.{
  ◌≡◌, Bool, false, not, ◌&&◌, ◌||◌, Option, none, some, List, [], ◌∷◌, arith, if◌then◌else◌,
  is_empty, any,
}
use e2etest_rs.Prelude.Text.{Text, text_eq, text_eq_iff}
use e2etest_rs.Prelude.Text.Split.{rsplit_once, text_eq-path, path}
use e2etest_rs.Prelude.Collections.{insert, get, get-update_entry, update_entry-not_empty, or_else}
use e2etest_rs.Filter.{Filter, take_group, take_test, visit_split, visit_names}

abbrev pub entry : Text → Filter → Text → Option (List Text)
entry parent f g = get (path parent g) f.tests

-- The body of either loop: `whole` says which groups are taken, `named` which tests.
module _ (whole : Text → Bool) (named : Text → Text → Bool) (parent : Text) where
  unfoldable pub step : Text → Text → Filter → Filter
  step g t f =
      if whole g then take_group parent g f else if named g t then take_test parent g t f else f

  -- The entry of the group that is taken.
  abbrev pub grown : Text → Text → Option (List Text) → Option (List Text)
  grown g t o =
      if whole g
      then some (or_else o [])
      else if named g t
      then some (insert t (or_else o []))
      else o

  pub entry-step :
      (g h t : Text) (f : Filter)
      → entry parent (step h t f) g
        ≡ (if text_eq g h then grown h t (entry parent f h) else entry parent f g)
  unfolding step take_group take_test
  entry-step g h t f = ground (
    arith,
    get-update_entry (path parent g) (path parent h) [] (λ names. names) f.tests,
    get-update_entry (path parent g) (path parent h) [] (insert t) f.tests,
    text_eq-path parent g h,
    text_eq_iff g h,
  )

  -- One turn of the loop over the tests.
  abbrev turn : Text → Filter → Filter
  turn name f = visit_split step (rsplit_once name) f

  -- Whether the loop takes anything.
  abbrev pub taken : Option (Text × Text) → Bool
  taken none = false
  taken (some (g, t)) = whole g || named g t

  is_empty-turn :
      (parts : Option (Text × Text)) (f : Filter)
      → is_empty (visit_split step parts f).tests ≡ (is_empty f.tests && not (taken parts))
  unfolding step take_group take_test
  is_empty-turn none f = ground arith
  is_empty-turn (some (g, t)) f = ground (
    arith,
    update_entry-not_empty (path parent g) [] (λ names. names) f.tests,
    update_entry-not_empty (path parent g) [] (insert t) f.tests,
  )

  pub is_empty-visit :
      (names : List Text) (f : Filter)
      → is_empty (visit_names step names f).tests
        ≡ (is_empty f.tests && not (any (λ name. taken (rsplit_once name)) names))
  unfolding visit_names
  is_empty-visit [] f = ground arith
  is_empty-visit (name ∷ names) f =
      ground (arith, is_empty-visit names (turn name f), is_empty-turn (rsplit_once name) f)

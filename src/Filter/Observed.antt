-- ===== src/Filter/Observed.antt =====
-- filter.rs: what can be seen of an entry, and how a filter changes it.
use e2etest_rs.Prelude.{
  ◌≡◌, refl, inl, inr, Bool, true, false, not, ◌&&◌, ◌||◌, Option, none, some, List, [], ◌∷◌, arith,
  any, is_empty, Bool-cases,
}
use e2etest_rs.Prelude.Text.{Text, text_eq, text_eq_iff}
use e2etest_rs.Prelude.Text.Split.{rsplit_once}
use e2etest_rs.Prelude.Collections.{contains, insert, contains-insert, or_else}
use e2etest_rs.Filter.{Filter, visit_split, visit_names, consider_names}
use e2etest_rs.Filter.Entries.{entry, step, grown, entry-step}

-- What can be seen of an entry: whether it is there, whether it names tests, and whether it names this one.
abbrev pub present : Option (List Text) → Bool
present none = false
present (some s) = true

abbrev pub bare : Option (List Text) → Bool
bare o = is_empty (or_else o [])

abbrev pub names_test : Text → Option (List Text) → Bool
names_test u o = contains u (or_else o [])

pub consider_names_lem :
    (o : Option (List Text)) (u : Text)
    → consider_names o u ≡ (present o && (bare o || names_test u o))
consider_names_lem none u = refl
consider_names_lem (some s) u = refl

is_empty-insert : (t : Text) (s : List Text) → is_empty (insert t s) ≡ false
unfolding insert contains
is_empty-insert t [] = refl
is_empty-insert t (x ∷ s) = ground arith

abbrev pub is_in_group : Text → Option (Text × Text) → Bool
is_in_group g none = false
is_in_group g (some (h, u)) = text_eq g h

abbrev pub is_test : Text → Text → Option (Text × Text) → Bool
is_test g t none = false
is_test g t (some (h, u)) = text_eq g h && text_eq t u

-- How an entry changes: it is there, it names tests, it names this test.
abbrev pub Grows : Text → Option (List Text) → Option (List Text) → Bool → Bool → Bool → Type 0
Grows u o o' there some_test this_test =
    (present o' ≡ (present o || there))
    × (bare o' ≡ (bare o && not some_test))
    × (names_test u o' ≡ (names_test u o || this_test))

module _ (whole : Text → Bool) (named : Text → Text → Bool) where
  -- A test that is taken by its name, as its group is not taken whole.
  abbrev pub alone : Text → Text → Bool
  alone g t = named g t && not (whole g)

  -- The three observations of one name of the loop, at the entry of the group `k`.
  abbrev pub takes : Text → Option (Text × Text) → Bool
  takes k none = false
  takes k (some (g, t)) = text_eq k g && (whole k || named k t)

  abbrev pub takes_alone : Text → Option (Text × Text) → Bool
  takes_alone k none = false
  takes_alone k (some (g, t)) = text_eq k g && alone k t

  abbrev pub takes_test : Text → Text → Option (Text × Text) → Bool
  takes_test k u none = false
  takes_test k u (some (g, t)) = text_eq k g && (text_eq u t && alone k t)

  pub takes_alone-takes :
      (g : Text) (names : List Text)
      → any (λ n. takes g (rsplit_once n)) names ≡ (
          any (λ n. takes_alone g (rsplit_once n)) names
          || (whole g && any (λ n. is_in_group g (rsplit_once n)) names))
  takes_alone-takes g [] = ground arith
  takes_alone-takes g (n ∷ names) = ground (arith, one (rsplit_once n), takes_alone-takes g names)
    where
      one :
          (parts : Option (Text × Text))
          → takes g parts ≡ (takes_alone g parts || (whole g && is_in_group g parts))
      one none = ground arith
      one (some (h, u)) = ground arith

  pub takes_test-alone :
      (g t : Text) (names : List Text)
      → any (λ n. takes_test g t (rsplit_once n)) names
        ≡ (alone g t && any (λ n. is_test g t (rsplit_once n)) names)
  takes_test-alone g t [] = ground arith
  takes_test-alone g t (n ∷ names) = ground (arith, one (rsplit_once n), takes_test-alone g t names)
    where
      one : (parts : Option (Text × Text)) → takes_test g t parts ≡ (alone g t && is_test g t parts)
      one none = ground arith
      one (some (h, u)) = elim (Bool-cases (text_eq t u)) [
        | inl same ↦ let e : t ≡ u = (text_eq_iff t u).0 same in rw (same, e) (ground arith)
        | inr other ↦ rw other (ground arith)
      ]

module _ (whole : Text → Bool) (named : Text → Text → Bool) (parent : Text) where
  grown-Grows :
      (g t u : Text) (o : Option (List Text))
      → Grows u o
          (grown whole named parent g t o)
          (whole g || named g t)
          (alone whole named g t)
          (text_eq u t && alone whole named g t)
  grown-Grows g t u none = ground (arith, is_empty-insert t [], contains-insert u t [])
  grown-Grows g t u (some s) = ground (arith, is_empty-insert t s, contains-insert u t s)

  step-Grows :
      (k g t u : Text) (f : Filter)
      → Grows u
          (entry parent f k)
          (entry parent (step whole named parent g t f) k)
          (text_eq k g && (whole k || named k t))
          (text_eq k g && alone whole named k t)
          (text_eq k g && (text_eq u t && alone whole named k t))
  step-Grows k g t u f = elim (Bool-cases (text_eq k g)) [
    | inl same ↦
        let e : k ≡ g = (text_eq_iff k g).0 same in
        rw (entry-step whole named parent k g t f, same, e) (grown-Grows g t u (entry parent f g))
    | inr other ↦ rw (entry-step whole named parent k g t f, other) (ground arith)
  ]

  Grows-same :
      (k u : Text) (f : Filter) → Grows u (entry parent f k) (entry parent f k) false false false
  Grows-same k u f = ground arith

  split-Grows :
      (k u : Text) (parts : Option (Text × Text)) (f : Filter)
      → Grows u
          (entry parent f k)
          (entry parent (visit_split (step whole named parent) parts f) k)
          (takes whole named k parts)
          (takes_alone whole named k parts)
          (takes_test whole named k u parts)
  split-Grows k u none f = Grows-same k u f
  split-Grows k u (some (g, t)) f = step-Grows k g t u f

  pub visit-Grows :
      (k u : Text) (names : List Text) (f : Filter)
      → Grows u
          (entry parent f k)
          (entry parent (visit_names (step whole named parent) names f) k)
          (any (λ n. takes whole named k (rsplit_once n)) names)
          (any (λ n. takes_alone whole named k (rsplit_once n)) names)
          (any (λ n. takes_test whole named k u (rsplit_once n)) names)
  unfolding visit_names
  visit-Grows k u [] f = Grows-same k u f
  visit-Grows k u (n ∷ names) f =
      let f' = visit_split (step whole named parent) (rsplit_once n) f in
      ground (arith, split-Grows k u (rsplit_once n) f, visit-Grows k u names f')

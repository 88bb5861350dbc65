-- ===== src/Filter/Reach.antt =====
-- filter.rs: a group that the filter considers has a test below it that the filter considers.
use e2etest_rs.Prelude.{
  ◌≡◌, ◌≢◌, ◌⊎◌, refl, ◌∙◌, ap, sym, inl, inr, Bool, true, false, ◌||◌, Option, none, some, List,
  [], ◌∷◌, ◌++◌, arith, is_empty, Bool-cases, All,
}
use mathlib.Core.List.{append_assoc}
use mathlib.Core.Path.{subst}
use e2etest_rs.Prelude.Text.{Text, text_eq, text_eq_iff, text_eq_refl}
use e2etest_rs.Prelude.Text.Split.{rsplit_once, eq_of_rsplit_once, split, join, path, sep}
use e2etest_rs.Prelude.Collections.{IsIn, contains, insert, contains-insert_self, get, or_else}
use e2etest_rs.Statistics.{is_at_or_below}
use e2etest_rs.Filter.{
  Filter, empty, take_group, take_test, visit_split, visit_names, apply_filters, consider_names,
  new, consider_group, consider_test,
}
use e2etest_rs.Filter.Entries.{entry, step, grown, entry-step}
use e2etest_rs.Filter.Wanted.{whole_of, asks_for, body_of-step, join-split-under}
use e2etest_rs.Filter.Ways.{below-path, on_the_way_to, All-IsIn}

module _ (parent : Text) (run : List Text) where
  -- A test of the run stands in the group, and an entry of the group would consider it.
  abbrev pub HasTest : Text → Option (List Text) → Type 0
  HasTest g o =
      (n : Text) × (t : Text) × IsIn n run
      × (rsplit_once n ≡ some (g, t))
      × (consider_names o t ≡ true)

  -- Every entry has such a test, and every group of the set is on the way to an entry.
  pub record IsServed (f : Filter) : Type 0 where
    pub entries : (g : Text) → entry parent f g ≢ none → HasTest g (entry parent f g)
    pub reached :
        (x : Text)
        → IsIn x f.groups
        → (g : Text) × (entry parent f g ≢ none) × (is_at_or_below x (path parent g) ≡ true)

  module _ (whole : Text → Bool) (named : Text → Text → Bool) where
    consider_names-insert : (t : Text) (s : List Text) → consider_names (some (insert t s)) t ≡ true
    consider_names-insert t s = ground (arith, contains-insert_self t s)

    grown-HasTest :
        (n g t : Text) (o : Option (List Text))
        → IsIn n run
        → rsplit_once n ≡ some (g, t)
        → (o ≢ none → HasTest g o)
        → grown whole named parent g t o ≢ none
        → HasTest g (grown whole named parent g t o)
    grown-HasTest n g t o m parts old there = elim (Bool-cases (whole g)) [
      | inl w ↦ rw w (of_whole o old)
      | inr w ↦ elim (Bool-cases (named g t)) [
        | inl c ↦ rw (w, c) (n, t, m, parts, consider_names-insert t (or_else o []))
        | inr c ↦ rw (w, c) (old (rw (w, c) at there))
      ]
    ]
      where
        of_whole :
            (p : Option (List Text)) → (p ≢ none → HasTest g p) → HasTest g (some (or_else p []))
        of_whole none h = (n, t, m, parts, refl)
        of_whole (some s) h = h λ e. cc

    entry-same :
        (k g t : Text) (f : Filter)
        → text_eq k g ≡ true
        → entry parent (step whole named parent g t f) k
          ≡ grown whole named parent g t (entry parent f g)
    entry-same k g t f same = entry-step whole named parent k g t f ∙ rw same refl

    entry-other :
        (k g t : Text) (f : Filter)
        → text_eq k g ≡ false
        → entry parent (step whole named parent g t f) k ≡ entry parent f k
    entry-other k g t f other = entry-step whole named parent k g t f ∙ rw other refl

    some-of_grown :
        (g t : Text) (o : Option (List Text)) → grown whole named parent g t o ≡ none → o ≡ none
    some-of_grown g t none e = refl
    some-of_grown g t (some s) e = ground arith

    -- An entry stays.
    entry-stays :
        (k g t : Text) (f : Filter)
        → entry parent f k ≢ none
        → entry parent (step whole named parent g t f) k ≢ none
    entry-stays k g t f there e = elim (Bool-cases (text_eq k g)) [
      | inl same ↦ there (
          ap (entry parent f) ((text_eq_iff k g).0 same)
          ∙ some-of_grown g t (entry parent f g) (sym (entry-same k g t f same) ∙ e))
      | inr other ↦ there (sym (entry-other k g t f other) ∙ e)
    ]

    -- The set grows only by groups on the way to an entry.
    groups-step :
        (g t x : Text) (f : Filter)
        → IsIn x (step whole named parent g t f).groups
        → IsIn x f.groups
          ⊎ ((is_at_or_below x (path parent g) ≡ true)
              × (entry parent (step whole named parent g t f) g ≢ none))
    unfolding step take_group take_test
    groups-step g t x f m = elim (Bool-cases (whole g || named g t)) [
      | inl taken ↦ elim (on_the_way_to parent g x f.groups (ground arith)) [
        | inl old ↦ inl old
        | inr below ↦ inr (below, λ e. ground (arith, entry-same g g t f (text_eq_refl g)))
      ]
      | inr left_out ↦ inl (ground arith)
    ]

    step-IsServed :
        (n g t : Text) (f : Filter)
        → IsIn n run
        → rsplit_once n ≡ some (g, t)
        → IsServed f
        → IsServed (step whole named parent g t f)
    step-IsServed n g t f m parts h = record {
      entries = λ k there. elim (Bool-cases (text_eq k g)) [
        | inl same ↦
            let q = entry-same k g t f same in
            subst (HasTest k) (sym q) (
              subst (λ j. HasTest j (grown whole named parent g t (entry parent f g)))
                (sym ((text_eq_iff k g).0 same))
                (grown-HasTest n g t (entry parent f g) m parts (h.entries g) λ e. there (q ∙ e)))
        | inr other ↦
            let q = entry-other k g t f other in
            subst (HasTest k) (sym q) (h.entries k λ e. there (q ∙ e))
      ];
      reached = λ x in_set. elim (groups-step g t x f in_set) [
        | inl old ↦ let (k, there, below) = h.reached x old in (k, entry-stays k g t f there, below)
        | inr (below, there) ↦ (g, there, below)
      ];
    }

    visit-IsServed :
        (names : List Text) (f : Filter)
        → All (λ n. IsIn n run) names
        → IsServed f
        → IsServed (visit_names (step whole named parent) names f)
    unfolding visit_names
    visit-IsServed [] f m h = h
    visit-IsServed (n ∷ names) f m h = visit-IsServed names _ m.1 (one (rsplit_once n) refl)
      where
        one :
            (parts : Option (Text × Text))
            → rsplit_once n ≡ parts
            → IsServed (visit_split (step whole named parent) parts f)
        one none e = h
        one (some (g, t)) e = step-IsServed n g t f m.0 e h

  apply_filters-IsServed :
      (filters names : List Text) (f : Filter)
      → All (λ n. IsIn n run) names
      → IsServed f
      → IsServed (apply_filters filters parent names f)
  unfolding apply_filters
  apply_filters-IsServed [] names f m h = h
  apply_filters-IsServed (filter ∷ filters) names f m h = apply_filters-IsServed filters names _ m (
      rw (body_of-step (rsplit_once filter) filter parent) (
        visit-IsServed (whole_of (rsplit_once filter) filter) (asks_for (rsplit_once filter) filter)
          names f m h))

-- Every entry that the filters make considers a test of the run in its group, and every group in the
-- set is on the way to such an entry.
pub new-IsServed :
    (filters : List Text) (parent : Text) (names : List Text)
    → IsServed parent names (new filters parent names)
unfolding new get
new-IsServed filters parent names =
    apply_filters-IsServed parent names filters names empty (All-IsIn names)
      (record { entries = λ g there. absurd (there refl); reached = λ x m. unfold contains in cc })

-- If filters that ask for a test consider a group, then a test of the run at or below that group is
-- considered: a considered group never turns out to be empty.
pub consider_test-of_consider_group :
    (filters : List Text) (parent : Text) (names pre : List Text) (name : Text)
    → let f = new filters parent names in
      is_empty f.groups ≡ false
      → consider_group f (parent ∷ pre) name ≡ true
      → (n : Text) × (g : Text) × (t : Text) × IsIn n names
        × (rsplit_once n ≡ some (g, t))
        × (is_at_or_below (join (parent ∷ (pre ++ name ∷ []))) (path parent n) ≡ true)
        × (consider_test f (parent ∷ split g) t ≡ true)
unfolding consider_test consider_group
consider_test-of_consider_group filters parent names pre name some_group h =
    let f = new filters parent names in
    let served = new-IsServed filters parent names in
    let x = join (parent ∷ (pre ++ name ∷ [])) in
    let (g, there, below) = served.reached x (ground (arith, some_group, h)) in
    let (n, t, m, parts, c) = served.entries g there in
    (
      n,
      g,
      t,
      m,
      parts,
      subst (λ y. is_at_or_below x y ≡ true)
          (append_assoc parent (sep ++ g) (sep ++ t)
            ∙ ap (path parent) (sym (eq_of_rsplit_once n parts)))
          (below-path x (path parent g) t below),
      ground (arith, c, join-split-under parent g),
    )

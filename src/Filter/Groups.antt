-- ===== src/Filter/Groups.antt =====
-- filter.rs: the group filter never cuts off a test that the test filter selects.
use e2etest_rs.Prelude.{
  ◌≡◌, ◌≢◌, refl, ◌∙◌, sym, inl, inr, true, false, none, List, [], ◌∷◌, ◌++◌, arith, is_empty,
  Bool-cases, All,
}
use e2etest_rs.Prelude.Text.{Text, text_eq, text_eq_iff}
use e2etest_rs.Prelude.Text.Split.{
  split, split-cons, split-join, join, join-path, text_eq-path, path, HasNoColon,
}
use e2etest_rs.Prelude.Collections.{
  IsIn, contains, insert, insert-IsIn, contains-insert_self, Subset, get, update_entry,
  get-update_entry, update_entry-not_empty,
}
use e2etest_rs.Filter.Keeping.{apply_filters-Holds}
use e2etest_rs.Filter.{
  Filter, empty, insert_prefixes, update_group_set, take_group, take_test, new, consider_group,
  consider_test,
}

-- Every group on the way from `acc` down the names is in the set.
abbrev pub Prefixes : Text → List Text → List Text → Type 0
Prefixes acc [] groups = Unit
Prefixes acc (name ∷ names) groups =
    IsIn (path acc name) groups × Prefixes (path acc name) names groups

insert_prefixes-Subset :
    (acc : Text) (names groups : List Text) → Subset groups (insert_prefixes acc names groups)
insert_prefixes-Subset acc [] groups x h = h
insert_prefixes-Subset acc (name ∷ names) groups x h =
    insert_prefixes-Subset (path acc name) names _ x (insert-IsIn x (path acc name) groups h)

Prefixes-insert_prefixes :
    (acc : Text) (names groups : List Text) → Prefixes acc names (insert_prefixes acc names groups)
Prefixes-insert_prefixes acc [] groups = tt
Prefixes-insert_prefixes acc (name ∷ names) groups = (
  insert_prefixes-Subset (path acc name) names _ _ (contains-insert_self (path acc name) groups),
  Prefixes-insert_prefixes (path acc name) names _,
)

Prefixes-Subset :
    (acc : Text) (names s t : List Text) → Subset s t → Prefixes acc names s → Prefixes acc names t
Prefixes-Subset acc [] s t sub h = tt
Prefixes-Subset acc (name ∷ names) s t sub h =
    (sub _ h.0, Prefixes-Subset (path acc name) names s t sub h.1)

Prefixes-at :
    (acc : Text) (pre : List Text) (name : Text) (post groups : List Text)
    → Prefixes acc (pre ++ name ∷ post) groups
    → IsIn (join (acc ∷ (pre ++ name ∷ []))) groups
unfolding join
Prefixes-at acc [] name post groups h = h.0
Prefixes-at acc (p ∷ pre) name post groups h =
    rw (join-path acc p (pre ++ name ∷ [])) at (Prefixes-at (path acc p) pre name post groups h.1)

not-empty-of_IsIn : (x : Text) (s : List Text) → IsIn x s → is_empty s ≡ false
unfolding contains
not-empty-of_IsIn x [] h = cc
not-empty-of_IsIn x (y ∷ s) h = refl

-- The two maps are empty together, and a group with an entry is reachable by the group set.
pub record IsClosed (parent : Text) (f : Filter) : Type 0 where
  pub together : is_empty f.tests ≡ is_empty f.groups
  pub reachable :
      (g : Text) → get (path parent g) f.tests ≢ none → Prefixes parent (split g) f.groups

group_set-not_empty :
    (parent g : Text) (groups : List Text) → is_empty (update_group_set parent g groups) ≡ false
group_set-not_empty parent g groups =
    let (p, ps, e) = split-cons g in
    rw e (not-empty-of_IsIn (path parent p) _ (Prefixes-insert_prefixes parent (p ∷ ps) groups).0)

-- Both ways to take a group keep the invariant, whatever is done to its names.
take-IsClosed :
    (parent g : Text) (u : List Text → List Text) (f : Filter)
    → IsClosed parent f
    → IsClosed parent (record {
      tests = update_entry (path parent g) [] u f.tests;
      groups = update_group_set parent g f.groups;
    })
take-IsClosed parent g u f c = record {
  together =
      update_entry-not_empty (path parent g) [] u f.tests
      ∙ sym (group_set-not_empty parent g f.groups);
  reachable = λ h present. elim (Bool-cases (text_eq h g)) [
    | inl same ↦ rw ((text_eq_iff h g).0 same) (Prefixes-insert_prefixes parent (split g) f.groups)
    | inr other ↦
        Prefixes-Subset parent (split h) f.groups _
          (insert_prefixes-Subset parent (split g) f.groups)
          (c.reachable h λ e. present (
            ground (
              arith,
              e,
              get-update_entry (path parent h) (path parent g) [] u f.tests,
              text_eq-path parent h g,
            )))
  ];
}

take_group-IsClosed :
    (parent g : Text) (f : Filter) → IsClosed parent f → IsClosed parent (take_group parent g f)
unfolding take_group
take_group-IsClosed parent g f c = take-IsClosed parent g (λ names. names) f c

take_test-IsClosed :
    (parent g t : Text) (f : Filter) → IsClosed parent f → IsClosed parent (take_test parent g t f)
unfolding take_test
take_test-IsClosed parent g t f c = take-IsClosed parent g (insert t) f c

pub new-IsClosed :
    (filters : List Text) (parent : Text) (names : List Text)
    → IsClosed parent (new filters parent names)
unfolding new
new-IsClosed filters parent names =
    apply_filters-Holds parent (IsClosed parent) (take_group-IsClosed parent)
      (take_test-IsClosed parent) filters names empty
      (record { together = refl; reachable = λ g present. absurd (present (unfold get in refl)) })

join-names :
    (parent : Text) (pre : List Text) (name : Text) (post : List Text)
    → let names = pre ++ name ∷ post in
      All HasNoColon names
      → (join (parent ∷ names) ≡ path parent (join names)) × (split (join names) ≡ names)
unfolding join
join-names parent [] name post plain = (refl, split-join name post plain.0 plain.1)
join-names parent (p ∷ pre) name post plain = (refl, split-join p _ plain.0 plain.1)

-- If the filter selects a test, then it also selects every group on the way from the root group down
-- to the group of the test. The names of the groups have no colon.
pub consider_group-of_consider_test :
    (filters : List Text) (parent : Text) (names pre : List Text) (name : Text) (post : List Text)
    (test_name : Text)
    → All HasNoColon (pre ++ name ∷ post)
    → consider_test (new filters parent names) (parent ∷ (pre ++ name ∷ post)) test_name ≡ true
    → consider_group (new filters parent names) (parent ∷ pre) name ≡ true
unfolding consider_test consider_group
consider_group-of_consider_test filters parent names pre name post test_name plain h =
    elim (Bool-cases (is_empty f.tests)) [
      | inl bare ↦ ground (arith, c.together)
      | inr some_test ↦ ground (arith, Prefixes-at parent pre name post f.groups (on_way some_test))
    ]
  where
    f : Filter
    f = new filters parent names

    c : IsClosed parent f
    c = new-IsClosed filters parent names

    on_way : is_empty f.tests ≡ false → Prefixes parent (pre ++ name ∷ post) f.groups
    on_way some_test =
        let (key, parts) = join-names parent pre name post plain in
        rw parts at
          (c.reachable (join (pre ++ name ∷ post)) λ e. ground (arith, e, key, h, some_test))

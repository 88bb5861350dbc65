-- ===== src/Runner/Recording.antt =====
-- run.rs: which tests the loop over the test names includes.
use e2etest_rs.Prelude.{
  ◌≡◌, refl, ◌∙◌, ap, inl, inr, Bool, true, false, not, ◌&&◌, ◌||◌, List, [], ◌∷◌, arith, any,
  Bool-cases,
}
use e2etest_rs.Prelude.Text.{Text, text_eq, text_eq_refl}
use e2etest_rs.Prelude.Text.Split.{path}
use e2etest_rs.Prelude.Collections.{IsIn, contains, contains-insert, contains-insert_self}
use e2etest_rs.Statistics.{test_defined, test_included}
use e2etest_rs.Statistics.Invariant.{any-of_IsIn}
use e2etest_rs.Runner.Runtime.{
  Runtime, State, Yields, yields, Yields-bind, Yields-map, record_stats,
}
use e2etest_rs.Runner.Group.{Context}
use e2etest_rs.Runner.Run.{is_included, record_tests}
use e2etest_rs.Runner.Accounts.{record_stats-Yields}

-- One of the names is this test, and considered.
abbrev pub is_chosen : Context → Text → List Text → Text → Bool
is_chosen ctx root names x = any (λ n. text_eq x (path root n) && is_included ctx root n) names

pub is_chosen-of_IsIn :
    (ctx : Context) (root : Text) (names : List Text) (n : Text)
    → IsIn n names
    → is_included ctx root n ≡ true
    → is_chosen ctx root names (path root n) ≡ true
is_chosen-of_IsIn ctx root names n m i =
    any-of_IsIn (λ k. text_eq (path root n) (path root k) && is_included ctx root k) n names
      (ground (arith, i, text_eq_refl (path root n))) m

module _ (rt : Runtime) (ctx : Context) (root : Text) where
  -- The set grew by the considered tests, and no entry was made.
  pub record Recorded (names : List Text) (s t : State rt) : Type 0 where
    pub events : t.stats.events ≡ s.stats.events
    pub world : t.world ≡ s.world
    pub exact :
        (x : Text)
        → contains x t.stats.included ≡ (is_chosen ctx root names x || contains x s.stats.included)

  record_defined :
      (n : Text) (s : State rt)
      → Yields
          (λ _ t.
            IsIn (path root n) t.stats.defined
            × (t.stats.events ≡ s.stats.events)
            × (t.stats.included ≡ s.stats.included)
            × (t.world ≡ s.world))
          (record_stats rt (path root n) test_defined s)
  record_defined n s =
      record_stats-Yields rt (path root n) test_defined s tt
        (contains-insert_self (path root n) s.stats.defined, refl, refl, refl)

  record_included :
      (n : Text) (s : State rt)
      → IsIn (path root n) s.stats.defined
      → Yields
          (λ _ t.
            (t.stats.events ≡ s.stats.events)
            × (t.world ≡ s.world)
            × ((x : Text)
                → contains x t.stats.included
                  ≡ (text_eq x (path root n) || contains x s.stats.included)))
          (record_stats rt (path root n) test_included s)
  record_included n s defined =
      record_stats-Yields rt (path root n) test_included s defined
        (refl, refl, λ x. contains-insert x (path root n) s.stats.included)

  -- The loop includes exactly the considered tests, and `empty` stays only if there are none.
  pub record_tests-Recorded :
      (names : List Text) (e : Bool) (s : State rt)
      → Yields
          (λ b t. (b ≡ (e && not (any (is_included ctx root) names))) × Recorded names s t)
          (record_tests rt ctx root names e s)
  unfolding record_tests
  record_tests-Recorded [] e s =
      yields (ground arith, record { events = refl; world = refl; exact = λ x. refl })
  record_tests-Recorded (n ∷ names) e s =
      Yields-bind _ _ _ (record_defined n s) λ _ t (defined, events, same, world).
        elim (Bool-cases (is_included ctx root n)) [
          | inr out ↦ rw out (
              Yields-map
                (λ b u (flag, r). (
                  ground (arith, flag),
                  record {
                    events = r.events ∙ events;
                    world = r.world ∙ world;
                    exact = λ x. ground (arith, r.exact x, ap (contains x) same);
                  },
                ))
                (record_tests-Recorded names e t))
          | inl taken ↦ rw taken (
              Yields-bind _ _ _ (record_included n t defined) λ _ v (events', world', grown).
                Yields-map
                  (λ b u (flag, r). (
                    ground (arith, flag),
                    record {
                      events = r.events ∙ (events' ∙ events);
                      world = r.world ∙ (world' ∙ world);
                      exact = λ x. ground (arith, r.exact x, grown x, ap (contains x) same);
                    },
                  ))
                  (record_tests-Recorded names false v))
        ]

  -- A considered test of the run is in the set.
  pub chosen-IsIn :
      (names : List Text) (s t : State rt) (n : Text)
      → Recorded names s t
      → IsIn n names
      → is_included ctx root n ≡ true
      → IsIn (path root n) t.stats.included
  chosen-IsIn names s t n r m i =
      ground (arith, r.exact (path root n), is_chosen-of_IsIn ctx root names n m i)

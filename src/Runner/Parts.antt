-- ===== src/Runner/Parts.antt =====
-- run.rs: the names above a test, and the test itself, out of a test's path.
use e2etest_rs.Prelude.{
  ◌≡◌, refl, ◌∙◌, ap, sym, Option, some, List, [], ◌∷◌, ◌++◌, arith, All, All-append, All-remap,
  map,
}
use e2etest_rs.Prelude.Text.{Text}
use e2etest_rs.Prelude.Text.Split.{
  HasNoColon, split, split-cons, split-path, split_self, split-join, join, join-split, rsplit_once,
  rsplit_once-path, rsplit_once-none, path, sep,
}
use e2etest_rs.Filter.{consider_test}
use e2etest_rs.Runner.Group.{
  Group, Groups, node, nil, cons, name_of, test_names, names_below, Context,
}
use e2etest_rs.Runner.Run.{init, last, is_included}

-- Every part of the path has no colon.
abbrev pub IsPlain : Text → Type 0
IsPlain n = All HasNoColon (split n)

rsplit_once-append :
    (p s : Text) {g t : Text}
    → rsplit_once s ≡ some (g, t)
    → rsplit_once (p ++ s) ≡ some (p ++ g, t)
unfolding rsplit_once
rsplit_once-append [] s h = h
rsplit_once-append (c ∷ p) s h = ground (arith, rsplit_once-append p s h)

rsplit_once-join :
    (p q : Text) (ps : List Text)
    → All HasNoColon (q ∷ ps)
    → rsplit_once (join (p ∷ q ∷ ps)) ≡ some (join (init (p ∷ q ∷ ps)), last (q ∷ ps))
unfolding join
rsplit_once-join p q [] h = rsplit_once-path p q h.0
rsplit_once-join p q (r ∷ ps) h =
    rsplit_once-append p (sep ++ join (q ∷ r ∷ ps))
      (rsplit_once-append sep (join (q ∷ r ∷ ps)) (rsplit_once-join q r ps h.1))

All-init : (P : Text → Type 0) (p : Text) (ps : List Text) → All P (p ∷ ps) → All P (init (p ∷ ps))
All-init P p [] h = tt
All-init P p (q ∷ ps) h = (h.0, All-init P q ps h.1)

join_one : (p : Text) → join (p ∷ []) ≡ p
unfolding join
join_one p = refl

some-inj :
    {a b c d : Text}
    → ◌≡◌ {A = Option (Text × Text)} (some (a, b)) (some (c, d))
    → (a ≡ c) × (b ≡ d)
some-inj e = (ground arith, ground arith)

parts_of :
    (n : Text) (ps : List Text) {g t : Text}
    → split n ≡ ps
    → All HasNoColon ps
    → rsplit_once n ≡ some (g, t)
    → (split g ≡ init ps) × (t ≡ last ps)
parts_of n [] e h parts = let (p, ps, some_part) = split-cons n in ground arith
parts_of n (p ∷ []) e h parts =
    ground (arith, rsplit_once-none p h.0, sym (join-split n) ∙ ap join e, join_one p)
parts_of n (p ∷ q ∷ ps) {g} {t} e h parts =
    let (above, self) =
      some-inj (
        sym parts
        ∙ ap rsplit_once (sym (join-split n) ∙ ap join e)
        ∙ rsplit_once-join p q ps h.1) in
    (ap split above ∙ split-join p (init (q ∷ ps)) h.0 (All-init HasNoColon q ps h.1), self)

-- The test that is looked up in the filter is the one of the path's last part.
pub is_included-parts :
    (ctx : Context) (root n : Text) {g t : Text}
    → IsPlain n
    → rsplit_once n ≡ some (g, t)
    → consider_test ctx.filter (root ∷ split g) t ≡ is_included ctx root n
is_included-parts ctx root n h parts =
    let (above, self) = parts_of n (split n) refl h parts in rw (above, self) refl

unfoldable mutual
  -- The names of the tests and of the subgroups have no colon.
  pub HasPlainNames : Group → Type 0
  HasPlainNames (node name fixture tests groups) =
      HavePlainNames groups × All (λ t. HasNoColon t.name) tests

  pub HavePlainNames : Groups → Type 0
  HavePlainNames nil = Unit
  HavePlainNames (cons g groups) = HasNoColon (name_of g) × HasPlainNames g × HavePlainNames groups

mutual
  unfolding HasPlainNames HavePlainNames test_names names_below

  -- The paths of the tests are made of those names.
  pub test_names-IsPlain : (g : Group) → HasPlainNames g → All IsPlain (test_names g)
  test_names-IsPlain (node name fixture tests groups) h =
      All-append IsPlain (names_below groups) _ (names_below-IsPlain groups h.0) (
        All-remap HasNoColon IsPlain (λ t. t.name) (λ t. t.name) tests
          (λ t p. rw (split_self t.name p) (p, tt)) h.1)

  names_below-IsPlain : (gs : Groups) → HavePlainNames gs → All IsPlain (names_below gs)
  names_below-IsPlain nil h = tt
  names_below-IsPlain (cons g groups) h =
      All-append IsPlain (map (path (name_of g)) (test_names g)) _
        (All-remap IsPlain IsPlain (λ n. n) (path (name_of g)) (test_names g)
          (λ n p. rw (split-path (name_of g) n h.0) (h.0, p)) (test_names-IsPlain g h.1))
        (names_below-IsPlain groups h.2)

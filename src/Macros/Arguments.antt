-- ===== src/Macros/Arguments.antt =====
-- crates/e2etest-macros/src/lib.rs: the arguments of a test function, and the path of a group.
use e2etest_rs.Prelude.{
  ◌≡◌, ◌≢◌, refl, ap, Bool, true, false, Option, none, some, List, [], ◌∷◌, ◌++◌, ◌∙◌, Bool-cases,
  Option-cases, inl, inr,
}
use e2etest_rs.Prelude.Text.{Text, codes, text_eq, text_eq_refl, eq_of_text_eq}
use mathlib.Core.Path.{subst}
use e2etest_rs.Macros.{
  FnArg, receiver, typed_path, typed_other, ItemFn, GenericArgument, type_path, other_argument,
  Segment, fixture_of, first_type, take_fixtures, some_fixtures, collect, with_last, guard,
  expect_last,
}
use e2etest_rs.Macros.Parameters.{Result, ok, error, syn_error, unfinished, ◌>>=◌}

-- A chain succeeds when its parts do.
pub ok_of_bind :
    {A B : Type 0} (r : Result A) (f : A → Result B) (b : B)
    → r >>= f ≡ ok b
    → (a : A) × (r ≡ ok a) × (f a ≡ ok b)
unfolding ◌>>=◌
ok_of_bind (ok a) f b h = (a, refl, h)
ok_of_bind (error e) f b h = cc
ok_of_bind syn_error f b h = cc
ok_of_bind unfinished f b h = cc

pub bind_ok : {A B : Type 0} (r : Result A) (f : A → Result B) (a : A) → r ≡ ok a → r >>= f ≡ f a
unfolding ◌>>=◌
bind_ok r f a h = rw h refl

pub with_last-snoc :
    (f : Text → Text) (front : List Text) (x : Text)
    → with_last f (front ++ x ∷ []) ≡ some (front ++ f x ∷ [])
unfolding with_last
with_last-snoc f [] x = refl
with_last-snoc f (y ∷ []) x = refl
with_last-snoc f (y ∷ z ∷ front) x = rw (with_last-snoc f (z ∷ front) x) refl

pub of_with_last :
    (f : Text → Text) (path p : List Text)
    → with_last f path ≡ some p
    → (front : List Text) × (x : Text) × (path ≡ front ++ x ∷ []) × (p ≡ front ++ f x ∷ [])
unfolding with_last
of_with_last f [] p h = cc
of_with_last f (x ∷ []) p h = ([], x, refl, cc)
of_with_last f (x ∷ y ∷ path) p h = elim (Option-cases (with_last f (y ∷ path))) [
  | inl e ↦ cc
  | inr (q, e) ↦
      let (front, z, d, c) = of_with_last f (y ∷ path) q e in (x ∷ front, z, ap (◌∷◌ x) d, cc)
]

-- The argument is `Arc<Fixture>`, with any further arguments.
abbrev pub IsArc : FnArg → List Text → Type 0
IsArc arg path =
    (segments : List Segment) × (args : List GenericArgument) × (arg
      ≡ typed_path
          (record { ident = codes "Arc"; arguments = some (type_path path ∷ args) } ∷ segments))

-- The arguments are these fixtures, in order.
abbrev pub AreArcs : List FnArg → List (List Text) → Type 0
AreArcs [] [] = Unit
AreArcs (a ∷ args) (p ∷ paths) = IsArc a p × AreArcs args paths
AreArcs _ _ = ⊥

pub fixture_of-arc : (a : FnArg) (p : List Text) → IsArc a p → fixture_of a ≡ ok p
fixture_of-arc a p (segments, args, e) = rw (e, text_eq_refl (codes "Arc")) refl

pub first_type-some :
    (o : Option (List GenericArgument)) (p : List Text)
    → first_type o ≡ ok p
    → (args : List GenericArgument) × (o ≡ some (type_path p ∷ args))
first_type-some none p h = cc
first_type-some (some []) p h = cc
first_type-some (some (type_path q ∷ args)) p h = (args, cc)
first_type-some (some (other_argument ∷ args)) p h = cc

pub error_is_not_ok : {A : Type 0} {e : Text} {a : A} → error e ≢ ok a
error_is_not_ok h = cc

pub IsArc-of_fixture_of : (a : FnArg) (p : List Text) → fixture_of a ≡ ok p → IsArc a p
IsArc-of_fixture_of receiver p h = cc
IsArc-of_fixture_of typed_other p h = cc
IsArc-of_fixture_of (typed_path []) p h = cc
IsArc-of_fixture_of (typed_path (s ∷ segments)) p h =
    elim (Bool-cases (text_eq s.ident (codes "Arc"))) [
      | inl e ↦
          let (args, d) = first_type-some s.arguments p (rw e at h) in
          let c = eq_of_text_eq s.ident (codes "Arc") e in (segments, args, rw (← c, ← d) refl)
      | inr e ↦ absurd (error_is_not_ok (rw e at h))
    ]

pub collect-arcs :
    (args : List FnArg) (ps : List (List Text)) → AreArcs args ps → collect fixture_of args ≡ ok ps
unfolding collect
collect-arcs [] [] h = refl
collect-arcs [] (p ∷ ps) h = absurd h
collect-arcs (a ∷ args) [] h = absurd h
collect-arcs (a ∷ args) (p ∷ ps) h =
    bind_ok (fixture_of a) _ p (fixture_of-arc a p h.0)
    ∙ bind_ok (collect fixture_of args) _ ps (collect-arcs args ps h.1)

pub arcs-of_collect :
    (args : List FnArg) (ps : List (List Text)) → collect fixture_of args ≡ ok ps → AreArcs args ps
unfolding collect
arcs-of_collect [] [] h = tt
arcs-of_collect [] (p ∷ ps) h = cc
arcs-of_collect (a ∷ args) ps h =
    let (q, d, k) = ok_of_bind (fixture_of a) _ ps h in
    let (qs, c, l) = ok_of_bind (collect fixture_of args) _ ps k in
    let e : q ∷ qs ≡ ps = cc in
    subst (AreArcs (a ∷ args)) e (IsArc-of_fixture_of a q d, arcs-of_collect args qs c)

pub of_some_fixtures : (qs ps : List (List Text)) → some_fixtures qs ≡ ok ps → (qs ≡ ps) × (ps ≢ [])
of_some_fixtures [] ps k = cc
of_some_fixtures (q ∷ qs) ps k = (cc, λ e. cc)

pub fixtures-of_take :
    (run : ItemFn) (ps : List (List Text))
    → take_fixtures run ≡ ok ps
    → (ps ≢ []) × AreArcs run.inputs ps
unfolding take_fixtures
fixtures-of_take run ps h =
    let (qs, e, k) = ok_of_bind (collect fixture_of run.inputs) some_fixtures ps h in
    let (c, d) = of_some_fixtures qs ps k in (d, arcs-of_collect run.inputs ps (e ∙ ap ok c))

pub take-fixtures :
    (run : ItemFn) (ps : List (List Text))
    → ps ≢ []
    → AreArcs run.inputs ps
    → take_fixtures run ≡ ok ps
unfolding take_fixtures
take-fixtures run [] n h = absurd (n refl)
take-fixtures run (p ∷ ps) n h =
    bind_ok (collect fixture_of run.inputs) some_fixtures (p ∷ ps)
      (collect-arcs run.inputs (p ∷ ps) h)

pub true-of_guard : (b : Bool) (e : Text) (u : Unit {0}) → guard b e ≡ ok u → b ≡ true
true-of_guard true e u h = refl
true-of_guard false e u h = cc

pub some-of_expect :
    (o : Option (List Text)) (e : Text) (p : List Text) → expect_last o e ≡ ok p → o ≡ some p
some-of_expect none e p h = cc
some-of_expect (some q) e p h = cc

pub ok_injective : {A : Type 0} {a b : A} → ok a ≡ ok b → a ≡ b
ok_injective h = cc

pub expect-with_last :
    (f : Text → Text) (front : List Text) (x : Text) (path : List Text) (e : Text)
    → path ≡ front ++ x ∷ []
    → expect_last (with_last f path) e ≡ ok (front ++ f x ∷ [])
expect-with_last f front x path e h = rw (h, with_last-snoc f front x) refl

pub some_injective : {A : Type 0} {a b : A} → some a ≡ some b → a ≡ b
some_injective h = cc

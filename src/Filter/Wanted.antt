-- ===== src/Filter/Wanted.antt =====
-- filter.rs: what one filter asks for.
use e2etest_rs.Prelude.{
  ◌≡◌, refl, ◌∙◌, ap, sym, Bool, false, ◌&&◌, ◌||◌, Option, none, some, List, [], ◌∷◌, arith, any,
}
use e2etest_rs.Prelude.Text.{Text}
use e2etest_rs.Prelude.Text.Split.{rsplit_once, split, split-cons, join, join-split, path}
use mathlib.Core.Path.{fun_ext, ap₂}
use e2etest_rs.Filter.Matcher
use e2etest_rs.Filter.Matcher.{FilterMatcher, matches, is_any}
use e2etest_rs.Filter.{visit_pair, visit_plain, body_of}
use e2etest_rs.Filter.Entries.{step, taken}

-- Whether the filter, split at its last `::`, asks for the test `t` of the group `g`.
abbrev pub asks_for : Option (Text × Text) → Text → Text → Text → Bool
asks_for none filter g t = matches (Matcher.new filter) g || matches (Matcher.new filter) t
asks_for (some (group_part, test_part)) filter g t =
    matches (Matcher.new group_part) g && matches (Matcher.new test_part) t

abbrev pub wanted : Text → Text → Text → Bool
wanted filter = asks_for (rsplit_once filter) filter

abbrev pub wanted_name : Text → Option (Text × Text) → Bool
wanted_name filter none = false
wanted_name filter (some (g, t)) = wanted filter g t

-- The key of a group is its path.
pub join-split-under : (parent g : Text) → join (parent ∷ split g) ≡ path parent g
unfolding join
join-split-under parent g =
    let (p, ps, e) = split-cons g in rw e (ap (λ s. path parent s) (sym (ap join e) ∙ join-split g))

-- Both kinds of filter run the loop with a body of the one shape.
abbrev pub whole_of : Option (Text × Text) → Text → Text → Bool
whole_of none filter g = matches (Matcher.new filter) g
whole_of (some (a, b)) filter g = matches (Matcher.new a) g && is_any (Matcher.new b)

pub body_of-step :
    (parts : Option (Text × Text)) (filter parent : Text)
    → body_of parts filter parent ≡ step (whole_of parts filter) (asks_for parts filter) parent
unfolding step visit_plain visit_pair matches
body_of-step none filter parent = fun_ext λ g. fun_ext λ t. fun_ext λ f. ground arith
body_of-step (some (a, b)) filter parent = fun_ext λ g. fun_ext λ t. fun_ext λ f. ground arith

pub whole-asks_for :
    (parts : Option (Text × Text)) (filter g t : Text)
    → (whole_of parts filter g || asks_for parts filter g t) ≡ asks_for parts filter g t
unfolding matches
whole-asks_for none filter g t = ground arith
whole-asks_for (some (a, b)) filter g t = ground arith

-- Whether some test of the run is asked for by the filter.
abbrev pub matches_some : Text → List Text → Bool
matches_some filter names = any (λ name. wanted_name filter (rsplit_once name)) names

pub taken-wanted_name :
    (filter parent : Text) (names : List Text)
    → any
        (λ name.
          taken
            (whole_of (rsplit_once filter) filter)
            (asks_for (rsplit_once filter) filter)
            parent
            (rsplit_once name))
        names
      ≡ matches_some filter names
taken-wanted_name filter parent [] = refl
taken-wanted_name filter parent (name ∷ names) =
    ap₂ ◌||◌ (go (rsplit_once name)) (taken-wanted_name filter parent names)
  where
    go :
        (parts : Option (Text × Text))
        → taken
            (whole_of (rsplit_once filter) filter)
            (asks_for (rsplit_once filter) filter)
            parent
            parts
          ≡ wanted_name filter parts
    go none = refl
    go (some (g, t)) = whole-asks_for (rsplit_once filter) filter g t

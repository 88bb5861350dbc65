-- ===== src/Filter/Ways.antt =====
-- filter.rs: paths below a path, and the groups on the way to a group.
use e2etest_rs.Prelude.{
  ◌≡◌, ◌⊎◌, ◌∙◌, ap, sym, inl, inr, true, List, [], ◌∷◌, ◌++◌, arith, Bool-cases, All, All-map,
}
use mathlib.Core.List.{append_assoc}
use mathlib.Core.Path.{subst}
use e2etest_rs.Prelude.Text.{
  Text, text_eq, text_eq_iff, text_eq_refl, starts_with, starts_with-append, starts_with-split,
}
use e2etest_rs.Prelude.Text.Split.{split-cons, join, join-split, path, sep}
use e2etest_rs.Prelude.Collections.{IsIn, contains, insert, contains-insert}
use e2etest_rs.Statistics.{is_at_or_below}
use e2etest_rs.Filter.{insert_prefixes, update_group_set}

pub at_or_below_self : (x : Text) → is_at_or_below x x ≡ true
at_or_below_self x = ground (arith, text_eq_refl x)

pub path-below : (a n : Text) → is_at_or_below a (path a n) ≡ true
path-below a n = ground (
  arith,
  subst (λ t. starts_with (a ++ sep) t ≡ true) (append_assoc a sep n)
      (starts_with-append (a ++ sep) n),
)

-- What is at or below a path stays so further below.
pub below-path : (x y t : Text) → is_at_or_below x y ≡ true → is_at_or_below x (path y t) ≡ true
below-path x y t h = elim (Bool-cases (text_eq y x)) [
  | inl same ↦ rw ((text_eq_iff y x).0 same) (path-below x t)
  | inr other ↦
      let (rest, e) = starts_with-split (x ++ sep) y (ground arith) in
      ground (
        arith,
        subst (λ s. starts_with (x ++ sep) s ≡ true)
            (sym (append_assoc (x ++ sep) rest (sep ++ t)) ∙ ap (λ s. s ++ (sep ++ t)) (sym e))
            (starts_with-append (x ++ sep) (rest ++ (sep ++ t))),
      )
]

-- Every new element of the set is on the way to the group.
on_the_way :
    (acc p : Text) (ps groups : List Text) (x : Text)
    → IsIn x (insert_prefixes acc (p ∷ ps) groups)
    → IsIn x groups ⊎ (is_at_or_below x (path acc (join (p ∷ ps))) ≡ true)
unfolding join
on_the_way acc p [] groups x m = elim (Bool-cases (text_eq x (path acc p))) [
  | inl same ↦ inr (rw ((text_eq_iff x (path acc p)).0 same) (at_or_below_self (path acc p)))
  | inr other ↦ inl (ground (arith, contains-insert x (path acc p) groups))
]
on_the_way acc p (q ∷ ps) groups x m =
    elim (on_the_way (path acc p) q ps (insert (path acc p) groups) x m) [
      | inr below ↦ inr (
          subst (λ y. is_at_or_below x y ≡ true)
            (append_assoc acc (sep ++ p) (sep ++ join (q ∷ ps))) below)
      | inl old ↦ elim (Bool-cases (text_eq x (path acc p))) [
        | inl same ↦ inr (
            rw ((text_eq_iff x (path acc p)).0 same) (
              subst (λ y. is_at_or_below (path acc p) y ≡ true)
                (append_assoc acc (sep ++ p) (sep ++ join (q ∷ ps)))
                (path-below (path acc p) (join (q ∷ ps)))))
        | inr other ↦ inl (ground (arith, contains-insert x (path acc p) groups))
      ]
    ]

pub on_the_way_to :
    (parent g x : Text) (groups : List Text)
    → IsIn x (update_group_set parent g groups)
    → IsIn x groups ⊎ (is_at_or_below x (path parent g) ≡ true)
on_the_way_to parent g x groups m =
    let (p, ps, e) = split-cons g in
    subst (λ y. IsIn x groups ⊎ (is_at_or_below x (path parent y) ≡ true))
      (sym (ap join e) ∙ join-split g) (on_the_way parent p ps groups x (rw e at m))

All-IsIn_cons :
    (y : Text) (names all : List Text)
    → All (λ n. IsIn n all) names
    → All (λ n. IsIn n (y ∷ all)) names
unfolding contains
All-IsIn_cons y [] all h = tt
All-IsIn_cons y (n ∷ names) all h = (ground (arith, h.0), All-IsIn_cons y names all h.1)

pub All-IsIn : (names : List Text) → All (λ n. IsIn n names) names
unfolding contains
All-IsIn [] = tt
All-IsIn (n ∷ names) =
    (ground (arith, text_eq_refl n), All-IsIn_cons n names names (All-IsIn names))

pub All-of_IsIn :
    {P : Text → Type 0} (names : List Text) → ((n : Text) → IsIn n names → P n) → All P names
All-of_IsIn names h = All-map _ _ names h (All-IsIn names)

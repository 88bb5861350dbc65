-- ===== src/Prelude/Text/Order.antt =====
-- `sort()` and `dedup()` on vectors of strings, which are ordered by their bytes.
use e2etest_rs.Prelude.Tests.{◌==◌, ltb, Bool-cases, if◌then◌else◌}
use e2etest_rs.Prelude.Text.{Text, text_eq, text_eq_iff}
use e2etest_rs.Prelude.Collections.{contains}
use mathlib.Core.Path.{◌≡◌, refl, sym, ap}
use mathlib.Core.Logic.{inl, inr}
use mathlib.Core.Bool.{Bool, true, false, ◌&&◌, ◌||◌}
use mathlib.Core.List.{List, [], ◌∷◌}
use native.Mathlib.Omega.{arith}

unfoldable pub text_le : Text → Text → Bool
text_le [] t = true
text_le (c ∷ s) [] = false
text_le (c ∷ s) (d ∷ t) = ltb c d || (c == d && text_le s t)

text_le_total : (s t : Text) → text_le s t ≡ false → text_le t s ≡ true
unfolding text_le
text_le_total [] t h = ground arith
text_le_total (c ∷ s) [] h = refl
text_le_total (c ∷ s) (d ∷ t) h = ground (arith, text_le_total s t)

text_le_antisymm : (s t : Text) → text_le s t ≡ true → text_le t s ≡ true → s ≡ t
unfolding text_le
text_le_antisymm [] [] h k = refl
text_le_antisymm [] (d ∷ t) h k = ground arith
text_le_antisymm (c ∷ s) [] h k = ground arith
text_le_antisymm (c ∷ s) (d ∷ t) h k = ground (arith, text_le_antisymm s t)

abbrev insert_sorted : Text → List Text → List Text
insert_sorted x [] = x ∷ []
insert_sorted x (y ∷ ys) = if text_le x y then x ∷ y ∷ ys else y ∷ insert_sorted x ys

-- `names.sort()`
unfoldable pub sort : List Text → List Text
sort [] = []
sort (x ∷ xs) = insert_sorted x (sort xs)

-- `names.dedup()` removes an element that equals the one before it.
abbrev dedup_cons : Text → List Text → List Text
dedup_cons x [] = x ∷ []
dedup_cons x (y ∷ ys) = if text_eq x y then y ∷ ys else x ∷ y ∷ ys

unfoldable pub dedup : List Text → List Text
dedup [] = []
dedup (x ∷ xs) = dedup_cons x (dedup xs)

contains-insert_sorted :
    (x y : Text) (ys : List Text) → contains x (insert_sorted y ys) ≡ (text_eq x y || contains x ys)
unfolding contains
contains-insert_sorted x y [] = refl
contains-insert_sorted x y (z ∷ ys) = ground (arith, contains-insert_sorted x y ys)

pub contains-sort : (x : Text) (ys : List Text) → contains x (sort ys) ≡ contains x ys
unfolding sort contains
contains-sort x [] = refl
contains-sort x (y ∷ ys) = ground (arith, contains-insert_sorted x y (sort ys), contains-sort x ys)

contains-dedup_cons :
    (x y : Text) (ys : List Text) → contains x (dedup_cons y ys) ≡ (text_eq x y || contains x ys)
unfolding contains
contains-dedup_cons x y [] = refl
contains-dedup_cons x y (z ∷ ys) = ground (arith, text_eq_iff x y, text_eq_iff x z, text_eq_iff y z)

pub contains-dedup : (x : Text) (ys : List Text) → contains x (dedup ys) ≡ contains x ys
unfolding dedup contains
contains-dedup x [] = refl
contains-dedup x (y ∷ ys) = ground (arith, contains-dedup_cons x y (dedup ys), contains-dedup x ys)

-- Each text is below the next, and differs from it.
abbrev pub IsAscending : List Text → Type 0
IsAscending [] = Unit
IsAscending (x ∷ []) = Unit
IsAscending (x ∷ y ∷ ys) = (text_le x y ≡ true) × (text_eq x y ≡ false) × IsAscending (y ∷ ys)

abbrev IsSorted : List Text → Type 0
IsSorted [] = Unit
IsSorted (x ∷ []) = Unit
IsSorted (x ∷ y ∷ ys) = (text_le x y ≡ true) × IsSorted (y ∷ ys)

insert_sorted-IsSorted : (x : Text) (ys : List Text) → IsSorted ys → IsSorted (insert_sorted x ys)
insert_sorted-IsSorted x [] h = tt
insert_sorted-IsSorted x (y ∷ []) h = ground (arith, text_le_total x y)
insert_sorted-IsSorted x (y ∷ z ∷ ys) h =
    ground (arith, text_le_total x y, text_le_total x z, insert_sorted-IsSorted x (z ∷ ys) h.1)

sort-IsSorted : (xs : List Text) → IsSorted (sort xs)
unfolding sort
sort-IsSorted [] = tt
sort-IsSorted (x ∷ xs) = insert_sorted-IsSorted x (sort xs) (sort-IsSorted xs)

dedup_head : (x : Text) (xs : List Text) → (rest : List Text) × (dedup (x ∷ xs) ≡ x ∷ rest)
unfolding dedup
dedup_head x xs = go (dedup xs)
  where
    go : (ys : List Text) → (rest : List Text) × (dedup_cons x ys ≡ x ∷ rest)
    go [] = ([], refl)
    go (y ∷ ys) = elim (Bool-cases (text_eq x y)) [
      | inl same ↦ (ys, rw same (ap (λ z. z ∷ ys) (sym ((text_eq_iff x y).0 same))))
      | inr other ↦ (y ∷ ys, rw other)
    ]

dedup_cons-IsAscending :
    (x y : Text) (ys rest : List Text)
    → ys ≡ y ∷ rest
    → text_le x y ≡ true
    → IsAscending ys
    → IsAscending (dedup_cons x ys)
dedup_cons-IsAscending x y [] rest e h a = tt
dedup_cons-IsAscending x y (z ∷ ys) rest e h a = ground arith

dedup-IsAscending : (xs : List Text) → IsSorted xs → IsAscending (dedup xs)
unfolding dedup
dedup-IsAscending [] h = tt
dedup-IsAscending (x ∷ []) h = tt
dedup-IsAscending (x ∷ y ∷ xs) h =
    let (rest, e) = dedup_head y xs in
    dedup_cons-IsAscending x y (dedup (y ∷ xs)) rest e h.0 (dedup-IsAscending (y ∷ xs) h.1)

-- What is sorted and then deduplicated is strictly ascending.
pub dedup-sort-IsAscending : (xs : List Text) → IsAscending (dedup (sort xs))
dedup-sort-IsAscending xs = dedup-IsAscending (sort xs) (sort-IsSorted xs)

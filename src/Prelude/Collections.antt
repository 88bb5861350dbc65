-- ===== src/Prelude/Collections.antt =====
-- `HashSet<String>` as a list without repetitions, and `HashMap<String, V>` as a list of pairs.
-- The program sorts what it reads out of a set or only counts it, so the order is not observed.
use e2etest_rs.Prelude.Tests.{if◌then◌else◌, Bool-cases}
use e2etest_rs.Prelude.Lists.{length, is_empty}
use e2etest_rs.Prelude.Text.{Text, text_eq, text_eq_refl, text_eq_iff}
use mathlib.Core.Path.{◌≡◌, refl}
use mathlib.Core.Logic.{inl, inr}
use mathlib.Core.Bool.{Bool, true, false, ◌||◌}
use mathlib.Core.Option.{Option, none, some}
use mathlib.Core.List.{List, [], ◌∷◌}
use Prim.Native.Nat.{suc, ◌≤◌}
use native.Mathlib.Omega.{arith}

-- `set.contains(x)`
unfoldable pub contains : Text → List Text → Bool
contains x [] = false
contains x (y ∷ s) = text_eq x y || contains x s

-- `set.insert(x)`
unfoldable pub insert : Text → List Text → List Text
insert x s = if contains x s then s else x ∷ s

abbrev pub IsIn : Text → List Text → Type 0
IsIn x s = contains x s ≡ true

pub contains-cons :
    (x y : Text) (s : List Text) → contains x (y ∷ s) ≡ (text_eq x y || contains x s)
unfolding contains
contains-cons x y s = refl

pub contains-insert :
    (x y : Text) (s : List Text) → contains x (insert y s) ≡ (text_eq x y || contains x s)
unfolding insert contains
contains-insert x y s = ground (arith, text_eq_iff x y)

pub contains-insert_self : (x : Text) (s : List Text) → IsIn x (insert x s)
contains-insert_self x s = ground (arith, contains-insert x x s, text_eq_refl x)

pub insert-IsIn : (x y : Text) (s : List Text) → IsIn x s → IsIn x (insert y s)
insert-IsIn x y s h = ground (arith, contains-insert x y s)

-- No element stands twice.
pub data Distinct : List Text → Type 0 where
  nil : Distinct []
  cons : {x : Text} {s : List Text} → contains x s ≡ false → Distinct s → Distinct (x ∷ s)

pub insert-Distinct : (x : Text) {s : List Text} → Distinct s → Distinct (insert x s)
unfolding insert
insert-Distinct x {s} d = elim (Bool-cases (contains x s)) [
  | inl old ↦ rw old d
  | inr new ↦ rw new (cons new d)
]

-- s ⊆ t
abbrev pub Subset : List Text → List Text → Type 0
Subset s t = (x : Text) → IsIn x s → IsIn x t

-- `set.remove(x)`, of a set without repetitions
remove : Text → List Text → List Text
remove x [] = []
remove x (y ∷ s) = if text_eq x y then s else y ∷ remove x s

length-remove : (x : Text) (s : List Text) → IsIn x s → suc (length (remove x s)) ≡ length s
unfolding remove contains
length-remove x [] h = ground arith
length-remove x (y ∷ s) h = ground (arith, length-remove x s)

contains-remove :
    (x y : Text) (s : List Text) → text_eq y x ≡ false → IsIn y s → IsIn y (remove x s)
unfolding remove contains
contains-remove x y [] h m = ground arith
contains-remove x y (z ∷ s) h m =
    ground (arith, contains-remove x y s h, text_eq_iff x z, text_eq_iff y z, text_eq_iff y x)

-- A set inside another is no larger.
pub length-Subset : {s : List Text} (t : List Text) → Distinct s → Subset s t → length s ≤ length t
length-Subset t nil h = omega arith
length-Subset t (cons {x} {s} new d) h =
    omega (arith, length-Subset (remove x t) d rest, length-remove x t at_x)
  where
    at_x : IsIn x t
    at_x = h x (ground (arith, contains-cons x x s, text_eq_refl x))

    rest : Subset s (remove x t)
    rest y m = contains-remove x y t other (h y (ground (arith, contains-cons y x s)))
      where
        other : text_eq y x ≡ false
        other = ground (arith, text_eq_iff y x, new)

-- `map.get(k)`
module _ {ℓ} {V : Type ℓ} where
  unfoldable pub get : Text → List (Text × V) → Option V
  get k [] = none
  get k ((j, v) ∷ m) = if text_eq k j then some v else get k m

  -- `map.entry(k).or_default()`, then the change `f` of the value
  unfoldable pub update_entry : Text → V → (V → V) → List (Text × V) → List (Text × V)
  update_entry k d f [] = (k, f d) ∷ []
  update_entry k d f ((j, v) ∷ m) =
      if text_eq k j then (j, f v) ∷ m else (j, v) ∷ update_entry k d f m

  abbrev pub or_else : Option V → V → V
  or_else none d = d
  or_else (some v) d = v

  pub update_entry-not_empty :
      (k : Text) (d : V) (f : V → V) (m : List (Text × V)) → is_empty (update_entry k d f m) ≡ false
  unfolding update_entry
  update_entry-not_empty k d f [] = refl
  update_entry-not_empty k d f ((j, v) ∷ m) = ground arith

  pub get-update_entry :
      (j k : Text) (d : V) (f : V → V) (m : List (Text × V))
      → get j (update_entry k d f m)
        ≡ (if text_eq j k then some (f (or_else (get k m) d)) else get j m)
  unfolding get update_entry
  get-update_entry j k d f [] = refl
  get-update_entry j k d f ((i, v) ∷ m) =
      ground (arith, get-update_entry j k d f m, text_eq_iff j k, text_eq_iff j i, text_eq_iff k i)

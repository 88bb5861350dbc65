-- ===== src/Prelude/Lists.antt =====
-- Lists with Boolean tests, measured by native numbers.
use Prim.Native.Nat.{ℕ, suc, ◌+◌}
use mathlib.Core.Path.{◌≡◌, refl}
use mathlib.Core.Bool.{Bool, true, false, ◌&&◌, ◌||◌}
use mathlib.Core.List.{List, [], ◌∷◌, ◌++◌, map}
use native.Mathlib.Omega.{arith}
use e2etest_rs.Prelude.Tests.{if◌then◌else◌}

module _ {ℓ} {A : Type ℓ} where
  abbrev pub length : List A → ℕ
  length [] = 0
  length (x ∷ xs) = suc (length xs)

  -- `iter().filter(p)`
  abbrev pub filter : (A → Bool) → List A → List A
  filter p [] = []
  filter p (x ∷ xs) = let rest = filter p xs in if p x then x ∷ rest else rest

  abbrev pub any : (A → Bool) → List A → Bool
  any p [] = false
  any p (x ∷ xs) = p x || any p xs

  abbrev pub all : (A → Bool) → List A → Bool
  all p [] = true
  all p (x ∷ xs) = p x && all p xs

  abbrev pub is_empty : List A → Bool
  is_empty [] = true
  is_empty (x ∷ xs) = false

  -- `iter().filter(p).count()`
  abbrev pub count : (A → Bool) → List A → ℕ
  count p xs = length (filter p xs)

  abbrev pub All {κ} : (A → Type κ) → List A → Type κ
  All P [] = Unit
  All P (x ∷ xs) = P x × All P xs

  pub length-append : (xs ys : List A) → length (xs ++ ys) ≡ length xs + length ys
  length-append [] ys = omega arith
  length-append (x ∷ xs) ys = omega (arith, length-append xs ys)

  pub filter-append :
      (p : A → Bool) (xs ys : List A) → filter p (xs ++ ys) ≡ filter p xs ++ filter p ys
  filter-append p [] ys = refl
  filter-append p (x ∷ xs) ys = ground (arith, filter-append p xs ys)

  pub count-append : (p : A → Bool) (xs ys : List A) → count p (xs ++ ys) ≡ count p xs + count p ys
  count-append p [] ys = omega arith
  count-append p (x ∷ xs) ys = ground (arith, count-append p xs ys)

  pub any-append : (p : A → Bool) (xs ys : List A) → any p (xs ++ ys) ≡ (any p xs || any p ys)
  any-append p [] ys = refl
  any-append p (x ∷ xs) ys = ground (arith, any-append p xs ys)

  pub All-append {κ} :
      (P : A → Type κ) (front back : List A) → All P front → All P back → All P (front ++ back)
  All-append P [] back h k = k
  All-append P (x ∷ front) back (here, h) k = (here, All-append P front back h k)

  pub All-map {κ μ} :
      (P : A → Type κ) (Q : A → Type μ) (xs : List A) → ((x : A) → P x → Q x) → All P xs → All Q xs
  All-map P Q [] f h = tt
  All-map P Q (x ∷ xs) f h = (f x h.0, All-map P Q xs f h.1)

  -- A test holds nowhere exactly when nothing is counted.
  pub any-count : (p : A → Bool) (xs : List A) → any p xs ≡ false → count p xs ≡ 0
  any-count p [] h = refl
  any-count p (x ∷ xs) h = ground (arith, any-count p xs)

  pub count-any : (p : A → Bool) (xs : List A) → count p xs ≡ 0 → any p xs ≡ false
  count-any p [] h = refl
  count-any p (x ∷ xs) h = ground (arith, count-any p xs)

pub All-left {ℓ κ} : {A : Type ℓ} (P : A → Type κ) (xs ys : List A) → All P (xs ++ ys) → All P xs
All-left P [] ys h = tt
All-left P (x ∷ xs) ys h = (h.0, All-left P xs ys h.1)

pub All-right {ℓ κ} : {A : Type ℓ} (P : A → Type κ) (xs ys : List A) → All P (xs ++ ys) → All P ys
All-right P [] ys h = h
All-right P (x ∷ xs) ys h = All-right P xs ys h.1

pub All-unmap {ℓ κ μ ν} :
    {A : Type ℓ} {B : Type κ} (P : B → Type μ) (Q : A → Type ν) (f : A → B) (xs : List A)
    → ((x : A) → P (f x) → Q x)
    → All P (map f xs)
    → All Q xs
All-unmap P Q f [] k h = tt
All-unmap P Q f (x ∷ xs) k h = (k x h.0, All-unmap P Q f xs k h.1)

pub All-remap {ℓ κ μ ν ξ} :
    {A : Type ℓ} {B : Type κ} {C : Type μ} (P : A → Type ν) (Q : B → Type ξ) (f : C → A) (g : C → B)
    (xs : List C)
    → ((x : C) → P (f x) → Q (g x))
    → All (λ x. P (f x)) xs
    → All Q (map g xs)
All-remap P Q f g [] k h = tt
All-remap P Q f g (x ∷ xs) k h = (k x h.0, All-remap P Q f g xs k h.1)

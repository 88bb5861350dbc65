-- ===== src/Prelude/Text.antt =====
-- Rust's `String` and `str` as lists of code points, with the operations of the standard library
-- that the program calls. All separators are ASCII, so bytes and code points agree.
pub mod Split
pub mod Order
use Prim.Native.Char.{code}
use Prim.Native.String.{String}
use e2etest_rs.Prelude.Tests.{◌==◌, if◌then◌else◌, Bool-cases, Option-cases}
use Prim.Native.Nat.{ℕ}
use mathlib.Core.Path.{◌≡◌, refl, ap}
use mathlib.Core.Logic.{◌↔◌, inl, inr}
use mathlib.Core.Bool.{Bool, true, false, ◌&&◌, ◌||◌}
use mathlib.Core.Option
use mathlib.Core.Option.{Option, none, some}
use mathlib.Core.List.{List, [], ◌∷◌, ◌++◌}
use native.Mathlib.Omega.{arith}

abbrev pub Text : Type 0
Text = List ℕ

-- The code points of a literal.
abbrev pub codes : String → Text
codes String.[] = []
codes (String.◌∷◌ c s) = code c ∷ codes s

-- `a == b`
unfoldable pub text_eq : Text → Text → Bool
text_eq [] [] = true
text_eq (c ∷ s) (d ∷ t) = c == d && text_eq s t
text_eq _ _ = false

pub text_eq_refl : (s : Text) → text_eq s s ≡ true
unfolding text_eq
text_eq_refl [] = refl
text_eq_refl (c ∷ s) = ground (arith, text_eq_refl s)

pub eq_of_text_eq : (s t : Text) → text_eq s t ≡ true → s ≡ t
unfolding text_eq
eq_of_text_eq [] [] h = refl
eq_of_text_eq [] (d ∷ t) h = ground arith
eq_of_text_eq (c ∷ s) [] h = ground arith
eq_of_text_eq (c ∷ s) (d ∷ t) h = ground (arith, eq_of_text_eq s t)

pub text_eq_iff : (s t : Text) → (text_eq s t ≡ true) ↔ (s ≡ t)
text_eq_iff s t = (eq_of_text_eq s t, λ e. rw e (text_eq_refl t))

-- `s.starts_with(pre)`
unfoldable pub starts_with : Text → Text → Bool
starts_with [] s = true
starts_with (c ∷ pre) (d ∷ s) = c == d && starts_with pre s
starts_with (c ∷ pre) [] = false

-- `s.contains(pat)`, on a text
unfoldable pub contains_text : Text → Text → Bool
contains_text [] pat = starts_with pat []
contains_text (c ∷ s) pat = starts_with pat (c ∷ s) || contains_text s pat

pub starts_with-append : (pre s : Text) → starts_with pre (pre ++ s) ≡ true
unfolding starts_with
starts_with-append [] s = refl
starts_with-append (c ∷ pre) s = ground (arith, starts_with-append pre s)

pub starts_with-split :
    (pre s : Text) → starts_with pre s ≡ true → (rest : Text) × (s ≡ pre ++ rest)
unfolding starts_with
starts_with-split [] s h = (s, refl)
starts_with-split (c ∷ pre) [] h = ground arith
starts_with-split (c ∷ pre) (d ∷ s) h =
    let (rest, e) = starts_with-split pre s (ground arith) in (rest, ground arith)

-- `contains` finds every text that stands inside.
pub contains_text-append : (a pat b : Text) → contains_text (a ++ (pat ++ b)) pat ≡ true
unfolding contains_text starts_with
contains_text-append [] [] [] = refl
contains_text-append [] [] (c ∷ b) = refl
contains_text-append [] (c ∷ pat) b = ground (arith, starts_with-append pat b)
contains_text-append (c ∷ a) pat b = ground (arith, contains_text-append a pat b)

-- What `contains` finds stands inside.
pub contains_text-split :
    (s pat : Text) → contains_text s pat ≡ true → (a : Text) × (b : Text) × (s ≡ a ++ (pat ++ b))
unfolding contains_text
contains_text-split [] pat h = let (b, e) = starts_with-split pat [] h in ([], b, e)
contains_text-split (c ∷ s) pat h = elim (Bool-cases (starts_with pat (c ∷ s))) [
  | inl here ↦ let (b, e) = starts_with-split pat (c ∷ s) here in ([], b, e)
  | inr later ↦ let (a, b, e) = contains_text-split s pat (ground arith) in (c ∷ a, b, ap (◌∷◌ c) e)
]

-- `s.strip_prefix(c)` and `s.strip_suffix(c)` for a single character
unfoldable pub strip_prefix : ℕ → Text → Option Text
strip_prefix q [] = none
strip_prefix q (c ∷ s) = if c == q then some s else none

unfoldable pub strip_suffix : ℕ → Text → Option Text
strip_suffix q [] = none
strip_suffix q (c ∷ []) = if c == q then some [] else none
strip_suffix q (c ∷ d ∷ s) = Option.map (◌∷◌ c) (strip_suffix q (d ∷ s))

pub strip_suffix-append : (q : ℕ) (s : Text) → strip_suffix q (s ++ q ∷ []) ≡ some s
unfolding strip_suffix
strip_suffix-append q [] = ground arith
strip_suffix-append q (c ∷ []) = ground (arith, strip_suffix-append q [])
strip_suffix-append q (c ∷ d ∷ s) = ground (arith, strip_suffix-append q (d ∷ s))

pub eq_of_strip_suffix : (q : ℕ) (s t : Text) → strip_suffix q s ≡ some t → s ≡ t ++ q ∷ []
unfolding strip_suffix
eq_of_strip_suffix q [] t h = ground arith
eq_of_strip_suffix q (c ∷ []) t h = ground arith
eq_of_strip_suffix q (c ∷ d ∷ s) t h = elim (Option-cases (strip_suffix q (d ∷ s))) [
  | inl e ↦ ground arith
  | inr (r, e) ↦ ground (arith, eq_of_strip_suffix q (d ∷ s) r e)
]

pub text_eq-append : (p s t : Text) → text_eq (p ++ s) (p ++ t) ≡ text_eq s t
unfolding text_eq
text_eq-append [] s t = refl
text_eq-append (c ∷ p) s t = ground (arith, text_eq-append p s t)

-- ===== src/Prelude/Text/Split.antt =====
-- `split("::")`, `rsplit_once("::")` and `join("::")`.
use e2etest_rs.Prelude.Tests.{◌==◌, if◌then◌else◌, Bool-cases, Option-cases}
use e2etest_rs.Prelude.Lists.{All}
use e2etest_rs.Prelude.Text.{Text, text_eq, text_eq-append}
use Prim.Native.Nat.{ℕ}
use mathlib.Core.Path.{◌≡◌, refl, ap, ◌∙◌}
use mathlib.Core.Logic.{◌≢◌, inl, inr}
use mathlib.Core.Bool.{◌&&◌}
use mathlib.Core.Option.{Option, none, some}
use mathlib.Core.List.{List, [], ◌∷◌, ◌++◌, append_assoc}
use native.Mathlib.Omega.{arith}

abbrev pub colon : ℕ
colon = 58

-- "::"
abbrev pub sep : Text
sep = colon ∷ colon ∷ []

-- A name as the macros make it: an identifier has no colon.
abbrev pub HasNoColon : Text → Type 0
HasNoColon = All (λ c. c ≢ colon)

abbrev push_char : ℕ → List Text → List Text
push_char c [] = (c ∷ []) ∷ []
push_char c (p ∷ ps) = (c ∷ p) ∷ ps

-- `s.split("::")`: the matches from the left, which do not overlap
unfoldable pub split : Text → List Text
split [] = [] ∷ []
split (c ∷ []) = (c ∷ []) ∷ []
split (c ∷ d ∷ s) =
    let cut = [] ∷ split s in
    let on = push_char c (split (d ∷ s)) in if c == colon && d == colon then cut else on

abbrev extend : ℕ → Option (Text × Text) → Option (Text × Text) → Option (Text × Text)
extend c none here = here
extend c (some (g, t)) here = some (c ∷ g, t)

abbrev cut_here : ℕ → Text → Option (Text × Text)
cut_here c [] = none
cut_here c (d ∷ s) = if c == colon && d == colon then some ([], s) else none

-- `s.rsplit_once("::")`: the last place where the separator stands
unfoldable pub rsplit_once : Text → Option (Text × Text)
rsplit_once [] = none
rsplit_once (c ∷ s) = extend c (rsplit_once s) (cut_here c s)

-- `parts.join("::")`
unfoldable pub join : List Text → Text
join [] = []
join (p ∷ []) = p
join (p ∷ q ∷ ps) = p ++ (sep ++ join (q ∷ ps))

-- `format!("{a}::{b}")`
abbrev pub path : Text → Text → Text
path a b = a ++ (sep ++ b)

pub rsplit_once-none : (t : Text) → HasNoColon t → rsplit_once t ≡ none
unfolding rsplit_once
rsplit_once-none [] h = refl
rsplit_once-none (c ∷ []) h = refl
rsplit_once-none (c ∷ d ∷ t) h = ground (arith, rsplit_once-none (d ∷ t) h.1)

rsplit_once-sep : (t : Text) → HasNoColon t → rsplit_once (sep ++ t) ≡ some ([], t)
unfolding rsplit_once
rsplit_once-sep [] h = refl
rsplit_once-sep (c ∷ t) h = ground (arith, rsplit_once-none (c ∷ t) h)

-- Splitting undoes `format!("{g}::{t}")` for a last part with no colon.
pub rsplit_once-path : (g t : Text) → HasNoColon t → rsplit_once (path g t) ≡ some (g, t)
unfolding rsplit_once
rsplit_once-path [] t h = rsplit_once-sep t h
rsplit_once-path (c ∷ g) t h = rw (rsplit_once-path g t h)

pub eq_of_rsplit_once : (s : Text) {g t : Text} → rsplit_once s ≡ some (g, t) → s ≡ path g t
unfolding rsplit_once
eq_of_rsplit_once [] h = ground arith
eq_of_rsplit_once (c ∷ []) h = ground arith
eq_of_rsplit_once (c ∷ d ∷ s) h = elim (Option-cases (rsplit_once (d ∷ s))) [
  | inl e ↦ ground arith
  | inr ((g, t), e) ↦ ground (arith, eq_of_rsplit_once (d ∷ s) e)
]

join-push_char : (c : ℕ) (ps : List Text) → join (push_char c ps) ≡ c ∷ join ps
unfolding join
join-push_char c [] = refl
join-push_char c (p ∷ []) = refl
join-push_char c (p ∷ q ∷ ps) = refl

push_char-cons :
    (c : ℕ) (qs : List Text) → (p : Text) × (ps : List Text) × (push_char c qs ≡ p ∷ ps)
push_char-cons c [] = (c ∷ [], [], refl)
push_char-cons c (q ∷ qs) = (c ∷ q, qs, refl)

-- `split` always returns a part.
pub split-cons : (s : Text) → (p : Text) × (ps : List Text) × (split s ≡ p ∷ ps)
unfolding split
split-cons [] = ([], [], refl)
split-cons (c ∷ []) = (c ∷ [], [], refl)
split-cons (c ∷ d ∷ s) = elim (Bool-cases (c == colon && d == colon)) [
  | inl cut ↦ ([], split s, rw cut)
  | inr on ↦ rw on (push_char-cons c (split (d ∷ s)))
]

join-cut :
    (ps : List Text) (p : Text) (qs : List Text) → ps ≡ p ∷ qs → join ([] ∷ ps) ≡ sep ++ join ps
unfolding join
join-cut [] p qs e = ground arith
join-cut (r ∷ ps) p qs e = refl

-- Joining undoes splitting.
pub join-split : (s : Text) → join (split s) ≡ s
unfolding split
join-split [] = unfold join in refl
join-split (c ∷ []) = unfold join in refl
join-split (c ∷ d ∷ s) = elim (Bool-cases (c == colon && d == colon)) [
  | inl cut ↦
      let (p, ps, e) = split-cons s in
      rw cut (ground (arith, join-cut (split s) p ps e, join-split s))
  | inr on ↦ rw (on, join-push_char) (ground (arith, join-split (d ∷ s)))
]

pub split-path : (p r : Text) → HasNoColon p → split (path p r) ≡ p ∷ split r
unfolding split
split-path [] r h = refl
split-path (c ∷ []) r h = ground (arith, split-path [] r tt)
split-path (c ∷ d ∷ p) r h = ground (arith, split-path (d ∷ p) r h.1)

pub split_self : (p : Text) → HasNoColon p → split p ≡ p ∷ []
unfolding split
split_self [] h = refl
split_self (c ∷ []) h = refl
split_self (c ∷ d ∷ p) h = ground (arith, split_self (d ∷ p) h.1)

-- Splitting undoes joining, for at least one part and parts with no colon.
pub split-join :
    (p : Text) (ps : List Text) → HasNoColon p → All HasNoColon ps → split (join (p ∷ ps)) ≡ p ∷ ps
unfolding join
split-join p [] h hs = split_self p h
split-join p (q ∷ ps) h hs = split-path p (join (q ∷ ps)) h ∙ ap (◌∷◌ p) (split-join q ps hs.0 hs.1)

pub join-path : (a p : Text) (ps : List Text) → join (path a p ∷ ps) ≡ path a (join (p ∷ ps))
unfolding join
join-path a p [] = refl
join-path a p (q ∷ ps) = append_assoc a (sep ++ p) (sep ++ join (q ∷ ps))

pub text_eq-path : (a s t : Text) → text_eq (path a s) (path a t) ≡ text_eq s t
unfolding text_eq
text_eq-path a s t = text_eq-append a (sep ++ s) (sep ++ t)

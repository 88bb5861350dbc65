-- ===== src/Filter/Matcher.antt =====
-- `FilterMatcher` of filter.rs: any text, a part of the text, or the whole text in quotes.
use e2etest_rs.Prelude.{
  ℕ, ◌≡◌, ◌≢◌, ◌↔◌, refl, Bool, true, false, Option, none, some, [], ◌∷◌, ◌++◌, arith, Option-cases,
  inl, inr,
}
use e2etest_rs.Prelude.Text.{
  Text, text_eq, text_eq_iff, contains_text, contains_text-append, contains_text-split,
  strip_prefix, strip_suffix, strip_suffix-append, eq_of_strip_suffix,
}

pub data FilterMatcher : Type 0 where
  any : FilterMatcher
  partial : Text → FilterMatcher
  exact : Text → FilterMatcher

abbrev pub quote : ℕ
quote = b'"'

abbrev pub quoted : Text → Text
quoted t = quote ∷ (t ++ quote ∷ [])

abbrev unquote : Text → Option Text
unquote filter = elim (strip_prefix quote filter) [
  | none ↦ none
  | some inner ↦ strip_suffix quote inner
]

abbrev pub of_unquoted : Text → Option Text → FilterMatcher
of_unquoted filter none = partial filter
of_unquoted filter (some inner) = exact inner

unfoldable pub new : Text → FilterMatcher
unfolding strip_prefix
new [] = any
new (c ∷ filter) = of_unquoted (c ∷ filter) (unquote (c ∷ filter))

unfoldable pub matches : FilterMatcher → Text → Bool
matches any candidate = true
matches (partial filter) candidate = contains_text candidate filter
matches (exact filter) candidate = text_eq candidate filter

-- `matches!(test_filter, FilterMatcher::Any)`
abbrev pub is_any : FilterMatcher → Bool
is_any any = true
is_any _ = false

-- What a filter is meant to select: everything if it is empty, one text if it is that text in
-- quotes, and any other filter the texts in which it stands.
pub data Selects (filter candidate : Text) : Type 0 where
  all : filter ≡ [] → Selects filter candidate
  whole : filter ≡ quoted candidate → Selects filter candidate
  part :
      filter ≢ []
      → ((t : Text) → filter ≢ quoted t)
      → (a b : Text) → candidate ≡ a ++ (filter ++ b)
      → Selects filter candidate

unquote_lem : (filter t : Text) → (unquote filter ≡ some t) ↔ (filter ≡ quoted t)
unfolding strip_prefix
unquote_lem [] t = ground arith
unquote_lem (c ∷ filter) t =
    ground (arith, eq_of_strip_suffix quote filter t, strip_suffix-append quote t)

matches-Selects :
    (filter candidate : Text) → matches (new filter) candidate ≡ true → Selects filter candidate
unfolding new matches
matches-Selects [] candidate h = all refl
matches-Selects (c ∷ filter) candidate h = elim (Option-cases (unquote (c ∷ filter))) [
  | inl bare ↦
      let (a, b, e) = contains_text-split candidate (c ∷ filter) (ground arith) in
      part (λ x. cc) (λ t x. ground (arith, unquote_lem (c ∷ filter) t)) a b e
  | inr (t, inner) ↦ whole (ground (arith, unquote_lem (c ∷ filter) t, text_eq_iff candidate t))
]

matches-of_Selects :
    (filter candidate : Text) → Selects filter candidate → matches (new filter) candidate ≡ true
unfolding new matches
matches-of_Selects [] candidate h = refl
matches-of_Selects (c ∷ filter) candidate (all e) = ground arith
matches-of_Selects (c ∷ filter) candidate (whole e) =
    ground (arith, unquote_lem (c ∷ filter) candidate, text_eq_iff candidate candidate)
matches-of_Selects (c ∷ filter) candidate (part some_text bare a b e) =
    elim (Option-cases (unquote (c ∷ filter))) [
      | inl none_inside ↦ rw (none_inside, e) (contains_text-append a (c ∷ filter) b)
      | inr (t, inner) ↦ absurd (bare t ((unquote_lem (c ∷ filter) t).0 inner))
    ]

-- A matcher made from a filter accepts exactly the texts that the filter is meant to select.
pub matches-new :
    (filter candidate : Text) → (matches (new filter) candidate ≡ true) ↔ Selects filter candidate
matches-new filter candidate =
    (matches-Selects filter candidate, matches-of_Selects filter candidate)

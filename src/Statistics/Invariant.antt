-- ===== src/Statistics/Invariant.antt =====
-- statistics.rs: which calls of `record` are accepted, and what every accepted call keeps.
use e2etest_rs.Prelude.{
  ◌≡◌, ◌≢◌, refl, ◌↔◌, Bool, true, false, Option, none, some, List, [], ◌∷◌, arith, All, All-append,
  All-map, filter, any, is_empty, ◌≤◌,
}
use mathlib.Core.Path.{subst}
use e2etest_rs.Prelude.Text.{Text, text_eq_iff, text_eq_refl}
use e2etest_rs.Prelude.Collections.{
  contains, insert, IsIn, Subset, Distinct, insert-Distinct, insert-IsIn, contains-insert,
  length-Subset,
}
use e2etest_rs.Statistics.{
  EventEntry, Event, Inner, new, setup_launched, test_defined, test_included, test_launched,
  test_passed, test_failed, is_at_or_below, push_event, record_event, tests_included, tests_defined,
}

-- A test of the path `n`, or of a path below it, is included.
abbrev pub HasTestAt : Inner → Text → Type 0
HasTestAt i n = any (is_at_or_below n) i.included ≡ true

-- When the assertions of `record` hold.
abbrev pub Accepted : Inner → Text → Event → Type 0
Accepted i n test_defined = Unit
Accepted i n test_included = IsIn n i.defined
Accepted i n test_launched = IsIn n i.included
Accepted i n test_passed = IsIn n i.included
Accepted i n test_failed = IsIn n i.included
Accepted i n event = HasTestAt i n

-- What an accepted call makes of the record.
abbrev pub after : Inner → Text → Event → Inner
after i n test_defined = record i { defined = insert n i.defined }
after i n test_included = record i { included = insert n i.included }
after i n event = push_event i n event

filter-of_any :
    {A : Type 0} (p : A → Bool) (xs : List A) → (is_empty (filter p xs) ≡ false) ↔ (any p xs ≡ true)
filter-of_any p [] = ground arith
filter-of_any p (x ∷ xs) = ground (arith, filter-of_any p xs)

pub record_event-some :
    (i : Inner) (n : Text) (e : Event) → Accepted i n e → record_event i n e ≡ some (after i n e)
unfolding record_event
record_event-some i n setup_launched h = ground (arith, filter-of_any (is_at_or_below n) i.included)
record_event-some i n test_defined h = refl
record_event-some i n test_included h = rw h
record_event-some i n test_launched h = rw h
record_event-some i n test_passed h = rw h
record_event-some i n test_failed h = rw h
record_event-some i n _ h = ground (arith, filter-of_any (is_at_or_below n) i.included)

pub Accepted-of_record_event :
    (i : Inner) (n : Text) (e : Event) {i' : Inner}
    → record_event i n e ≡ some i'
    → Accepted i n e × (i' ≡ after i n e)
unfolding record_event
Accepted-of_record_event i n setup_launched h =
    ground (arith, filter-of_any (is_at_or_below n) i.included)
Accepted-of_record_event i n test_defined h = ground arith
Accepted-of_record_event i n test_included h = ground arith
Accepted-of_record_event i n test_launched h = ground arith
Accepted-of_record_event i n test_passed h = ground arith
Accepted-of_record_event i n test_failed h = ground arith
Accepted-of_record_event i n _ h = ground (arith, filter-of_any (is_at_or_below n) i.included)

abbrev is_test_event : Event → Bool
is_test_event test_launched = true
is_test_event test_passed = true
is_test_event test_failed = true
is_test_event _ = false

-- An entry stands at a path where a test is included, and a test's entry at an included test.
abbrev IsJustified : List Text → EventEntry → Type 0
IsJustified included e =
    (any (is_at_or_below e.name) included ≡ true)
    × (is_test_event e.event ≡ true → IsIn e.name included)

pub record WellFormed (i : Inner) : Type 0 where
  pub defined_once : Distinct i.defined
  pub included_once : Distinct i.included
  pub included_defined : Subset i.included i.defined
  pub justified : All (IsJustified i.included) i.events

any-insert :
    (p : Text → Bool) (x : Text) (s : List Text) → any p s ≡ true → any p (insert x s) ≡ true
unfolding insert
any-insert p x s h = ground arith

pub any-of_IsIn :
    (p : Text → Bool) (x : Text) (s : List Text) → p x ≡ true → IsIn x s → any p s ≡ true
unfolding contains
any-of_IsIn p x [] h m = ground arith
any-of_IsIn p x (y ∷ s) h m = ground (arith, any-of_IsIn p x s h, text_eq_iff x y)

pub HasTestAt-of_IsIn : (i : Inner) (n : Text) → IsIn n i.included → HasTestAt i n
HasTestAt-of_IsIn i n h =
    any-of_IsIn (is_at_or_below n) n i.included (ground (arith, text_eq_refl n)) h

IsJustified-insert :
    (x : Text) (s : List Text) (e : EventEntry) → IsJustified s e → IsJustified (insert x s) e
IsJustified-insert x s e h =
    (any-insert (is_at_or_below e.name) x s h.0, λ t. insert-IsIn e.name x s (h.1 t))

Accepted-IsJustified :
    (i : Inner) (n : Text) (e : Event)
    → Accepted i n e
    → e ≢ test_defined
    → e ≢ test_included
    → IsJustified i.included (record { name = n; event = e })
Accepted-IsJustified i n setup_launched h d l = (h, λ t. ground arith)
Accepted-IsJustified i n test_defined h d l = absurd (d refl)
Accepted-IsJustified i n test_included h d l = absurd (l refl)
Accepted-IsJustified i n test_launched h d l = (HasTestAt-of_IsIn i n h, λ t. h)
Accepted-IsJustified i n test_passed h d l = (HasTestAt-of_IsIn i n h, λ t. h)
Accepted-IsJustified i n test_failed h d l = (HasTestAt-of_IsIn i n h, λ t. h)
Accepted-IsJustified i n _ h d l = (h, λ t. ground arith)

push_event-WellFormed :
    (i : Inner) (n : Text) (e : Event)
    → IsJustified i.included (record { name = n; event = e })
    → WellFormed i
    → WellFormed (push_event i n e)
push_event-WellFormed i n e j w = record {
  defined_once = w.defined_once;
  included_once = w.included_once;
  included_defined = w.included_defined;
  justified = All-append (IsJustified i.included) i.events _ w.justified (j, tt);
}

after-WellFormed :
    (i : Inner) (n : Text) (e : Event) → Accepted i n e → WellFormed i → WellFormed (after i n e)
after-WellFormed i n setup_launched h w =
    push_event-WellFormed i n setup_launched
      (Accepted-IsJustified i n setup_launched h (λ x. cc) (λ x. cc)) w
after-WellFormed i n test_defined h w = record {
  defined_once = insert-Distinct n w.defined_once;
  included_once = w.included_once;
  included_defined = λ x m. insert-IsIn x n i.defined (w.included_defined x m);
  justified = w.justified;
}
after-WellFormed i n test_included h w = record {
  defined_once = w.defined_once;
  included_once = insert-Distinct n w.included_once;
  included_defined =
      λ x m. ground (arith, contains-insert x n i.included, text_eq_iff x n, w.included_defined x);
  justified =
      All-map (IsJustified i.included) (IsJustified (insert n i.included)) i.events
        (IsJustified-insert n i.included) w.justified;
}
after-WellFormed i n e h w =
    push_event-WellFormed i n e (Accepted-IsJustified i n e h (λ x. cc) (λ x. cc)) w

-- An accepted call of `record` keeps the record well-formed: no test is defined or included twice,
-- every included test is defined, and every entry stands at an included path.
pub record_event-WellFormed :
    (i : Inner) (n : Text) (e : Event) {i' : Inner}
    → record_event i n e ≡ some i'
    → WellFormed i
    → WellFormed i'
record_event-WellFormed i n e h w =
    let (a, eq) = Accepted-of_record_event i n e h in rw eq (after-WellFormed i n e a w)

pub WellFormed-new : WellFormed new
WellFormed-new = record {
  defined_once = Distinct.nil;
  included_once = Distinct.nil;
  included_defined = λ x m. m;
  justified = tt;
}

-- Calls of `record` in a row.
abbrev pub record_all : List (Text × Event) → Inner → Option Inner
record_all [] i = some i
record_all ((name, event) ∷ calls) i = elim (record_event i name event) [
  | none ↦ none
  | some j ↦ record_all calls j
]

pub record_all-WellFormed :
    (calls : List (Text × Event)) (i : Inner) {j : Inner}
    → record_all calls i ≡ some j
    → WellFormed i
    → WellFormed j
record_all-WellFormed [] i e w = let d : i ≡ _ = cc in subst WellFormed d w
record_all-WellFormed ((name, event) ∷ calls) i {j} e w =
    one (record_event i name event) (λ k h. record_event-WellFormed i name event h w)
      (λ k d v. record_all-WellFormed calls k d v) e
  where
    one :
        (o : Option Inner)
        → ((k : Inner) → o ≡ some k → WellFormed k)
        → ((k : Inner) → record_all calls k ≡ some j → WellFormed k → WellFormed j)
        → elim o as (λ _. Option Inner) [ none ↦ none | some k ↦ record_all calls k ] ≡ some j
        → WellFormed j
    one none h go d = absurd cc
    one (some k) h go d = go k d (h k refl)

-- After any calls of `record` on the empty record, all of them accepted, no more tests are counted as
-- included than as defined.
pub included-le-defined :
    (calls : List (Text × Event)) (i : Inner)
    → record_all calls new ≡ some i
    → tests_included i ≤ tests_defined i
included-le-defined calls i e =
    let w = record_all-WellFormed calls new e WellFormed-new in
    length-Subset i.defined w.included_once w.included_defined

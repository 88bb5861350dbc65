-- ===== src/Fixture.antt =====
-- crates/e2etest/src/fixture.rs: the fixture manager.
-- A fixture type is known by its `TypeId`, a number. The code of a fixture is not the library's: its
-- `setup` is a program over the two calls of the `Setup` trait, its `teardown` may fail.
pub mod Setup
pub mod Lifecycle
pub mod Later
pub mod TeardownOrder
pub mod TeardownEnds
use e2etest_rs.Prelude.{
  ℕ, zero, suc, ◌+◌, Bool, true, false, ◌||◌, Option, none, some, List, [], ◌∷◌, ◌++◌,
  if◌then◌else◌, ◌==◌, any, map,
}

abbrev pub TypeId : Type 0
TypeId = ℕ

-- The body of a fixture's `setup`. It ends with the fixtures that the new one holds by `Arc`, with
-- `None`, or by a panic. After a call it goes on by whether it was given an `Arc`.
pub data SetupProgram : Type 0 where
  give : List TypeId → SetupProgram
  skip : SetupProgram
  panic : SetupProgram
  setup : TypeId → (Bool → SetupProgram) → SetupProgram
  get : TypeId → (Bool → SetupProgram) → SetupProgram

-- `impl Fixture for Skip`
abbrev pub skip_fixture : SetupProgram
skip_fixture = skip

-- An entry of the cache: the fixture's type, and the fixtures that it holds.
pub record Cached : Type 0 where
  pub type_id : TypeId
  pub holds : List TypeId

pub record Inner : Type 0 where
  pub permanent : List TypeId
  pub cache : List Cached

abbrev pub new : Inner
new = record { permanent = []; cache = [] }

abbrev pub with_permanent : List TypeId → Inner
with_permanent fixtures = record { permanent = fixtures; cache = [] }

-- `Arc<F>`, from one of the two maps
pub data Arc : Type 0 where
  permanent_arc : TypeId → Arc
  cached_arc : TypeId → Arc

abbrev pub has_permanent : Inner → TypeId → Bool
has_permanent i t = any (λ p. p == t) i.permanent

abbrev pub has_cached : List Cached → TypeId → Bool
has_cached cache t = any (λ e. e.type_id == t) cache

unfoldable pub get_arc : Inner → TypeId → Option Arc
get_arc i t =
    if has_permanent i t
    then some (permanent_arc t)
    else if has_cached i.cache t
    then some (cached_arc t)
    else none

-- `cache.insert(key, value)`
unfoldable pub insert_cached : Cached → List Cached → List Cached
insert_cached c [] = c ∷ []
insert_cached c (e ∷ cache) =
    if e.type_id == c.type_id then c ∷ cache else e ∷ insert_cached c cache

-- How a future ends. `unfinished` is the model's own: the fuel is used up.
pub data Outcome (A : Type 0) : Type 0 where
  ready : A → Outcome A
  panicked : Outcome A
  unfinished : Outcome A

abbrev pub is_given : Outcome (Option Arc) → Outcome Bool
is_given (ready none) = ready false
is_given (ready (some _)) = ready true
is_given panicked = panicked
is_given unfinished = unfinished

abbrev pub is_some : Option Arc → Bool
is_some none = false
is_some (some _) = true

-- What follows a call: the rest of the program, unless the call ended it.
abbrev pub resume :
    {A : Type 0} → Outcome Bool → (Bool → Outcome A × Inner) → Inner → Outcome A × Inner
resume (ready b) rest i = rest b
resume panicked rest i = (panicked, i)
resume unfinished rest i = (unfinished, i)

-- A fixture's `setup` runs, with the manager's `setup` for the calls that it makes.
unfoldable pub run_program :
    (TypeId → Inner → Outcome (Option Arc) × Inner)
    → SetupProgram
    → Inner
    → Outcome (Option (List TypeId)) × Inner
run_program call (give holds) i = (ready (some holds), i)
run_program call skip i = (ready none, i)
run_program call panic i = (panicked, i)
run_program call (setup t next) i =
    let (o, i') = call t i in resume (is_given o) (λ b. run_program call (next b) i') i'
run_program call (get t next) i = run_program call (next (is_some (get_arc i t))) i

-- The end of `Inner::setup`: a fixture that was set up goes into the cache.
abbrev pub keep : TypeId → Outcome (Option (List TypeId)) × Inner → Outcome (Option Arc) × Inner
keep t (ready none, i) = (ready none, i)
keep t (ready (some holds), i) = (
  ready (some (cached_arc t)),
  record i { cache = insert_cached (record { type_id = t; holds = holds }) i.cache },
)
keep t (panicked, i) = (panicked, i)
keep t (unfinished, i) = (unfinished, i)

-- `Inner::setup`, with the program of each fixture type. The calls nest as the types of the fixtures
-- do, which is finite in the code, since a future's type cannot contain itself.
unfoldable pub setup_fixture :
    (TypeId → SetupProgram) → ℕ → TypeId → Inner → Outcome (Option Arc) × Inner
setup_fixture programs zero t i = (unfinished, i)
setup_fixture programs (suc fuel) t i =
    if has_permanent i t || has_cached i.cache t
    then (ready (get_arc i t), i)
    else keep t (run_program (setup_fixture programs fuel) (programs t) i)

abbrev count_held : TypeId → List TypeId → ℕ
count_held t [] = 0
count_held t (h ∷ hs) = let rest = count_held t hs in if h == t then suc rest else rest

-- How many `Arc`s of `t` the cached fixtures hold.
abbrev pub holders : TypeId → List Cached → ℕ
holders t [] = 0
holders t (e ∷ cache) = count_held t e.holds + holders t cache

-- `Arc::strong_count` of a cached fixture: the cache's, those outside the manager, and those that
-- the cached fixtures hold.
abbrev pub strong_count : (TypeId → ℕ) → List Cached → TypeId → ℕ
strong_count outside cache t = 1 + outside t + holders t cache

-- The fixtures torn down, in order, what is left in the cache, and whether a teardown failed.
pub record Teardown : Type 0 where
  pub done : List TypeId
  pub cache : List Cached
  pub failed : Bool

-- One pass of the `for` loop over `extract_if`. Entries before the present one that were kept stand
-- in `kept`; the counts are read as the loop reaches an entry, when those torn down have let go of
-- what they held. A failed teardown ends the future, and the entries not reached stay.
unfoldable pub extract : (TypeId → ℕ) → (TypeId → Bool) → List Cached → List Cached → Teardown
extract outside fails kept [] = record { done = []; cache = kept; failed = false }
extract outside fails kept (e ∷ rest) =
    let onward = extract outside fails kept rest in
    let past = extract outside fails (kept ++ e ∷ []) rest in
    if strong_count outside (kept ++ e ∷ rest) e.type_id == 1
    then if fails e.type_id
      then record { done = e.type_id ∷ []; cache = kept ++ rest; failed = true }
      else record onward { done = e.type_id ∷ onward.done }
    else past

abbrev is_nil : List TypeId → Bool
is_nil [] = true
is_nil (_ ∷ _) = false

-- `Inner::teardown`: passes until one finds nothing. `none` would mean that the fuel is used up.
unfoldable pub teardown : (TypeId → ℕ) → (TypeId → Bool) → ℕ → List Cached → Option Teardown
teardown outside fails zero cache = none
teardown outside fails (suc fuel) cache =
    let pass = extract outside fails [] cache in
    let again = teardown outside fails fuel pass.cache in
    if pass.failed || is_nil pass.done
    then some pass
    else elim again [ none ↦ none | some r ↦ some (record r { done = pass.done ++ r.done }) ]

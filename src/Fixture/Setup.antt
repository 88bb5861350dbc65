-- ===== src/Fixture/Setup.antt =====
-- fixture.rs: what `Inner::setup` returns and what it keeps, for any programs of the fixtures.
use e2etest_rs.Prelude.{
  ℕ, zero, suc, ◌<◌, ◌≡◌, ◌≢◌, refl, Bool, ◌||◌, Option, none, some, List, [], ◌∷◌, arith, ◌==◌,
  All, Bool-cases, inl, inr,
}
use mathlib.Core.Path.{subst}
use e2etest_rs.Fixture.{
  TypeId, SetupProgram, give, skip, panic, setup, get, Cached, Inner, Arc, has_permanent,
  has_cached, get_arc, insert_cached, Outcome, ready, panicked, unfinished, resume, is_given,
  is_some, run_program, keep, setup_fixture,
}
use e2etest_rs.Fixture.TeardownOrder.{IsUnique}
use e2etest_rs.Fixture.TeardownEnds.{HoldsBelow}

resume-keeps :
    {A : Type 0} (P : Inner → Type 0) (o : Outcome Bool) (rest : Bool → Outcome A × Inner)
    (i : Inner)
    → P i
    → ((b : Bool) → P (rest b).1)
    → P (resume o rest i).1
resume-keeps P (ready b) rest i h k = k b
resume-keeps P panicked rest i h k = h
resume-keeps P unfinished rest i h k = h

resume-finishes :
    {A : Type 0} (o : Outcome Bool) (rest : Bool → Outcome A × Inner) (i : Inner)
    → o ≢ unfinished
    → ((b : Bool) → (rest b).0 ≢ unfinished)
    → (resume o rest i).0 ≢ unfinished
resume-finishes (ready b) rest i h k = k b
resume-finishes panicked rest i h k = λ e. cc
resume-finishes unfinished rest i h k = absurd (h refl)

unfinished-of_is_given : (o : Outcome (Option Arc)) → is_given o ≡ unfinished → o ≡ unfinished
unfinished-of_is_given (ready none) e = cc
unfinished-of_is_given (ready (some a)) e = cc
unfinished-of_is_given panicked e = cc
unfinished-of_is_given unfinished e = refl

resume-held :
    {A : Type 0} {Q : Type 0} (o : Outcome Bool) (rest : Bool → Outcome A × Inner) (i : Inner)
    (a : A)
    → (resume o rest i).0 ≡ ready a
    → ((b : Bool) → (rest b).0 ≡ ready a → Q)
    → Q
resume-held (ready b) rest i a e k = k b e
resume-held panicked rest i a e k = cc
resume-held unfinished rest i a e k = cc

module _ (rank : TypeId → ℕ) where
  -- The program asks for fixtures below `n` alone, and holds such ones alone.
  abbrev pub IsRanked : ℕ → SetupProgram → Type 0
  IsRanked n (give holds) = All (λ h. rank h < n) holds
  IsRanked n skip = Unit
  IsRanked n panic = Unit
  IsRanked n (setup t next) = (rank t < n) × ((b : Bool) → IsRanked n (next b))
  IsRanked n (get t next) = (b : Bool) → IsRanked n (next b)

  module _ (call : TypeId → Inner → Outcome (Option Arc) × Inner) (n : ℕ) where
    -- What every call keeps, the program keeps.
    pub run_program-keeps :
        (P : Inner → Type 0)
        → ((t : TypeId) (i : Inner) → rank t < n → P i → P (call t i).1)
        → (p : SetupProgram) (i : Inner) → IsRanked n p
        → P i
        → P (run_program call p i).1
    unfolding run_program
    run_program-keeps P step (give holds) i r h = h
    run_program-keeps P step skip i r h = h
    run_program-keeps P step panic i r h = h
    run_program-keeps P step (setup t next) i r h =
        resume-keeps P (is_given (call t i).0) _ (call t i).1 (step t i r.0 h)
          (λ b. run_program-keeps P step (next b) (call t i).1 (r.1 b) (step t i r.0 h))
    run_program-keeps P step (get t next) i r h =
        run_program-keeps P step (next (is_some (get_arc i t))) i (r _) h

    run_program-finishes :
        ((t : TypeId) (i : Inner) → rank t < n → (call t i).0 ≢ unfinished)
        → (p : SetupProgram) (i : Inner) → IsRanked n p
        → (run_program call p i).0 ≢ unfinished
    unfolding run_program
    run_program-finishes step (give holds) i r = λ e. cc
    run_program-finishes step skip i r = λ e. cc
    run_program-finishes step panic i r = λ e. cc
    run_program-finishes step (setup t next) i r =
        resume-finishes (is_given (call t i).0) _ (call t i).1
          (λ e. step t i r.0 (unfinished-of_is_given (call t i).0 e))
          (λ b. run_program-finishes step (next b) (call t i).1 (r.1 b))
    run_program-finishes step (get t next) i r =
        run_program-finishes step (next (is_some (get_arc i t))) i (r _)

    -- What the program holds stands below `n`.
    run_program-held :
        (p : SetupProgram) (i : Inner) (holds : List TypeId)
        → IsRanked n p
        → (run_program call p i).0 ≡ ready (some holds)
        → All (λ h. rank h < n) holds
    unfolding run_program
    run_program-held (give held) i holds r e =
        subst (All (λ h. rank h < n)) (let s : held ≡ holds = cc in s) r
    run_program-held skip i holds r e = cc
    run_program-held panic i holds r e = cc
    run_program-held (setup t next) i holds r e =
        resume-held (is_given (call t i).0) _ (call t i).1 (some holds) e
          (λ b. run_program-held (next b) (call t i).1 holds (r.1 b))
    run_program-held (get t next) i holds r e =
        run_program-held (next (is_some (get_arc i t))) i holds (r _) e

  -- Every fixture's program asks for fixtures below it.
  module _ (programs : TypeId → SetupProgram)
      (ranked : (t : TypeId) → IsRanked (rank t) (programs t)) where
    keep-finishes :
        (t : TypeId) (o : Outcome (Option (List TypeId)) × Inner)
        → o.0 ≢ unfinished
        → (keep t o).0 ≢ unfinished
    keep-finishes t (ready none, i) h = λ e. cc
    keep-finishes t (ready (some holds), i) h = λ e. cc
    keep-finishes t (panicked, i) h = λ e. cc
    keep-finishes t (unfinished, i) h = absurd (h refl)

    -- If every fixture needs and holds fixtures of lower rank alone, a setup ends: fuel above the
    -- rank of the fixture is enough.
    pub setup_fixture-finishes :
        (fuel : ℕ) (t : TypeId) (i : Inner)
        → rank t < fuel
        → (setup_fixture programs fuel t i).0 ≢ unfinished
    unfolding setup_fixture
    setup_fixture-finishes zero t i h = absurd (omega arith)
    setup_fixture-finishes (suc fuel) t i h =
        elim (Bool-cases (has_permanent i t || has_cached i.cache t)) [
          | inl old ↦ rw old (λ e. cc)
          | inr fresh ↦ rw fresh (
              keep-finishes t (run_program (setup_fixture programs fuel) (programs t) i) (
                run_program-finishes (setup_fixture programs fuel) (rank t)
                  (λ u j below. setup_fixture-finishes fuel u j (omega arith)) (programs t) i
                  (ranked t)))
        ]

    -- The keys of the cache are distinct, and a fixture holds fixtures below it.
    pub record IsTidy (i : Inner) : Type 0 where
      pub unique : IsUnique i.cache
      pub below : All (HoldsBelow rank) i.cache

    pub has_cached-insert_cached :
        (c : Cached) (cache : List Cached) (t : TypeId)
        → has_cached (insert_cached c cache) t ≡ (c.type_id == t || has_cached cache t)
    unfolding insert_cached
    has_cached-insert_cached c [] t = ground arith
    has_cached-insert_cached c (e ∷ cache) t = ground (arith, has_cached-insert_cached c cache t)

    insert_cached-IsUnique :
        (c : Cached) (cache : List Cached) → IsUnique cache → IsUnique (insert_cached c cache)
    unfolding insert_cached
    insert_cached-IsUnique c [] u = ground arith
    insert_cached-IsUnique c (e ∷ cache) u = elim (Bool-cases (e.type_id == c.type_id)) [
      | inl same ↦ let k : e.type_id ≡ c.type_id = ground arith in rw same (rw k at u.0, u.1)
      | inr other ↦ rw other (
        ground (arith, u.0, has_cached-insert_cached c cache e.type_id),
        insert_cached-IsUnique c cache u.1,
      )
    ]

    insert_cached-All :
        (P : Cached → Type 0) (c : Cached) (cache : List Cached)
        → P c
        → All P cache
        → All P (insert_cached c cache)
    unfolding insert_cached
    insert_cached-All P c [] h all = (h, tt)
    insert_cached-All P c (e ∷ cache) h all = elim (Bool-cases (e.type_id == c.type_id)) [
      | inl same ↦ rw same (h, all.1)
      | inr other ↦ rw other (all.0, insert_cached-All P c cache h all.1)
    ]

    keep-IsTidy :
        (t : TypeId) (o : Outcome (Option (List TypeId)) × Inner)
        → ((holds : List TypeId) → o.0 ≡ ready (some holds) → All (λ h. rank h < rank t) holds)
        → IsTidy o.1
        → IsTidy (keep t o).1
    keep-IsTidy t (ready none, i) h tidy = tidy
    keep-IsTidy t (ready (some holds), i) h tidy = record {
      unique = insert_cached-IsUnique _ i.cache tidy.unique;
      below = insert_cached-All (HoldsBelow rank) _ i.cache (h holds refl) tidy.below;
    }
    keep-IsTidy t (panicked, i) h tidy = tidy
    keep-IsTidy t (unfinished, i) h tidy = tidy

    -- A setup keeps the cache tidy, whether it succeeds, skips or panics.
    pub setup_fixture-IsTidy :
        (fuel : ℕ) (t : TypeId) (i : Inner) → IsTidy i → IsTidy (setup_fixture programs fuel t i).1
    unfolding setup_fixture
    setup_fixture-IsTidy zero t i tidy = tidy
    setup_fixture-IsTidy (suc fuel) t i tidy =
        elim (Bool-cases (has_permanent i t || has_cached i.cache t)) [
          | inl old ↦ rw old tidy
          | inr fresh ↦
              let call = setup_fixture programs fuel in
              rw fresh (
                keep-IsTidy t (run_program call (programs t) i)
                  (λ holds e. run_program-held call (rank t) (programs t) i holds (ranked t) e)
                  (run_program-keeps call (rank t) IsTidy
                    (λ u j _ good. setup_fixture-IsTidy fuel u j good) (programs t) i (ranked t)
                    tidy))
        ]

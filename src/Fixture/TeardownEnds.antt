-- ===== src/Fixture/TeardownEnds.antt =====
-- fixture.rs: `Inner::teardown` ends, and leaves nothing behind where nothing blocks it.
use e2etest_rs.Prelude.{
  ℕ, zero, suc, ◌+◌, ◌≤◌, ◌<◌, ◌≡◌, refl, Bool, false, some, List, [], ◌∷◌, ◌++◌, arith, ◌==◌,
  length, length-append, All, All-append, Bool-cases, inl, inr,
}
use mathlib.Core.List.{append_assoc}
use mathlib.Core.Path.{subst}
use e2etest_rs.Fixture.{
  TypeId, Cached, count_held, holders, strong_count, extract, is_nil, teardown,
}

-- The fixture types can be numbered so that a fixture holds only ones below it.
module _ (rank : TypeId → ℕ) where
  abbrev pub HoldsBelow : Cached → Type 0
  HoldsBelow e = All (λ h. rank h < rank e.type_id) e.holds

  abbrev RankBelow : ℕ → Cached → Type 0
  RankBelow n e = rank e.type_id < n

  rank-of_held :
      (t n : ℕ) (holds : List TypeId)
      → All (λ h. rank h < n) holds
      → 0 < count_held t holds
      → rank t < n
  rank-of_held t n [] all h = absurd (omega arith)
  rank-of_held t n (x ∷ holds) all h = elim (Bool-cases (x == t)) [
    | inl same ↦ let e : x ≡ t = ground arith in rw e at all.0
    | inr other ↦ rank-of_held t n holds all.1 (ground arith)
  ]

  -- What is held stands strictly below the highest rank.
  rank-of_holders :
      (t n : ℕ) (cache : List Cached)
      → All HoldsBelow cache
      → All (RankBelow (suc n)) cache
      → 0 < holders t cache
      → rank t < n
  rank-of_holders t n [] holds below h = absurd (omega arith)
  rank-of_holders t n (e ∷ cache) holds below h = elim (Bool-cases (0 == count_held t e.holds)) [
    | inl free ↦ rank-of_holders t n cache holds.1 below.1 (ground arith)
    | inr held ↦
        omega (arith, rank-of_held t (rank e.type_id) e.holds holds.0 (ground arith), below.0)
  ]

  -- Entries that are all held by entries of `cache` stand one lower than those.
  All-held_lower :
      (n : ℕ) (cache entries : List Cached)
      → All HoldsBelow cache
      → All (RankBelow (suc n)) cache
      → All (λ e. 0 < holders e.type_id cache) entries
      → All (RankBelow n) entries
  All-held_lower n cache [] holds below held = tt
  All-held_lower n cache (e ∷ entries) holds below held = (
    rank-of_holders e.type_id n cache holds below held.0,
    All-held_lower n cache entries holds below held.1,
  )

  -- So a cache in which every fixture is held is empty.
  All-held_empty :
      (n : ℕ) (cache : List Cached)
      → All HoldsBelow cache
      → All (RankBelow n) cache
      → All (λ e. 0 < holders e.type_id cache) cache
      → cache ≡ []
  All-held_empty n [] holds below held = refl
  All-held_empty zero (e ∷ cache) holds below held = absurd (omega (arith, below.0))
  All-held_empty (suc n) (e ∷ cache) holds below held =
      All-held_empty n (e ∷ cache) holds (All-held_lower n (e ∷ cache) (e ∷ cache) holds below held)
        held

  highest : List Cached → ℕ
  highest [] = 0
  highest (e ∷ cache) = suc (rank e.type_id) + highest cache

  RankBelow-add :
      (m n : ℕ) (cache : List Cached) → m ≤ n → All (RankBelow m) cache → All (RankBelow n) cache
  RankBelow-add m n [] h all = tt
  RankBelow-add m n (e ∷ cache) h all = (omega (arith, all.0), RankBelow-add m n cache h all.1)

  RankBelow-highest : (cache : List Cached) → All (RankBelow (highest cache)) cache
  unfolding highest
  RankBelow-highest [] = tt
  RankBelow-highest (e ∷ cache) =
      (omega arith, RankBelow-add (highest cache) _ cache (omega arith) (RankBelow-highest cache))

-- A pass loses no entry: each is torn down or stays.
pub length-extract :
    (outside : TypeId → ℕ) (fails : TypeId → Bool) (kept rest : List Cached)
    → length (extract outside fails kept rest).done + length (extract outside fails kept rest).cache
      ≡ length kept + length rest
unfolding extract
length-extract outside fails kept [] = omega arith
length-extract outside fails kept (e ∷ rest) = ground (
  arith,
  length-extract outside fails kept rest,
  length-extract outside fails (kept ++ e ∷ []) rest,
  length-append kept rest,
  length-append kept (e ∷ []),
)

module _ {κ} (P : Cached → Type κ) (outside : TypeId → ℕ) (fails : TypeId → Bool) where
  pub All-extract :
      (kept rest : List Cached)
      → All P kept
      → All P rest
      → All P (extract outside fails kept rest).cache
  unfolding extract
  All-extract kept [] hk hr = hk
  All-extract kept (e ∷ rest) hk hr =
      elim (Bool-cases (strong_count outside (kept ++ e ∷ rest) e.type_id == 1)) [
        | inl free ↦ elim (Bool-cases (fails e.type_id)) [
          | inl bad ↦ rw (free, bad) (All-append P kept rest hk hr.1)
          | inr good ↦ rw (free, good) (All-extract kept rest hk hr.1)
        ]
        | inr held ↦
            rw held (All-extract (kept ++ e ∷ []) rest (All-append P kept _ hk (hr.0, tt)) hr.1)
      ]

-- Nothing fails, and nothing outside the manager holds a fixture.
module _ (outside : TypeId → ℕ) (unheld : (t : TypeId) → outside t ≡ 0) where
  unfoldable pub never : TypeId → Bool
  never _ = false

  -- A pass that tears nothing down has found every entry held, and has changed nothing.
  idle_pass :
      (kept rest : List Cached)
      → (extract outside never kept rest).done ≡ []
      → All (λ e. 0 < holders e.type_id (kept ++ rest)) rest
  unfolding extract never
  idle_pass kept [] h = tt
  idle_pass kept (e ∷ rest) h =
      elim (Bool-cases (strong_count outside (kept ++ e ∷ rest) e.type_id == 1)) [
        | inl free ↦ absurd (ground arith)
        | inr held ↦ (
          ground (arith, unheld e.type_id),
          subst (λ all. All (λ x. 0 < holders x.type_id all) rest) (append_assoc kept (e ∷ []) rest)
              (idle_pass (kept ++ e ∷ []) rest (ground arith)),
        )
      ]

  extract-never_fails : (kept rest : List Cached) → (extract outside never kept rest).failed ≡ false
  unfolding extract never
  extract-never_fails kept [] = refl
  extract-never_fails kept (e ∷ rest) =
      ground (arith, extract-never_fails kept rest, extract-never_fails (kept ++ e ∷ []) rest)

  module _ (rank : TypeId → ℕ) where
    -- Enough fuel is one more than the entries: the loop ends with an empty cache.
    pub teardown_ends :
        (fuel : ℕ) (cache : List Cached)
        → length cache < fuel
        → All (HoldsBelow rank) cache
        → (log : List TypeId) × (teardown outside never fuel cache
            ≡ some (record { done = log; cache = []; failed = false }))
    unfolding teardown
    teardown_ends zero cache h holds = absurd (omega arith)
    teardown_ends (suc fuel) [] h holds = ([], unfold extract never in refl)
    teardown_ends (suc fuel) (e ∷ cache) h holds =
        elim (Bool-cases (is_nil (extract outside never [] (e ∷ cache)).done)) [
          | inl idle ↦
              let free : e ∷ cache ≡ [] =
                All-held_empty rank (highest rank (e ∷ cache)) (e ∷ cache) holds
                  (RankBelow-highest rank (e ∷ cache)) (idle_pass [] (e ∷ cache) (ground arith)) in
              absurd (ground (arith, free))
          | inr some_done ↦
              let (log, ends) =
                teardown_ends fuel (extract outside never [] (e ∷ cache)).cache (shrinks some_done)
                  (All-extract (HoldsBelow rank) outside never [] (e ∷ cache) tt holds) in
              (
                (extract outside never [] (e ∷ cache)).done ++ log,
                ground (arith, some_done, ends, extract-never_fails [] (e ∷ cache)),
              )
        ]
      where
        shrinks :
            is_nil (extract outside never [] (e ∷ cache)).done ≡ false
            → length (extract outside never [] (e ∷ cache)).cache < fuel
        shrinks some_done =
            ground (arith, h, length-extract outside never [] (e ∷ cache), some_done)

-- ===== src/Fixture/Later.antt =====
-- fixture.rs: a fixture stays what it is while other fixtures are set up.
use e2etest_rs.Prelude.{
  ℕ, zero, suc, ◌≡◌, refl, sym, ◌∙◌, ap, Bool, true, false, ◌||◌, Option, none, some, List, [], ◌∷◌,
  arith, ◌==◌, any, if◌then◌else◌, Bool-cases, inl, inr,
}
use e2etest_rs.Fixture.{
  TypeId, SetupProgram, Cached, Inner, Arc, has_permanent, has_cached, get_arc, Outcome, ready,
  panicked, unfinished, run_program, keep, insert_cached, setup_fixture,
}
use e2etest_rs.Fixture.Setup.{IsRanked, run_program-keeps, has_cached-insert_cached}
use e2etest_rs.Fixture.Lifecycle.{get_arc-setup_fixture, setup_all}

-- The manager has the fixture.
abbrev pub knows : Inner → TypeId → Bool
knows i t = has_permanent i t || has_cached i.cache t

-- What the cached fixture holds.
abbrev pub holds_of : TypeId → List Cached → Option (List TypeId)
holds_of t [] = none
holds_of t (e ∷ cache) =
    let rest = holds_of t cache in if e.type_id == t then some e.holds else rest

pub holds_of-insert_cached :
    (c : Cached) (cache : List Cached) → holds_of c.type_id (insert_cached c cache) ≡ some c.holds
unfolding insert_cached
holds_of-insert_cached c [] = ground arith
holds_of-insert_cached c (e ∷ cache) = ground (arith, holds_of-insert_cached c cache)

holds_of-insert_cached_ne :
    (t : TypeId) (c : Cached) (cache : List Cached)
    → (c.type_id == t) ≡ false
    → holds_of t (insert_cached c cache) ≡ holds_of t cache
unfolding insert_cached
holds_of-insert_cached_ne t c [] n = ground arith
holds_of-insert_cached_ne t c (e ∷ cache) n = ground (arith, holds_of-insert_cached_ne t c cache n)

pub knows-of_get_arc : (i : Inner) (t : TypeId) (a : Arc) → get_arc i t ≡ some a → knows i t ≡ true
unfolding get_arc
knows-of_get_arc i t a h = ground arith

-- A fixture that the manager has is not one that it does not have.
ne-of_knows : (i : Inner) (t u : TypeId) → knows i u ≡ true → knows i t ≡ false → (t == u) ≡ false
ne-of_knows i t u h n = elim (Bool-cases (t == u)) [
  | inl e ↦
      let d : t ≡ u = ground arith in
      let same : false ≡ true = sym n ∙ ap (knows i) d ∙ h in absurd cc
  | inr e ↦ e
]

-- The manager has the fixture in both states, and as the same entry of the same map.
abbrev pub IsKept : TypeId → Inner → Inner → Type 0
IsKept t i j =
    (knows j t ≡ true) × (holds_of t j.cache ≡ holds_of t i.cache) × (j.permanent ≡ i.permanent)

get_arc-IsKept :
    (t : TypeId) (i j : Inner) (a : Arc)
    → get_arc i t ≡ some a
    → IsKept t i j
    → get_arc j t ≡ some a
unfolding get_arc
get_arc-IsKept t i j a g (k, _, p) =
    let same : has_permanent j t ≡ has_permanent i t = ap (any (λ q. q == t)) p in ground arith

module _ (rank : TypeId → ℕ) (programs : TypeId → SetupProgram)
    (ranked : (t : TypeId) → IsRanked rank (rank t) (programs t)) where
  pub keep-IsKept :
      (t u : TypeId) (i : Inner) (o : Outcome (Option (List TypeId)) × Inner)
      → (t == u) ≡ false
      → IsKept u i o.1
      → IsKept u i (keep t o).1
  keep-IsKept t u i (ready none, j) n h = h
  keep-IsKept t u i (ready (some holds), j) n (k, e, p) =
      let c : Cached = record { type_id = t; holds = holds } in
      (
        ground (arith, has_cached-insert_cached rank programs ranked c j.cache u),
        holds_of-insert_cached_ne u c j.cache n ∙ e,
        p,
      )
  keep-IsKept t u i (panicked, j) n h = h
  keep-IsKept t u i (unfinished, j) n h = h

  pub setup_fixture-IsKept :
      (fuel : ℕ) (t u : TypeId) (i j : Inner)
      → IsKept u i j
      → IsKept u i (setup_fixture programs fuel t j).1
  unfolding setup_fixture
  setup_fixture-IsKept zero t u i j h = h
  setup_fixture-IsKept (suc fuel) t u i j h =
      elim (Bool-cases (has_permanent j t || has_cached j.cache t)) [
        | inl old ↦ rw old h
        | inr fresh ↦ rw fresh (
            keep-IsKept t u i (run_program (setup_fixture programs fuel) (programs t) j)
              (ne-of_knows j t u h.0 fresh)
              (run_program-keeps rank (setup_fixture programs fuel) (rank t) (IsKept u i)
                (λ v k _ l. setup_fixture-IsKept fuel v u i k l) (programs t) j (ranked t) h))
      ]

  setup_all-IsKept :
      (fuel : ℕ) (ts : List TypeId) (u : TypeId) (i j : Inner)
      → IsKept u i j
      → IsKept u i (setup_all rank programs ranked fuel ts j)
  setup_all-IsKept fuel [] u i j h = h
  setup_all-IsKept fuel (t ∷ ts) u i j h =
      setup_all-IsKept fuel ts u i _ (setup_fixture-IsKept fuel t u i j h)

  -- For fixtures that need and hold fixtures of lower rank alone: when a setup has returned an `Arc`,
  -- then after any more setups, of the same fixture or of others, with any failures, and before a
  -- teardown, `get` returns that `Arc`, and what the cached fixture holds is as it was.
  pub get_arc-setup_all :
      (fuel later : ℕ) (t : TypeId) (ts : List TypeId) (i : Inner) (a : Arc)
      → (setup_fixture programs fuel t i).0 ≡ ready (some a)
      → let i' = (setup_fixture programs fuel t i).1 in
        let j = setup_all rank programs ranked later ts i' in
        (get_arc j t ≡ some a) × (holds_of t j.cache ≡ holds_of t i'.cache)
  get_arc-setup_all fuel later t ts i a e =
      let i' = (setup_fixture programs fuel t i).1 in
      let g = get_arc-setup_fixture rank programs ranked fuel t i a e in
      let kept = setup_all-IsKept later ts t i' i' (knows-of_get_arc i' t a g, refl, refl) in
      (get_arc-IsKept t i' _ a g kept, kept.1)

-- ===== src/Fixture/TeardownOrder.antt =====
-- fixture.rs: the order in which `Inner::teardown` tears down, whatever is held and whatever fails.
use e2etest_rs.Prelude.{
  ℕ, zero, suc, ◌<◌, ◌≡◌, refl, sym, ◌∙◌, ap, Bool, false, ◌||◌, some, List, [], ◌∷◌, ◌++◌, arith,
  if◌then◌else◌, ◌==◌, any-append, length, Bool-cases, inl, inr,
}
use mathlib.Core.List.{append_assoc, append-nil}
use mathlib.Core.Path.{subst}
use e2etest_rs.Fixture.{
  TypeId, Cached, Teardown, has_cached, strong_count, extract, is_nil, teardown,
}
use e2etest_rs.Fixture.TeardownEnds.{length-extract}

-- Each fixture type has one entry at most, as the keys of a map.
abbrev pub IsUnique : List Cached → Type 0
IsUnique [] = Unit
IsUnique (e ∷ cache) = (has_cached cache e.type_id ≡ false) × IsUnique cache

abbrev pub remove_cached : TypeId → List Cached → List Cached
remove_cached t [] = []
remove_cached t (e ∷ cache) = if e.type_id == t then cache else e ∷ remove_cached t cache

abbrev pub remove_all : List TypeId → List Cached → List Cached
remove_all [] cache = cache
remove_all (t ∷ log) cache = remove_all log (remove_cached t cache)

-- Each fixture of the log is torn down when the cache alone holds it: no live fixture and nothing
-- outside the manager can still reach it.
abbrev pub IsSafe : (TypeId → ℕ) → List Cached → List TypeId → Type 0
IsSafe outside cache [] = Unit
IsSafe outside cache (t ∷ log) =
    (strong_count outside cache t ≡ 1) × IsSafe outside (remove_cached t cache) log

remove_cached-middle :
    (kept : List Cached) (e : Cached) (rest : List Cached)
    → has_cached kept e.type_id ≡ false
    → remove_cached e.type_id (kept ++ e ∷ rest) ≡ kept ++ rest
remove_cached-middle [] e rest h = ground arith
remove_cached-middle (k ∷ kept) e rest h = ground (arith, remove_cached-middle kept e rest)

IsUnique-middle :
    (kept : List Cached) (e : Cached) (rest : List Cached)
    → IsUnique (kept ++ e ∷ rest)
    → (has_cached kept e.type_id ≡ false) × IsUnique (kept ++ rest)
IsUnique-middle [] e rest u = (refl, u.1)
IsUnique-middle (k ∷ kept) e rest u =
    let (absent, u') = IsUnique-middle kept e rest u.1 in
    (
      ground (arith, u.0, any-append (λ x. x.type_id == k.type_id) kept (e ∷ rest)),
      (
        ground (
          arith,
          u.0,
          any-append (λ x. x.type_id == k.type_id) kept (e ∷ rest),
          any-append (λ x. x.type_id == k.type_id) kept rest,
        ),
        u',
      ),
    )

module _ (outside : TypeId → ℕ) (fails : TypeId → Bool) where
  record IsOrdered (cache : List Cached) (r : Teardown) : Type 0 where
    safe : IsSafe outside cache r.done
    left : r.cache ≡ remove_all r.done cache
    unique : IsUnique r.cache

  extract-IsOrdered :
      (kept rest : List Cached)
      → IsUnique (kept ++ rest)
      → IsOrdered (kept ++ rest) (extract outside fails kept rest)
  unfolding extract
  extract-IsOrdered kept [] u = record {
    safe = tt;
    left = rw append-nil;
    unique = rw append-nil at u;
  }
  extract-IsOrdered kept (e ∷ rest) u =
      elim (Bool-cases (strong_count outside (kept ++ e ∷ rest) e.type_id == 1)) [
        | inl free ↦ elim (Bool-cases (fails e.type_id)) [
          | inl bad ↦
              rw (free, bad)
                (record { safe = (ground arith, tt); left = sym gone; unique = others })
          | inr good ↦
              let o = extract-IsOrdered kept rest others in
              rw (free, good)
                (record {
                  safe = (ground arith, rw gone o.safe);
                  left = o.left ∙ ap (remove_all (extract outside fails kept rest).done) (sym gone);
                  unique = o.unique;
                })
        ]
        | inr held ↦ rw held (
            subst (λ all. IsOrdered all (extract outside fails (kept ++ e ∷ []) rest))
              (append_assoc kept (e ∷ []) rest)
              (extract-IsOrdered (kept ++ e ∷ []) rest (rw append_assoc u)))
      ]
    where
      gone : remove_cached e.type_id (kept ++ e ∷ rest) ≡ kept ++ rest
      gone = remove_cached-middle kept e rest (IsUnique-middle kept e rest u).0

      others : IsUnique (kept ++ rest)
      others = (IsUnique-middle kept e rest u).1

  IsSafe-append :
      (cache : List Cached) (a b : List TypeId)
      → IsSafe outside cache a
      → IsSafe outside (remove_all a cache) b
      → IsSafe outside cache (a ++ b)
  IsSafe-append cache [] b ha hb = hb
  IsSafe-append cache (t ∷ a) b ha hb = (ha.0, IsSafe-append (remove_cached t cache) a b ha.1 hb)

  remove_all-append :
      (cache : List Cached) (a b : List TypeId)
      → remove_all (a ++ b) cache ≡ remove_all b (remove_all a cache)
  remove_all-append cache [] b = refl
  remove_all-append cache (t ∷ a) b = remove_all-append (remove_cached t cache) a b

  -- With one round of fuel more than there are entries, the teardown of a cache with one entry at
  -- most for each fixture ends. Each fixture that it tore down was then held by the cache alone,
  -- and the cache is left with the entries that were not torn down: nothing is lost and nothing is
  -- torn down twice. This holds also when a teardown fails.
  pub teardown_ordered :
      (fuel : ℕ) (cache : List Cached)
      → length cache < fuel
      → IsUnique cache
      → (r : Teardown) × (teardown outside fails fuel cache ≡ some r)
        × IsSafe outside cache r.done
        × (r.cache ≡ remove_all r.done cache)
  unfolding teardown
  teardown_ordered zero cache h u = absurd (omega arith)
  teardown_ordered (suc fuel) cache h u = elim (Bool-cases (pass.failed || is_nil pass.done)) [
    | inl last ↦ (pass, rw last, o.safe, o.left)
    | inr more ↦
        let (r, ends, safe, left) = teardown_ordered fuel pass.cache (shrinks more) o.unique in
        (
          record r { done = pass.done ++ r.done },
          rw (more, ends),
          IsSafe-append cache pass.done r.done o.safe (rw (← o.left) safe),
          left ∙ rw (remove_all-append cache pass.done r.done, ← o.left),
        )
  ]
    where
      pass : Teardown
      pass = extract outside fails [] cache

      o : IsOrdered cache pass
      o = extract-IsOrdered [] cache u

      shrinks : (pass.failed || is_nil pass.done) ≡ false → length pass.cache < fuel
      shrinks more = ground (arith, h, length-extract outside fails [] cache, more)

-- ===== src/Backtrace/Saved.antt =====
-- backtrace.rs: what is kept of the panics of a run.
use e2etest_rs.Prelude.{
  ℕ, zero, suc, ◌≤◌, ◌≡◌, refl, sym, ◌∙◌, ap, List, [], ◌∷◌, ◌++◌, length, arith,
}
use mathlib.Core.Path.{subst}
use e2etest_rs.Prelude.Text.{Text}
use e2etest_rs.Backtrace.{
  Surroundings, text_at, write_text, Hook, standard, other, saving, Memory, Process, call_hook,
  panic_all, get, setup_panic_hook, clear_panic_hook,
}

text_at-last : (texts : List Text) (t : Text) → text_at (length texts) (texts ++ t ∷ []) ≡ t
text_at-last [] t = refl
text_at-last (u ∷ texts) t = text_at-last texts t

write_text-last :
    (texts : List Text) (t u : Text)
    → write_text (length texts) u (texts ++ t ∷ []) ≡ texts ++ u ∷ []
write_text-last [] t u = refl
write_text-last (x ∷ texts) t u = ap (◌∷◌ x) (write_text-last texts t u)

write_text-append :
    (k : ℕ) (texts : List Text) (t u : Text)
    → suc k ≤ length texts
    → write_text k u (texts ++ t ∷ []) ≡ write_text k u texts ++ t ∷ []
write_text-append k [] t u h = ground (arith, h)
write_text-append zero (x ∷ texts) t u h = refl
write_text-append (suc k) (x ∷ texts) t u h =
    ap (◌∷◌ x) (write_text-append k texts t u (omega (arith, h)))

length-write_text :
    (k : ℕ) (u : Text) (texts : List Text) → length (write_text k u texts) ≡ length texts
length-write_text k u [] = refl
length-write_text zero u (x ∷ texts) = refl
length-write_text (suc k) u (x ∷ texts) = ap suc (length-write_text k u texts)

-- The text of the last panic, if there is one.
abbrev pub last_dump : {A : Type 0} → Text → List (A × Text) → Text
last_dump t [] = t
last_dump t ((info, dump) ∷ panics) = last_dump dump panics

module _ (su : Surroundings) where
  -- The hook writes only texts that are there.
  abbrev pub IsLive : Hook su → ℕ → Type 0
  IsLive standard n = Unit
  IsLive (other hook) n = Unit
  IsLive (saving b old) n = (suc b.place ≤ n) × IsLive old n

  -- One text more.
  abbrev grow : Text → Memory su → Memory su
  grow t m = record m { texts = m.texts ++ t ∷ [] }

  call_hook-grow :
      (h : Hook su) (info : su.Info) (dump t : Text) (m : Memory su)
      → IsLive h (length m.texts)
      → call_hook su h info dump (grow t m) ≡ grow t (call_hook su h info dump m)
  unfolding call_hook
  call_hook-grow standard info dump t m h = refl
  call_hook-grow (other f) info dump t m h = refl
  call_hook-grow (saving b old) info dump t m h =
      rw (write_text-append b.place m.texts t dump h.0) (
        call_hook-grow old info dump t (record m { texts = write_text b.place dump m.texts })
          (rw (length-write_text b.place dump m.texts) h.1))

  length-call_hook :
      (h : Hook su) (info : su.Info) (dump : Text) (m : Memory su)
      → length (call_hook su h info dump m).texts ≡ length m.texts
  unfolding call_hook
  length-call_hook standard info dump m = refl
  length-call_hook (other f) info dump m = refl
  length-call_hook (saving b old) info dump m =
      length-call_hook old info dump (record m { texts = write_text b.place dump m.texts })
      ∙ length-write_text b.place dump m.texts

  -- The process, with a hook of `setup_panic_hook` around its own, and the text that it saves.
  abbrev around : ℕ → Text → Process su → Process su
  around n t p = record { hook = saving (record { place = n }) p.hook; memory = grow t p.memory }

  call_hook-around :
      (info : su.Info) (dump t : Text) (n : ℕ) (h : Hook su) (m : Memory su)
      → n ≡ length m.texts
      → IsLive h n
      → call_hook su (saving (record { place = n }) h) info dump (grow t m)
        ≡ grow dump (call_hook su h info dump m)
  call_hook-around info dump t n h m e live =
      unfold call_hook in
      (ap (λ texts. call_hook su h info dump (record m { texts = texts }))
        (ap (λ k. write_text k dump (m.texts ++ t ∷ [])) e ∙ write_text-last m.texts t dump))
      ∙ call_hook-grow h info dump dump m (subst (IsLive h) e live)

  panic_all-around :
      (n : ℕ) (panics : List (su.Info × Text)) (t : Text) (p : Process su)
      → n ≡ length p.memory.texts
      → IsLive p.hook n
      → panic_all su panics (around n t p) ≡ around n (last_dump t panics) (panic_all su panics p)
  panic_all-around n [] t p e h = refl
  panic_all-around n ((info, dump) ∷ panics) t p e h =
      ap
        (λ m.
          panic_all su panics (record { hook = saving (record { place = n }) p.hook; memory = m }))
        (call_hook-around info dump t n p.hook p.memory e h)
      ∙ panic_all-around n panics dump
          (record p { memory = call_hook su p.hook info dump p.memory })
          (e ∙ sym (length-call_hook p.hook info dump p.memory)) h

  length-panic_all :
      (panics : List (su.Info × Text)) (p : Process su)
      → length (panic_all su panics p).memory.texts ≡ length p.memory.texts
  length-panic_all [] p = refl
  length-panic_all ((info, dump) ∷ panics) p =
      length-panic_all panics (record p { memory = call_hook su p.hook info dump p.memory })
      ∙ length-call_hook p.hook info dump p.memory

-- After any panics under the hook of a run, the backtrace of the run is that of the last panic, or
-- empty if there was none; the hook that the run found was called for each of them, so that all else
-- is as without the run's hook. When the run clears its hook, the standard one is left, whichever
-- hook the run found. The hook that the run found writes only texts that are there.
pub setup_panic_hook-saves :
    (su : Surroundings) (p : Process su) (panics : List (su.Info × Text))
    → IsLive su p.hook (length p.memory.texts)
    → let (backtrace, q) = setup_panic_hook su p in
      let r = panic_all su panics q in
      let plain = panic_all su panics p in
      (get su backtrace r.memory ≡ last_dump [] panics)
      × (r.memory.world ≡ plain.memory.world)
      × (r.memory.texts ≡ plain.memory.texts ++ last_dump [] panics ∷ [])
      × ((clear_panic_hook su r).hook ≡ standard)
setup_panic_hook-saves su p panics h =
    let plain = panic_all su panics p in
    let e = panic_all-around su (length p.memory.texts) panics [] p refl h in
    let texts = ap (λ (s : Process su). s.memory.texts) e in
    (
      ap (text_at (length p.memory.texts)) texts
          ∙ subst
              (λ n.
                text_at n (plain.memory.texts ++ last_dump [] panics ∷ []) ≡ last_dump [] panics)
              (length-panic_all su panics p)
              (text_at-last plain.memory.texts (last_dump [] panics)),
      ap (λ (s : Process su). s.memory.world) e,
      texts,
      refl,
    )

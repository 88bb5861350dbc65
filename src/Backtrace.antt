-- ===== src/Backtrace.antt =====
-- crates/e2etest/src/backtrace.rs: the panic hook that keeps the last backtrace of the tasks.
pub mod Saved
use e2etest_rs.Prelude.{ℕ, zero, suc, List, [], ◌∷◌, ◌++◌, length}
use e2etest_rs.Prelude.Text.{Text}

-- What a panic is told to the hooks as, what the hooks change, and what the standard hook does to it.
pub record Surroundings : Type 1 where
  pub Info : Type 0
  pub World : Type 0
  pub print : Info → World → World

-- The texts that the `Arc<RwLock<String>>` share, by the order of their making.
abbrev pub text_at : ℕ → List Text → Text
text_at k [] = []
text_at zero (t ∷ texts) = t
text_at (suc k) (t ∷ texts) = text_at k texts

-- `*backtrace.0.write().unwrap() = t`
abbrev pub write_text : ℕ → Text → List Text → List Text
write_text k t [] = []
write_text zero t (u ∷ texts) = t ∷ texts
write_text (suc k) t (u ∷ texts) = u ∷ write_text k t texts

-- `Backtrace`: which of the texts it shares.
pub record Backtrace : Type 0 where
  pub place : ℕ

module _ (su : Surroundings) where
  -- The hook of the process: the standard one, one of another library, or the closure of
  -- `setup_panic_hook` with what it captured.
  pub data Hook : Type 0 where
    standard : Hook
    other : (su.Info → su.World → su.World) → Hook
    saving : Backtrace → Hook → Hook

  pub record Memory : Type 0 where
    pub texts : List Text
    pub world : su.World

  pub record Process : Type 0 where
    pub hook : Hook
    pub memory : Memory

  -- A hook is called, at a moment where `taskdump_tree` returns `dump`.
  unfoldable pub call_hook : Hook → su.Info → Text → Memory → Memory
  call_hook standard info dump m = record m { world = su.print info m.world }
  call_hook (other hook) info dump m = record m { world = hook info m.world }
  call_hook (saving backtrace old_hook) info dump m =
      call_hook old_hook info dump (record m { texts = write_text backtrace.place dump m.texts })

  -- Panics, each with what `taskdump_tree` returns then.
  abbrev pub panic_all : List (su.Info × Text) → Process → Process
  panic_all [] p = p
  panic_all ((info, dump) ∷ panics) p =
      panic_all panics (record p { memory = call_hook p.hook info dump p.memory })

  -- `Backtrace::new`
  abbrev pub new : Memory → Backtrace × Memory
  new m = (record { place = length m.texts }, record m { texts = m.texts ++ [] ∷ [] })

  -- `Backtrace::get`
  abbrev pub get : Backtrace → Memory → Text
  get backtrace m = text_at backtrace.place m.texts

  -- `panic::take_hook`
  abbrev pub take_hook : Process → Hook × Process
  take_hook p = (p.hook, record p { hook = standard })

  -- `panic::set_hook`
  abbrev pub set_hook : Hook → Process → Process
  set_hook hook p = record p { hook = hook }

  abbrev pub setup_panic_hook : Process → Backtrace × Process
  setup_panic_hook p =
      let (backtrace, m) = new p.memory in
      let (old_hook, q) = take_hook (record p { memory = m }) in
      (backtrace, set_hook (saving backtrace old_hook) q)

  abbrev pub clear_panic_hook : Process → Process
  clear_panic_hook p = let (hook, q) = take_hook p in q

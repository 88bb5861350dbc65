-- ===== src/Examples/Panics.antt =====
-- Two panics under the hook of a run, in a process with a hook of its own.
use e2etest_rs.Prelude.{ℕ, suc, ◌+◌, ◌≡◌, List, [], ◌∷◌}
use e2etest_rs.Prelude.Text.{Text, codes}
use e2etest_rs.Backtrace.{
  Surroundings, Process, call_hook, standard, other, panic_all, get, setup_panic_hook,
  clear_panic_hook,
}
use e2etest_rs.Backtrace.Saved.{setup_panic_hook-saves}

-- The world adds up the numbers that the hooks are told.
abbrev adding : Surroundings
adding = record { Info = ℕ; World = ℕ; print = λ info world. suc world }

abbrev found : Process adding
found = record {
  hook = other (λ info world. info + world);
  memory = record { texts = []; world = 0 };
}

abbrev panics : List (ℕ × Text)
panics = (3, codes "first") ∷ (4, codes "second") ∷ []

abbrev run : Process adding
run = panic_all adding panics (setup_panic_hook adding found).1

setup_panic_hook-saves_example :
    (get adding (setup_panic_hook adding found).0 run.memory ≡ codes "second")
    × (run.memory.world ≡ 7)
    × (run.memory.texts ≡ codes "second" ∷ [])
    × ((clear_panic_hook adding run).hook ≡ standard)
unfolding call_hook
setup_panic_hook-saves_example = setup_panic_hook-saves adding found panics tt

-- ===== src/Statistics/Accounts.antt =====
-- statistics.rs: how one recorded event moves the counters against one another.
use e2etest_rs.Prelude.{ℕ, suc, ◌+◌, ◌≡◌, Bool, [], ◌∷◌, arith, if◌then◌else◌, count-append}
use e2etest_rs.Prelude.Text.{Text}
use e2etest_rs.Statistics.{
  Event, EventEntry, Inner, setup_launched, setup_skipped, setup_passed, setup_failed,
  teardown_launched, teardown_passed, teardown_failed, test_launched, test_passed, test_failed,
  setups_launched, setups_passed, setups_skipped, setups_failed, teardowns_launched,
  teardowns_passed, teardowns_failed, tests_launched, tests_passed, tests_failed, count_events,
  push_event, is_setup_launched, is_setup_passed, is_setup_skipped, is_setup_failed,
  is_teardown_launched, is_teardown_passed, is_teardown_failed, is_test_launched, is_test_passed,
  is_test_failed,
}

-- How many setups, teardowns and tests were launched and have no result yet, and how many setups
-- were launched with no teardown launched for them yet; and how many setups were launched in all.
pub record Accounts (open_setups open_teardowns open_tests owed launched : ℕ) (i : Inner)
    : Type 0 where
  pub total : setups_launched i ≡ launched
  pub setups :
      setups_launched i ≡ setups_passed i + setups_skipped i + setups_failed i + open_setups
  pub teardowns : teardowns_launched i ≡ teardowns_passed i + teardowns_failed i + open_teardowns
  pub tests : tests_launched i ≡ tests_passed i + tests_failed i + open_tests
  pub pairs : setups_launched i ≡ teardowns_launched i + owed

pub count_events-push :
    (p : Event → Bool) (i : Inner) (name : Text) (event : Event)
    → count_events p (push_event i name event) ≡ count_events p i + (if p event then 1 else 0)
count_events-push p i name event = ground (
  arith,
  count-append (λ (e : EventEntry). p e.event) i.events
      (record { name = name; event = event } ∷ []),
)

-- The counters after an entry, all at once.
pub record Counted (i : Inner) (event : Event) (j : Inner) : Type 0 where
  pub s_l : setups_launched j ≡ setups_launched i + (if is_setup_launched event then 1 else 0)
  pub s_p : setups_passed j ≡ setups_passed i + (if is_setup_passed event then 1 else 0)
  pub s_s : setups_skipped j ≡ setups_skipped i + (if is_setup_skipped event then 1 else 0)
  pub s_f : setups_failed j ≡ setups_failed i + (if is_setup_failed event then 1 else 0)
  pub d_l :
      teardowns_launched j ≡ teardowns_launched i + (if is_teardown_launched event then 1 else 0)
  pub d_p : teardowns_passed j ≡ teardowns_passed i + (if is_teardown_passed event then 1 else 0)
  pub d_f : teardowns_failed j ≡ teardowns_failed i + (if is_teardown_failed event then 1 else 0)
  pub t_l : tests_launched j ≡ tests_launched i + (if is_test_launched event then 1 else 0)
  pub t_p : tests_passed j ≡ tests_passed i + (if is_test_passed event then 1 else 0)
  pub t_f : tests_failed j ≡ tests_failed i + (if is_test_failed event then 1 else 0)

Counted-push_event :
    (i : Inner) (name : Text) (event : Event) → Counted i event (push_event i name event)
Counted-push_event i name event = record {
  s_l = count_events-push is_setup_launched i name event;
  s_p = count_events-push is_setup_passed i name event;
  s_s = count_events-push is_setup_skipped i name event;
  s_f = count_events-push is_setup_failed i name event;
  d_l = count_events-push is_teardown_launched i name event;
  d_p = count_events-push is_teardown_passed i name event;
  d_f = count_events-push is_teardown_failed i name event;
  t_l = count_events-push is_test_launched i name event;
  t_p = count_events-push is_test_passed i name event;
  t_f = count_events-push is_test_failed i name event;
}

-- The effect of an entry on the accounts.
abbrev pub IsSetupResult : Event → Type 0
IsSetupResult (setup_skipped _) = Unit
IsSetupResult setup_passed = Unit
IsSetupResult (setup_failed _) = Unit
IsSetupResult _ = ⊥

abbrev pub IsTeardownResult : Event → Type 0
IsTeardownResult teardown_passed = Unit
IsTeardownResult teardown_failed = Unit
IsTeardownResult _ = ⊥

abbrev pub IsTestResult : Event → Type 0
IsTestResult test_passed = Unit
IsTestResult test_failed = Unit
IsTestResult _ = ⊥

module _ {i j : Inner} {a b c d n : ℕ} where
  setup_launched-moves :
      Counted i setup_launched j → Accounts a b c d n i → Accounts (suc a) b c (suc d) (suc n) j
  setup_launched-moves k h = omega arith

  setup_result-moves :
      (e : Event)
      → IsSetupResult e
      → Counted i e j
      → Accounts (suc a) b c d n i
      → Accounts a b c d n j
  setup_result-moves (setup_skipped t) r k h = omega arith
  setup_result-moves setup_passed r k h = omega arith
  setup_result-moves (setup_failed t) r k h = omega arith
  setup_result-moves _ r k h = absurd r

  teardown_launched-moves :
      Counted i teardown_launched j → Accounts a b c (suc d) n i → Accounts a (suc b) c d n j
  teardown_launched-moves k h = omega arith

  teardown_result-moves :
      (e : Event)
      → IsTeardownResult e
      → Counted i e j
      → Accounts a (suc b) c d n i
      → Accounts a b c d n j
  teardown_result-moves teardown_passed r k h = omega arith
  teardown_result-moves teardown_failed r k h = omega arith
  teardown_result-moves _ r k h = absurd r

  test_launched-moves :
      Counted i test_launched j → Accounts a b c d n i → Accounts a b (suc c) d n j
  test_launched-moves k h = omega arith

  test_result-moves :
      (e : Event)
      → IsTestResult e
      → Counted i e j
      → Accounts a b (suc c) d n i
      → Accounts a b c d n j
  test_result-moves test_passed r k h = omega arith
  test_result-moves test_failed r k h = omega arith
  test_result-moves _ r k h = absurd r

module _ {i : Inner} {a b c d n : ℕ} (name : Text) where
  pub Accounts-setup_launched :
      Accounts a b c d n i → Accounts (suc a) b c (suc d) (suc n) (push_event i name setup_launched)
  Accounts-setup_launched = setup_launched-moves (Counted-push_event i name setup_launched)

  pub Accounts-setup_result :
      (e : Event)
      → IsSetupResult e
      → Accounts (suc a) b c d n i
      → Accounts a b c d n (push_event i name e)
  Accounts-setup_result e r = setup_result-moves e r (Counted-push_event i name e)

  pub Accounts-teardown_launched :
      Accounts a b c (suc d) n i → Accounts a (suc b) c d n (push_event i name teardown_launched)
  Accounts-teardown_launched = teardown_launched-moves (Counted-push_event i name teardown_launched)

  pub Accounts-teardown_result :
      (e : Event)
      → IsTeardownResult e
      → Accounts a (suc b) c d n i
      → Accounts a b c d n (push_event i name e)
  Accounts-teardown_result e r = teardown_result-moves e r (Counted-push_event i name e)

  pub Accounts-test_launched :
      Accounts a b c d n i → Accounts a b (suc c) d n (push_event i name test_launched)
  Accounts-test_launched = test_launched-moves (Counted-push_event i name test_launched)

  pub Accounts-test_result :
      (e : Event)
      → IsTestResult e
      → Accounts a b (suc c) d n i
      → Accounts a b c d n (push_event i name e)
  Accounts-test_result e r = test_result-moves e r (Counted-push_event i name e)

-- ===== src/System/Os.antt =====
-- The system calls of the actors. `none` is a call that failed: every actor panics on it.
use Prim.Native.Nat.{bit_and}
use e2etest_rs.Prelude.{
  List, [], ◌∷◌, All, All-map, ◌&&◌, not, ◌==◌, ◌≡◌, refl, ℕ, Bool, true, false, Option, none, some,
}
use e2etest_rs.Prelude.Text.{Text}
use e2etest_rs.System.Command.{Ipv4Addr, Command, Output}
use e2etest_rs.Runner.Runtime.{Yields, yields, ◌>>=◌}

-- How an attempt to connect under a timeout ends.
pub data Connection : Type 0 where
  connected : Connection
  refused : Connection
  timed_out : Connection

-- The system with its processes and temporary directories. `drop_child` and `drop_temp_dir` are what
-- dropping the handle does; `get_json_string` is the JSON string that a
-- `GET` request is answered with, if it is. `metadata` says whether the path is a file, and its mode.
pub record Os : Type 1 where
  pub World : Type 0
  pub Child : Type 0
  pub TempDir : Type 0
  pub new_temp_dir : Text → World → Option (TempDir × World)
  pub temp_path : TempDir → Text
  pub drop_temp_dir : TempDir → World → World
  pub find_user : Text → World → Option (ℕ × ℕ)
  pub chown : Text → ℕ × ℕ → World → Option (Unit {0} × World)
  pub write_file : Text → Text → World → Option (Unit {0} × World)
  pub create_new_file : Text → Text → World → Option (Unit {0} × World)
  pub create_dir_all : Text → World → Option (Unit {0} × World)
  pub spawn : Command → World → Option (Child × World)
  pub start_kill : Child → World → Option (Unit {0} × World)
  pub wait : Child → World → Option (Unit {0} × World)
  pub drop_child : Child → World → World
  pub output : Command → World → Option (Output × World)
  pub connects : Ipv4Addr → ℕ → ℕ → World → Connection × World
  pub get_json_string : Text → World → Option Text × World
  pub sleep : ℕ → World → World
  pub default_temp_dir : Text
  pub metadata : Text → World → Option (Bool × ℕ) × World

module _ (os : Os) where
  -- A call that may fail, on the system.
  abbrev pub Io : Type 0 → Type 0
  Io A = os.World → Option (A × os.World)

  -- A call that cannot fail.
  abbrev pub total : {A : Type 0} → (os.World → A × os.World) → Io A
  total f w = some (f w)

  abbrev pub total_ : (os.World → os.World) → Io (Unit {0})
  total_ f w = some (tt, f w)

  -- The handle of a field that is overwritten is dropped.
  abbrev pub drop_old_child : Option os.Child → Io (Unit {0})
  drop_old_child none w = some (tt, w)
  drop_old_child (some c) w = some (tt, os.drop_child c w)

  abbrev pub drop_old_dir : Option os.TempDir → Io (Unit {0})
  drop_old_dir none w = some (tt, w)
  drop_old_dir (some d) w = some (tt, os.drop_temp_dir d w)

  abbrev pub Returns : {A : Type 0} → Option (A × os.World) → Type 0
  Returns r = Yields (λ _ _. Unit) r

  -- A system on which the calls that make, start and stop things succeed.
  pub record IsHealthy : Type 0 where
    pub new_temp_dir : (p : Text) (w : os.World) → Returns (os.new_temp_dir p w)
    pub chown : (p : Text) (u : ℕ × ℕ) (w : os.World) → Returns (os.chown p u w)
    pub write_file : (p t : Text) (w : os.World) → Returns (os.write_file p t w)
    pub create_new_file : (p t : Text) (w : os.World) → Returns (os.create_new_file p t w)
    pub create_dir_all : (p : Text) (w : os.World) → Returns (os.create_dir_all p w)
    pub spawn : (c : Command) (w : os.World) → Returns (os.spawn c w)
    pub start_kill : (c : os.Child) (w : os.World) → Returns (os.start_kill c w)
    pub wait : (c : os.Child) (w : os.World) → Returns (os.wait c w)
    pub output : (c : Command) (w : os.World) → Returns (os.output c w)

module _ (os : Os) where
  -- What is relied on when a process is stopped: `wait` returns once the process has ended, which is
  -- certain only after the signal; a process that has ended does not run again.
  pub record Stops : Type 0 where
    pub signalled : os.Child → os.World → Bool
    pub ended : os.Child → os.World → Bool
    pub start_kill :
        (c : os.Child) (w : os.World)
        → Yields
            (λ _ v. (signalled c v ≡ true) × ((d : os.Child) → ended d w ≡ true → ended d v ≡ true))
            (os.start_kill c w)
    pub wait :
        (c : os.Child) (w : os.World)
        → signalled c w ≡ true
        → Yields
            (λ _ v. (ended c v ≡ true) × ((d : os.Child) → ended d w ≡ true → ended d v ≡ true))
            (os.wait c w)
    pub drop_child :
        (c d : os.Child) (w : os.World) → ended d w ≡ true → ended d (os.drop_child c w) ≡ true
    pub drop_temp_dir :
        (t : os.TempDir) (d : os.Child) (w : os.World)
        → ended d w ≡ true
        → ended d (os.drop_temp_dir t w) ≡ true

  module _ (stops : Stops) where
    -- What has ended stays so.
    abbrev pub Keeps : os.World → os.World → Type 0
    Keeps w v = (d : os.Child) → stops.ended d w ≡ true → stops.ended d v ≡ true

    abbrev pub AllEnded : List os.Child → os.World → Type 0
    AllEnded cs w = All (λ c. stops.ended c w ≡ true) cs

    pub AllEnded-Keeps :
        (cs : List os.Child) {w v : os.World} → Keeps w v → AllEnded cs w → AllEnded cs v
    AllEnded-Keeps cs keep h = All-map _ _ cs keep h

    pub drop_old_child-Keeps :
        (c : Option os.Child) (w : os.World) → Yields (λ _ v. Keeps w v) (drop_old_child os c w)
    drop_old_child-Keeps none w = yields λ d e. e
    drop_old_child-Keeps (some c) w = yields λ d. stops.drop_child c d w

    pub drop_old_dir-Keeps :
        (t : Option os.TempDir) (w : os.World) → Yields (λ _ v. Keeps w v) (drop_old_dir os t w)
    drop_old_dir-Keeps none w = yields λ d e. e
    drop_old_dir-Keeps (some t) w = yields λ d. stops.drop_temp_dir t d w

  -- The process of a node, if it has one.
  abbrev pub child_of : Option os.Child → List os.Child
  child_of none = []
  child_of (some c) = c ∷ []

-- `metadata.is_file() && (metadata.permissions().mode() & 0o111 != 0)`
abbrev pub is_executable : Option (Bool × ℕ) → Bool
is_executable none = false
is_executable (some (is_file, mode)) = is_file && not (bit_and mode 0o111 == 0)

abbrev pub is_some_file : Option (Bool × ℕ) → Bool
is_some_file none = false
is_some_file (some (is_file, mode)) = is_file

-- `assert!`
abbrev pub assert : {S : Type 0} → Bool → S → Option (Unit {0} × S)
assert true s = some (tt, s)
assert false s = none

module _ (os : Os) where
  unfoldable pub executable_exists : Text → Io os Bool
  executable_exists path w = let (m, w') = os.metadata path w in some (is_executable m, w')

  unfoldable pub file_exists : Text → Io os Bool
  file_exists path w = let (m, w') = os.metadata path w in some (is_some_file m, w')

-- What follows an assertion.
pub assert-Yields :
    {S B : Type 0} {Q : B → S → Type 0} (b : Bool) (f : S → Option (B × S)) (t : S)
    → b ≡ true
    → Yields Q (f t)
    → Yields Q ((assert b >>= λ _. f) t)
unfolding ◌>>=◌
assert-Yields b f t e h = rw e h

pub assert-none :
    {S B : Type 0} (b : Bool) (f : S → Option (B × S)) (t : S)
    → b ≡ false
    → (assert b >>= λ _. f) t ≡ none
unfolding ◌>>=◌
assert-none b f t e = rw e refl

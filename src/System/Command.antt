-- ===== src/System/Command.antt =====
-- Addresses, paths and command lines as the actors build them with the standard library.
use e2etest_rs.Prelude.{
  ℕ, zero, suc, ◌+◌, ◌%◌, ◌≡◌, Bool, true, ◌&&◌, ◌||◌, Option, List, [], ◌∷◌, ◌++◌, arith,
  if◌then◌else◌, ltb, leb, ◌==◌, is_empty, ==_refl,
}
use Prim.Native.Nat.{◌/◌}
use e2etest_rs.Prelude.Text.{Text, codes}

-- The decimal digits of a number, with fuel above the number.
unfoldable pub digits : ℕ → ℕ → Text → Text
digits zero n rest = rest
digits (suc fuel) n rest =
    let more = digits fuel (n / 10) ((48 + n % 10) ∷ rest) in
    if ltb n 10 then (48 + n) ∷ rest else more

-- `n.to_string()`
abbrev pub decimal : ℕ → Text
decimal n = digits (suc n) n []

pub record Ipv4Addr : Type 0 where
  pub a : ℕ
  pub b : ℕ
  pub c : ℕ
  pub d : ℕ

unfoldable pub ip_eq : Ipv4Addr → Ipv4Addr → Bool
ip_eq p q = p.a == q.a && p.b == q.b && p.c == q.c && p.d == q.d

-- `ip.to_string()`
abbrev pub ip_text : Ipv4Addr → Text
ip_text p =
    decimal p.a ++ codes "." ++ decimal p.b ++ codes "." ++ decimal p.c ++ codes "." ++ decimal p.d

-- `SocketAddr::to_string`
abbrev pub socket_text : Ipv4Addr → ℕ → Text
socket_text ip port = ip_text ip ++ codes ":" ++ decimal port

-- `path.join(name)`
abbrev pub join_path : Text → Text → Text
join_path path name = path ++ codes "/" ++ name

-- `texts.join(",")`
unfoldable pub join_commas : List Text → Text
join_commas [] = []
join_commas (t ∷ []) = t
join_commas (t ∷ u ∷ rest) = t ++ codes "," ++ join_commas (u ∷ rest)

-- A `Command`: the environment in the order of the calls, `silent` with both outputs discarded,
-- and the user and group if they are set.
pub record Command : Type 0 where
  pub program : Text
  pub args : List Text
  pub envs : List (Text × Text)
  pub silent : Bool
  pub user : Option (ℕ × ℕ)

-- What a command that ran to its end printed, and whether its status is a success.
pub record Output : Type 0 where
  pub stdout : Text
  pub success : Bool

-- `char::is_whitespace`
abbrev pub is_whitespace : ℕ → Bool
is_whitespace c =
    (leb 9 c && leb c 13)
    || c == 32
    || c == 133
    || c == 160
    || c == 5760
    || (leb 8192 c && leb c 8202)
    || c == 8232
    || c == 8233
    || c == 8239
    || c == 8287
    || c == 12288

unfoldable pub trim_start : Text → Text
trim_start [] = []
trim_start (c ∷ s) = let rest = trim_start s in if is_whitespace c then rest else c ∷ s

unfoldable pub trim_end : Text → Text
trim_end [] = []
trim_end (c ∷ s) =
    let rest = trim_end s in if is_empty rest && is_whitespace c then [] else c ∷ rest

-- `s.trim()`
abbrev pub trim : Text → Text
trim s = trim_start (trim_end s)

-- The current line is put before the lines.
abbrev pub add_to_line : ℕ → List Text → List Text
add_to_line c [] = (c ∷ []) ∷ []
add_to_line c (l ∷ ls) = (c ∷ l) ∷ ls

-- `s.lines()`, without the carriage returns of line ends, which the program's patterns never reach.
unfoldable pub lines : Text → List Text
lines [] = []
lines (c ∷ s) = let rest = lines s in if c == 10 then [] ∷ rest else add_to_line c rest

pub ip_eq_refl : (p : Ipv4Addr) → ip_eq p p ≡ true
unfolding ip_eq
ip_eq_refl p = ground (arith, ==_refl p.a, ==_refl p.b, ==_refl p.c, ==_refl p.d)

pub ip_eq_iff : (p q : Ipv4Addr) → ip_eq p q ≡ true → p ≡ q
unfolding ip_eq
ip_eq_iff p q h = ground arith

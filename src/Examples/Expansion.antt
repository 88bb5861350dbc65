-- ===== src/Examples/Expansion.antt =====
-- A parser over a list of tokens, and macros with such parameters.
use e2etest_rs.Prelude.{
  ℕ, suc, ◌<◌, ◌≤◌, ◌≡◌, ◌≢◌, true, Option, none, some, List, [], ◌∷◌, arith, is_empty, length,
}
use e2etest_rs.Prelude.Text.{Text, codes}
use e2etest_rs.Macros.{ItemFn, FnArg, typed_path, type_path, group, test}
use e2etest_rs.Macros.Parameters.{Syn, unfinished, FieldType, path_field}
use e2etest_rs.Macros.Parsing.{macros-finish}

pub data Token : Type 0 where
  word : Text → Token
  equals : Token
  comma : Token
  a_path : List Text → Token
  tuple : List FieldType → Token
  number : ℕ → Token

abbrev take_ident : List Token → Option (Text × List Token)
take_ident (word t ∷ s) = some (t, s)
take_ident _ = none

abbrev take_equals : List Token → Option (List Token)
take_equals (equals ∷ s) = some s
take_equals _ = none

abbrev take_comma : List Token → Option (List Token)
take_comma (comma ∷ s) = some s
take_comma _ = none

abbrev take_path : List Token → Option (List Text × List Token)
take_path (a_path p ∷ s) = some (p, s)
take_path _ = none

abbrev take_fields : List Token → Option (List FieldType × List Token)
take_fields (tuple fs ∷ s) = some (fs, s)
take_fields _ = none

abbrev take_number : List Token → Option (ℕ × List Token)
take_number (number n ∷ s) = some (n, s)
take_number _ = none

-- The cases of names are kept.
abbrev pub tokens : Syn
tokens = record {
  Stream = List Token;
  Expr = ℕ;
  at_end = is_empty;
  ident = take_ident;
  equals = take_equals;
  comma = take_comma;
  path = take_path;
  fields = take_fields;
  expr = take_number;
  lowercase = λ t. t;
  constant_case = λ t. t;
  pascal_case = λ t. t;
  snake_case = λ t. t;
}

shorter :
    {A : Type 0} (x : A) (s : List Token) (n : ℕ) (r : A × List Token)
    → some (x, s) ≡ some r
    → length s ≤ n
    → length r.1 ≤ n
shorter x s n r e h = let d : (x, s) ≡ r = cc in rw (← d) h

ident-le : (s : List Token) (r : Text × List Token) → take_ident s ≡ some r → length r.1 ≤ length s
ident-le [] r h = cc
ident-le (word t ∷ s) r h = shorter t s (suc (length s)) r h (omega arith)
ident-le (equals ∷ s) r h = cc
ident-le (comma ∷ s) r h = cc
ident-le (a_path p ∷ s) r h = cc
ident-le (tuple fs ∷ s) r h = cc
ident-le (number n ∷ s) r h = cc

path-le :
    (s : List Token) (r : List Text × List Token) → take_path s ≡ some r → length r.1 ≤ length s
path-le [] r h = cc
path-le (word t ∷ s) r h = cc
path-le (equals ∷ s) r h = cc
path-le (comma ∷ s) r h = cc
path-le (a_path p ∷ s) r h = shorter p s (suc (length s)) r h (omega arith)
path-le (tuple fs ∷ s) r h = cc
path-le (number n ∷ s) r h = cc

fields-le :
    (s : List Token) (r : List FieldType × List Token)
    → take_fields s ≡ some r
    → length r.1 ≤ length s
fields-le [] r h = cc
fields-le (word t ∷ s) r h = cc
fields-le (equals ∷ s) r h = cc
fields-le (comma ∷ s) r h = cc
fields-le (a_path p ∷ s) r h = cc
fields-le (tuple fs ∷ s) r h = shorter fs s (suc (length s)) r h (omega arith)
fields-le (number n ∷ s) r h = cc

number-le : (s : List Token) (r : ℕ × List Token) → take_number s ≡ some r → length r.1 ≤ length s
number-le [] r h = cc
number-le (word t ∷ s) r h = cc
number-le (equals ∷ s) r h = cc
number-le (comma ∷ s) r h = cc
number-le (a_path p ∷ s) r h = cc
number-le (tuple fs ∷ s) r h = cc
number-le (number n ∷ s) r h = shorter n s (suc (length s)) r h (omega arith)

equals-le : (s s' : List Token) → take_equals s ≡ some s' → length s' ≤ length s
equals-le [] s' h = cc
equals-le (word t ∷ s) s' h = cc
equals-le (equals ∷ s) s' h = let d : s ≡ s' = cc in rw (← d) (omega arith)
equals-le (comma ∷ s) s' h = cc
equals-le (a_path p ∷ s) s' h = cc
equals-le (tuple fs ∷ s) s' h = cc
equals-le (number n ∷ s) s' h = cc

comma-takes : (s s' : List Token) → take_comma s ≡ some s' → length s' < length s
comma-takes [] s' h = cc
comma-takes (word t ∷ s) s' h = cc
comma-takes (equals ∷ s) s' h = cc
comma-takes (comma ∷ s) s' h = let d : s ≡ s' = cc in rw (← d) (omega arith)
comma-takes (a_path p ∷ s) s' h = cc
comma-takes (tuple fs ∷ s) s' h = cc
comma-takes (number n ∷ s) s' h = cc

abbrev pub db_group : List Token
db_group =
    word (codes "name")
    ∷ equals
    ∷ word (codes "db")
    ∷ comma
    ∷ word (codes "fixtures")
    ∷ equals
    ∷ tuple (path_field (codes "Cluster" ∷ []) ∷ [])
    ∷ []

abbrev cluster_arc : FnArg
cluster_arc =
    typed_path (
      record { ident = codes "Arc"; arguments = some (type_path (codes "Cluster" ∷ []) ∷ []) } ∷ [])

abbrev pub reads_rows : ItemFn
reads_rows = record {
  ident = codes "reads_rows";
  is_async = true;
  returns_default = true;
  inputs = cluster_arc ∷ [];
}

macros-finish_example :
    (group tokens 9 db_group ≢ unfinished) × (test tokens 9 db_group reads_rows ≢ unfinished)
macros-finish_example =
    macros-finish tokens length comma-takes equals-le ident-le path-le fields-le number-le 9
      db_group reads_rows (omega arith)

-- ===== src/Dns/Records.antt =====
-- crates/e2etest-dns/src/lib.rs: which addresses the names have after the messages, and the serial
-- numbers of the records.
use e2etest_rs.Prelude.{
  ℕ, ◌+◌, ◌<◌, ◌≡◌, refl, ◌∙◌, Bool, true, false, Option, none, some, List, [], ◌∷◌, arith,
  if◌then◌else◌, All, any, Bool-cases, inl, inr,
}
use e2etest_rs.Prelude.Text.{Text}
use e2etest_rs.System.Command.{Ipv4Addr, ip_eq}
use e2etest_rs.Runner.Runtime.{Yields, yields, Yields-bind, Yields-map, ◌>>=◌}
use e2etest_rs.Actor.{settle}
use e2etest_rs.Dns.{
  DnsLibrary, DnsRecord, soa, a, Message, version, domain, remove, upsert, State, qualified,
  ttl_seconds, u32_mod, next_serial, expect, remove_name, upsert_name, process,
}

abbrev address_in : Ipv4Addr → List Ipv4Addr → Bool
address_in ip ips = any (ip_eq ip) ips

next_serial_lem : (checked : Bool) (k : ℕ) → k + 1 < u32_mod → next_serial checked k ≡ some (k + 1)
next_serial_lem true k h = ground arith
next_serial_lem false k h = ground arith

expect-then :
    {S A B : Type 0} {Q : B → S → Type 0} {x : A} (o : Option A) (f : A → S → Option (B × S))
    (w : S)
    → o ≡ some x
    → Yields Q (f x w)
    → Yields Q ((expect o >>= f) w)
unfolding ◌>>=◌
expect-then o f w e h = rw e h

module _ (lib : DnsLibrary) where
  -- What the library says of its store. An upsert adds the address to those of the name, and a removed
  -- name has none.
  pub record IsStore : Type 0 where
    pub addresses : lib.Zone → lib.LowerName → List Ipv4Addr
    pub lower : lib.Name → lib.LowerName
    pub name_eq : lib.LowerName → lib.LowerName → Bool
    pub parse_lower_lem :
        (t : Text) (n : lib.Name) → lib.parse_name t ≡ some n → lib.parse_lower t ≡ some (lower n)
    pub empty_zone : (z : lib.Name) (n : lib.LowerName) → addresses (lib.zone_of z) n ≡ []
    pub soa_upserted :
        (r : DnsRecord lib.Name) (x y : lib.Name) (k : ℕ) (z : lib.Zone) (n : lib.LowerName)
        → r.rdata ≡ soa x y
        → addresses (lib.upsert_record r k z) n ≡ addresses z n
    pub upserted :
        (r : DnsRecord lib.Name) (ip : Ipv4Addr) (k : ℕ) (z : lib.Zone) (n : lib.LowerName)
        → r.rdata ≡ a ip.a ip.b ip.c ip.d
        → name_eq (lower r.name) n ≡ true
        → address_in ip (addresses (lib.upsert_record r k z) n) ≡ true
    pub upserted_other :
        (r : DnsRecord lib.Name) (k : ℕ) (z : lib.Zone) (n : lib.LowerName)
        → name_eq (lower r.name) n ≡ false
        → addresses (lib.upsert_record r k z) n ≡ addresses z n
    pub removed :
        (m : lib.LowerName) (z : lib.Zone) (n : lib.LowerName)
        → addresses (lib.remove_a m z) n ≡ (if name_eq m n then [] else addresses z n)

  module _ (store : IsStore) (n : lib.LowerName) where
    -- The names of the messages are names.
    abbrev pub IsNamed : Message → Type 0
    IsNamed (remove name) = (x : lib.Name) × (lib.parse_name (qualified name) ≡ some x)
    IsNamed (upsert name ip) = (x : lib.Name) × (lib.parse_name (qualified name) ≡ some x)
    IsNamed _ = Unit

    abbrev is_name : Option lib.Name → Bool
    is_name none = false
    is_name (some x) = store.name_eq (store.lower x) n

    -- The last address that was given to the name, unless the name was removed after it.
    abbrev pub given : Message → Option Ipv4Addr → Option Ipv4Addr
    given (remove name) o = if is_name (lib.parse_name (qualified name)) then none else o
    given (upsert name ip) o = if is_name (lib.parse_name (qualified name)) then some ip else o
    given _ o = o

    abbrev pub given_last : List Message → Option Ipv4Addr → Option Ipv4Addr
    given_last [] o = o
    given_last (m ∷ ms) o = given_last ms (given m o)

    -- A name with an address resolves to it, and one with none does not resolve.
    abbrev pub Resolves : Option Ipv4Addr → lib.Zone → Type 0
    Resolves none z = store.addresses z n ≡ []
    Resolves (some ip) z = address_in ip (store.addresses z n) ≡ true

    Resolves-same :
        (o : Option Ipv4Addr) (y z : lib.Zone)
        → store.addresses z n ≡ store.addresses y n
        → Resolves o y
        → Resolves o z
    Resolves-same none y z e h = e ∙ h
    Resolves-same (some ip) y z e h = rw e h

    remove-Resolves :
        (name : Text) (x : lib.Name) (o : Option Ipv4Addr) (z : lib.Zone)
        → lib.parse_name (qualified name) ≡ some x
        → Resolves o z
        → Resolves (given (remove name) o) (lib.remove_a (store.lower x) z)
    remove-Resolves name x o z e h = elim (Bool-cases (store.name_eq (store.lower x) n)) [
      | inl same ↦ rw (e, same) (store.removed (store.lower x) z n ∙ rw same refl)
      | inr other ↦
          rw (e, other) (Resolves-same o z _ (store.removed (store.lower x) z n ∙ rw other refl) h)
    ]

    upsert-Resolves :
        (name : Text) (ip : Ipv4Addr) (x : lib.Name) (k : ℕ) (o : Option Ipv4Addr) (z : lib.Zone)
        → lib.parse_name (qualified name) ≡ some x
        → Resolves o z
        → Resolves (given (upsert name ip) o) (
            lib.upsert_record
              (record { name = x; ttl = ttl_seconds; rdata = a ip.a ip.b ip.c ip.d })
              k
              z)
    upsert-Resolves name ip x k o z e h = elim (Bool-cases (store.name_eq (store.lower x) n)) [
      | inl same ↦ rw (e, same) (store.upserted _ ip k z n refl same)
      | inr other ↦ rw (e, other) (Resolves-same o z _ (store.upserted_other _ k z n other) h)
    ]

    abbrev pub upserts : Message → ℕ
    upserts (upsert name ip) = 1
    upserts _ = 0

    abbrev pub upserts_in : List Message → ℕ
    upserts_in [] = 0
    upserts_in (m ∷ ms) = upserts m + upserts_in ms

    -- The state after a message, or after several.
    abbrev pub Stands : Option Ipv4Addr → ℕ → State lib → Type 0
    Stands o k s = Resolves o s.authority × (s.serial ≡ k)

    process-Stands :
        (checked : Bool) (m : Message) (s : State lib) (o : Option Ipv4Addr) (w : lib.World)
        → IsNamed m
        → s.serial + upserts m < u32_mod
        → Resolves o s.authority
        → Yields (λ r _. Stands (given m o) (s.serial + upserts m) r.1) (process lib checked m s w)
    unfolding process remove_name upsert_name
    process-Stands checked version s o w i l h = yields (h, omega arith)
    process-Stands checked domain s o w i l h = yields (h, omega arith)
    process-Stands checked (remove name) s o w (x, e) l h =
        Yields-bind {P = λ t _. Stands (given (remove name) o) (s.serial + 0) t} _ _ _
          (expect-then (lib.parse_lower (qualified name)) _ w
            (store.parse_lower_lem (qualified name) x e)
            (yields (remove-Resolves name x o s.authority e h, omega arith)))
          λ t u k. yields k
    process-Stands checked (upsert name ip) s o w (x, e) l h =
        Yields-bind {P = λ t _. Stands (given (upsert name ip) o) (s.serial + 1) t} _ _ _
          (expect-then (lib.parse_name (qualified name)) _ w e (
            expect-then (next_serial checked s.serial) _ w (next_serial_lem checked s.serial l)
              (yields (upsert-Resolves name ip x s.serial o s.authority e h, refl))))
          λ t u k. yields k

    -- If the names of the messages are names, and the serial number does not come to its limit, the
    -- actor processes every sequence of messages, whether the build checks overflow or not. Afterwards
    -- the address that was given to a name last is one of its addresses; a name that was removed after
    -- that, or had no address and was given none, has no address; and the serial number has grown by
    -- the number of upserts.
    pub settle-Stands :
        (checked : Bool) (ms : List Message) (s : State lib) (o : Option Ipv4Addr) (w : lib.World)
        → All IsNamed ms
        → s.serial + upserts_in ms < u32_mod
        → Resolves o s.authority
        → Yields
            (λ t _. Stands (given_last ms o) (s.serial + upserts_in ms) t)
            (settle (process lib checked) ms s w)
    unfolding settle
    settle-Stands checked [] s o w i l h = yields (h, omega arith)
    settle-Stands checked (m ∷ ms) s o w i l h =
        Yields-bind _ _ _ (process-Stands checked m s o w i.0 (omega arith) h) λ r t k.
          Yields-map (λ u _ q. (q.0, omega (arith, q.1, k.1)))
            (settle-Stands checked ms r.1 (given m o) t i.1 (omega (arith, k.1)) k.0)

-- ===== src/Examples/Names.antt =====
-- A store of names that keeps the addresses of each.
use e2etest_rs.Prelude.{
  ℕ, ◌≡◌, refl, Bool, true, false, none, some, List, [], ◌∷◌, arith, if◌then◌else◌,
}
use e2etest_rs.Prelude.Text.{Text, codes, text_eq}
use e2etest_rs.System.Command.{Ipv4Addr, ip_eq}
use e2etest_rs.Runner.Runtime.{Yields}
use e2etest_rs.Actor.{settle}
use e2etest_rs.Dns.{
  DnsLibrary, DnsRecord, RecordData, soa, a, Message, upsert, remove, domain, State, qualified,
  process,
}
use e2etest_rs.Dns.Records.{IsStore, Stands, settle-Stands}

abbrev Zone : Type 0
Zone = Text → List Ipv4Addr

abbrev add_data : RecordData Text → List Ipv4Addr → List Ipv4Addr
add_data (soa x y) ips = ips
add_data (a p q r s) ips = record { a = p; b = q; c = r; d = s } ∷ ips

abbrev add_record : DnsRecord Text → Zone → Zone
add_record r z = λ n. if text_eq r.name n then add_data r.rdata (z n) else z n

abbrev simple_dns : DnsLibrary
simple_dns = record {
  World = ℕ;
  Name = Text;
  LowerName = Text;
  Zone = Zone;
  version = codes "0.25";
  root_name = codes ".";
  parse_name = some;
  parse_lower = some;
  zone_of = λ name n. [];
  upsert_record = λ r serial z. add_record r z;
  remove_a = λ m z n. if text_eq m n then [] else z n;
}

ip_eq_refl : (ip : Ipv4Addr) → ip_eq ip ip ≡ true
unfolding ip_eq
ip_eq_refl ip = ground arith

both : {A : Type 0} {x : A} (b : Bool) → (if b then x else x) ≡ x
both true = refl
both false = refl

abbrev simple_dns-IsStore : IsStore simple_dns
simple_dns-IsStore = record {
  addresses = λ z n. z n;
  lower = λ n. n;
  name_eq = text_eq;
  parse_lower_lem = λ t n e. e;
  empty_zone = λ z n. refl;
  soa_upserted = λ r x y k z n e. rw e (both (text_eq r.name n));
  upserted = λ r ip k z n e same. rw (same, e, ip_eq_refl ip) refl;
  upserted_other = λ r k z n other. rw other refl;
  removed = λ m z n. refl;
}

abbrev address : ℕ → Ipv4Addr
address n = record { a = 127; b = 0; c = 0; d = n }

abbrev updates : List Message
updates =
    upsert (codes "db1") (address 1)
    ∷ upsert (codes "db1") (address 2)
    ∷ domain
    ∷ upsert (codes "db2") (address 3)
    ∷ remove (codes "db2")
    ∷ []

abbrev empty_state : State simple_dns
empty_state = record { version = codes "0.25"; authority = λ n. []; serial = 0 }

settle-Stands_example :
    Yields
      (λ t _. Stands simple_dns simple_dns-IsStore (qualified (codes "db1")) (some (address 2)) 3 t)
      (settle (process simple_dns true) updates empty_state 0)
unfolding text_eq
settle-Stands_example =
    settle-Stands simple_dns simple_dns-IsStore (qualified (codes "db1")) true updates empty_state
      none 0 ((_, refl), ((_, refl), (tt, ((_, refl), ((_, refl), tt))))) (omega arith) refl

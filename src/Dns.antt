-- ===== src/Dns.antt =====
-- crates/e2etest-dns/src/lib.rs: the actor that keeps the records of a DNS server for the tests. The
-- server and its store of records are a library's: the record `DnsLibrary`.
pub mod Handle
pub mod Records
use e2etest_rs.Prelude.{
  ℕ, zero, suc, ◌+◌, ◌^◌, ◌%◌, Bool, true, false, ◌&&◌, not, Option, none, some, List, [], ◌∷◌,
  ◌++◌, if◌then◌else◌, ltb, leb, ◌==◌,
}
use e2etest_rs.Prelude.Text.{Text, codes}
use e2etest_rs.System.Command.{Ipv4Addr}
use e2etest_rs.Runner.Runtime.{◌>>=◌, ◌>>◌, pure}

-- `record.dns_class` is `IN` in every record.
pub data RecordData (Name : Type 0) : Type 0 where
  soa : Name → Name → RecordData Name
  a : ℕ → ℕ → ℕ → ℕ → RecordData Name

pub record DnsRecord (Name : Type 0) : Type 0 where
  pub name : Name
  pub ttl : ℕ
  pub rdata : RecordData Name

-- `parse_name` and `parse_lower` are `Name::from_str` and `LowerName::from_str`, `zone_of` is the empty
-- store of a zone, `remove_a` removes the key of a name and `RecordType::A`.
pub record DnsLibrary : Type 1 where
  pub World : Type 0
  pub Name : Type 0
  pub LowerName : Type 0
  pub Zone : Type 0
  pub version : Text
  pub root_name : Name
  pub parse_name : Text → Option Name
  pub parse_lower : Text → Option LowerName
  pub zone_of : Name → Zone
  pub upsert_record : DnsRecord Name → ℕ → Zone → Zone
  pub remove_a : LowerName → Zone → Zone

abbrev pub zone_name : Text
zone_name = codes "validator.test."

abbrev pub ttl_seconds : ℕ
ttl_seconds = 60

-- `&ZONE[..ZONE.len() - 1]`
unfoldable pub without_last : Text → Text
without_last [] = []
without_last (c ∷ []) = []
without_last (c ∷ d ∷ s) = c ∷ without_last (d ∷ s)

-- `format!("{name}.{ZONE}")`
abbrev pub qualified : Text → Text
qualified name = name ++ codes "." ++ zone_name

abbrev pub u32_mod : ℕ
u32_mod = 2 ^ 32

-- `serial += 1` of a `u32`: it panics where the build checks overflow, and wraps elsewhere.
abbrev pub next_serial : Bool → ℕ → Option ℕ
next_serial checked serial =
    if checked && leb u32_mod (serial + 1) then none else some ((serial + 1) % u32_mod)

-- The messages of `Dns`, without the channels of their answers.
pub data Message : Type 0 where
  version : Message
  domain : Message
  remove : Text → Message
  upsert : Text → Ipv4Addr → Message

-- What is sent on the channel of the message, if it has one.
pub data Answer : Type 0 where
  no_answer : Answer
  text : Text → Answer

-- `expect`
abbrev pub expect : {S A : Type 0} → Option A → S → Option (A × S)
expect none w = none
expect (some x) w = some (x, w)

module _ (lib : DnsLibrary) where
  pub record State : Type 0 where
    pub version : Text
    pub authority : lib.Zone
    pub serial : ℕ

  abbrev pub Io : Type 0 → Type 0
  Io A = lib.World → Option (A × lib.World)

  -- `State::new`
  unfoldable pub new_state : Io State
  new_state = do
    zone ← expect (lib.parse_name zone_name)
    pure (record {
      version = codes "hickory-server-" ++ lib.version;
      authority =
          lib.upsert_record
            (record { name = zone; ttl = ttl_seconds; rdata = soa zone lib.root_name }) 0
            (lib.zone_of zone);
      serial = 0;
    })

  unfoldable pub remove_name : Text → State → Io State
  remove_name name state = do
    lower ← expect (lib.parse_lower (qualified name))
    pure (record state { authority = lib.remove_a lower state.authority })

  unfoldable pub upsert_name : Bool → Text → Ipv4Addr → State → Io State
  upsert_name checked name ip state = do
    parsed ← expect (lib.parse_name (qualified name))
    serial ← expect (next_serial checked state.serial)
    pure (record state {
      serial = serial;
      authority =
          lib.upsert_record
            (record { name = parsed; ttl = ttl_seconds; rdata = a ip.a ip.b ip.c ip.d })
            state.serial state.authority;
    })

  unfoldable pub process : Bool → Message → State → Io (Answer × State)
  process checked version state = pure (text state.version, state)
  process checked domain state = pure (text (without_last zone_name), state)
  process checked (remove name) state = do s ← remove_name name state; pure (no_answer, s)
  process checked (upsert name ip) state = do
    s ← upsert_name checked name ip state
    pure (no_answer, s)

-- `ip.is_loopback()`
abbrev pub is_loopback : Ipv4Addr → Bool
is_loopback ip = ip.a == 127

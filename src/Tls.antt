-- ===== src/Tls.antt =====
-- crates/e2etest-tls/src/lib.rs: the actor that hands out a self-signed certificate. The generation of
-- keys, the reading of certificates and the file system are libraries': the record `Pki`.
pub mod Files
use e2etest_rs.Prelude.{
  ℕ, ◌≡◌, refl, sym, ◌∙◌, ap, Bool, true, false, Option, none, some, List, [], ◌∷◌, map, arith,
  if◌then◌else◌, Bool-cases, inl, inr,
}
use mathlib.Core.Path.{subst}
use e2etest_rs.Prelude.Text.{Text, text_eq, text_eq_iff, text_eq_refl}
use e2etest_rs.System.Command.{Ipv4Addr, ip_text}
use e2etest_rs.Actor.{Mailbox, idle, ask}
use e2etest_rs.Runner.Runtime.{◌>>=◌, ◌>>◌, pure, Yields, yields, Yields-bind}

-- `none` is an error of the call. `trust` makes the client configuration that trusts the certificates.
pub record Pki : Type 1 where
  pub World : Type 0
  pub Certificate : Type 0
  pub ClientConfig : Type 0
  pub generate : List Text → World → Option ((Text × Text) × World)
  pub new_temp_file : World → Option (Text × World)
  pub write_all : Text → Text → World → Option (Unit {0} × World)
  pub set_mode : Text → ℕ → World → Option (Unit {0} × World)
  pub read_file : Text → World → Option (Text × World)
  pub parse_certificates : Text → Option (List Certificate)
  pub trust : List Certificate → ClientConfig

-- The messages of `Tls`, without the channels of their answers.
pub data Message : Type 0 where
  cert_path : Message
  key_path : Message
  client_tls_config : Message

module _ (pki : Pki) where
  abbrev pub Io : Type 0 → Type 0
  Io A = pki.World → Option (A × pki.World)

  -- What the task holds.
  pub record State : Type 0 where
    pub cert_file : Text
    pub key_file : Text
    pub client_config : pki.ClientConfig

  -- What is sent on the channel of the message.
  pub data Answer : Type 0 where
    path : Text → Answer
    config : pki.ClientConfig → Answer

  abbrev pub expect : {A : Type 0} → Option A → Io A
  expect none w = none
  expect (some x) w = some (x, w)

  abbrev pub readable : ℕ
  readable = 0o644

  -- `new`, up to the start of the task
  unfoldable pub new_state : List Ipv4Addr → Io State
  new_state ips = do
    pem ← pki.generate (map ip_text ips)
    cert ← pki.new_temp_file
    pki.write_all cert pem.0
    key ← pki.new_temp_file
    pki.write_all key pem.1
    pki.set_mode cert readable
    pki.set_mode key readable
    text ← pki.read_file cert
    certificates ← expect (pki.parse_certificates text)
    pure (record { cert_file = cert; key_file = key; client_config = pki.trust certificates })

  unfoldable pub process : Message → State → Io (Answer × State)
  process cert_path s = pure (path s.cert_file, s)
  process key_path s = pure (path s.key_file, s)
  process client_tls_config s = pure (config s.client_config, s)

  abbrev pub Box : Type 0
  Box = Mailbox Message State

  abbrev pub as_path : Answer × Box → Io (Text × Box)
  as_path (path p, box) = pure (p, box)
  as_path _ = λ w. none

  abbrev pub as_config : Answer × Box → Io (pki.ClientConfig × Box)
  as_config (config c, box) = pure (c, box)
  as_config _ = λ w. none

  module _ (turns : ℕ) where
    unfoldable pub ask_cert_path : Box → Io (Text × Box)
    ask_cert_path box = do r ← ask process turns cert_path box; as_path r

    unfoldable pub ask_key_path : Box → Io (Text × Box)
    ask_key_path box = do r ← ask process turns key_path box; as_path r

    unfoldable pub ask_client_tls_config : Box → Io (pki.ClientConfig × Box)
    ask_client_tls_config box = do r ← ask process turns client_tls_config box; as_config r

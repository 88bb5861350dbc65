-- ===== src/Tls/Files.antt =====
-- crates/e2etest-tls/src/lib.rs: what the files and the client configuration hold.
use e2etest_rs.Prelude.{
  ℕ, ◌≡◌, refl, ◌∙◌, ap, false, Option, none, some, List, [], map, arith, if◌then◌else◌, Bool-cases,
  inl, inr,
}
use mathlib.Core.Path.{subst}
use e2etest_rs.Prelude.Text.{Text, text_eq, text_eq_iff, text_eq_refl}
use e2etest_rs.System.Command.{Ipv4Addr, ip_text}
use e2etest_rs.Runner.Runtime.{◌>>=◌, pure, Yields, yields, Yields-bind}
use e2etest_rs.Tls.{Pki, State, expect, readable, new_state}

module _ (pki : Pki) where
  -- What the libraries say: a new file is a file that was not there, a file holds what was written and
  -- has the mode that was set, and a generated certificate can be read again.
  pub record IsFiling : Type 0 where
    pub content : pki.World → Text → Option Text
    pub mode : pki.World → Text → ℕ
    pub issued : List Text → pki.World → Text × Text
    pub certificates : Text → List pki.Certificate
    pub generated :
        (names : List Text) (w : pki.World)
        → Yields
            (λ pem v.
              (pem ≡ issued names w) × (pki.parse_certificates pem.0 ≡ some (certificates pem.0)))
            (pki.generate names w)
    pub opened :
        (w : pki.World)
        → Yields
            (λ p v.
              (content w p ≡ none)
              × (content v p ≡ some [])
              × ((q : Text) → text_eq p q ≡ false → content v q ≡ content w q))
            (pki.new_temp_file w)
    pub written :
        (p t : Text) (w : pki.World)
        → content w p ≡ some []
        → Yields
            (λ _ v. (q : Text) → content v q ≡ (if text_eq p q then some t else content w q))
            (pki.write_all p t w)
    pub mode_set :
        (p : Text) (m : ℕ) (w : pki.World)
        → Yields
            (λ _ v.
              ((q : Text) → content v q ≡ content w q)
              × ((q : Text) → mode v q ≡ (if text_eq p q then m else mode w q)))
            (pki.set_mode p m w)
    pub read :
        (p t : Text) (w : pki.World)
        → content w p ≡ some t
        → Yields
            (λ u v.
              (u ≡ t)
              × ((q : Text) → content v q ≡ content w q)
              × ((q : Text) → mode v q ≡ mode w q))
            (pki.read_file p w)

  module _ (filing : IsFiling) where
    -- The files that the handle names hold the certificate and the key that were generated for the
    -- addresses, they have the mode 0o644, and the client configuration trusts that certificate alone.
    abbrev pub Serves : Text × Text → State pki → pki.World → Type 0
    Serves pem s v =
        (filing.content v s.cert_file ≡ some pem.0)
        × (filing.content v s.key_file ≡ some pem.1)
        × (filing.mode v s.cert_file ≡ readable pki)
        × (filing.mode v s.key_file ≡ readable pki)
        × (s.client_config ≡ pki.trust (filing.certificates pem.0))

    different :
        (p q t : Text) (w : pki.World)
        → filing.content w p ≡ some t
        → filing.content w q ≡ none
        → text_eq q p ≡ false
    different p q t w h k = elim (Bool-cases (text_eq q p)) [
      | inr apart ↦ apart
      | inl same ↦ cc (ap (filing.content w) ((text_eq_iff q p).0 same), h, k)
    ]

    -- The client configuration of a certificate that can be read.
    trust-Yields :
        {Q : State pki → pki.World → Type 0} (t pem cert key : Text) (v : pki.World)
        → t ≡ pem
        → pki.parse_certificates pem ≡ some (filing.certificates pem)
        → Q
            (record {
              cert_file = cert;
              key_file = key;
              client_config = pki.trust (filing.certificates pem);
            })
            v
        → Yields Q (
            (do
              certificates ← expect pki (pki.parse_certificates t)
              pure (record {
                cert_file = cert;
                key_file = key;
                client_config = pki.trust certificates;
              }))
              v)
    unfolding ◌>>=◌
    trust-Yields t pem cert key v e parsed q = rw (e, parsed) (yields q)

    -- `new` comes to the start of its task when its calls do what they say, and what it will serve is
    -- the certificate and the key that were generated for the addresses: the files that the handle
    -- names hold them and have the mode 0o644, and the client trusts what that certificate file holds, alone.
    pub new_state-Serves :
        (ips : List Ipv4Addr) (w : pki.World)
        → Yields (Serves (filing.issued (map ip_text ips) w)) (new_state pki ips w)
    unfolding new_state
    new_state-Serves ips w =
        Yields-bind _ _ _ (filing.generated (map ip_text ips) w) λ pem w₁ (issued, parsed).
          Yields-bind _ _ _ (filing.opened w₁) λ cert w₂ opened.
            Yields-bind _ _ _ (filing.written cert pem.0 w₂ opened.1) λ _ w₃ cert_written.
              let in_cert : filing.content w₃ cert ≡ some pem.0 =
                ground (arith, cert_written cert, text_eq_refl cert) in
              Yields-bind _ _ _ (filing.opened w₃) λ key w₄ (fresh, empty, others).
                let apart : text_eq key cert ≡ false = different cert key pem.0 w₃ in_cert fresh in
                Yields-bind _ _ _ (filing.written key pem.1 w₄ empty) λ _ w₅ key_written.
                  let in_key : filing.content w₅ key ≡ some pem.1 =
                    ground (arith, key_written key, text_eq_refl key) in
                  let still : filing.content w₅ cert ≡ some pem.0 =
                    ground (arith, key_written cert, apart, others cert apart, in_cert) in
                  Yields-bind _ _ _ (filing.mode_set cert (readable pki) w₅)
                    λ _ w₆ (kept, cert_mode).
                      Yields-bind _ _ _ (filing.mode_set key (readable pki) w₆)
                        λ _ w₇ (kept', key_mode).
                          Yields-bind _ _ _
                            (filing.read cert pem.0 w₇ (kept' cert ∙ kept cert ∙ still))
                            λ t w₈ (same, kept'', modes).
                              trust-Yields t pem.0 cert key w₈ same parsed (
                                subst
                                  (λ p.
                                    Serves p
                                      (record {
                                        cert_file = cert;
                                        key_file = key;
                                        client_config = pki.trust (filing.certificates pem.0);
                                      })
                                      w₈)
                                  issued
                                  (
                                    kept'' cert ∙ kept' cert ∙ kept cert ∙ still,
                                    kept'' key ∙ kept' key ∙ kept key ∙ in_key,
                                    modes cert
                                        ∙ ground (
                                          arith,
                                          key_mode cert,
                                          apart,
                                          cert_mode cert,
                                          text_eq_refl cert,
                                        ),
                                    modes key ∙ ground (arith, key_mode key, text_eq_refl key),
                                    refl,
                                  ))

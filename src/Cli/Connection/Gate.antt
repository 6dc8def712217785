-- ===== src/Cli/Connection/Gate.antt =====
-- What holds of every connection that a bridge is given.
use mathlib.Core.Path.{subst}
use fingerprint_bridge.Base.{
  ℕ, ◌≡◌, ◌⊎◌, refl, ap, ◌∙◌, inl, inr, List, [], ◌∷◌, Bool, true, false, not, ◌||◌, ◌==◌, ==_iff,
  String, Option, none, some, if◌then◌else◌, ok, ok-injective, ensure, >>=-eq-ok, ensure-eq-ok,
  arith,
}
use fingerprint_bridge.Base.Bytes.{text, bytes_eq, bytes_eq_iff}
use fingerprint_bridge.Rewrite.Mapping.{Mapping}
use fingerprint_bridge.Fingerprint.Hello.{TlsHello}
use fingerprint_bridge.Fingerprint.Records.{client_hello}
use fingerprint_bridge.Fingerprint.Compare.{Comparison, compare}
use fingerprint_bridge.Fingerprint.Compare.Agreement.{LayerAgrees, compare-pass_iff}
use fingerprint_bridge.Tls.Mirror.{Call, mirror}
use fingerprint_bridge.Transport.ReadHello.{read_hello}
use fingerprint_bridge.Transport.Tap.{idle, poll_writes}
use fingerprint_bridge.Cli.Connection.{
  Packages, Serve, ServerCall, server_builder, Outside, context, unwrap_or, without_brackets,
  layers_of, Session, setup, h2_bridge, h1_bridge, bridge_of,
}

context-eq-ok {ℓ} :
    {A : Type ℓ} (o : Option A) (message : String) {a : A} → context o message ≡ ok a → o ≡ some a
context-eq-ok none message e = cc e
context-eq-ok (some a) message e = cc e

-- What was negotiated, or what is taken where nothing was.
unwrap_or-cases {ℓ} :
    {A : Type ℓ} (o : Option A) (other : A)
    → (o ≡ some (unwrap_or o other)) ⊎ ((o ≡ none) × (unwrap_or o other ≡ other))
unwrap_or-cases none other = inr (refl, refl)
unwrap_or-cases (some a) other = inl refl

strict_passes : (strict pass : Bool) → (not strict || pass) ≡ true → strict ≡ true → pass ≡ true
strict_passes strict pass h e = ground arith

either_true : (a b : Bool) → (a || b) ≡ true → (a ≡ true) ⊎ (b ≡ true)
either_true true b h = inl refl
either_true false b h = inr h

known_version :
    (version : ℕ) (builder : List ServerCall)
    → server_builder version ≡ ok builder
    → (version ≡ 0x0303) ⊎ (version ≡ 0x0304)
unfolding server_builder
known_version version builder e =
    let (_, known, _) =
      >>=-eq-ok
        (ensure (version == 0x0303 || version == 0x0304)
          "unsupported negotiated origin TLS version")
        _ e in
    elim (either_true _ _ (ensure-eq-ok _ _ known)) [
      | inl older ↦ inl ((==_iff version 0x0303).0 older)
      | inr newer ↦ inr ((==_iff version 0x0304).0 newer)
    ]

known_protocol :
    (p : List ℕ)
    → (bytes_eq p (text "h2") || bytes_eq p (text "http/1.1")) ≡ true
    → (p ≡ text "h2") ⊎ (p ≡ text "http/1.1")
known_protocol p h = elim (either_true _ _ h) [
  | inl second ↦ inl ((bytes_eq_iff p (text "h2")).0 second)
  | inr first ↦ inr ((bytes_eq_iff p (text "http/1.1")).0 first)
]

module _ (packages : Packages) where
  -- The bridge is the one for the protocol that the origin speaks.
  abbrev pub Dispatched : Session packages → Type 0
  Dispatched s =
      ((s.selected ≡ text "h2") × (bridge_of packages s ≡ h2_bridge))
      ⊎ ((s.selected ≡ text "http/1.1") × (bridge_of packages s ≡ h1_bridge))

  dispatch :
      (s : Session packages)
      → (s.selected ≡ text "h2") ⊎ (s.selected ≡ text "http/1.1")
      → Dispatched s
  unfolding bridge_of bytes_eq
  dispatch s (inl e) = inl (e, rw e refl)
  dispatch s (inr e) = inr (e, rw e refl)

  -- The strict check behind the comparison.
  strict-LayerAgrees :
      (strict : Bool) (a b : packages.json.Value) (r : Comparison packages.json)
      → compare packages.json a b (text "tls" ∷ []) ≡ ok r
      → (not strict || r.pass) ≡ true
      → strict ≡ true
      → LayerAgrees packages.json a b (text "tls")
  strict-LayerAgrees strict a b r compared passes on =
      ((compare-pass_iff packages.json a b (text "tls" ∷ [])).0
        (r, compared, strict_passes strict r.pass passes on)).1.0

  -- The protocol and the version are the ones that the origin negotiated, HTTP/1.1 where it chose none,
  -- and the client accepted them and the hello it had sent.
  abbrev pub Negotiated : Outside → Session packages → Type 0
  Negotiated outside s =
      ((outside.selected_alpn_protocol ≡ some s.selected)
        ⊎ ((outside.selected_alpn_protocol ≡ none) × (s.selected ≡ text "http/1.1")))
      × (outside.version2 ≡ some s.version)
      × ((s.version ≡ 0x0303) ⊎ (s.version ≡ 0x0304))
      × ((builder : List ServerCall) × (server_builder s.version ≡ ok builder)
          × (outside.accept_client builder s.selected s.arrived ≡ ok tt))

  -- What the set-up has established where it ends well.
  abbrev pub Admitted : Serve → Mapping → Outside → List ℕ → Session packages → Type 0
  Admitted cfg m outside sent s =
      (read_hello packages.digest packages.encode sent ≡ ok s.arrived)
      × ((calls : List Call) × (mirror packages.patched packages.cipher_name packages.decode_hex
              packages.accept s.arrived.hello (without_brackets m.upstream_host) cfg.ca
            ≡ ok (calls, s.limitations))
          × (writes : List (ℕ × List ℕ)) × (outside.connect calls ≡ ok writes)
          × (client_hello packages.digest packages.encode
                (poll_writes packages.digest packages.encode writes idle).bytes
              ≡ ok (some s.outgoing)))
      × (cfg.strict_tls ≡ true
          → LayerAgrees packages.json (layers_of packages s.arrived.hello)
              (layers_of packages s.outgoing) (text "tls"))
      × Negotiated outside s
      × Dispatched s

  -- Where the set-up of a connection ends well, the client's hello is what `read_hello` found in what it
  -- sent; the backend's calls and the limitations are what `mirror` returned for that hello, and the
  -- outgoing hello is one that the tap captured of what was written after those calls; under
  -- `strict_tls` the two hellos' evidence agrees, so no bridge gets a connection on which it differs. The
  -- session's protocol is the one that the origin selected, or `http/1.1` where it selected none; its
  -- version is the one that was negotiated with the origin, TLS 1.2 or 1.3; the client was accepted with
  -- that protocol and the builder for that version; and the bridge is the one for that protocol, HTTP/2
  -- or HTTP/1.1.
  pub setup-Admitted :
      (cfg : Serve) (m : Mapping) (outside : Outside) (sent : List ℕ) (s : Session packages)
      → setup packages cfg m outside sent ≡ ok s
      → Admitted cfg m outside sent s
  unfolding setup
  setup-Admitted cfg m outside sent s e =
      let (arrived, read, e₁) = >>=-eq-ok (read_hello packages.digest packages.encode sent) _ e in
      let ((calls, limitations), mirrored, e₂) =
        >>=-eq-ok
          (mirror packages.patched packages.cipher_name packages.decode_hex packages.accept
            arrived.hello (without_brackets m.upstream_host) cfg.ca)
          _ e₁ in
      let (writes, wrote, e₃) = >>=-eq-ok (outside.connect calls) _ e₂ in
      let (found, captured, e₄) =
        >>=-eq-ok
          (client_hello packages.digest packages.encode
            (poll_writes packages.digest packages.encode writes idle).bytes)
          _ e₃ in
      let (outgoing, present, e₅) =
        >>=-eq-ok (context found "outbound ClientHello not captured") _ e₄ in
      let (comparison, compared, e₆) =
        >>=-eq-ok
          (compare packages.json (layers_of packages arrived.hello) (layers_of packages outgoing)
            (text "tls" ∷ []))
          _ e₅ in
      let (_, _, e₇) = >>=-eq-ok (if cfg.reports then outside.write_reports else ok tt) _ e₆ in
      let (_, passes, e₈) =
        >>=-eq-ok
          (ensure (not cfg.strict_tls || comparison.pass)
            "strict TLS comparison failed; no HTTP forwarded")
          _ e₇ in
      let selected : List ℕ = unwrap_or outside.selected_alpn_protocol (text "http/1.1") in
      let (_, known, e₉) =
        >>=-eq-ok
          (ensure (bytes_eq selected (text "h2") || bytes_eq selected (text "http/1.1"))
            "unsupported upstream ALPN")
          _ e₈ in
      let (version, negotiated, f₁) =
        >>=-eq-ok (context outside.version2 "missing negotiated origin TLS version") _ e₉ in
      let (builder, built, f₂) = >>=-eq-ok (server_builder version) _ f₁ in
      let (_, accepted, done) = >>=-eq-ok (outside.accept_client builder selected arrived) _ f₂ in
      let shown : client_hello packages.digest packages.encode
            (poll_writes packages.digest packages.encode writes idle).bytes
          ≡ ok (some outgoing) =
        captured ∙ ap (λ (o : Option TlsHello). ok o) (context-eq-ok found _ present) in
      subst (λ (z : Session packages). Admitted cfg m outside sent z) (ok-injective done)
        (
          read,
          (calls, mirrored, writes, wrote, shown),
          strict-LayerAgrees cfg.strict_tls _ _ comparison compared (ensure-eq-ok _ _ passes),
          (
            unwrap_or-cases outside.selected_alpn_protocol (text "http/1.1"),
            context-eq-ok outside.version2 _ negotiated,
            known_version version builder built,
            (builder, built, accepted),
          ),
          dispatch _ (known_protocol selected (ensure-eq-ok _ _ known)),
        )

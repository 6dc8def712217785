-- ===== src/Tls/Mirror/Reports.antt =====
-- What the client offered is configured or reported.
use mathlib.Core.Path.{subst}
use fingerprint_bridge.Base.{
  ℕ, ◌≡◌, refl, ◌⊎◌, inl, inr, List, [], ◌∷◌, Bool, true, Option, some, All, Result, ok, Among,
  >>=-eq-ok, ok-injective,
}
use fingerprint_bridge.Base.Bytes.{text}
use fingerprint_bridge.Fingerprint.Reader.{grease}
use fingerprint_bridge.Fingerprint.Hello.{TlsHello}
use fingerprint_bridge.Tls.Groups.{group}
use fingerprint_bridge.Tls.Mirror.{
  Call, call, selected, unsupported, no_cipher, known_in, signatures, known_extensions,
  compressions, never, colons, reports_by_kind, limitations, steps, decode_all, run_steps, mirror,
  set_strict_cipher_list, set_curves_list, set_verify_algorithm_prefs,
  add_certificate_compression_algorithm,
}
use fingerprint_bridge.Tls.Mirror.Calls.{
  Among-set_strict_cipher_list, Among-set_curves_list, Among-set_verify_algorithm_prefs,
  Among-add_compression, Among-run_steps,
}
use fingerprint_bridge.Tls.Mirror.Sorting.{IsHandled, flatten-IsHandled}

-- An identifier is skipped, or the backend has it and was given it, or it is reported.
abbrev pub IsSettled :
    {A : Type 0}
    → (ℕ → Bool)
    → (ℕ → Option A)
    → (A → Type 0)
    → (ℕ → List ℕ)
    → List (List ℕ)
    → ℕ
    → Type 0
IsSettled {A} skipped known Given label reported id =
    (skipped id ≡ true) ⊎ (((a : A) × (known id ≡ some a) × Given a) ⊎ Among (label id) reported)

All-IsSettled :
    {A : Type 0} (skipped : ℕ → Bool) (known : ℕ → Option A) (Given : A → Type 0)
    (label : ℕ → List ℕ) (given : List A) (reported : List (List ℕ)) (ids : List ℕ)
    → ((a : A) → Among a given → Given a)
    → All (IsHandled skipped known given label reported) ids
    → All (IsSettled skipped known Given label reported) ids
All-IsSettled skipped known Given label given reported [] f h = tt
All-IsSettled skipped known Given label given reported (id ∷ ids) f (inl s, more) =
    (inl s, All-IsSettled skipped known Given label given reported ids f more)
All-IsSettled skipped known Given label given reported (id ∷ ids) f (inr (inl (a, e, m)), more) =
    (inr (inl (a, e, f a m)), All-IsSettled skipped known Given label given reported ids f more)
All-IsSettled skipped known Given label given reported (id ∷ ids) f (inr (inr m), more) =
    (inr (inr m), All-IsSettled skipped known Given label given reported ids f more)

-- A call sets a list that has the member.
abbrev pub SetWith : {A B : Type 0} → (List A → B) → List B → A → Type 0
SetWith {A} set calls a = (given : List A) × Among a given × Among (set given) calls

-- What was offered is settled: given to the backend by one of the calls, or reported. An extension has
-- no call of its own: the table of the extensions that are not reported is `known_extensions`.
pub record Settled (patched : Bool) (cipher_name : ℕ → Option (List ℕ)) (hello : TlsHello)
    (calls : List Call) (reports : List (List ℕ)) : Type 0 where
  pub ciphers :
      All
        (IsSettled no_cipher cipher_name
          (SetWith (λ names. set_strict_cipher_list (colons names)) calls)
          (unsupported (text "unsupported cipher "))
          reports)
        hello.ciphers
  pub groups :
      All
        (IsSettled grease
          (group patched)
          (SetWith (λ names. set_curves_list (colons names)) calls)
          (unsupported (text "unsupported group "))
          reports)
        hello.groups
  pub algorithms :
      All
        (IsSettled grease
          (known_in (signatures patched))
          (SetWith set_verify_algorithm_prefs calls)
          (unsupported (text "unsupported signature algorithm "))
          reports)
        hello.signature_algorithms
  pub compression :
      All
        (IsSettled never
          (known_in compressions)
          (λ id. Among (add_certificate_compression_algorithm id) calls)
          (unsupported (text "unsupported certificate compression "))
          reports)
        hello.cert_compression
  pub extensions :
      All
        (IsSettled grease
          (known_in (known_extensions patched))
          (λ id. Unit)
          (unsupported (text "unsupported extension "))
          reports)
        hello.extensions

module _ (patched : Bool) (cipher_name : ℕ → Option (List ℕ))
    (decode_hex : List ℕ → Result (List ℕ)) (accept : List Call → Call → Result (Unit {0})) where
  run_steps-Settled :
      (hello : TlsHello) (host : List ℕ) (ca : Option (List ℕ)) (protocols : List (List ℕ))
      (calls : List Call)
      → run_steps patched cipher_name decode_hex accept []
          (steps patched cipher_name hello host ca protocols)
        ≡ ok calls
      → Settled patched cipher_name hello calls (limitations patched cipher_name hello)
  unfolding limitations reports_by_kind
  run_steps-Settled hello host ca protocols calls ran =
      let kinds : List (List (List ℕ)) = reports_by_kind patched cipher_name hello in
      let made : (c : Call)
          → Among (call c) (steps patched cipher_name hello host ca protocols)
          → Among c calls =
        Among-run_steps patched cipher_name hello host ca protocols decode_hex accept calls ran in
      record {
        ciphers =
            All-IsSettled no_cipher cipher_name _ (unsupported (text "unsupported cipher ")) _ _
              hello.ciphers
              (λ a m. (
                selected no_cipher cipher_name hello.ciphers,
                m,
                made _ (Among-set_strict_cipher_list patched cipher_name hello host ca protocols),
              ))
              (flatten-IsHandled no_cipher cipher_name (unsupported (text "unsupported cipher "))
                hello.ciphers kinds (inl refl));
        groups =
            All-IsSettled grease (group patched) _ (unsupported (text "unsupported group ")) _ _
              hello.groups
              (λ a m. (
                selected grease (group patched) hello.groups,
                m,
                made _ (Among-set_curves_list patched cipher_name hello host ca protocols a m),
              ))
              (flatten-IsHandled grease (group patched) (unsupported (text "unsupported group "))
                hello.groups kinds (inr (inl refl)));
        algorithms =
            All-IsSettled grease (known_in (signatures patched)) _
              (unsupported (text "unsupported signature algorithm ")) _ _ hello.signature_algorithms
              (λ a m. (
                selected grease (known_in (signatures patched)) hello.signature_algorithms,
                m,
                made _ (
                    Among-set_verify_algorithm_prefs patched cipher_name hello host ca protocols a
                      m),
              ))
              (flatten-IsHandled grease (known_in (signatures patched))
                (unsupported (text "unsupported signature algorithm ")) hello.signature_algorithms
                kinds (inr (inr (inl refl))));
        compression =
            All-IsSettled never (known_in compressions) _
              (unsupported (text "unsupported certificate compression ")) _ _ hello.cert_compression
              (λ a m.
                made _ (Among-add_compression patched cipher_name hello host ca protocols a m))
              (flatten-IsHandled never (known_in compressions)
                (unsupported (text "unsupported certificate compression ")) hello.cert_compression
                kinds (inr (inr (inr (inr (inr (inl refl)))))));
        extensions =
            All-IsSettled grease (known_in (known_extensions patched)) _
              (unsupported (text "unsupported extension ")) _ _ hello.extensions (λ a m. tt)
              (flatten-IsHandled grease (known_in (known_extensions patched))
                (unsupported (text "unsupported extension ")) hello.extensions kinds
                (inr (inr (inr (inr (inr (inr (inl refl))))))));
      }

  -- Whenever `mirror` returns, each cipher suite that the client offered, but GREASE and the SCSV, is in
  -- the list of a call that set the suites, or is reported by its number; each group and each signature
  -- algorithm, but GREASE, is in the list of a call that set them, or is reported; each certificate
  -- compression was added by a call, or is reported; and each extension, but GREASE, is one of those
  -- that the table of known extensions has, or is reported. It is not said that a known extension is
  -- configured.
  pub mirror_reports :
      (hello : TlsHello) (host : List ℕ) (ca : Option (List ℕ)) (calls : List Call)
      (reports : List (List ℕ))
      → mirror patched cipher_name decode_hex accept hello host ca ≡ ok (calls, reports)
      → Settled patched cipher_name hello calls reports
  unfolding mirror
  mirror_reports hello host ca calls reports e =
      let (protocols, decoded, e₁) =
        >>=-eq-ok (decode_all patched cipher_name decode_hex accept hello.alpn) _ e in
      let (made, ran, e₂) =
        >>=-eq-ok
          (run_steps patched cipher_name decode_hex accept []
            (steps patched cipher_name hello host ca protocols))
          _ e₁ in
      let same : (made, limitations patched cipher_name hello) ≡ (calls, reports) =
        ok-injective e₂ in
      subst (λ (r : List Call × List (List ℕ)). Settled patched cipher_name hello r.0 r.1) same
        (run_steps-Settled hello host ca protocols made ran)

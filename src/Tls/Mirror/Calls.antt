-- ===== src/Tls/Mirror/Calls.antt =====
-- Which calls stand among the steps of `mirror`, and that a run that ends has made them.
use mathlib.Core.Path.{subst}
use fingerprint_bridge.Base.{
  ℕ, ◌≡◌, refl, sym, ap, ◌∙◌, inl, inr, List, [], ◌∷◌, ◌++◌, Bool, append-nil, append_assoc, Option,
  none, some, true, not, if◌then◌else◌, map, Result, ok, ensure, >>=-eq-ok, ok-injective, Among,
  Among-left, Among-right,
}
use fingerprint_bridge.Fingerprint.Reader.{grease}
use fingerprint_bridge.Fingerprint.Hello.{TlsHello}
use fingerprint_bridge.Std.Ascii.{elem, any, is_empty}
use fingerprint_bridge.Tls.Groups.{group}
use fingerprint_bridge.Tls.Order.{extension_order}
use fingerprint_bridge.Tls.Mirror.{
  Call, call, Step, check, set_strict_cipher_list, set_curves_list, set_verify_algorithm_prefs,
  add_certificate_compression_algorithm, selected, no_cipher, known_in, signatures, compressions,
  never, colons, unless_empty, steps, run_steps, when, only_tls13, register_char2, register_x448,
  register_ed448, set_ca_file, set_min_proto_version, set_max_proto_version,
  set_extension_permutation, into_ssl, patched_steps, unpatched_steps, set_enable_ech_grease, sends,
  alpn_known, alpn_wire, set_alpn_protos, enable_ocsp_stapling, enable_signed_cert_timestamps,
  no_ticket, no_renegotiation, no_psk_dhe_ke, set_preserve_tls13_cipher_list, set_grease_enabled,
}

-- The calls among the steps.
abbrev calls_of : List Step → List Call
calls_of [] = []
calls_of (call c ∷ more) = c ∷ calls_of more
calls_of (check test message ∷ more) = calls_of more

-- The call of a step, or another.
abbrev call_of : Call → Step → Call
call_of other (call c) = c
call_of other (check test message) = other

abbrev IsCall : Step → Type 0
IsCall (call c) = Unit
IsCall (check test message) = ⊥

Among-calls_of : (c : Call) (made : List Step) → Among (call c) made → Among c (calls_of made)
Among-calls_of c [] m = absurd m
Among-calls_of c (call d ∷ more) (inl e) = inl (ap (call_of c) e)
Among-calls_of c (call d ∷ more) (inr m) = inr (Among-calls_of c more m)
Among-calls_of c (check test message ∷ more) (inl e) = absurd (subst IsCall e tt)
Among-calls_of c (check test message ∷ more) (inr m) = Among-calls_of c more m

pub Among-map :
    {A B : Type 0} (f : A → B) (a : A) (xs : List A) → Among a xs → Among (f a) (map f xs)
Among-map f a [] m = absurd m
Among-map f a (x ∷ xs) (inl e) = inl (ap f e)
Among-map f a (x ∷ xs) (inr m) = inr (Among-map f a xs m)

-- A list with a member is not empty.
Among-unless_empty :
    {A : Type 0} (a : A) (xs : List A) (s : Step) → Among a xs → Among s (unless_empty xs (s ∷ []))
Among-unless_empty a [] s m = absurd m
Among-unless_empty a (x ∷ xs) s m = inl refl

-- A list with others behind it, each behind the one before.
abbrev behind : {A : Type 0} → List A → List (List A) → List A
behind xs [] = xs
behind xs (ys ∷ more) = behind (xs ++ ys) more

Among-behind :
    {A : Type 0} (a : A) (xs : List A) (more : List (List A))
    → Among a xs
    → Among a (behind xs more)
Among-behind a xs [] m = m
Among-behind a xs (ys ∷ more) m = Among-behind a (xs ++ ys) more (Among-left a xs ys m)

module _ (patched : Bool) (cipher_name : ℕ → Option (List ℕ)) (hello : TlsHello) (host : List ℕ)
    (ca : Option (List ℕ)) (protocols : List (List ℕ)) where
  abbrev all_steps : List Step
  all_steps = steps patched cipher_name hello host ca protocols

  abbrev names : List (List ℕ)
  names = selected no_cipher cipher_name hello.ciphers

  abbrev groups : List (List ℕ)
  groups = selected grease (group patched) hello.groups

  abbrev prefs : List ℕ
  prefs = selected grease (known_in (signatures patched)) hello.signature_algorithms

  abbrev compressed : List ℕ
  compressed = selected never (known_in compressions) hello.cert_compression

  -- The steps up to the cipher suites, those of the suites and the groups, and of the algorithms.
  abbrev first_steps : List Step
  first_steps =
      when patched (call register_char2 ∷ call register_x448 ∷ call register_ed448 ∷ [])
      ++ elim ca [ none ↦ [] | some path ↦ call (set_ca_file path) ∷ [] ]
      ++ call (set_min_proto_version (if only_tls13 hello then 0x0304 else 0x0303))
        ∷ when (not (elem 0x0304 hello.supported_versions))
            (call (set_max_proto_version 0x0303) ∷ [])

  abbrev of_ciphers : List Step
  of_ciphers =
      check (not (is_empty names)) "no supported client cipher suites"
      ∷ call (set_preserve_tls13_cipher_list true)
      ∷ call (set_strict_cipher_list (colons names))
      ∷ call (set_grease_enabled (any grease (hello.ciphers ++ hello.extensions)))
      ∷ unless_empty groups (call (set_curves_list (colons groups)) ∷ [])

  abbrev of_prefs : List Step
  of_prefs = unless_empty prefs (call (set_verify_algorithm_prefs prefs) ∷ [])

  -- The steps between the algorithms and the compressions, those of the compressions, and the last.
  abbrev middle_steps : List (List Step)
  middle_steps =
      map (λ p. check (alpn_known p) "unsupported ALPN") protocols
      ∷ unless_empty protocols (call (set_alpn_protos (alpn_wire protocols)) ∷ [])
      ∷ when (sends patched cipher_name hello 5) (call enable_ocsp_stapling ∷ [])
      ∷ when (sends patched cipher_name hello 18) (call enable_signed_cert_timestamps ∷ [])
      ∷ when (not (sends patched cipher_name hello 35)) (call no_ticket ∷ [])
      ∷ when (not (sends patched cipher_name hello 65281)) (call no_renegotiation ∷ [])
      ∷ when (not (sends patched cipher_name hello 45)) (call no_psk_dhe_ke ∷ [])
      ∷ []

  abbrev of_compressions : List Step
  of_compressions = map (λ id. call (add_certificate_compression_algorithm id)) compressed

  abbrev last_steps : List (List Step)
  last_steps =
      (call (set_extension_permutation (extension_order patched hello.extensions))
        ∷ call (into_ssl host)
        ∷ (if patched
            then patched_steps patched cipher_name hello
            else unpatched_steps patched cipher_name hello))
      ∷ (call (set_enable_ech_grease (sends patched cipher_name hello 65037)) ∷ [])
      ∷ []

  abbrev before_compressions : List Step
  before_compressions = behind (first_steps ++ of_ciphers ++ of_prefs) middle_steps

  all_steps_lem : all_steps ≡ behind (before_compressions ++ of_compressions) last_steps
  unfolding steps
  all_steps_lem = refl

  Among-all_steps :
      (c : Call)
      → Among (call c) (before_compressions ++ of_compressions)
      → Among (call c) all_steps
  Among-all_steps c m =
      subst (Among (call c)) (sym all_steps_lem)
        (Among-behind (call c) (before_compressions ++ of_compressions) last_steps m)

  Among-before :
      (c : Call) → Among (call c) (first_steps ++ of_ciphers ++ of_prefs) → Among (call c) all_steps
  Among-before c m = Among-all_steps c (
      Among-left (call c) before_compressions of_compressions
        (Among-behind (call c) (first_steps ++ of_ciphers ++ of_prefs) middle_steps m))

  Among-of_ciphers : (c : Call) → Among (call c) of_ciphers → Among (call c) all_steps
  Among-of_ciphers c m = Among-before c (
      Among-left (call c) (first_steps ++ of_ciphers) of_prefs
        (Among-right (call c) first_steps of_ciphers m))

  pub Among-set_strict_cipher_list : Among (call (set_strict_cipher_list (colons names))) all_steps
  Among-set_strict_cipher_list = Among-of_ciphers _ (inr (inr (inl refl)))

  pub Among-set_curves_list :
      (a : List ℕ) → Among a groups → Among (call (set_curves_list (colons groups))) all_steps
  Among-set_curves_list a m =
      Among-of_ciphers _ (inr (inr (inr (inr (Among-unless_empty a groups _ m)))))

  pub Among-set_verify_algorithm_prefs :
      (a : ℕ) → Among a prefs → Among (call (set_verify_algorithm_prefs prefs)) all_steps
  Among-set_verify_algorithm_prefs a m =
      Among-before _
        (Among-right _ (first_steps ++ of_ciphers) of_prefs (Among-unless_empty a prefs _ m))

  pub Among-add_compression :
      (a : ℕ)
      → Among a compressed
      → Among (call (add_certificate_compression_algorithm a)) all_steps
  Among-add_compression a m = Among-all_steps _ (
      Among-right _ before_compressions of_compressions
        (Among-map (λ id. call (add_certificate_compression_algorithm id)) a compressed m))

  module _ (decode_hex : List ℕ → Result (List ℕ))
      (accept : List Call → Call → Result (Unit {0})) where
    run_steps-calls_of :
        (made : List Call) (more : List Step) (calls : List Call)
        → run_steps patched cipher_name decode_hex accept made more ≡ ok calls
        → calls ≡ made ++ calls_of more
    unfolding run_steps
    run_steps-calls_of made [] calls e = sym (ok-injective e) ∙ sym (append-nil made)
    run_steps-calls_of made (call c ∷ more) calls e =
        let (_, _, ran) = >>=-eq-ok (accept made c) _ e in
        run_steps-calls_of (made ++ c ∷ []) more calls ran
        ∙ append_assoc made (c ∷ []) (calls_of more)
    run_steps-calls_of made (check test message ∷ more) calls e =
        let (_, _, ran) = >>=-eq-ok (ensure test message) _ e in
        run_steps-calls_of made more calls ran

    -- A run that ends has made each call that stands among the steps.
    pub Among-run_steps :
        (calls : List Call)
        → run_steps patched cipher_name decode_hex accept [] all_steps ≡ ok calls
        → (c : Call) → Among (call c) all_steps
        → Among c calls
    Among-run_steps calls e c m =
        subst (Among c) (sym (run_steps-calls_of [] all_steps calls e))
          (Among-calls_of c all_steps m)

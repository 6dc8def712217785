-- ===== src/Fingerprint/Records/Fragments.antt =====
-- A hello in several TLS records.
use fingerprint_bridge.Base.{
  ℕ, zero, suc, ◌+◌, ◌/◌, ◌%◌, ◌≤◌, ◌≡◌, refl, sym, ap, ◌∙◌, ◌⊎◌, inl, inr, List, [], ◌∷◌, ◌++◌,
  append-nil, append_assoc, All, Option, none, some, true, false, ◌==◌, ==_iff, leb, le→leb, length,
  length-append, take, take_all, take-append, drop-append, Result, ok, err, ◌>>=◌, arith,
}
use fingerprint_bridge.Http2.Frame.{be16, be24}
use fingerprint_bridge.Fingerprint.Hello.{TlsHello, parse_hello}
use fingerprint_bridge.Fingerprint.Records.{max_hello, complete, records_loop, client_hello}

-- A record of the handshake: its version, and its part of the message.
abbrev pub Fragment : Type 0
Fragment = ℕ × ℕ × List ℕ

-- The records as they are sent, and the message that they carry.
abbrev pub on_wire : List Fragment → List ℕ
on_wire [] = []
on_wire ((major, minor, chunk) ∷ more) =
    22 ∷ major ∷ minor ∷ length chunk / 256 ∷ length chunk % 256 ∷ (chunk ++ on_wire more)

abbrev pub message : List Fragment → List ℕ
message [] = []
message ((major, minor, chunk) ∷ more) = chunk ++ message more

abbrev pub FitsRecord : Fragment → Type 0
FitsRecord (major, minor, chunk) = length chunk ≤ 18432

tail_eq : {x y : ℕ} {xs ys : List ℕ} → x ∷ xs ≡ y ∷ ys → (x ≡ y) × (xs ≡ ys)
tail_eq h = (cc h, cc h)

not_all : (n m k : ℕ) → m + k ≡ n → 1 ≤ k → leb n m ≡ false
not_all n m k h p = ground arith

pub be16-length : (n : ℕ) → be16 (n / 256) (n % 256) ≡ n
be16-length n = omega arith

pub empty_or : (l : List ℕ) → (l ≡ []) ⊎ (1 ≤ length l)
empty_or [] = inl refl
empty_or (x ∷ l) = inr (omega arith)

found_all :
    (next : Result (Option TlsHello)) (r : Result TlsHello)
    → ((r >>= λ hello. ok (some hello)) >>= λ found. elim found [
      | some hello ↦ ok (some hello)
      | none ↦ next
    ])
      ≡ (r >>= λ hello. ok (some hello))
found_all next (ok hello) = refl
found_all next (err e) = refl

module _ (digest encode : List ℕ → List ℕ) where
  -- What the whole message gives.
  abbrev pub parsed : List ℕ → Result (Option TlsHello)
  parsed body = do hello ← parse_hello digest encode body; ok (some hello)

  module _ (a b c : ℕ) (body : List ℕ) (size : be24 a b c ≡ length body)
      (small : length body + 4 ≤ max_hello) where
    pub complete_part :
        (part rest : List ℕ)
        → part ++ rest ≡ 1 ∷ a ∷ b ∷ c ∷ body
        → 1 ≤ length rest
        → complete digest encode part ≡ ok none
    unfolding complete
    complete_part [] rest e h = refl
    complete_part (x ∷ []) rest e h = refl
    complete_part (x ∷ y ∷ []) rest e h = refl
    complete_part (x ∷ y ∷ z ∷ []) rest e h = refl
    complete_part (x ∷ y ∷ z ∷ w ∷ part) rest e h =
        let kind : (x == 1) ≡ true = (==_iff x 1).1 (tail_eq e).0 in
        let e₁ : y ∷ z ∷ w ∷ (part ++ rest) ≡ a ∷ b ∷ c ∷ body = (tail_eq e).1 in
        let e₂ : z ∷ w ∷ (part ++ rest) ≡ b ∷ c ∷ body = (tail_eq e₁).1 in
        let e₃ : w ∷ (part ++ rest) ≡ c ∷ body = (tail_eq e₂).1 in
        let bytes : length part + length rest ≡ length body =
          sym (length-append part rest) ∙ ap (λ (l : List ℕ). length l) (tail_eq e₃).1 in
        let same : be24 y z w ≡ length body =
          omega (arith, size, (tail_eq e₁).0, (tail_eq e₂).0, (tail_eq e₃).0) in
        let fits : leb (be24 y z w + 4) max_hello ≡ true =
          le→leb _ _ (omega (arith, same, small)) in
        let short : leb (be24 y z w) (length part) ≡ false =
          not_all (be24 y z w) (length part) (length rest) (omega (arith, same, bytes)) h in
        rw (kind, fits, short) refl

    complete_whole : complete digest encode (1 ∷ a ∷ b ∷ c ∷ body) ≡ parsed body
    unfolding complete
    complete_whole =
        let fits : leb (be24 a b c + 4) max_hello ≡ true =
          le→leb _ _ (omega (arith, size, small)) in
        let enough : leb (be24 a b c) (length body) ≡ true = le→leb _ _ (omega (arith, size)) in
        let all : take (be24 a b c) body ≡ body =
          take_all (be24 a b c) body (omega (arith, size)) in
        rw (fits, enough, all) refl

    records_loop-on_wire :
        (fuel : ℕ) (fragments : List Fragment) (before : List ℕ)
        → All FitsRecord fragments
        → length (on_wire fragments) ≤ fuel
        → before ++ message fragments ≡ 1 ∷ a ∷ b ∷ c ∷ body
        → 1 ≤ length (message fragments)
        → records_loop digest encode fuel (on_wire fragments) before ≡ parsed body
    unfolding records_loop
    records_loop-on_wire fuel [] before fit h e some_left = absurd (omega (arith, some_left))
    records_loop-on_wire zero ((major, minor, chunk) ∷ more) before fit h e some_left =
        absurd (omega (arith, h))
    records_loop-on_wire (suc fuel) ((major, minor, chunk) ∷ more) before (fits, fit) h e
          some_left =
        let n : be16 (length chunk / 256) (length chunk % 256) ≡ length chunk =
          be16-length (length chunk) in
        let small_record : leb (length chunk) 18432 ≡ true = le→leb _ _ fits in
        let there : leb (length chunk) (length (chunk ++ on_wire more)) ≡ true =
          le→leb _ _ (omega (arith, length-append chunk (on_wire more))) in
        let so_far : (before ++ chunk) ++ message more ≡ 1 ∷ a ∷ b ∷ c ∷ body =
          append_assoc before chunk (message more) ∙ e in
        rw (n, small_record, there, take-append chunk (on_wire more))
          (elim (empty_or (message more)) [
            | inl finished ↦
                let all : before ++ chunk ≡ 1 ∷ a ∷ b ∷ c ∷ body =
                  sym (append-nil (before ++ chunk))
                  ∙ ap (λ (l : List ℕ). (before ++ chunk) ++ l) (sym finished)
                  ∙ so_far in
                rw (all, complete_whole) (found_all _ (parse_hello digest encode body))
            | inr left ↦ rw (complete_part (before ++ chunk) (message more) so_far left) (
                rw (n, take-append chunk (on_wire more), drop-append chunk (on_wire more))
                  (records_loop-on_wire fuel more (before ++ chunk) fit
                    (omega (arith, h, length-append chunk (on_wire more))) so_far left))
          ])

    -- A hello in any number of records, of any sizes within a record's limit, is read as the whole of it
    -- is: how it is cut makes no difference.
    pub client_hello-on_wire :
        (fragments : List Fragment)
        → All FitsRecord fragments
        → length (on_wire fragments) ≤ max_hello
        → message fragments ≡ 1 ∷ a ∷ b ∷ c ∷ body
        → client_hello digest encode (on_wire fragments) ≡ parsed body
    unfolding client_hello
    client_hello-on_wire fragments fit h e =
        let limit : leb (length (on_wire fragments)) max_hello ≡ true = le→leb _ _ h in
        let some_bytes : 1 ≤ length (message fragments) = rw e (omega arith) in
        rw limit (
          records_loop-on_wire (length (on_wire fragments)) fragments [] fit (omega arith) e
            some_bytes)

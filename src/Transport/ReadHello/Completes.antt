-- ===== src/Transport/ReadHello/Completes.antt =====
-- `read_hello` ends well on a hello that is sent whole.
use mathlib.Core.Path.{subst}
use fingerprint_bridge.Base.{
  ℕ, zero, suc, ◌+◌, ◌/◌, ◌%◌, ◌≤◌, ◌≡◌, refl, sym, ap, ◌∙◌, inl, inr, List, [], ◌∷◌, ◌++◌,
  append-nil, append_assoc, All, All-append, none, some, true, leb, le→leb, length, length-append,
  take-append, drop-append, Result, ok, ◌>>=◌, arith,
}
use fingerprint_bridge.Http2.Frame.{be16, be24}
use fingerprint_bridge.Fingerprint.Hello.{TlsHello, parse_hello}
use fingerprint_bridge.Fingerprint.Records.{max_hello, records_loop, client_hello}
use fingerprint_bridge.Fingerprint.Records.Fragments.{
  Fragment, on_wire, message, FitsRecord, be16-length, empty_or, complete_part,
  client_hello-on_wire,
}
use fingerprint_bridge.Transport.ReadHello.{Arrived, read_loop, read_hello}

on_wire-append : (xs ys : List Fragment) → on_wire (xs ++ ys) ≡ on_wire xs ++ on_wire ys
on_wire-append [] ys = refl
on_wire-append ((major, minor, chunk) ∷ xs) ys =
    ap (λ (l : List ℕ). 22 ∷ major ∷ minor ∷ length chunk / 256 ∷ length chunk % 256 ∷ l)
      (ap (λ (l : List ℕ). chunk ++ l) (on_wire-append xs ys)
        ∙ sym (append_assoc chunk (on_wire xs) (on_wire ys)))

message-append : (xs ys : List Fragment) → message (xs ++ ys) ≡ message xs ++ message ys
message-append [] ys = refl
message-append ((major, minor, chunk) ∷ xs) ys =
    ap (λ (l : List ℕ). chunk ++ l) (message-append xs ys)
    ∙ sym (append_assoc chunk (message xs) (message ys))

one_more :
    (read : List Fragment) (major minor : ℕ) (chunk : List ℕ)
    → on_wire read ++ (22 ∷ major ∷ minor ∷ length chunk / 256 ∷ length chunk % 256 ∷ chunk)
      ≡ on_wire (read ++ (major, minor, chunk) ∷ [])
one_more read major minor chunk =
    ap
      (λ (l : List ℕ).
        on_wire read ++ (22 ∷ major ∷ minor ∷ length chunk / 256 ∷ length chunk % 256 ∷ l))
      (sym (append-nil chunk))
    ∙ sym (on_wire-append read ((major, minor, chunk) ∷ []))

bytes_more :
    (read : List Fragment) (major minor : ℕ) (chunk : List ℕ) (more : List Fragment)
    → length (on_wire (read ++ (major, minor, chunk) ∷ more))
      ≡ length
          (on_wire read ++ (22 ∷ major ∷ minor ∷ length chunk / 256 ∷ length chunk % 256 ∷ chunk))
        + length (on_wire more)
bytes_more read major minor chunk more =
    let header : List ℕ = 22 ∷ major ∷ minor ∷ length chunk / 256 ∷ length chunk % 256 ∷ [] in
    omega (
      arith,
      ap (λ (l : List ℕ). length l) (on_wire-append read ((major, minor, chunk) ∷ more)),
      length-append (on_wire read) (on_wire ((major, minor, chunk) ∷ more)),
      length-append chunk (on_wire more),
      length-append (on_wire read)
          (22 ∷ major ∷ minor ∷ length chunk / 256 ∷ length chunk % 256 ∷ chunk),
    )

module _ (digest encode : List ℕ → List ℕ) where
  module _ (a b c : ℕ) (body : List ℕ) (size : be24 a b c ≡ length body)
      (small : length body + 4 ≤ max_hello) where
    -- A part of the message is not yet a hello.
    records_loop_part :
        (fuel : ℕ) (fragments : List Fragment) (before rest : List ℕ)
        → All FitsRecord fragments
        → length (on_wire fragments) ≤ fuel
        → before ++ (message fragments ++ rest) ≡ 1 ∷ a ∷ b ∷ c ∷ body
        → 1 ≤ length rest
        → records_loop digest encode fuel (on_wire fragments) before ≡ ok none
    unfolding records_loop
    records_loop_part zero [] before rest fit h e some_left = refl
    records_loop_part (suc fuel) [] before rest fit h e some_left = refl
    records_loop_part zero ((major, minor, chunk) ∷ more) before rest fit h e some_left =
        absurd (omega (arith, h))
    records_loop_part (suc fuel) ((major, minor, chunk) ∷ more) before rest (fits, fit) h e
          some_left =
        let n : be16 (length chunk / 256) (length chunk % 256) ≡ length chunk =
          be16-length (length chunk) in
        let small_record : leb (length chunk) 18432 ≡ true = le→leb _ _ fits in
        let there : leb (length chunk) (length (chunk ++ on_wire more)) ≡ true =
          le→leb _ _ (omega (arith, length-append chunk (on_wire more))) in
        let so_far : (before ++ chunk) ++ (message more ++ rest) ≡ 1 ∷ a ∷ b ∷ c ∷ body =
          append_assoc before chunk (message more ++ rest)
          ∙ ap (λ (l : List ℕ). before ++ l) (sym (append_assoc chunk (message more) rest))
          ∙ e in
        let left : 1 ≤ length (message more ++ rest) =
          omega (arith, length-append (message more) rest, some_left) in
        rw (n, small_record, there, take-append chunk (on_wire more))
          (rw
            (complete_part digest encode a b c body size small (before ++ chunk)
              (message more ++ rest) so_far left)
            (rw (n, take-append chunk (on_wire more), drop-append chunk (on_wire more))
              (records_loop_part fuel more (before ++ chunk) rest fit
                (omega (arith, h, length-append chunk (on_wire more))) so_far some_left)))

    client_hello_part :
        (fragments : List Fragment) (rest : List ℕ)
        → All FitsRecord fragments
        → length (on_wire fragments) ≤ max_hello
        → message fragments ++ rest ≡ 1 ∷ a ∷ b ∷ c ∷ body
        → 1 ≤ length rest
        → client_hello digest encode (on_wire fragments) ≡ ok none
    unfolding client_hello
    client_hello_part fragments rest fit h e some_left =
        let limit : leb (length (on_wire fragments)) max_hello ≡ true = le→leb _ _ h in
        rw limit (
          records_loop_part (length (on_wire fragments)) fragments [] rest fit (omega arith) e
            some_left)

    -- The loop, where it has read some records and the others follow.
    read_loop-on_wire :
        (fuel : ℕ) (read fragments : List Fragment) (behind : List ℕ) (hello : TlsHello)
        → All FitsRecord read
        → All FitsRecord fragments
        → length (on_wire fragments) + length behind ≤ fuel
        → length (on_wire (read ++ fragments)) ≤ max_hello
        → message read ++ message fragments ≡ 1 ∷ a ∷ b ∷ c ∷ body
        → 1 ≤ length (message fragments)
        → parse_hello digest encode body ≡ ok hello
        → (arrived : Arrived) × (read_loop digest encode fuel
              (on_wire read)
              (on_wire fragments ++ behind)
            ≡ ok arrived)
          × (arrived.hello ≡ hello)
    unfolding read_loop
    read_loop-on_wire fuel read [] behind hello fit fits h small_hello e some_left p =
        absurd (omega (arith, some_left))
    read_loop-on_wire zero read ((major, minor, chunk) ∷ more) behind hello fit fits h small_hello e
          some_left p =
        absurd (omega (arith, h))
    read_loop-on_wire (suc fuel) read ((major, minor, chunk) ∷ more) behind hello fit (one, fits) h
          small_hello e some_left p =
        let f : Fragment = (major, minor, chunk) in
        let read' : List Fragment = read ++ f ∷ [] in
        let bytes' : List ℕ =
          on_wire read ++ (22 ∷ major ∷ minor ∷ length chunk / 256 ∷ length chunk % 256 ∷ chunk) in
        let rest : List ℕ = on_wire more ++ behind in
        let grown : bytes' ≡ on_wire read' = one_more read major minor chunk in
        let all_bytes : length (on_wire (read ++ f ∷ more))
            ≡ length bytes' + length (on_wire more) =
          bytes_more read major minor chunk more in
        let fit' : All FitsRecord read' = All-append FitsRecord read (f ∷ []) fit (one, tt) in
        let within : length (on_wire read') ≤ max_hello =
          subst (λ (l : List ℕ). length l ≤ max_hello) grown
            (omega (arith, all_bytes, small_hello)) in
        let split : message read' ++ message more ≡ 1 ∷ a ∷ b ∷ c ∷ body =
          sym (message-append read' more)
          ∙ ap (λ (l : List Fragment). message l) (append_assoc read (f ∷ []) more)
          ∙ message-append read (f ∷ more)
          ∙ e in
        let joined : (chunk ++ on_wire more) ++ behind ≡ chunk ++ rest =
          append_assoc chunk (on_wire more) behind in
        let n : be16 (length chunk / 256) (length chunk % 256) ≡ length chunk =
          be16-length (length chunk) in
        let small_record : leb (length chunk) 18432 ≡ true = le→leb _ _ one in
        let limit : leb (length (on_wire read) + length chunk + 5) max_hello ≡ true = le→leb _ _ (
          omega (
            arith,
            all_bytes,
            small_hello,
            length-append (on_wire read)
                (22 ∷ major ∷ minor ∷ length chunk / 256 ∷ length chunk % 256 ∷ chunk),
          )) in
        let there : leb (length chunk) (length (chunk ++ rest)) ≡ true =
          le→leb _ _ (omega (arith, length-append chunk rest)) in
        elim (empty_or (message more)) [
          | inl finished ↦
              let whole : message read' ≡ 1 ∷ a ∷ b ∷ c ∷ body =
                sym (append-nil (message read'))
                ∙ ap (λ (l : List ℕ). message read' ++ l) (sym finished)
                ∙ split in
              let found : client_hello digest encode bytes' ≡ ok (some hello) =
                ap (λ (l : List ℕ). client_hello digest encode l) grown
                ∙ client_hello-on_wire digest encode a b c body size small read' fit' within whole
                ∙ ap (λ (r : Result TlsHello). r >>= λ h. ok (some h)) p in
              (
                record { bytes = bytes'; hello = hello; stream = rest },
                rw (joined, n, small_record, limit, there, take-append chunk rest, found)
                    (rw (joined, n, take-append chunk rest, drop-append chunk rest) refl),
                refl,
              )
          | inr left ↦
              let (arrived, ran, same) =
                read_loop-on_wire fuel read' more behind hello fit' fits
                  (omega (arith, h, length-append chunk (on_wire more)))
                  (subst (λ (l : List Fragment). length (on_wire l) ≤ max_hello)
                    (sym (append_assoc read (f ∷ []) more)) small_hello)
                  split left p in
              let waits : client_hello digest encode bytes' ≡ ok none =
                ap (λ (l : List ℕ). client_hello digest encode l) grown
                ∙ client_hello_part read' (message more) fit' within split left in
              (
                arrived,
                rw (joined, n, small_record, limit, there, take-append chunk rest, waits)
                    (rw (joined, n, take-append chunk rest, drop-append chunk rest)
                      (ap (λ (l : List ℕ). read_loop digest encode fuel l rest) grown ∙ ran)),
                same,
              )
        ]

    -- Where a client sends a hello that parses, cut into records of any sizes within the limits, then
    -- whatever it sends behind, `read_hello` returns that hello.
    pub read_hello-on_wire :
        (fragments : List Fragment) (behind : List ℕ) (hello : TlsHello)
        → All FitsRecord fragments
        → length (on_wire fragments) ≤ max_hello
        → message fragments ≡ 1 ∷ a ∷ b ∷ c ∷ body
        → parse_hello digest encode body ≡ ok hello
        → (arrived : Arrived) × (read_hello digest encode (on_wire fragments ++ behind)
            ≡ ok arrived)
          × (arrived.hello ≡ hello)
    unfolding read_hello
    read_hello-on_wire fragments behind hello fits h e p =
        let some_bytes : 1 ≤ length (message fragments) = rw e (omega arith) in
        read_loop-on_wire (length (on_wire fragments ++ behind)) [] fragments behind hello tt fits
          (omega (arith, length-append (on_wire fragments) behind)) h e some_bytes p

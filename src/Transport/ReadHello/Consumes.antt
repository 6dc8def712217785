-- ===== src/Transport/ReadHello/Consumes.antt =====
-- What `read_hello` takes from the stream.
use mathlib.Core.Path.{subst}
use fingerprint_bridge.Base.{
  ℕ, zero, suc, ◌+◌, ◌≤◌, ◌≡◌, refl, ap, ◌∙◌, List, [], ◌∷◌, ◌++◌, append_assoc, Option, none, some,
  ◌==◌, leb, ◌&&◌, length, take, drop, take-append-drop, length-drop, Result, ok, err, ◌>>=◌, ◌>>◌,
  ensure, >>=-eq-ok, ok-injective, arith,
}
use fingerprint_bridge.Http2.Frame.{be16}
use fingerprint_bridge.Fingerprint.Hello.{TlsHello}
use fingerprint_bridge.Fingerprint.Records.{max_hello, client_hello}
use fingerprint_bridge.Transport.ReadHello.{Arrived, read_loop, read_hello}
use fingerprint_bridge.Transport.Replay.{Stream, new, poll_reads, unread, poll_reads-new}

suc_add : (a b : ℕ) → suc a + b ≡ suc (a + b)
suc_add a b = omega arith

module _ (digest encode : List ℕ → List ℕ) where
  -- The bytes that a reading hands on are those that it took, and they hold the hello.
  abbrev pub Taken : List ℕ → List ℕ → Arrived → Type 0
  Taken bytes stream a =
      (a.bytes ++ a.stream ≡ bytes ++ stream)
      × (client_hello digest encode a.bytes ≡ ok (some a.hello))

  -- One round: what was found among the bytes so far.
  settle :
      (bytes rest : List ℕ) (next : Result Arrived) (found : Option TlsHello) (a : Arrived)
      → client_hello digest encode bytes ≡ ok found
      → (next ≡ ok a → Taken bytes rest a)
      → (elim found [
        | some hello ↦ ok (record { bytes = bytes; hello = hello; stream = rest })
        | none ↦ next
      ])
        ≡ ok a
      → Taken bytes rest a
  settle bytes rest next none a parsed later e = later e
  settle bytes rest next (some hello) a parsed later e =
      subst (λ (b : Arrived). Taken bytes rest b) (ok-injective e) (refl, parsed)

  read_loop-Taken :
      (fuel : ℕ) (bytes stream : List ℕ) (a : Arrived)
      → read_loop digest encode fuel bytes stream ≡ ok a
      → Taken bytes stream a
  unfolding read_loop
  read_loop-Taken zero bytes [] a e = cc e
  read_loop-Taken zero bytes (k ∷ []) a e = cc e
  read_loop-Taken zero bytes (k ∷ x ∷ []) a e = cc e
  read_loop-Taken zero bytes (k ∷ x ∷ y ∷ []) a e = cc e
  read_loop-Taken zero bytes (k ∷ x ∷ y ∷ hi ∷ []) a e = cc e
  read_loop-Taken (suc fuel) bytes [] a e = cc e
  read_loop-Taken (suc fuel) bytes (k ∷ []) a e = cc e
  read_loop-Taken (suc fuel) bytes (k ∷ x ∷ []) a e = cc e
  read_loop-Taken (suc fuel) bytes (k ∷ x ∷ y ∷ []) a e = cc e
  read_loop-Taken (suc fuel) bytes (k ∷ x ∷ y ∷ hi ∷ []) a e = cc e
  read_loop-Taken zero bytes (k ∷ x ∷ y ∷ hi ∷ lo ∷ stream) a e = cc e
  read_loop-Taken (suc fuel) bytes (k ∷ x ∷ y ∷ hi ∷ lo ∷ stream) a e =
      let n : ℕ = be16 hi lo in
      let bytes' : List ℕ = bytes ++ (k ∷ x ∷ y ∷ hi ∷ lo ∷ take n stream) in
      let (_, _, e₁) = >>=-eq-ok (ensure (k == 22) "expected TLS handshake") _ e in
      let (_, _, e₂) =
        >>=-eq-ok
          (ensure (leb n 18432 && leb (length bytes + n + 5) max_hello) "ClientHello too large") _
          e₁ in
      let (_, _, e₃) = >>=-eq-ok (ensure (leb n (length stream)) "early eof") _ e₂ in
      let (found, parsed, e₄) = >>=-eq-ok (client_hello digest encode bytes') _ e₃ in
      let (whole, holds) =
        settle bytes' (drop n stream) _ found a parsed
          (read_loop-Taken fuel bytes' (drop n stream) a) e₄ in
      (
        whole
            ∙ append_assoc bytes (k ∷ x ∷ y ∷ hi ∷ lo ∷ take n stream) (drop n stream)
            ∙ ap (λ (l : List ℕ). bytes ++ (k ∷ x ∷ y ∷ hi ∷ lo ∷ l)) (take-append-drop n stream),
        holds,
      )

  no_bytes : (fuel : ℕ) (bytes : List ℕ) → read_loop digest encode fuel bytes [] ≡ err "early eof"
  unfolding read_loop
  no_bytes zero bytes = refl
  no_bytes (suc fuel) bytes = refl

  -- More rounds than bytes change nothing.
  read_loop_fuel :
      (fuel more : ℕ) (bytes stream : List ℕ)
      → length stream ≤ fuel
      → read_loop digest encode (fuel + more) bytes stream
        ≡ read_loop digest encode fuel bytes stream
  unfolding read_loop
  read_loop_fuel zero more bytes [] h = no_bytes (0 + more) bytes
  read_loop_fuel (suc fuel) more bytes [] h = rw (suc_add fuel more) refl
  read_loop_fuel (suc fuel) more bytes (k ∷ []) h = rw (suc_add fuel more) refl
  read_loop_fuel (suc fuel) more bytes (k ∷ x ∷ []) h = rw (suc_add fuel more) refl
  read_loop_fuel (suc fuel) more bytes (k ∷ x ∷ y ∷ []) h = rw (suc_add fuel more) refl
  read_loop_fuel (suc fuel) more bytes (k ∷ x ∷ y ∷ hi ∷ []) h = rw (suc_add fuel more) refl
  read_loop_fuel zero more bytes (k ∷ stream) h = absurd (omega arith)
  read_loop_fuel (suc fuel) more bytes (k ∷ x ∷ y ∷ hi ∷ lo ∷ stream) h =
      let left : length (drop (be16 hi lo) stream) ≤ fuel =
        omega (arith, length-drop (be16 hi lo) stream) in
      let n : ℕ = be16 hi lo in
      let bytes' : List ℕ = bytes ++ (k ∷ x ∷ y ∷ hi ∷ lo ∷ take n stream) in
      rw (suc_add fuel more) (
        ap
          (λ (next : Result Arrived). do
            ensure (k == 22) "expected TLS handshake"
            ensure (leb n 18432 && leb (length bytes + n + 5) max_hello) "ClientHello too large"
            ensure (leb n (length stream)) "early eof"
            found ← client_hello digest encode bytes'
            elim found [
              | some hello ↦ ok (record { bytes = bytes'; hello = hello; stream = drop n stream })
              | none ↦ next
            ])
          (read_loop_fuel fuel more bytes' (drop n stream) left))

  -- Where `read_hello` succeeds on what a client sends, and the stream behind then holds what it left,
  -- any reads through `Replay` hand out, with what is still to come, all that the client sent, once and
  -- in order; and the bytes read ahead are records that hold the hello that it returns. Its loop takes
  -- at most one round for each byte.
  pub read_hello-replayed :
      (stream : Stream) (sent : List ℕ) (sizes : List ℕ) (a : Arrived) (behind : stream.State)
      → read_hello digest encode sent ≡ ok a
      → stream.pending behind ≡ a.stream
      → ((poll_reads stream sizes (new stream behind a.bytes)).0
            ++ unread stream (poll_reads stream sizes (new stream behind a.bytes)).1
          ≡ sent)
        × (client_hello digest encode a.bytes ≡ ok (some a.hello))
        × ((more : ℕ)
            → read_loop digest encode (length sent + more) [] sent ≡ read_hello digest encode sent)
  unfolding read_hello
  read_hello-replayed stream sent sizes a behind e left =
      let (whole, holds) = read_loop-Taken (length sent) [] sent a e in
      (
        poll_reads-new stream behind a.bytes sizes ∙ ap (λ (l : List ℕ). a.bytes ++ l) left ∙ whole,
        holds,
        λ more. read_loop_fuel (length sent) more [] sent (omega arith),
      )

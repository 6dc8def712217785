-- ===== src/Transport/Tap/Prefix.antt =====
-- What a tap's capture holds.
use mathlib.Core.Bool.{false≢true}
use fingerprint_bridge.Base.{
  ℕ, zero, suc, ◌+◌, ◌-◌, ◌≤◌, ◌≡◌, ◌⊎◌, refl, sym, ap, ◌∙◌, inl, inr, List, [], ◌∷◌, ◌++◌,
  append_assoc, append-nil, Bool, true, false, ◌||◌, ◌==◌, length, take, drop, min, length-append,
  length-take, take-append-drop, drop_all, ap₂, Bool-cases, arith,
}
use fingerprint_bridge.Fingerprint.Records.{max_hello, records_loop, client_hello}
use fingerprint_bridge.Transport.Tap.{Capture, idle, holds_hello, poll_write, poll_writes}

-- The bytes that the stream behind took.
abbrev pub written : List (ℕ × List ℕ) → List ℕ
written [] = []
written ((n, b) ∷ writes) = take n b ++ written writes

take-take : (k n : ℕ) (xs : List ℕ) → k ≤ n → take k (take n xs) ≡ take k xs
take-take zero n xs h = refl
take-take (suc k) zero xs h = absurd (omega arith)
take-take (suc k) (suc n) [] h = refl
take-take (suc k) (suc n) (x ∷ xs) h =
    ap (λ (l : List ℕ). x ∷ l) (take-take k n xs (omega (arith, h)))

-- The first `n` bytes, cut at `k` of them.
cut : (k n : ℕ) (xs : List ℕ) → k ≤ n → take n xs ≡ take k xs ++ drop k (take n xs)
cut k n xs h =
    sym (take-append-drop k (take n xs))
    ∙ ap (λ (l : List ℕ). l ++ drop k (take n xs)) (take-take k n xs h)

-- Where the capture is not full afterwards, it has all that was written.
not_cut :
    (n kept size : ℕ)
    → kept ≤ max_hello
    → (kept + min (min n (max_hello - kept)) size == max_hello) ≡ false
    → min n size ≤ min n (max_hello - kept)
not_cut n kept size h e = ground arith

or_right : (a b : Bool) → (a || b) ≡ false → b ≡ false
or_right true b h = absurd (false≢true (sym h))
or_right false b h = h

module _ (digest encode : List ℕ → List ℕ) where
  -- A capture of `all`: a prefix of it within the limit, which is marked as done exactly where it holds
  -- a hello or is full, and which has all of it otherwise.
  abbrev pub Copies : Capture → List ℕ → Type 0
  Copies c all =
      ((rest : List ℕ) × (all ≡ c.bytes ++ rest) × ((c.done ≡ true) ⊎ (rest ≡ [])))
      × (length c.bytes ≤ max_hello)
      × (c.done ≡ (holds_hello digest encode c.bytes || length c.bytes == max_hello))

  poll_write-Copies :
      (n : ℕ) (b all : List ℕ) (c : Capture)
      → Copies c all
      → Copies (poll_write digest encode n b c) (all ++ take n b)
  unfolding poll_write
  poll_write-Copies n b all c ((rest, whole, seen), small, mark) = elim (Bool-cases c.done) [
    | inl full ↦ rw full (
      (
        rest ++ take n b,
        ap (λ (l : List ℕ). l ++ take n b) whole ∙ append_assoc c.bytes rest (take n b),
        inl refl,
      ),
      small,
      sym full ∙ mark,
    )
    | inr going ↦
        let k : ℕ = min n (max_hello - length c.bytes) in
        let bytes : List ℕ = c.bytes ++ take k b in
        let all_kept : rest ≡ [] = elim seen [
          | inl full ↦ absurd (false≢true (sym going ∙ full))
          | inr e ↦ e
        ] in
        let same : all ≡ c.bytes =
          whole ∙ ap (λ (l : List ℕ). c.bytes ++ l) all_kept ∙ append-nil c.bytes in
        let size : length bytes ≡ length c.bytes + min k (length b) =
          length-append c.bytes (take k b) ∙ ap (λ (m : ℕ). length c.bytes + m) (length-take k b) in
        rw going (
          (
            drop k (take n b),
            ap₂ (λ (l m : List ℕ). l ++ m) same (cut k n b (omega arith))
                ∙ sym (append_assoc c.bytes (take k b) (drop k (take n b))),
            elim (Bool-cases (holds_hello digest encode bytes || length bytes == max_hello)) [
              | inl ended ↦ inl ended
              | inr going_on ↦
                  let short : (length c.bytes + min k (length b) == max_hello) ≡ false =
                    ap (λ (m : ℕ). m == max_hello) (sym size)
                    ∙ or_right (holds_hello digest encode bytes) (length bytes == max_hello)
                        going_on in
                  inr (
                    drop_all k (take n b) (
                      omega (
                        arith,
                        length-take n b,
                        not_cut n (length c.bytes) (length b) small short,
                      )))
            ],
          ),
          omega (arith, size, small),
          refl,
        )
  ]

  poll_writes-Copies :
      (writes : List (ℕ × List ℕ)) (all : List ℕ) (c : Capture)
      → Copies c all
      → Copies (poll_writes digest encode writes c) (all ++ written writes)
  unfolding poll_writes
  poll_writes-Copies [] all c h = rw (append-nil all) h
  poll_writes-Copies ((n, b) ∷ writes) all c h =
      rw (sym (append_assoc all (take n b) (written writes))) (
        poll_writes-Copies writes (all ++ take n b) (poll_write digest encode n b c)
          (poll_write-Copies n b all c h))

  -- After any sequence of writes, of which the stream behind takes any parts, the capture is a prefix of
  -- the bytes taken with at most 262,144 of them; it is marked as done exactly where it holds a whole
  -- hello or has reached that limit, and until then it has all of the bytes.
  pub poll_writes-Copies-idle :
      (writes : List (ℕ × List ℕ)) → Copies (poll_writes digest encode writes idle) (written writes)
  unfolding holds_hello client_hello records_loop
  poll_writes-Copies-idle writes =
      poll_writes-Copies writes [] idle (([], refl, inr refl), omega arith, refl)

-- ===== src/Transport/Replay.antt =====
-- `Replay` of src/transport.rs: a stream that hands out the bytes that were read ahead before those of
-- the stream behind it. That stream is a parameter: a type of states with the bytes that are still to
-- come, and `poll n`, which hands out at most `n` of them, from the front.
use fingerprint_bridge.Base.{
  ℕ, zero, suc, ◌+◌, ◌-◌, ◌≤◌, ◌≡◌, refl, sym, ap, ◌∙◌, inl, inr, List, [], ◌∷◌, ◌++◌, append_assoc,
  false, ltb, if◌then◌else◌, length, take, drop, take-append-drop, min, Bool-cases, drop_all,
  take_all, ap₂, arith,
}

pub record Stream : Type 1 where
  pub State : Type 0
  pub pending : State → List ℕ
  pub poll : ℕ → State → List ℕ × State
  pub in_order : (n : ℕ) (s : State) → (poll n s).0 ++ pending (poll n s).1 ≡ pending s

ltb-false : (a b : ℕ) → ltb a b ≡ false → b ≤ a
ltb-false a b h = ground arith

module _ (stream : Stream) where
  pub record Replay : Type 0 where
    pub inner : stream.State
    pub prefix : List ℕ
    pub position : ℕ

  abbrev pub new : stream.State → List ℕ → Replay
  new inner prefix = record { inner = inner; prefix = prefix; position = 0 }

  -- `poll_read` into a buffer with room for `remaining` bytes, where it is ready: what it puts there.
  unfoldable pub poll_read : ℕ → Replay → List ℕ × Replay
  poll_read remaining r =
      let n = min remaining (length r.prefix - r.position) in
      let (bytes, inner) = stream.poll remaining r.inner in
      if ltb r.position (length r.prefix)
      then (take n (drop r.position r.prefix), record r { position = r.position + n })
      else (bytes, record r { inner = inner })

  -- A sequence of reads.
  unfoldable pub poll_reads : List ℕ → Replay → List ℕ × Replay
  poll_reads [] r = ([], r)
  poll_reads (n ∷ ns) r =
      let (bytes, r') = poll_read n r in let (more, r'') = poll_reads ns r' in (bytes ++ more, r'')

  -- The bytes still to come.
  abbrev pub unread : Replay → List ℕ
  unread r = drop r.position r.prefix ++ stream.pending r.inner

  drop-take : (n k m : ℕ) (xs : List ℕ) → m ≡ k + n → take n (drop k xs) ++ drop m xs ≡ drop k xs
  drop-take n zero m xs e = let same : m ≡ n = omega arith in rw same (take-append-drop n xs)
  drop-take n (suc k) m [] e =
      ap₂ (λ (a b : List ℕ). a ++ b) (take_all n [] (omega arith)) (drop_all m [] (omega arith))
  drop-take n (suc k) zero (x ∷ xs) e = absurd (omega arith)
  drop-take n (suc k) (suc m) (x ∷ xs) e = drop-take n k m xs (omega arith)

  poll_read-unread : (n : ℕ) (r : Replay) → (poll_read n r).0 ++ unread (poll_read n r).1 ≡ unread r
  unfolding poll_read
  poll_read-unread n r = elim (Bool-cases (ltb r.position (length r.prefix))) [
    | inl early ↦
        let k : ℕ = min n (length r.prefix - r.position) in
        rw early (
          sym (
            append_assoc (take k (drop r.position r.prefix)) (drop (r.position + k) r.prefix)
              (stream.pending r.inner))
          ∙ ap (λ (l : List ℕ). l ++ stream.pending r.inner)
              (drop-take k r.position (r.position + k) r.prefix refl))
    | inr late ↦
        let gone : drop r.position r.prefix ≡ [] =
          drop_all r.position r.prefix (ltb-false r.position (length r.prefix) late) in
        rw late (
          ap
            (λ (l : List ℕ).
              (stream.poll n r.inner).0 ++ (l ++ stream.pending (stream.poll n r.inner).1))
            gone
          ∙ stream.in_order n r.inner
          ∙ ap (λ (l : List ℕ). l ++ stream.pending r.inner) (sym gone))
  ]

  poll_reads-unread :
      (ns : List ℕ) (r : Replay) → (poll_reads ns r).0 ++ unread (poll_reads ns r).1 ≡ unread r
  unfolding poll_reads
  poll_reads-unread [] r = refl
  poll_reads-unread (n ∷ ns) r =
      let r' : Replay = (poll_read n r).1 in
      append_assoc (poll_read n r).0 (poll_reads ns r').0 (unread (poll_reads ns r').1)
      ∙ ap (λ (l : List ℕ). (poll_read n r).0 ++ l) (poll_reads-unread ns r')
      ∙ poll_read-unread n r

  -- Whatever the sizes of a sequence of reads, what they hand out and what is still to come make up the
  -- bytes that were read ahead, then those that the stream behind had to come: each is handed out once,
  -- in order.
  pub poll_reads-new :
      (inner : stream.State) (ahead : List ℕ) (sizes : List ℕ)
      → (poll_reads sizes (new inner ahead)).0 ++ unread (poll_reads sizes (new inner ahead)).1
        ≡ ahead ++ stream.pending inner
  poll_reads-new inner ahead sizes = poll_reads-unread sizes (new inner ahead)

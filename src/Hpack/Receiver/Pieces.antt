-- ===== src/Hpack/Receiver/Pieces.antt =====
-- A part of a block, from one position to another.
use fingerprint_bridge.Base.{
  ℕ, ◌+◌, ◌-◌, ◌≤◌, ◌<◌, ◌≡◌, sym, ap, ap₂, ◌∙◌, List, [], ◌∷◌, ◌++◌, length, length-take,
  length-drop, take, drop, take-append-drop, drop-drop, All, All-take, All-drop, arith,
}
use fingerprint_bridge.Hpack.Rewriter.{slice, byte_at}
use fingerprint_bridge.Hpack.Receiver.{first_byte}
use fingerprint_bridge.Hpack.Receiver.Layout.{byte_at_front}

first_small : (bytes : List ℕ) → All (λ b. b < 256) bytes → first_byte bytes < 256
first_small [] h = omega arith
first_small (c ∷ bytes) h = h.0

-- A part of the block from `p` to `q`.
pub record Piece (block : List ℕ) (p q : ℕ) : Type 0 where
  pub before : length (take p block) ≡ p
  pub whole : take p block ++ (slice block p q ++ drop q block) ≡ block
  pub left : drop p block ≡ slice block p q ++ drop q block
  pub size : length (slice block p q) ≡ q - p
  pub small : first_byte (slice block p q) < 256
  pub first : byte_at block p ≡ first_byte (slice block p q)

pub piece :
    (block : List ℕ) (p q : ℕ)
    → All (λ b. b < 256) block
    → p < q
    → q ≤ length block
    → Piece block p q
piece block p q bytes_only some inside =
    let before : length (take p block) ≡ p = omega (arith, length-take p block) in
    let size : length (slice block p q) ≡ q - p =
      omega (arith, length-take (q - p) (drop p block), length-drop p block) in
    let there : p + (q - p) ≡ q = omega arith in
    let left : drop p block ≡ slice block p q ++ drop q block =
      sym (take-append-drop (q - p) (drop p block))
      ∙ ap (λ (l : List ℕ). slice block p q ++ l)
          (drop-drop p (q - p) block ∙ ap (λ (k : ℕ). drop k block) there) in
    let whole : take p block ++ (slice block p q ++ drop q block) ≡ block =
      ap (λ (l : List ℕ). take p block ++ l) (sym left) ∙ take-append-drop p block in
    record {
      before = before;
      whole = whole;
      left = left;
      size = size;
      small = first_small (slice block p q) (
          All-take (λ b. b < 256) (q - p) (drop p block)
            (All-drop (λ b. b < 256) p block bytes_only));
      first =
          ap₂ byte_at (sym whole) (sym before)
          ∙ byte_at_front (take p block) (slice block p q) (drop q block) (omega (arith, size));
    }

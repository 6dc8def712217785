-- ===== src/Fingerprint/Reader/Words.antt =====
-- Vectors of 16-bit words.
use fingerprint_bridge.Base.{
  ℕ, ◌/◌, ◌%◌, ◌^◌, ◌<◌, ◌≡◌, refl, List, [], ◌∷◌, map, All, Pairwise, Pairwise-map, arith, ok,
}
use fingerprint_bridge.Http2.Frame.{be16}
use fingerprint_bridge.Fingerprint.Reader.{normalize, words}
use fingerprint_bridge.Fingerprint.Reader.Grease.{IsNormalized, normalize-IsNormalized}

-- The words in network byte order.
abbrev pub be_bytes : List ℕ → List ℕ
be_bytes [] = []
be_bytes (n ∷ ns) = n / 256 ∷ n % 256 ∷ be_bytes ns

words-map :
    (ns : List ℕ) → All (λ (n : ℕ). n < 2 ^ 16) ns → words (be_bytes ns) ≡ ok (map normalize ns)
unfolding words
words-map [] h = refl
words-map (n ∷ ns) h =
    let same : be16 (n / 256) (n % 256) ≡ n = omega arith in rw (words-map ns h.1) (rw same refl)

-- From the network byte order of 16-bit words `words` reads as many words in their order: 0x0a0a for
-- each that is one of the sixteen GREASE values 0x0a0a, 0x1a1a, ..., 0xfafa, and the word itself for
-- each that is none of them.
pub words-be_bytes :
    (ns : List ℕ)
    → All (λ (n : ℕ). n < 2 ^ 16) ns
    → (read : List ℕ) × (words (be_bytes ns) ≡ ok read) × Pairwise IsNormalized ns read
words-be_bytes ns h = (
  map normalize ns,
  words-map ns h,
  Pairwise-map IsNormalized (λ (n : ℕ). n < 2 ^ 16) normalize ns normalize-IsNormalized h,
)

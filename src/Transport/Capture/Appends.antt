-- ===== src/Transport/Capture/Appends.antt =====
-- What a capture holds.
use fingerprint_bridge.Base.{
  ℕ, zero, suc, ◌+◌, ◌-◌, ◌≡◌, refl, sym, ap, ◌∙◌, List, [], ◌∷◌, ◌++◌, append-nil, append_assoc,
  Bool, not, ◌||◌, ◌==◌, ltb, length, take, min, length-append, length-take, arith,
}
use fingerprint_bridge.Transport.Capture.{HttpCapture, new, max_capture, append, append_all}

abbrev pub concat : List (List ℕ) → List ℕ
concat [] = []
concat (chunk ∷ chunks) = chunk ++ concat chunks

-- A capture of `all`.
abbrev pub Holds : HttpCapture → List ℕ → Type 0
Holds c all = (c.bytes ≡ take max_capture all) × (c.truncated ≡ ltb max_capture (length all))

take-min : (n : ℕ) (ys : List ℕ) → take n ys ≡ take (min (length ys) n) ys
take-min zero ys = let none_left : min (length ys) 0 ≡ 0 = omega arith in rw none_left refl
take-min (suc n) [] = let none_left : min 0 (suc n) ≡ 0 = omega arith in rw none_left refl
take-min (suc n) (y ∷ ys) =
    let one : min (length (y ∷ ys)) (suc n) ≡ suc (min (length ys) n) = omega arith in
    rw one (ap (λ (l : List ℕ). y ∷ l) (take-min n ys))

take-more :
    (n : ℕ) (xs ys : List ℕ)
    → take n (xs ++ ys) ≡ take n xs ++ take (min (length ys) (n - length xs)) ys
take-more zero xs ys =
    let none_left : min (length ys) (0 - length xs) ≡ 0 = omega arith in rw none_left refl
take-more (suc n) [] ys =
    let all_left : suc n - 0 ≡ suc n = omega arith in rw all_left (take-min (suc n) ys)
take-more (suc n) (x ∷ xs) ys =
    let less : suc n - length (x ∷ xs) ≡ n - length xs = omega arith in
    rw less (ap (λ (l : List ℕ). x ∷ l) (take-more n xs ys))

-- What one more chunk of `b` bytes does to the mark, behind `a` bytes of which at most `n` are kept.
mark : (n a b kept : ℕ) → kept ≡ min n a → (ltb n a || not (min b (n - kept) == b)) ≡ ltb n (a + b)
mark n a b kept h = ground arith

pub append-Holds :
    (c : HttpCapture) (all bytes : List ℕ) → Holds c all → Holds (append c bytes) (all ++ bytes)
unfolding append
append-Holds c all bytes (hb, ht) =
    let kept : length c.bytes ≡ min max_capture (length all) =
      ap (λ (l : List ℕ). length l) hb ∙ length-take max_capture all in
    let room : max_capture - length c.bytes ≡ max_capture - length all = omega arith in
    (
      ap (λ (k : ℕ). c.bytes ++ take (min (length bytes) k) bytes) room
          ∙ ap (λ (l : List ℕ). l ++ take (min (length bytes) (max_capture - length all)) bytes) hb
          ∙ sym (take-more max_capture all bytes),
      ap
            (λ (b : Bool).
              b || not (min (length bytes) (max_capture - length c.bytes) == length bytes))
            ht
          ∙ mark max_capture (length all) (length bytes) (length c.bytes) kept
          ∙ ap (λ (k : ℕ). ltb max_capture k) (sym (length-append all bytes)),
    )

append_all-Holds :
    (c : HttpCapture) (all : List ℕ) (chunks : List (List ℕ))
    → Holds c all
    → Holds (append_all c chunks) (all ++ concat chunks)
unfolding append_all
append_all-Holds c all [] h = rw (append-nil all) h
append_all-Holds c all (chunk ∷ chunks) h =
    rw (sym (append_assoc all chunk (concat chunks)))
      (append_all-Holds (append c chunk) (all ++ chunk) chunks (append-Holds c all chunk h))

-- A new capture that has had any sequence of chunks holds the first 1 MiB of their concatenation, and
-- is marked as truncated exactly where they have more bytes than that.
pub append_all-capture : (chunks : List (List ℕ)) → Holds (append_all new chunks) (concat chunks)
append_all-capture chunks = append_all-Holds new [] chunks (refl, refl)

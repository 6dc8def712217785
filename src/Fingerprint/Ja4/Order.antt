-- ===== src/Fingerprint/Ja4/Order.antt =====
-- The JA4 string does not depend on the order of cipher suites and extensions.
use mathlib.Core.List.{Perm, Permᴰ}
use mathlib.Core.Logic.{∥∥₁_elim}
use fingerprint_bridge.Base.{
  ℕ, suc, ◌≡◌, refl, sym, ap, ap₂, ◌∙◌, List, [], ◌∷◌, ◌||◌, ◌==◌, if◌then◌else◌, length, Result,
  arith,
}
use fingerprint_bridge.Std.Ascii.{elem}
use fingerprint_bridge.Fingerprint.Reader.{grease}
use fingerprint_bridge.Fingerprint.Hello.{TlsHello}
use fingerprint_bridge.Fingerprint.Ja3.{filtered}
use fingerprint_bridge.Fingerprint.Ja4.{insert_sorted, sort, retained, version_of, ja4}

insert_sorted_comm :
    (a b : ℕ) (ks : List ℕ)
    → insert_sorted a (insert_sorted b ks) ≡ insert_sorted b (insert_sorted a ks)
unfolding insert_sorted
insert_sorted_comm a b [] = ground arith
insert_sorted_comm a b (k ∷ ks) = ground (arith, insert_sorted_comm a b ks)

-- What holds of lists up to the order of their elements: it is enough that it holds for a swap.
module _ {A : Type 0} (f : List ℕ → A) (step : ℕ → A → A)
    (cons : (x : ℕ) (xs : List ℕ) → f (x ∷ xs) ≡ step x (f xs))
    (swap : (x y : ℕ) (a : A) → step x (step y a) ≡ step y (step x a)) where
  fold-Permᴰ : {xs ys : List ℕ} → Permᴰ xs ys → f xs ≡ f ys
  fold-Permᴰ Permᴰ.nil = refl
  fold-Permᴰ (Permᴰ.cons {a} {b} {l₁} {l₂} e p) =
      cons a l₁ ∙ ap₂ step e (fold-Permᴰ p) ∙ sym (cons b l₂)
  fold-Permᴰ (Permᴰ.swap {a} {b} {a'} {b'} {l} e e') =
      cons a (b ∷ l)
      ∙ ap (step a) (cons b l)
      ∙ swap a b (f l)
      ∙ ap₂ (λ (x y : ℕ). step x (step y (f l))) e' e
      ∙ sym (ap (step a') (cons b' l))
      ∙ sym (cons a' (b' ∷ l))
  fold-Permᴰ (Permᴰ.trans p q) = fold-Permᴰ p ∙ fold-Permᴰ q

-- The parts of the string that read a list.
sorted_ciphers : {xs ys : List ℕ} → Permᴰ xs ys → sort (filtered xs) ≡ sort (filtered ys)
unfolding sort filtered
sorted_ciphers =
    fold-Permᴰ (λ xs. sort (filtered xs)) (λ x l. if grease x then l else insert_sorted x l)
      (λ x xs. ground arith) (λ x y l. ground (arith, insert_sorted_comm x y l))

counted : {xs ys : List ℕ} → Permᴰ xs ys → length (filtered xs) ≡ length (filtered ys)
unfolding filtered
counted =
    fold-Permᴰ (λ xs. length (filtered xs)) (λ x n. if grease x then n else suc n)
      (λ x xs. ground arith) (λ x y n. ground arith)

has_zero : {xs ys : List ℕ} → Permᴰ xs ys → elem 0 xs ≡ elem 0 ys
unfolding elem
has_zero = fold-Permᴰ (elem 0) (λ x b. 0 == x || b) (λ x xs. refl) (λ x y b. ground arith)

sorted_extensions :
    {xs ys : List ℕ} → Permᴰ xs ys → sort (retained (filtered xs)) ≡ sort (retained (filtered ys))
unfolding sort filtered retained
sorted_extensions =
    fold-Permᴰ (λ xs. sort (retained (filtered xs)))
      (λ x l.
        if grease x then l else if x == 0 then l else if x == 16 then l else insert_sorted x l)
      (λ x xs. ground arith) (λ x y l. ground (arith, insert_sorted_comm x y l))

ja4-Permᴰ :
    (digest encode : List ℕ → List ℕ) (decode_hex : List ℕ → Result (List ℕ)) (hello : TlsHello)
    {suites ids : List ℕ}
    → Permᴰ hello.ciphers suites
    → Permᴰ hello.extensions ids
    → ja4 digest encode decode_hex hello
      ≡ ja4 digest encode decode_hex (record hello { ciphers = suites; extensions = ids })
unfolding ja4 version_of
ja4-Permᴰ digest encode decode_hex hello p q =
    rw (sorted_ciphers p)
      (rw (counted p) (rw (counted q) (rw (has_zero q) (rw (sorted_extensions q) refl))))

-- The JA4 string of a hello stays the same when its cipher suites and its extensions, GREASE values
-- included, are put into any other order.
pub ja4-Perm :
    (digest encode : List ℕ → List ℕ) (decode_hex : List ℕ → Result (List ℕ)) (hello : TlsHello)
    {suites ids : List ℕ}
    → Perm hello.ciphers suites
    → Perm hello.extensions ids
    → ja4 digest encode decode_hex hello
      ≡ ja4 digest encode decode_hex (record hello { ciphers = suites; extensions = ids })
ja4-Perm digest encode decode_hex hello p q =
    ∥∥₁_elim p (hlevel)
      (λ p'. ∥∥₁_elim q (hlevel) (λ q'. ja4-Permᴰ digest encode decode_hex hello p' q'))

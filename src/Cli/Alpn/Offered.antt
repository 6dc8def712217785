-- ===== src/Cli/Alpn/Offered.antt =====
-- The callback on the offers of a hello.
use fingerprint_bridge.Base.{
  ℕ, zero, suc, ◌%◌, ◌≤◌, ◌<◌, ◌≡◌, refl, ap, ap₂, ◌&&◌, ◌==◌, inl, inr, List, [], ◌∷◌, ◌++◌, All,
  Bool, true, leb, le→leb, if◌then◌else◌, length, length-append, take-append, drop-append,
  Bool-cases, arith,
}
use fingerprint_bridge.Base.Bytes.{bytes_eq, bytes_eq_iff}
use fingerprint_bridge.Fingerprint.Json.KeySet.{has}
use fingerprint_bridge.Tls.Mirror.{alpn_wire}
use fingerprint_bridge.Cli.Alpn.{agreed, noack, select_loop, select_alpn}

bytes_eq_comm : (a b : List ℕ) → bytes_eq a b ≡ bytes_eq b a
unfolding bytes_eq
bytes_eq_comm [] [] = refl
bytes_eq_comm [] (y ∷ ys) = refl
bytes_eq_comm (x ∷ xs) [] = refl
bytes_eq_comm (x ∷ xs) (y ∷ ys) =
    let same : (x == y) ≡ (y == x) = ground arith in
    ap₂ (λ (a b : Bool). a && b) same (bytes_eq_comm xs ys)

select_loop-alpn_wire :
    (fuel : ℕ) (chosen : List ℕ) (names : List (List ℕ))
    → All (λ name. length name < 256) names
    → length (alpn_wire names) ≤ fuel
    → select_loop fuel chosen (alpn_wire names)
      ≡ (if has chosen names then agreed chosen else noack)
unfolding select_loop alpn_wire has
select_loop-alpn_wire zero chosen [] short h = refl
select_loop-alpn_wire (suc fuel) chosen [] short h = refl
select_loop-alpn_wire zero chosen (name ∷ names) short h = absurd (omega arith)
select_loop-alpn_wire (suc fuel) chosen (name ∷ names) (here, there) h =
    let size : length name % 256 ≡ length name = omega (arith, here) in
    let fits : leb (length name) (length (name ++ alpn_wire names)) ≡ true =
      le→leb _ _ (omega (arith, length-append name (alpn_wire names))) in
    let ih : select_loop fuel chosen (alpn_wire names)
        ≡ (if has chosen names then agreed chosen else noack) =
      select_loop-alpn_wire fuel chosen names there
        (omega (arith, h, length-append name (alpn_wire names))) in
    rw
      (
        size,
        fits,
        take-append name (alpn_wire names),
        drop-append name (alpn_wire names),
        ih,
        bytes_eq_comm chosen name,
      )
      (elim (Bool-cases (bytes_eq name chosen)) [
        | inl same ↦ rw same (ap (λ (l : List ℕ). agreed l) ((bytes_eq_iff name chosen).0 same))
        | inr other ↦ rw other refl
      ])

-- On the offers that a hello encodes, of names of at most 255 bytes, the callback answers with the
-- protocol that was chosen where it is among them, and declines otherwise; it never sends an alert.
pub select_alpn-alpn_wire :
    (chosen : List ℕ) (names : List (List ℕ))
    → All (λ name. length name < 256) names
    → select_alpn chosen (alpn_wire names) ≡ (if has chosen names then agreed chosen else noack)
unfolding select_alpn
select_alpn-alpn_wire chosen names short =
    select_loop-alpn_wire (length (alpn_wire names)) chosen names short (omega arith)

-- ===== src/Cli/Alpn.antt =====
-- The callback of src/main.rs that answers a client's offers of protocols.
pub mod Offered
use fingerprint_bridge.Base.{ℕ, zero, suc, List, [], ◌∷◌, leb, if◌then◌else◌, length, take, drop}
use fingerprint_bridge.Base.Bytes.{bytes_eq}

-- `Ok`, and the two kinds of `AlpnError`.
pub data Answer : Type 0 where
  agreed : List ℕ → Answer
  alert_fatal : Answer
  noack : Answer

-- The loop, on fuel, over the offers from position `p` on.
unfoldable pub select_loop : ℕ → List ℕ → List ℕ → Answer
select_loop fuel chosen [] = noack
select_loop zero chosen (n ∷ offers) = noack
select_loop (suc fuel) chosen (n ∷ offers) =
    let rest = select_loop fuel chosen (drop n offers) in
    if leb n (length offers)
    then (if bytes_eq (take n offers) chosen then agreed (take n offers) else rest)
    else alert_fatal

unfoldable pub select_alpn : List ℕ → List ℕ → Answer
select_alpn chosen offers = select_loop (length offers) chosen offers

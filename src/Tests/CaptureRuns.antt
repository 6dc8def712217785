-- ===== src/Tests/CaptureRuns.antt =====
-- Replayed and captured streams, and captured words.
use fingerprint_bridge.Base.{
  ℕ, List, [], ◌∷◌, ◌++◌, ◌≡◌, take, drop, Pairwise, false, ok, take-append-drop, arith,
}
use fingerprint_bridge.Transport.Replay.{Stream, new, poll_reads, unread, poll_reads-new}
use fingerprint_bridge.Transport.Capture.{append_all}
use fingerprint_bridge.Transport.Capture.Appends.{Holds, append_all-capture}
use fingerprint_bridge.Fingerprint.Reader.{words}
use fingerprint_bridge.Fingerprint.Reader.Grease.{IsNormalized}
use fingerprint_bridge.Fingerprint.Reader.Words.{be_bytes, words-be_bytes}

-- A stream that hands out as much as there is room for.
abbrev arrived : Stream
arrived = record {
  State = List ℕ;
  pending = λ s. s;
  poll = λ n s. (take n s, drop n s);
  in_order = take-append-drop;
}

poll_reads-new_example :
    (poll_reads arrived (2 ∷ 2 ∷ 1 ∷ []) (new arrived (4 ∷ 5 ∷ []) (1 ∷ 2 ∷ 3 ∷ []))).0
      ++ unread arrived
          (poll_reads arrived (2 ∷ 2 ∷ 1 ∷ []) (new arrived (4 ∷ 5 ∷ []) (1 ∷ 2 ∷ 3 ∷ []))).1
    ≡ 1 ∷ 2 ∷ 3 ∷ 4 ∷ 5 ∷ []
poll_reads-new_example = poll_reads-new arrived (4 ∷ 5 ∷ []) (1 ∷ 2 ∷ 3 ∷ []) (2 ∷ 2 ∷ 1 ∷ [])

append_all-capture_example :
    Holds
      (append_all (record { bytes = []; truncated = false }) ((1 ∷ 2 ∷ []) ∷ (3 ∷ []) ∷ []))
      (1 ∷ 2 ∷ 3 ∷ [])
append_all-capture_example = append_all-capture ((1 ∷ 2 ∷ []) ∷ (3 ∷ []) ∷ [])

words-be_bytes_example :
    (read : List ℕ) × (words (be_bytes (0x3a3a ∷ 0x1301 ∷ [])) ≡ ok read)
    × Pairwise IsNormalized (0x3a3a ∷ 0x1301 ∷ []) read
words-be_bytes_example = words-be_bytes (0x3a3a ∷ 0x1301 ∷ []) (omega arith, (omega arith, tt))

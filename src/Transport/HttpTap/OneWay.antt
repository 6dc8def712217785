-- ===== src/Transport/HttpTap/OneWay.antt =====
-- A tap's capture has the bytes of one direction.
use fingerprint_bridge.Base.{
  ℕ, refl, sym, List, [], ◌∷◌, ◌++◌, append-nil, append_assoc, Bool, true, false, take,
}
use fingerprint_bridge.Transport.Capture.{HttpCapture, new}
use fingerprint_bridge.Transport.Capture.Appends.{Holds, append-Holds}
use fingerprint_bridge.Transport.HttpTap.{
  Event, filled, took, nothing_read, nothing_written, observe, observe_all,
}

-- The bytes that went the observed way in an event.
abbrev pub carried : Bool → Event → List ℕ
carried true (filled bytes) = bytes
carried true (took n b) = []
carried false (filled bytes) = []
carried false (took n b) = take n b
carried on_read nothing_read = []
carried on_read nothing_written = []

abbrev pub carried_all : Bool → List Event → List ℕ
carried_all on_read [] = []
carried_all on_read (event ∷ events) = carried on_read event ++ carried_all on_read events

observe-Holds :
    (on_read : Bool) (event : Event) (c : HttpCapture) (all : List ℕ)
    → Holds c all
    → Holds (observe on_read event c) (all ++ carried on_read event)
unfolding observe
observe-Holds true (filled bytes) c all h = append-Holds c all bytes h
observe-Holds true (took n b) c all h = rw (append-nil all) h
observe-Holds false (filled bytes) c all h = rw (append-nil all) h
observe-Holds false (took n b) c all h = append-Holds c all (take n b) h
observe-Holds true nothing_read c all h = rw (append-nil all) h
observe-Holds false nothing_read c all h = rw (append-nil all) h
observe-Holds true nothing_written c all h = rw (append-nil all) h
observe-Holds false nothing_written c all h = rw (append-nil all) h

observe_all-Holds :
    (on_read : Bool) (events : List Event) (c : HttpCapture) (all : List ℕ)
    → Holds c all
    → Holds (observe_all on_read events c) (all ++ carried_all on_read events)
unfolding observe_all
observe_all-Holds on_read [] c all h = rw (append-nil all) h
observe_all-Holds on_read (event ∷ events) c all h =
    rw (sym (append_assoc all (carried on_read event) (carried_all on_read events))) (
      observe_all-Holds on_read events (observe on_read event c) (all ++ carried on_read event)
        (observe-Holds on_read event c all h))

-- After any sequence of reads and writes through a tap on reads, its capture holds the first 1 MiB of
-- the bytes read, and is marked as truncated exactly where there were more; and so it is with the bytes
-- written for a tap on writes.
pub observe_all-new :
    (on_read : Bool) (events : List Event)
    → Holds (observe_all on_read events new) (carried_all on_read events)
observe_all-new on_read events = observe_all-Holds on_read events new [] (refl, refl)

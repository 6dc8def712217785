-- ===== src/H1/Bridge/Exchange/Serial.antt =====
-- However the loops of `bridge` are interleaved, they do what the functions `requests` and `responses` do.
use fingerprint_bridge.Rewrite.Mapping.{Mapping}
use fingerprint_bridge.H1.Bridge.Exchange.{Exchange}

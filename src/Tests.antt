-- ===== src/Tests.antt =====
-- Concrete runs, and the theorems at concrete inputs.
pub mod Inputs
pub mod Json
mod HpackRuns
mod ReceiverRuns
mod ExchangeRuns
mod RewriteRuns
mod HttpRuns
mod CaptureRuns
mod TlsRuns
mod CryptoRuns
mod CliRuns

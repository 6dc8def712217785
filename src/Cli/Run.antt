-- ===== src/Cli/Run.antt =====
-- The exit code of `compare` on the command line: `main` and `run` of src/main.rs. Reading the two files
-- and printing the result are outside; what `load_json` gave is an argument.
pub mod Codes
use fingerprint_bridge.Base.{ℕ, List, Bool, if◌then◌else◌, Result, ok, err, ◌>>=◌}
use fingerprint_bridge.Fingerprint.Json.{Json}
use fingerprint_bridge.Fingerprint.Compare.{Comparison, compare}

abbrev pub code_of : Bool → ℕ
code_of pass = if pass then 0 else 1

module _ (json : Json) where
  unfoldable pub run_compare : Result json.Value → Result json.Value → List (List ℕ) → Result ℕ
  run_compare baseline observed layers = do
    a ← baseline
    b ← observed
    result ← compare json a b layers
    ok (code_of result.pass)

-- `std::process::exit`
unfoldable pub exit_code : Result ℕ → ℕ
exit_code (ok code) = code
exit_code (err error) = 2

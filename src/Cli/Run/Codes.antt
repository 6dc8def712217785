-- ===== src/Cli/Run/Codes.antt =====
-- What the exit code says.
use mathlib.Core.Path.{subst}
use fingerprint_bridge.Base.{
  ℕ, ◌≡◌, ◌≢◌, ◌↔◌, refl, sym, ap, ◌∙◌, List, [], Bool, true, All, Result, ok, err, ok-injective,
  ◌>>=◌, arith,
}
use fingerprint_bridge.Fingerprint.Json.{Json}
use fingerprint_bridge.Fingerprint.Compare.{Comparison, compare}
use fingerprint_bridge.Fingerprint.Compare.Agreement.{LayerAgrees, compare-pass_iff}
use fingerprint_bridge.Cli.Run.{code_of, run_compare, exit_code}

zero_code : (pass : Bool) → (code_of pass ≡ 0) ↔ (pass ≡ true)
zero_code pass = ground arith

module _ (json : Json) where
  code_iff :
      (r : Result (Comparison json))
      → (exit_code (r >>= λ result. ok (code_of result.pass)) ≡ 0)
        ↔ ((result : Comparison json) × (r ≡ ok result) × (result.pass ≡ true))
  unfolding exit_code
  code_iff (err e) = (λ h. absurd (omega (arith, h)), λ (_, h, _). cc h)
  code_iff (ok result) = (
    λ h. (result, refl, (zero_code result.pass).0 h),
    λ (other, same, passes).
        (zero_code result.pass).1
          (ap (λ (z : Comparison json). z.pass) (ok-injective same) ∙ passes),
  )

  -- The command ends with 0 exactly where both files were read and every layer that was asked for, of
  -- which there is at least one, agrees in them.
  pub exit_code-run_compare :
      (baseline observed : Result json.Value) (layers : List (List ℕ))
      → (exit_code (run_compare json baseline observed layers) ≡ 0) ↔ (
          (a : json.Value) × (b : json.Value) × (baseline ≡ ok a)
          × (observed ≡ ok b)
          × (layers ≢ [])
          × All (LayerAgrees json a b) layers)
  unfolding run_compare exit_code
  exit_code-run_compare (err e) observed layers =
      (λ h. absurd (omega (arith, h)), λ (_, _, h, _, _, _). cc h)
  exit_code-run_compare (ok a) (err e) layers =
      (λ h. absurd (omega (arith, h)), λ (_, _, _, h, _, _). cc h)
  exit_code-run_compare (ok a) (ok b) layers =
      let (passes, code) = code_iff (compare json a b layers) in
      let (agree, pass) = compare-pass_iff json a b layers in
      (
        λ h. let (some_layer, all) = agree (passes h) in (a, b, refl, refl, some_layer, all),
        λ (a', b', ea, eb, some_layer, all). code (
            pass (
              some_layer,
              subst (λ (x : json.Value). All (LayerAgrees json x b) layers) (sym (ok-injective ea))
                  (subst (λ (y : json.Value). All (LayerAgrees json a' y) layers)
                    (sym (ok-injective eb)) all),
            )),
      )

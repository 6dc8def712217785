-- ===== src/Rewrite/Mapping/Values.antt =====
-- `value`: which headers it changes, and which bytes of them.
use fingerprint_bridge.Base.{
  ℕ, ◌-◌, ◌≡◌, refl, sym, ap, ◌∙◌, ◌⊎◌, inl, inr, List, ◌++◌, Bool, true, false, Result, ok, err,
  ◌>>=◌, reverse, length, length-append, take, drop, take-append, drop-append, leb, le→leb,
  append_assoc, arith, if◌then◌else◌,
}
use fingerprint_bridge.Base.Bytes.{text, bytes_eq}
use fingerprint_bridge.Std.Ascii.{lowercase}
use fingerprint_bridge.Std.Trim.{trim_start_matches, trim_end_matches}
use fingerprint_bridge.Std.Trim.Padded.{
  Padding, StartsSolid, trim_start_matches-padded, trim_end_matches-padded, StartsSolid-append,
  StartsSolid-lead,
}
use fingerprint_bridge.Std.Utf8.{is_utf8, from_utf8}
use fingerprint_bridge.Rewrite.Mapping.{
  Url, Mapping, is_blank, is_public, relevant, map_trimmed, value,
}

module _ (parse_url : List ℕ → Result Url) (m : Mapping) where
  -- A header that its direction does not map keeps its value, whatever the bytes are.
  pub value_kept :
      (name bytes : List ℕ) (response : Bool)
      → relevant (lowercase name) response ≡ false
      → value parse_url m name bytes response ≡ ok bytes
  unfolding value
  value_kept name bytes response h = rw h refl

  -- The value of a mapped header in UTF-8, taken apart into blanks, a core with no blank at its ends,
  -- and blanks: the core is mapped, an error in it is the result, and the blanks stay as they are.
  pub value_padded :
      (name lead core trail : List ℕ) (response : Bool)
      → relevant (lowercase name) response ≡ true
      → is_utf8 (lead ++ (core ++ trail)) ≡ true
      → Padding is_blank lead
      → Padding is_blank trail
      → StartsSolid is_blank core
      → StartsSolid is_blank (reverse core)
      → value parse_url m name (lead ++ (core ++ trail)) response ≡ (do
        mapped ← map_trimmed parse_url m (lowercase name) core response
        ok (lead ++ (mapped ++ trail)))
  unfolding value from_utf8
  value_padded name lead core trail response rel utf hl ht first last =
      rw (rel, utf)
        (rw leading
          (rw end (rw (enough, core_lem, trail_lem, take-append lead (core ++ trail)) refl)))
    where
      s : List ℕ
      s = lead ++ (core ++ trail)

      leading : length s - length (trim_start_matches is_blank s) ≡ length lead
      leading =
          rw
            (trim_start_matches-padded is_blank lead (core ++ trail) hl
              (StartsSolid-append is_blank core trail first))
            (omega (arith, length-append lead (core ++ trail)))

      end : trim_end_matches is_blank s ≡ lead ++ core
      end =
          ap (trim_end_matches is_blank) (sym (append_assoc lead core trail))
          ∙ trim_end_matches-padded is_blank (lead ++ core) trail ht
              (StartsSolid-lead is_blank core lead last)

      enough : leb (length lead) (length (lead ++ core)) ≡ true
      enough = le→leb _ _ (omega (arith, length-append lead core))

      regroup : s ≡ (lead ++ core) ++ trail
      regroup = sym (append_assoc lead core trail)

      core_lem : drop (length lead) (take (length (lead ++ core)) s) ≡ core
      core_lem = rw regroup (rw take-append (drop-append lead core))

      trail_lem : drop (length (lead ++ core)) s ≡ trail
      trail_lem = rw regroup (drop-append (lead ++ core) trail)

  -- The host of a request, in `Host` or `:authority`: the public authority becomes the upstream one
  -- between the same blanks, and any other authority is refused.
  pub value_host :
      (name lead core trail : List ℕ)
      → (lowercase name ≡ text "host") ⊎ (lowercase name ≡ text ":authority")
      → is_utf8 (lead ++ (core ++ trail)) ≡ true
      → Padding is_blank lead
      → Padding is_blank trail
      → StartsSolid is_blank core
      → StartsSolid is_blank (reverse core)
      → value parse_url m name (lead ++ (core ++ trail)) false ≡ (
          if is_public parse_url m core
          then ok (lead ++ (m.upstream ++ trail))
          else err "authority does not match configured B")
  value_host name lead core trail host utf hl ht first last =
      value_padded name lead core trail false (is_relevant (lowercase name) host) utf hl ht first
        last
      ∙ mapped_host (lowercase name) host (is_public parse_url m core) refl
    where
      is_relevant :
          (lower : List ℕ)
          → (lower ≡ text "host") ⊎ (lower ≡ text ":authority")
          → relevant lower false ≡ true
      is_relevant lower (inl e) = rw e (unfold relevant bytes_eq in refl)
      is_relevant lower (inr e) = rw e (unfold relevant bytes_eq in refl)

      mapped_host :
          (lower : List ℕ)
          → (lower ≡ text "host") ⊎ (lower ≡ text ":authority")
          → (b : Bool) → is_public parse_url m core ≡ b
          → (do mapped ← map_trimmed parse_url m lower core false; ok (lead ++ (mapped ++ trail)))
            ≡ (if b
                then ok (lead ++ (m.upstream ++ trail))
                else err "authority does not match configured B")
      mapped_host lower (inl e) true h = rw e (unfold map_trimmed bytes_eq in rw h refl)
      mapped_host lower (inl e) false h = rw e (unfold map_trimmed bytes_eq in rw h refl)
      mapped_host lower (inr e) true h = rw e (unfold map_trimmed bytes_eq in rw h refl)
      mapped_host lower (inr e) false h = rw e (unfold map_trimmed bytes_eq in rw h refl)

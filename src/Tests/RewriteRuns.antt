-- ===== src/Tests/RewriteRuns.antt =====
-- The mapping of authorities.
use fingerprint_bridge.Base.{
  ℕ, List, [], ◌∷◌, ◌++◌, ◌≡◌, inl, refl, false, Pairwise, if◌then◌else◌, ok, err, ◌>>=◌, ◌>>◌,
  ensure, ◌==◌, ◌||◌,
}
use fingerprint_bridge.Base.Bytes.{text}
use fingerprint_bridge.Std.Ascii.{lowercase, all, any}
use fingerprint_bridge.Std.Split.{split_on}
use fingerprint_bridge.Std.Utf8.{is_utf8}
use fingerprint_bridge.Rewrite.Mapping.{authority, is_public, map_cookie, map_url, value}
use fingerprint_bridge.Rewrite.Mapping.Values.{value_host}
use fingerprint_bridge.Rewrite.Mapping.Urls.{Matching, map_url_iff}
use fingerprint_bridge.Rewrite.Mapping.Cookies.{split_on-map_cookie}
use fingerprint_bridge.Rewrite.Mapping.Attributes.{Mapped}
use fingerprint_bridge.Rewrite.Head.{valid_name, h1_head}
use fingerprint_bridge.Rewrite.Head.Rendering.{
  Field, head_text, map_fields, host_count, h1_head-head_text,
}
use fingerprint_bridge.Tests.Inputs.{bridge, parse_plain, public_name, upstream_name}

abbrev blank : List ℕ
blank = 32 ∷ []

value_host_example : value parse_plain bridge (text "host") (blank ++ (public_name ++ [])) false ≡ (
    if is_public parse_plain bridge public_name
    then ok (blank ++ (upstream_name ++ []))
    else err "authority does not match configured B")
unfolding is_utf8 lowercase
value_host_example =
    value_host parse_plain bridge (text "host") blank public_name [] (inl refl) refl (refl, tt) tt
      refl refl

abbrev public_url : List ℕ
public_url = text "https://b.example/path?q"

abbrev upstream_url : List ℕ
upstream_url = text "https://a.example/path?q"

authority-public : authority parse_plain public_name ≡ ok (public_name, 443)
unfolding authority lowercase all any
authority-public = refl

abbrev public_url-Matching : Matching parse_plain bridge false public_url
public_url-Matching = record {
  begin = text "https://";
  auth = public_name;
  rest = text "/path?q";
  scheme = inl refl;
  source = refl;
  whole = (refl, (refl, (refl, (refl, (refl, (refl, (refl, (refl, (refl, tt)))))))));
  ends = refl;
  known = authority-public;
}

map_url_iff_example : map_url parse_plain bridge public_url false ≡ upstream_url
map_url_iff_example =
    (map_url_iff parse_plain bridge public_url false upstream_url).1
      (inl (public_url-Matching, refl))

abbrev cookie : List ℕ
cookie = text "id=1; Domain=a.example; Path=/"

split_on-map_cookie_example :
    ((split_on 59 (map_cookie bridge cookie)).0 ≡ (split_on 59 cookie).0)
    × Pairwise (Mapped bridge) (split_on 59 cookie).1 (split_on 59 (map_cookie bridge cookie)).1
split_on-map_cookie_example =
    split_on-map_cookie bridge
      (refl, (refl, (refl, (refl, (refl, (refl, (refl, (refl, (refl, tt))))))))) cookie

abbrev fields : List Field
fields = (text "Host", text " b.example") ∷ (text "Accept", text "*/*") ∷ []

abbrev request_line : List ℕ
request_line = text "GET /"

h1_head-head_text_example : h1_head parse_plain bridge false (head_text request_line fields) ≡ (do
  mapped ← map_fields parse_plain bridge false fields
  ensure (false || host_count fields == 1) "exactly one Host is required"
  ok (head_text request_line mapped))
unfolding h1_head valid_name
h1_head-head_text_example =
    h1_head-head_text parse_plain bridge false request_line fields
      (refl, (refl, (refl, (refl, (refl, tt)))))
      (
        (refl, (refl, (refl, (refl, (refl, (refl, (refl, (refl, (refl, (refl, (refl, tt))))))))))),
        ((refl, (refl, (refl, (refl, tt)))), tt),
      )

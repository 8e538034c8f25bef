-- ===== src/Upstreams/Release/Asset.antt =====
-- What a selected release asset is.
use landscape_openwrt.Base.{
  ok-inj, ◌≡◌, refl, Bool, true, false, List, [], ◌∷◌, Text, codes, ◌==◌, ==_eq, Reason, Result, ok,
  require, keep, ◌>>◌, >>=-eq-ok, In, inl, inr, subst, AreKept, keep-eq-ok,
}
use landscape_openwrt.Regex.{Regex, fullmatch}
use landscape_openwrt.Json.{Json, str, index, elements, as_text}
use landscape_openwrt.Platform.{Platform}
use landscape_openwrt.Upstreams.Digest.{sha256_pattern}
use landscape_openwrt.Upstreams.Version.{text_at, name_field}
use landscape_openwrt.Upstreams.Release.{
  tag_field, get_or, has_name, download_url, only_asset, select_asset,
}

pub require-then :
    {A : Type 0} (b : Bool) (reason : Reason) (rest : Result A) {a : A}
    → (require b reason >> rest) ≡ ok a
    → (b ≡ true) × (rest ≡ ok a)
require-then true reason rest h = (refl, h)
require-then false reason rest h = cc

-- An asset of the release that has a checksum, the URL of the repository's releases, and a name that
-- no other asset matches the pattern with.
pub record IsOfficial (py : Platform) (release : Json) (pattern : Regex) (repo : Text)
    (asset : Json) : Type 0 where
  pub listed : Json
  pub assets : List Json
  pub listed_eq : index release (codes "assets") ≡ ok listed
  pub assets_eq : elements listed ≡ ok assets
  pub member : In asset assets
  pub matches : has_name pattern asset ≡ ok true
  pub unique : (other : Json) → In other assets → has_name pattern other ≡ ok true → other ≡ asset
  pub digest : Json
  pub digest_text : Text
  pub digest_eq : get_or asset (codes "digest") (str []) ≡ ok digest
  pub digest_text_eq : as_text digest ≡ ok digest_text
  pub is_sha256 : fullmatch sha256_pattern digest_text ≡ true
  pub tag : Text
  pub name : Text
  pub url : Text
  pub tag_eq : text_at tag_field release ≡ ok tag
  pub name_eq : text_at name_field asset ≡ ok name
  pub url_eq : text_at (codes "browser_download_url") asset ≡ ok url
  pub is_repository_url : py.unquote url ≡ download_url repo tag name

pub only_member : (a b : Json) → In a (b ∷ []) → a ≡ b
only_member a b (inl e) = e
only_member a b (inr m) = absurd m

module _ (py : Platform) (release : Json) (pattern : Regex) (repo : Text) where
  only_asset-IsOfficial :
      (listed : Json) (assets matching : List Json) (asset : Json)
      → index release (codes "assets") ≡ ok listed
      → elements listed ≡ ok assets
      → AreKept (has_name pattern) assets matching
      → only_asset py release repo matching ≡ ok asset
      → IsOfficial py release pattern repo asset
  unfolding only_asset
  only_asset-IsOfficial listed assets [] asset l a kept h = cc
  only_asset-IsOfficial listed assets (first ∷ second ∷ more) asset l a kept h = cc
  only_asset-IsOfficial listed assets (first ∷ []) asset l a kept h =
      let (digest, e1, h1) = >>=-eq-ok (get_or first (codes "digest") (str [])) _ h in
      let (text, e2, h2) = >>=-eq-ok (as_text digest) _ h1 in
      let (s, h3) = require-then (fullmatch sha256_pattern text) _ _ h2 in
      let (tag, e3, h4) = >>=-eq-ok (text_at tag_field release) _ h3 in
      let (name, e4, h5) = >>=-eq-ok (text_at name_field first) _ h4 in
      let (url, e5, h6) = >>=-eq-ok (text_at (codes "browser_download_url") first) _ h5 in
      let (u, h7) = require-then (py.unquote url == download_url repo tag name) _ _ h6 in
      let (member, passes) = (kept first).0 (inl refl) in
      subst (IsOfficial py release pattern repo) (ok-inj first asset h7) (record {
        listed = listed;
        assets = assets;
        listed_eq = l;
        assets_eq = a;
        member = member;
        matches = passes;
        unique = λ other m p. only_member other first ((kept other).1 (m, p));
        digest = digest;
        digest_text = text;
        digest_eq = e1;
        digest_text_eq = e2;
        is_sha256 = s;
        tag = tag;
        name = name;
        url = url;
        tag_eq = e3;
        name_eq = e4;
        url_eq = e5;
        is_repository_url = ==_eq (py.unquote url) (download_url repo tag name) u;
      })

  -- A selected asset is official: the only one of the release whose name matches the pattern, with a
  -- SHA-256 digest and the URL that the repository's releases have for its tag and name.
  pub select_asset-IsOfficial :
      (asset : Json)
      → select_asset py release pattern repo ≡ ok asset
      → IsOfficial py release pattern repo asset
  unfolding select_asset
  select_asset-IsOfficial asset h =
      let (listed, e1, h1) = >>=-eq-ok (index release (codes "assets")) _ h in
      let (assets, e2, h2) = >>=-eq-ok (elements listed) _ h1 in
      let (matching, e3, h3) = >>=-eq-ok (keep (has_name pattern) assets) _ h2 in
      only_asset-IsOfficial listed assets matching asset e1 e2
        (keep-eq-ok (has_name pattern) assets matching e3) h3

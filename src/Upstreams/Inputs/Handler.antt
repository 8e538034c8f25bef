-- ===== src/Upstreams/Inputs/Handler.antt =====
-- What the selected handler of an architecture is.
use landscape_openwrt.Base.{
  ◌↔◌, ==_refl, ◌≡◌, refl, sym, ap, ◌∙◌, true, some, List, [], ◌∷◌, Text, codes, ==_eq, ok, keep,
  >>=-eq-ok, In, inl, AreKept, keep-eq-ok,
}
use landscape_openwrt.Regex.{fullmatch}
use landscape_openwrt.Json.{Json, null, bool, num, str, arr, obj, index, elements, as_text}
use landscape_openwrt.Json.Shape.{as_text-eq-ok}
use landscape_openwrt.Upstreams.Digest.{sha256_pattern}
use landscape_openwrt.Upstreams.Version.{text_at, name_field}
use landscape_openwrt.Upstreams.Release.{get_or, tag_field, download_url}
use landscape_openwrt.Upstreams.Release.Asset.{require-then, only_member}
use landscape_openwrt.Upstreams.Registry.{is_text}
use landscape_openwrt.Upstreams.Inputs.{
  Arch, landscape_repo, handler_name, is_named, handler_of, select_handler,
}

-- The URL and the digest are those of an asset of the release that is the only one with the name of
-- the architecture's handler; the URL is that of the repository's releases.
pub record IsHandler (release : Json) (arch : Arch) (url digest : Text) : Type 0 where
  pub listed : Json
  pub assets : List Json
  pub asset : Json
  pub tag : Text
  pub listed_eq : index release (codes "assets") ≡ ok listed
  pub assets_eq : elements listed ≡ ok assets
  pub member : In asset assets
  pub named : text_at name_field asset ≡ ok (handler_name arch)
  pub unique :
      (other : Json)
      → In other assets
      → text_at name_field other ≡ ok (handler_name arch)
      → other ≡ asset
  pub digest_eq : get_or asset (codes "digest") (str []) ≡ ok (str digest)
  pub is_sha256 : fullmatch sha256_pattern digest ≡ true
  pub tag_eq : text_at tag_field release ≡ ok tag
  pub url_eq : text_at (codes "browser_download_url") asset ≡ ok url
  pub is_repository_url : url ≡ download_url landscape_repo tag (handler_name arch)

pub is_text-eq : (value : Json) (text : Text) → is_text (some value) text ≡ true → value ≡ str text
unfolding is_text
is_text-eq (str s) text h = ap str (==_eq s text h)
is_text-eq null text h = cc
is_text-eq (bool b) text h = cc
is_text-eq (num n) text h = cc
is_text-eq (arr js) text h = cc
is_text-eq (obj fs) text h = cc

pub text_at-of_index :
    (field : Text) (value : Json) (text : Text)
    → index value field ≡ ok (str text)
    → text_at field value ≡ ok text
unfolding text_at as_text
text_at-of_index field value text h = rw h

is_named_iff :
    (name : Text) (asset : Json)
    → (is_named name asset ≡ ok true) ↔ (text_at name_field asset ≡ ok name)
unfolding is_named text_at is_text
is_named_iff name asset = (sound, complete)
  where
    sound : is_named name asset ≡ ok true → text_at name_field asset ≡ ok name
    sound h =
        let (found, e, h1) = >>=-eq-ok (index asset name_field) _ h in
        let t : is_text (some found) name ≡ true = cc in
        text_at-of_index name_field asset name (e ∙ ap ok (is_text-eq found name t))

    complete : text_at name_field asset ≡ ok name → is_named name asset ≡ ok true
    complete h =
        let (found, e, h1) = >>=-eq-ok (index asset name_field) _ h in
        rw (e, as_text-eq-ok found name h1, is_text, ==_refl name) refl

module _ (release : Json) (arch : Arch) where
  handler_of-IsHandler :
      (listed : Json) (assets matching : List Json) (url digest : Text)
      → index release (codes "assets") ≡ ok listed
      → elements listed ≡ ok assets
      → AreKept (is_named (handler_name arch)) assets matching
      → handler_of release arch matching ≡ ok (url, digest)
      → IsHandler release arch url digest
  unfolding handler_of
  handler_of-IsHandler listed assets [] url digest l a kept h = cc
  handler_of-IsHandler listed assets (first ∷ second ∷ more) url digest l a kept h = cc
  handler_of-IsHandler listed assets (first ∷ []) url digest l a kept h =
      let (found, e1, h1) = >>=-eq-ok (get_or first (codes "digest") (str [])) _ h in
      let (sum, e2, h2) = >>=-eq-ok (as_text found) _ h1 in
      let (s, h3) = require-then (fullmatch sha256_pattern sum) _ _ h2 in
      let (link, e3, h4) = >>=-eq-ok (index first (codes "browser_download_url")) _ h3 in
      let (tag, e4, h5) = >>=-eq-ok (text_at tag_field release) _ h4 in
      let (u, h6) =
        require-then (is_text (some link) (download_url landscape_repo tag (handler_name arch))) _ _
          h5 in
      let (member, passes) = (kept first).0 (inl refl) in
      let result : (download_url landscape_repo tag (handler_name arch), sum) ≡ (url, digest) =
        cc in
      let url_is : download_url landscape_repo tag (handler_name arch) ≡ url =
        ap (λ (p : Text × Text). p.0) result in
      let sum_is : sum ≡ digest = ap (λ (p : Text × Text). p.1) result in
      record {
        listed = listed;
        assets = assets;
        asset = first;
        tag = tag;
        listed_eq = l;
        assets_eq = a;
        member = member;
        named = (is_named_iff (handler_name arch) first).0 passes;
        unique = λ other m n.
            only_member other first
              ((kept other).1 (m, (is_named_iff (handler_name arch) other).1 n));
        digest_eq = e1 ∙ ap ok (as_text-eq-ok found sum e2 ∙ ap str sum_is);
        is_sha256 = ap (fullmatch sha256_pattern) (sym sum_is) ∙ s;
        tag_eq = e4;
        url_eq =
            text_at-of_index (codes "browser_download_url") first url
              (e3 ∙ ap ok (is_text-eq link _ u ∙ ap str url_is));
        is_repository_url = sym url_is;
      }

  -- A selected handler is the only asset of the release with the name of the architecture's handler;
  -- it has a SHA-256 digest, which is returned, and the URL that the repository's releases have for
  -- that name.
  pub select_handler-IsHandler :
      (url digest : Text)
      → select_handler release arch ≡ ok (url, digest)
      → IsHandler release arch url digest
  unfolding select_handler
  select_handler-IsHandler url digest h =
      let (listed, e1, h1) = >>=-eq-ok (index release (codes "assets")) _ h in
      let (assets, e2, h2) = >>=-eq-ok (elements listed) _ h1 in
      let (matching, e3, h3) = >>=-eq-ok (keep (is_named (handler_name arch)) assets) _ h2 in
      handler_of-IsHandler listed assets matching url digest e1 e2
        (keep-eq-ok (is_named (handler_name arch)) assets matching e3) h3

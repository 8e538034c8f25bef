-- ===== src/Upstreams/Resolve/Packages.antt =====
-- What the PassWall packages of the state are.
use landscape_openwrt.Base.{
  ok-inj, ◌≡◌, sym, ap, ◌∙◌, Option, none, some, Text, ◌==◌, versions_disagree, Headers, codes, ok,
  >>=-eq-ok, subst, [],
}
use landscape_openwrt.Base.Dict
use landscape_openwrt.Regex.{Regex, fullmatch}
use landscape_openwrt.Json.{
  Json, null, bool, num, str, arr, obj, index, get, found_or, to_dict, as_text,
}
use landscape_openwrt.Json.Shape.{IsText, as_text-eq-ok}
use landscape_openwrt.Platform.{Platform}
use landscape_openwrt.Action.Laws.{Ensures, Ensures-bind, Ensures-lift, Ensures-pure}
use landscape_openwrt.Upstreams.Http.{json_request}
use landscape_openwrt.Upstreams.Digest.Checksum.{IsChecksum, remove_prefix-IsChecksum}
use landscape_openwrt.Upstreams.Version.{text_at, passwall_pattern, name_field}
use landscape_openwrt.Upstreams.Release.{get_or, select_asset, newest_stable_release}
use landscape_openwrt.Upstreams.Release.Asset.{IsOfficial, require-then, select_asset-IsOfficial}
use landscape_openwrt.Upstreams.Resolve.{
  passwall_repo, passwall_api, apk_pattern, app_prefix, i18n_prefix, bare_digest, passwall_packages,
  resolve_passwall, strip_revision, apk_version,
}

-- A field that was read as a text is one.
pub text_at-index :
    (field : Text) (value : Json) {text : Text}
    → text_at field value ≡ ok text
    → index value field ≡ ok (str text)
unfolding text_at
text_at-index field value {text} h =
    let (found, e, q) = >>=-eq-ok (index value field) _ h in e ∙ ap ok (as_text-eq-ok found text q)

pub text_at-IsText :
    (field : Text) (value : Json) {text : Text} {found : Json}
    → text_at field value ≡ ok text
    → index value field ≡ ok found
    → IsText found
text_at-IsText field value {text} {found} h e =
    (text, ok-inj found (str text) (sym e ∙ text_at-index field value h))

found_or-eq-ok :
    (field : Text) (found : Option Json) (default : Json) {value : Json}
    → found_or field found ≡ ok value
    → elim found [ none ↦ default | some v ↦ v ] ≡ value
found_or-eq-ok field (some v) default h = ok-inj v _ h
found_or-eq-ok field none default h = cc

-- A field that is there is no default.
get_or-index :
    (value : Json) (field : Text) (default : Json) {found : Json}
    → index value field ≡ ok found
    → get_or value field default ≡ ok found
unfolding get_or get index
get_or-index (obj fs) field default {found} h =
    ap ok (found_or-eq-ok field (Dict.lookup field (to_dict fs)) default h)
get_or-index null field default h = cc
get_or-index (bool b) field default h = cc
get_or-index (num n) field default h = cc
get_or-index (str s) field default h = cc
get_or-index (arr js) field default h = cc

module _ (py : Platform) (release : Json) (pattern : Regex) (repo : Text) where
  -- The digest of a selected asset, without the name of the algorithm, is a checksum.
  pub bare_digest-IsChecksum :
      (asset : Json) {sum : Json}
      → IsOfficial py release pattern repo asset
      → bare_digest asset ≡ ok sum
      → IsChecksum sum
  unfolding bare_digest as_text
  bare_digest-IsChecksum asset {sum} official h =
      let (digest, e, q) = >>=-eq-ok (text_at (codes "digest") asset) _ h in
      let known : official.digest ≡ str digest = ok-inj official.digest (str digest) (
        sym official.digest_eq
        ∙ get_or-index asset (codes "digest") (str []) (text_at-index (codes "digest") asset e)) in
      let text : official.digest_text ≡ digest =
        ok-inj official.digest_text digest (sym official.digest_text_eq ∙ ap as_text known) in
      subst IsChecksum (ok-inj _ sum q)
        (remove_prefix-IsChecksum digest (ap (fullmatch _) (sym text) ∙ official.is_sha256))

-- The two packages are official assets of the release.
abbrev pub AreOfficial : Platform → Json × Json × Json × Text → Type 0
AreOfficial py (release, app, i18n, version) =
    IsOfficial py release (apk_pattern app_prefix) passwall_repo app
    × IsOfficial py release (apk_pattern i18n_prefix) passwall_repo i18n

module _ (py : Platform) where
  passwall_packages-AreOfficial :
      (release app i18n : Json) (version : Text)
      → passwall_packages py release ≡ ok (app, i18n, version)
      → AreOfficial py (release, app, i18n, version)
  unfolding passwall_packages
  passwall_packages-AreOfficial release app i18n version h =
      let (app', e1, h1) =
        >>=-eq-ok (select_asset py release (apk_pattern app_prefix) passwall_repo) _ h in
      let (i18n', e2, h2) =
        >>=-eq-ok (select_asset py release (apk_pattern i18n_prefix) passwall_repo) _ h1 in
      let (app_name, _, h3) = >>=-eq-ok (text_at name_field app') _ h2 in
      let (i18n_name, _, h4) = >>=-eq-ok (text_at name_field i18n') _ h3 in
      let (_, h5) =
        require-then
          (strip_revision py (apk_version app_prefix app_name)
            == strip_revision py (apk_version i18n_prefix i18n_name))
          versions_disagree (ok (app', i18n', apk_version app_prefix app_name)) h4 in
      subst
        (λ (packages : Json × Json × Text).
          AreOfficial py (release, packages.0, packages.1, packages.2))
        (ok-inj (app', i18n', apk_version app_prefix app_name) (app, i18n, version) h5)
        (
          select_asset-IsOfficial py release (apk_pattern app_prefix) passwall_repo app' e1,
          select_asset-IsOfficial py release (apk_pattern i18n_prefix) passwall_repo i18n' e2,
        )

  pub resolve_passwall-AreOfficial :
      (headers : Headers) → Ensures (AreOfficial py) (resolve_passwall py headers)
  unfolding resolve_passwall
  resolve_passwall-AreOfficial headers =
      Ensures-bind (AreOfficial py) (json_request py passwall_api headers) _ λ listed _ _ _.
        Ensures-bind (AreOfficial py) (newest_stable_release py listed (passwall_pattern py)) _
          λ release _ _ _.
            Ensures-lift (AreOfficial py) (passwall_packages py release) _ λ packages e.
              Ensures-pure (AreOfficial py) _
                (passwall_packages-AreOfficial release packages.0 packages.1 packages.2 e)

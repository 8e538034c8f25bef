-- ===== src/Upstreams/Resolve.antt =====
-- `resolve` of scripts/upstreams.py: the state of the three upstreams and of this repository.
pub mod Packages
pub mod Shapes
pub mod Typed
use landscape_openwrt.Base.{
  ℕ, zero, suc, ◌+◌, Bool, true, false, not, ◌&&◌, ◌||◌, Option, none, some, List, [], ◌∷◌, ◌++◌,
  if◌then◌else◌, ltb, leb, eqb, length, Text, codes, ◌==◌, split_on, remove_prefix, remove_suffix,
  Headers, Result, ok, immortalwrt_too_old, versions_disagree, unexpected_version_format,
  uncommitted_source, require, each,
}
use landscape_openwrt.Base.{◌>>=◌ as bind}
use landscape_openwrt.Base.Dict
use landscape_openwrt.Base.Dict.{Dict}
use landscape_openwrt.Regex.{Regex, one_of, both, star, fullmatch, literal, plus}
use landscape_openwrt.Json.{Json, Fields, end, field, str, obj, of_dict, index, elements}
use landscape_openwrt.Platform.{Platform}
use landscape_openwrt.Io.{Io, pure, lift, ◌>>=◌, ◌>>◌}
use landscape_openwrt.Upstreams.Http.{request, json_request}
use landscape_openwrt.Upstreams.Digest.{verify_digest}
use landscape_openwrt.Upstreams.Version.{
  key_lt, int_of, latest_stable_tag, text_at, name_field, tag_pattern, passwall_pattern,
}
use landscape_openwrt.Upstreams.Release.{newest_stable_release, select_asset, tag_field}
use landscape_openwrt.Upstreams.Inputs.{Arch, arches, resolve_arch_inputs}
use landscape_openwrt.Upstreams.State.{inputs_digest, digest_key, arches_key}

abbrev pub tags_api : Text
tags_api = codes "https://api.github.com/repos/immortalwrt/immortalwrt/tags?per_page=100"

abbrev pub passwall_api : Text
passwall_api =
    codes "https://api.github.com/repos/Openwrt-Passwall/openwrt-passwall/releases?per_page=100"

abbrev pub landscape_api : Text
landscape_api = codes "https://api.github.com/repos/ThisSeanZhang/landscape/releases?per_page=100"

abbrev pub key_url : Text
key_url = codes "https://master.dl.sourceforge.net/project/openwrt-passwall-build/apk.pub"

abbrev pub key_sha256 : Text
key_sha256 = codes "52802b143489214e13b78f96599a147a638205cc22d9dd6d71229504e38ddc00"

abbrev pub passwall_repo : Text
passwall_repo = codes "Openwrt-Passwall/openwrt-passwall"

-- The decimal digits of a page number from 1 to 10.
abbrev page_text : ℕ → Text
page_text n = if ltb n 10 then (b'0' + n) ∷ [] else codes "10"

unfoldable pub is_ascii_digit : ℕ → Bool
is_ascii_digit c = leb b'0' c && leb c b'9'

abbrev is_ascii_letter : ℕ → Bool
is_ascii_letter c = (leb b'A' c && leb c b'Z') || (leb b'a' c && leb c b'z')

-- `<prefix>[0-9][0-9A-Za-z.+~-]*\.apk`
abbrev pub apk_pattern : Text → Regex
apk_pattern prefix = both (literal prefix) (
    both (one_of is_ascii_digit) (
      both
        (star (
          one_of λ c.
            is_ascii_digit c
            || is_ascii_letter c
            || eqb c b'.'
            || eqb c b'+'
            || eqb c b'~'
            || eqb c b'-'))
        (literal (codes ".apk"))))

abbrev pub app_prefix : Text
app_prefix = codes "25.12+_luci-app-passwall-"

abbrev pub i18n_prefix : Text
i18n_prefix = codes "25.12+_luci-i18n-passwall-zh-cn-"

-- `v[0-9]+\.[0-9]+\.[0-9]+`
abbrev pub ascii_tag_pattern : Regex
ascii_tag_pattern = both (literal (codes "v")) (
    both (plus (one_of is_ascii_digit)) (
      both (literal (codes ".")) (
        both (plus (one_of is_ascii_digit))
          (both (literal (codes ".")) (plus (one_of is_ascii_digit))))))

-- `name.removeprefix(prefix).removesuffix(".apk")`
unfoldable pub apk_version : Text → Text → Text
unfolding remove_prefix remove_suffix
apk_version prefix name = remove_suffix (codes ".apk") (remove_prefix prefix name)

-- `name[1:]`
abbrev pub drop_first : Text → Text
drop_first [] = []
drop_first (c ∷ s) = s

-- The `headers` of the GitHub API.
unfoldable pub api_headers : Option Text → Headers
api_headers (some (t ∷ ts)) =
    (codes "Accept", codes "application/vnd.github+json")
    ∷ (codes "Authorization", codes "Bearer " ++ (t ∷ ts))
    ∷ []
api_headers token = (codes "Accept", codes "application/vnd.github+json") ∷ []

-- `asset["digest"].removeprefix("sha256:")`
unfoldable pub bare_digest : Json → Result Json
bare_digest asset =
    bind (text_at (codes "digest") asset)
      λ digest. ok (str (remove_prefix (codes "sha256:") digest))

-- `f"https://github.com/…/archive/refs/tags/{handler['tag_name']}.tar.gz"`
abbrev pub source_url : Text → Text
source_url tag =
    codes "https://github.com/ThisSeanZhang/landscape/archive/refs/tags/"
    ++ (tag ++ codes ".tar.gz")

module _ (py : Platform) where
  -- `-r\d+`
  abbrev pub revision_pattern : Regex
  revision_pattern =
      both (literal (codes "-r"))
        (plus (one_of λ c. elim (py.decimal c) [ some d ↦ true | none ↦ false ]))

  -- `re.sub(r"-r\d+$", "", text)`; the `$` also matches in front of a line feed at the end.
  unfoldable pub strip_revision : Text → Text
  unfolding fullmatch
  strip_revision [] = []
  strip_revision (c ∷ s) =
      let rest = strip_revision s in
      if fullmatch revision_pattern (c ∷ s)
      then []
      else if fullmatch (both revision_pattern (literal (10 ∷ []))) (c ∷ s)
      then 10 ∷ []
      else c ∷ rest

  -- The pages of tags, `left` of them at most, from page `page` on; a short page is the last.
  unfoldable pub tag_pages : Headers → ℕ → ℕ → Io (List Json)
  tag_pages headers zero page = pure []
  tag_pages headers (suc left) page = do
    batch ← json_request py (tags_api ++ (codes "&page=" ++ page_text page)) headers
    tags ← lift (elements batch)
    if ltb (length tags) 100
        then pure tags
        else (do more ← tag_pages headers left (page + 1); pure (tags ++ more))

  -- `tuple(map(int, version.split("."))) < (25, 12, 0)` is refused.
  unfoldable pub check_base : Text → Result (Unit {0})
  unfolding split_on int_of
  check_base version =
      bind (each (int_of py) (split_on (eqb b'.') version))
        λ numbers. require (not (key_lt numbers (25 ∷ 12 ∷ 0 ∷ []))) immortalwrt_too_old

  -- The two PassWall packages of a release, with the version of the first. `removeprefix("sha256:")`
  -- of the digests follows in `resolve`.
  unfoldable pub passwall_packages : Json → Result (Json × Json × Text)
  passwall_packages release =
      bind (select_asset py release (apk_pattern app_prefix) passwall_repo) λ app.
        bind (select_asset py release (apk_pattern i18n_prefix) passwall_repo) λ i18n.
          bind (text_at name_field app) λ app_name. bind (text_at name_field i18n) λ i18n_name.
            bind
              (require
                (strip_revision (apk_version app_prefix app_name)
                  == strip_revision (apk_version i18n_prefix i18n_name))
                versions_disagree)
              λ _. ok (app, i18n, apk_version app_prefix app_name)

  -- The output of `git log`, which must not be empty.
  unfoldable pub source_revision : Result Text
  source_revision =
      bind py.git_log
        λ revision. bind (require (not (revision == [])) uncommitted_source) λ _. ok revision

  -- The loop over `ARCHES`.
  unfoldable pub resolve_arches : Text → Json → Text → List Arch → Io Fields
  resolve_arches version release tag [] = pure end
  resolve_arches version release tag (arch ∷ more) = do
    inputs ← resolve_arch_inputs py version release arch
    rest ← resolve_arches version release tag more
    pure (
        field arch.arch_name
          (obj (of_dict (Dict.insert (codes "handler_source_url") (str (source_url tag)) inputs)))
          rest)

  -- The releases: PassWall with its packages, and landscape with its tag.
  unfoldable pub resolve_passwall : Headers → Io (Json × Json × Json × Text)
  resolve_passwall headers = do
    listed ← json_request py passwall_api headers
    release ← newest_stable_release py listed (passwall_pattern py)
    (app, i18n, version) ← lift (passwall_packages release)
    pure (release, app, i18n, version)

  unfoldable pub resolve_landscape : Headers → Io (Json × Text)
  resolve_landscape headers = do
    listed ← json_request py landscape_api headers
    release ← newest_stable_release py listed (tag_pattern py)
    tag ← lift (text_at tag_field release)
    lift (require (fullmatch ascii_tag_pattern tag) unexpected_version_format)
    pure (release, tag)

  -- The newest ImmortalWrt tag, of the first ten pages.
  unfoldable pub resolve_base : Headers → Io (Json × Text)
  resolve_base headers = do
    tags ← tag_pages headers 10 1
    base ← lift (latest_stable_tag py tags)
    name ← lift (text_at name_field base)
    lift (check_base (drop_first name))
    pure (base, drop_first name)

  -- The signing key is checked against the pinned digest.
  unfoldable pub check_key : Io Unit
  check_key = do
    (key_data, _) ← request py key_url []
    lift (verify_digest py key_data (str (codes "sha256:" ++ key_sha256)))

  -- The fields of the state up to `resolved_at`.
  unfoldable pub state_fields :
      Json × Text → Json × Json × Json × Text → Text → Text → Result (Dict Json)
  state_fields (base, version) (pw, app, i18n, pw_version) tag revision =
      bind (index base (codes "commit")) λ commit. bind (index commit (codes "sha")) λ sha.
        bind (index pw tag_field) λ pw_tag.
          bind (index app (codes "browser_download_url")) λ app_url.
            bind (bare_digest app) λ app_sha.
              bind (index i18n (codes "browser_download_url")) λ i18n_url.
                bind (bare_digest i18n) λ i18n_sha. ok (
                  (codes "immortalwrt_version", str version)
                  ∷ (codes "immortalwrt_commit", sha)
                  ∷ (codes "dependency_key_url", str key_url)
                  ∷ (codes "dependency_key_sha256", str key_sha256)
                  ∷ (codes "passwall_release", pw_tag)
                  ∷ (codes "passwall_version", str pw_version)
                  ∷ (codes "passwall_url", app_url)
                  ∷ (codes "passwall_sha256", app_sha)
                  ∷ (codes "passwall_i18n_url", i18n_url)
                  ∷ (codes "passwall_i18n_sha256", i18n_sha)
                  ∷ (codes "handler_version", str tag)
                  ∷ (codes "source_revision", str revision)
                  ∷ (codes "resolved_at", str py.now)
                  ∷ [])

  -- The state with its `arches` and, last, its `inputs_digest`.
  unfoldable pub seal_state : Dict Json → Fields → Result Json
  unfolding Dict.insert
  seal_state fields nested =
      let state = Dict.insert arches_key (obj nested) fields in
      bind (inputs_digest py (obj (of_dict state)))
        λ digest. ok (obj (of_dict (Dict.insert digest_key (str digest) state)))

  unfoldable pub resolve : Io Json
  resolve = do
    let headers = api_headers (py.environ (codes "GH_TOKEN"))
    base ← resolve_base headers
    packages ← resolve_passwall headers
    landscape ← resolve_landscape headers
    check_key
    revision ← lift source_revision
    fields ← lift (state_fields base packages landscape.1 revision)
    nested ← resolve_arches base.1 landscape.0 landscape.1 arches
    lift (seal_state fields nested)

-- ===== src/Upstreams/Release.antt =====
-- `newest_stable_release` and `select_asset` of scripts/upstreams.py.
pub mod Asset
pub mod Newest
use landscape_openwrt.Base.{
  Bool, not, ◌&&◌, none, some, List, [], ◌∷◌, ◌++◌, if◌then◌else◌, Text, codes, ◌==◌, Result, ok,
  raise, value_error, no_stable_release, not_one_asset, asset_digest_required, unexpected_asset_url,
  require, each, keep, ◌>>=◌, ◌>>◌,
}
use landscape_openwrt.Regex.{Regex, fullmatch}
use landscape_openwrt.Json.{Json, null, str, get, index, elements, as_text, flag}
use landscape_openwrt.Platform.{Platform}
use landscape_openwrt.Io.{Io, pure, lift, emit, noticed}
use landscape_openwrt.Io as Io
use landscape_openwrt.Upstreams.Digest.{sha256_pattern, or_empty}
use landscape_openwrt.Upstreams.Version.{Key, key_lt, version_key, text_at, newest_by, name_field}

abbrev pub tag_field : Text
tag_field = codes "tag_name"

-- `value.get(key, default)`
unfoldable pub get_or : Json → Text → Json → Result Json
unfolding get
get_or j key default = do found ← get j key; ok (elim found [ none ↦ default | some v ↦ v ])

-- `re.fullmatch(pattern, release.get("tag_name") or "")`
unfoldable pub has_tag : Regex → Json → Result Bool
unfolding get_or or_empty as_text
has_tag pattern release = do
  found ← get_or release tag_field null
  tag ← as_text (or_empty found)
  ok (fullmatch pattern tag)

-- `not release.get("draft") and not release.get("prerelease")`
unfoldable pub is_published : Json → Result Bool
unfolding flag
is_published release = do
  draft ← flag release (codes "draft")
  prerelease ← flag release (codes "prerelease")
  ok (not draft && not prerelease)

-- `s < t` on texts, by code points.
unfoldable pub text_lt : Text → Text → Bool
unfolding key_lt
text_lt = key_lt

unfoldable pub insert_sorted : Text → List Text → List Text
unfolding text_lt
insert_sorted s [] = s ∷ []
insert_sorted s (t ∷ ts) =
    let rest = insert_sorted s ts in if text_lt t s then t ∷ rest else s ∷ t ∷ ts

-- `sorted(texts)`
unfoldable pub sorted : List Text → List Text
unfolding insert_sorted
sorted [] = []
sorted (t ∷ ts) = insert_sorted t (sorted ts)

-- The notice about what was passed over, if anything was.
unfoldable pub notice_skipped : Json → List Text → Io Unit
notice_skipped newest [] = pure tt
notice_skipped newest (t ∷ ts) =
    Io.◌>>=◌ (lift (text_at tag_field newest)) (λ tag. emit (noticed (t ∷ ts) tag))

-- `re.fullmatch(pattern, asset["name"])`
unfoldable pub has_name : Regex → Json → Result Bool
has_name pattern asset = do name ← text_at name_field asset; ok (fullmatch pattern name)

-- `f"https://github.com/{repo}/releases/download/{tag}/{name}"`
abbrev pub download_url : Text → Text → Text → Text
download_url repo tag name =
    codes "https://github.com/"
    ++ (repo ++ (codes "/releases/download/" ++ (tag ++ (codes "/" ++ name))))

module _ (py : Platform) where
  -- `version_key(release["tag_name"]) > version_key(newest["tag_name"])`
  unfoldable pub is_newer : Key → Json → Result Bool
  unfolding text_at version_key key_lt
  is_newer best release = do
    tag ← text_at tag_field release
    k ← version_key py tag
    ok (key_lt best k)

  unfoldable pub newest_of : List Json → Result (Key × Json)
  newest_of [] = raise (value_error no_stable_release)
  newest_of (first ∷ rest) = newest_by py tag_field first rest

  -- The newest stable release, and the tags of the newer ones that are passed over.
  unfoldable pub pick_release : Regex → List Json → Result (Json × List Text)
  pick_release pattern releases = do
    matched ← keep (has_tag pattern) releases
    stable ← keep is_published matched
    newest ← newest_of stable
    newer ← keep (is_newer newest.0) matched
    skipped ← each (text_at tag_field) newer
    ok (newest.1, sorted skipped)

  unfoldable pub newest_stable_release : Json → Regex → Io Json
  newest_stable_release releases pattern =
      Io.◌>>=◌ (lift (do items ← elements releases; pick_release pattern items))
        (λ picked. Io.◌>>◌ (notice_skipped picked.0 picked.1) (pure picked.0))

  unfoldable pub only_asset : Json → Text → List Json → Result Json
  only_asset release repo (asset ∷ []) = do
    digest ← get_or asset (codes "digest") (str [])
    digest_text ← as_text digest
    require (fullmatch sha256_pattern digest_text) asset_digest_required
    tag ← text_at tag_field release
    name ← text_at name_field asset
    url ← text_at (codes "browser_download_url") asset
    require (py.unquote url == download_url repo tag name) unexpected_asset_url
    ok asset
  only_asset release repo _ = raise (value_error not_one_asset)

  unfoldable pub select_asset : Json → Regex → Text → Result Json
  select_asset release pattern repo = do
    listed ← index release (codes "assets")
    items ← elements listed
    assets ← keep (has_name pattern) items
    only_asset release repo assets

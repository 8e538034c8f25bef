-- ===== src/Examples/Releases.antt =====
-- The choice of a release and of an asset, on the toy platform.
use landscape_openwrt.Base.{
  ◌≡◌, refl, true, List, [], ◌∷◌, codes, ok, each, keep, lstrip, split_on, ◌==◌,
}
use landscape_openwrt.Base.Dict
use landscape_openwrt.Regex.{fullmatch, literal, times}
use landscape_openwrt.Json.{
  Json, bool, str, arr, obj, cons, nil, end, field, index, get, elements, to_list, to_dict, as_text,
  truthy, flag,
}
use landscape_openwrt.Upstreams.Digest.{digest_of, or_empty}
use landscape_openwrt.Upstreams.Version.{
  text_at, tag_pattern, version_key, int_of, digits_from, newest_by, with_key, max_from, key_lt,
}
use landscape_openwrt.Upstreams.Release.{
  get_or, has_name, has_tag, is_published, is_newer, newest_of, pick_release, download_url,
  only_asset, select_asset, sorted, insert_sorted,
}
use landscape_openwrt.Upstreams.Release.Asset.{IsOfficial, select_asset-IsOfficial}
use landscape_openwrt.Upstreams.Release.Newest.{IsNewestStable, pick_release-IsNewestStable}
use landscape_openwrt.Examples.Toy.{toy}

abbrev asset : Json
asset = obj (
    field (codes "name") (str (codes "a.apk")) (
      field (codes "digest") (str (digest_of toy [])) (
        field (codes "browser_download_url")
          (str (download_url (codes "o/r") (codes "v1.0.0") (codes "a.apk"))) end)))

abbrev other_asset : Json
other_asset = obj (field (codes "name") (str (codes "b.apk")) end)

abbrev release : Json
release = obj (
    field (codes "tag_name") (str (codes "v1.0.0"))
      (field (codes "assets") (arr (cons other_asset (cons asset nil))) end))

asset_selected : select_asset toy release (literal (codes "a.apk")) (codes "o/r") ≡ ok asset
unfolding select_asset only_asset has_name keep text_at get_or index get elements to_list to_dict
    as_text fullmatch literal times digest_of Dict.lookup ◌==◌
asset_selected = refl

select_asset-IsOfficial_example :
    IsOfficial toy release (literal (codes "a.apk")) (codes "o/r") asset
select_asset-IsOfficial_example =
    select_asset-IsOfficial toy release (literal (codes "a.apk")) (codes "o/r") asset asset_selected

abbrev testing : Json
testing =
    obj (
      field (codes "tag_name") (str (codes "v1.10.0")) (field (codes "prerelease") (bool true) end))

abbrev older : Json
older = obj (field (codes "tag_name") (str (codes "v0.9.0")) end)

abbrev releases : List Json
releases = older ∷ testing ∷ release ∷ []

release_picked : pick_release toy (tag_pattern toy) releases ≡ ok (release, codes "v1.10.0" ∷ [])
unfolding pick_release has_tag or_empty is_published flag truthy newest_of newest_by with_key
    max_from key_lt is_newer version_key int_of digits_from lstrip split_on sorted insert_sorted
    each keep text_at get_or index get to_dict as_text fullmatch literal Dict.lookup ◌==◌
release_picked = refl

pick_release-IsNewestStable_example : IsNewestStable toy (tag_pattern toy) releases release
pick_release-IsNewestStable_example =
    pick_release-IsNewestStable toy (tag_pattern toy) releases release (codes "v1.10.0" ∷ [])
      release_picked

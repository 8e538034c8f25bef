-- ===== src/Examples/Resolved.antt =====
-- A run of `resolve` against releases, tags and files that are as they should be.
use landscape_openwrt.Base.{
  All, zero, suc, ◌≡◌, refl, [], ◌∷◌, ◌++◌, some, Bytes, Text, codes, Result, ok, raise,
}
use landscape_openwrt.Base.Dict
use landscape_openwrt.Json.{Json, null, str, obj, arr, cons, nil, end, field}
use landscape_openwrt.Platform.{Platform, IsLawful, response}
use landscape_openwrt.Io.{World, start}
use landscape_openwrt.Upstreams.Release.{download_url}
use landscape_openwrt.Upstreams.Inputs.{
  landscape_repo, handler_name, amd64_arch, arm64_arch, arches,
}
use landscape_openwrt.Upstreams.Resolve.{passwall_repo, key_sha256, resolve}
use landscape_openwrt.Upstreams.Inputs.Handler.{IsHandler, select_handler-IsHandler}
use landscape_openwrt.Upstreams.Resolve.Shapes.{IsState}
use landscape_openwrt.Upstreams.Resolve.Typed.{resolve-IsState}
use landscape_openwrt.Upstreams.Resolve.{
  resolve_base, tag_pages, check_base, resolve_passwall, passwall_packages, strip_revision,
  apk_version, resolve_landscape, check_key, source_revision, state_fields, bare_digest,
  resolve_arches, seal_state, api_headers, is_ascii_digit,
}
use landscape_openwrt.Upstreams.Http.{
  json_request, request, attempt_from, open_url, handle_answer, is_retry_status,
}
use landscape_openwrt.Json.{elements, to_list, index, as_text, to_dict, get, truthy, flag, of_dict}
use landscape_openwrt.Upstreams.Version.{
  latest_stable_tag, is_stable_tag, text_at, newest_by, with_key, version_key, int_of, digits_from,
  max_from, key_lt, latest_of,
}
use landscape_openwrt.Base.{
  keep, ◌==◌, lstrip, split_on, each, remove_prefix, remove_suffix, split_words, words_from,
  is_space, splitlines, lines_from, is_line_end, join, after_prefix,
}
use landscape_openwrt.Regex.{fullmatch, literal, nullable, derivative, times}
use landscape_openwrt.Upstreams.Release.{
  newest_stable_release, pick_release, has_tag, get_or, is_published, newest_of, is_newer, sorted,
  insert_sorted, notice_skipped, select_asset, has_name, only_asset, text_lt,
}
use landscape_openwrt.Upstreams.Digest.{or_empty, verify_digest, digest_of}
use landscape_openwrt.Upstreams.Inputs.{
  resolve_arch_inputs, select_handler, is_named, handler_of, feed_url, short_version,
}
use landscape_openwrt.Upstreams.Checksum.{rootfs_checksum, only_checksum, matches_in, checksum_of}
use landscape_openwrt.Upstreams.Registry.{is_text}
use landscape_openwrt.Upstreams.State.{inputs_digest, select_keys}
use landscape_openwrt.Upstreams.Main.Outputs.{HasOutputs, HasInstall, state-outputs}
use landscape_openwrt.Examples.Toy.{toy, toy-IsLawful}

abbrev asset : Text → Text → Text → Json
asset repo tag name = obj (
    field (codes "name") (str name) (
      field (codes "digest") (str (codes "sha256:" ++ key_sha256))
        (field (codes "browser_download_url") (str (download_url repo tag name)) end)))

abbrev release : Text → Json → Json → Json
release tag first second = arr (
    cons
      (obj (
        field (codes "tag_name") (str tag)
          (field (codes "assets") (arr (cons first (cons second nil))) end)))
      nil)

abbrev tags : Json
tags = arr (
    cons
      (obj (
        field (codes "name") (str (codes "v25.12.0"))
          (field (codes "commit") (obj (field (codes "sha") (str (codes "0a1b")) end)) end)))
      nil)

abbrev passwall : Json
passwall =
    release (codes "25.1.1-1")
      (asset passwall_repo (codes "25.1.1-1") (codes "25.12+_luci-app-passwall-1.apk"))
      (asset passwall_repo (codes "25.1.1-1") (codes "25.12+_luci-i18n-passwall-zh-cn-1.apk"))

abbrev landscape : Json
landscape =
    release (codes "v0.1.0") (asset landscape_repo (codes "v0.1.0") (handler_name amd64_arch))
      (asset landscape_repo (codes "v0.1.0") (handler_name arm64_arch))

-- The release itself.
abbrev landscape_release : Json
landscape_release = obj (
    field (codes "tag_name") (str (codes "v0.1.0")) (
      field (codes "assets")
        (arr (
          cons (asset landscape_repo (codes "v0.1.0") (handler_name amd64_arch))
            (cons (asset landscape_repo (codes "v0.1.0") (handler_name arm64_arch)) nil)))
        end))

abbrev arm64_url : Text
arm64_url = download_url landscape_repo (codes "v0.1.0") (handler_name arm64_arch)

selected :
    select_handler landscape_release arm64_arch ≡ ok (arm64_url, codes "sha256:" ++ key_sha256)
unfolding select_handler elements to_list keep is_named index to_dict Dict.lookup ◌==◌ is_text
    handler_of get_or get as_text fullmatch literal times text_at
selected = refl

select_handler-IsHandler_example :
    IsHandler landscape_release arm64_arch arm64_url (codes "sha256:" ++ key_sha256)
select_handler-IsHandler_example =
    select_handler-IsHandler landscape_release arm64_arch arm64_url (codes "sha256:" ++ key_sha256)
      selected

abbrev documents : Bytes → Json
documents (zero ∷ bs) = tags
documents (suc zero ∷ bs) = passwall
documents bs = landscape

abbrev sums : Text
sums =
    key_sha256
    ++ (codes "  immortalwrt-25.12.0-x86-64-rootfs.tar.gz\n"
        ++ (key_sha256 ++ codes "  immortalwrt-25.12.0-armsr-armv8-rootfs.tar.gz\n"))

abbrev pub github : Platform
github = record toy {
  loads = λ b. some (documents b);
  decode = λ b. some sums;
  hexdigest = λ b. key_sha256;
  urlopen = λ n url hs. response (n ∷ []) [];
}

github-IsLawful : IsLawful github
github-IsLawful = record {
  digest_length = λ b. refl;
  digest_hex = λ b. refl;
  ascii_decimal = toy-IsLawful.ascii_decimal;
  random_lt = toy-IsLawful.random_lt;
}

abbrev state_of : Result Json → Json
state_of (ok state) = state
state_of (raise e) = null

abbrev end_of_run : Result Json × World
end_of_run = resolve github start

resolved : end_of_run ≡ (ok (state_of end_of_run.0), end_of_run.1)
unfolding resolve resolve_base tag_pages json_request request attempt_from open_url handle_answer
    is_retry_status elements to_list latest_stable_tag keep is_stable_tag text_at index as_text
    to_dict Dict.lookup ◌==◌ fullmatch literal nullable derivative times newest_by with_key
    version_key int_of digits_from lstrip split_on each max_from key_lt latest_of check_base
    resolve_passwall newest_stable_release pick_release has_tag get_or get or_empty truthy
    is_published flag newest_of is_newer sorted insert_sorted notice_skipped passwall_packages
    select_asset has_name only_asset strip_revision apk_version remove_prefix remove_suffix
    resolve_landscape check_key verify_digest digest_of source_revision state_fields bare_digest
    resolve_arches resolve_arch_inputs rootfs_checksum only_checksum matches_in checksum_of
    split_words words_from is_space splitlines lines_from is_line_end select_handler is_named
    is_text handler_of Dict.insert of_dict seal_state inputs_digest select_keys api_headers feed_url
    short_version join is_ascii_digit after_prefix text_lt
resolved = refl

resolve-IsState_example : IsState github (state_of end_of_run.0)
resolve-IsState_example =
    resolve-IsState github github-IsLawful (state_of end_of_run.0) start end_of_run.1 resolved

state-outputs_example :
    HasOutputs (state_of end_of_run.0) × All (HasInstall (state_of end_of_run.0)) arches
state-outputs_example = state-outputs github (state_of end_of_run.0) resolve-IsState_example
